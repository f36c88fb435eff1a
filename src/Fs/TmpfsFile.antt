-- ===== src/Fs/TmpfsFile.antt =====
-- The file handles of the in-memory file system, src/fs_tmpfs.c: open, close, write, read and
-- seek. A result of `none` stands for an access through a null `data`.
pub mod ReadWrite
pub mod ReadBack
use nycu_osc.Prelude.{
  ℕ, zero, suc, ◌+◌, ◌-◌, ◌*◌, ◌%◌, ◌^◌, Bool, true, false, Option, none, some, List, [], ◌∷◌, ◌==◌,
  ltb, leb, if◌then◌else◌,
}
use nycu_osc.Prelude.Int.{ℤ, pos, negsuc, is_neg}
use nycu_osc.Prelude.Store.{update}
use nycu_osc.CString.Memory.{Mem, copy}
use nycu_osc.Fs.{
  Node, File, Fs, set_node, set_file, default_file_size, enomem_vfs, einval_vfs, eacces_vfs,
}
use nycu_osc.Fs.Long.{u64_mod, to_int, to_long, of_long}
use nycu_osc.Fs.Tmpfs.{internal_of, is_directory}

-- `tmpfs_open`, with the file handle `*target`
unfoldable pub tmpfs_open : Option ℕ → Option ℕ → Fs → ℤ × Fs
tmpfs_open none target s = (einval_vfs, s)
tmpfs_open (some file_node) none s = (einval_vfs, s)
tmpfs_open (some file_node) (some f) s = (
  pos 0,
  set_file f
      (record (s.files f) {
        f_pos = 0;
        vnode = some file_node;
        f_ops = some (s.vnodes file_node).f_ops;
      })
      s,
)

-- `tmpfs_close`
unfoldable pub tmpfs_close : Option ℕ → Fs → ℤ × Fs
tmpfs_close none s = (einval_vfs, s)
tmpfs_close (some f) s =
    (pos 0, set_file f (record { vnode = none; f_pos = 0; f_ops = none; flags = 0 }) s)

-- the node behind a file handle, `none` where a pointer on the way is null
abbrev pub node_of : Fs → Option ℕ → Option ℕ
node_of s none = none
node_of s (some f) = internal_of s (s.files f).vnode

-- `while (new_capacity < required_capacity) new_capacity *= 2`, in `f` rounds at most
unfoldable pub grow : ℕ → ℕ → ℕ → ℕ
grow zero new_capacity required_capacity = new_capacity
grow (suc f) new_capacity required_capacity =
    let more = grow f (new_capacity * 2 % u64_mod) required_capacity in
    if ltb new_capacity required_capacity then more else new_capacity

-- the capacity that a write asks for; from 1 on, 64 doublings reach every `size_t`
unfoldable pub new_capacity_for : Node → ℕ → ℕ
unfolding grow
new_capacity_for node required_capacity =
    grow 64 (if ltb 0 node.capacity then node.capacity else default_file_size) required_capacity

-- the new buffer with the old contents; the length of `memcpy` is `unsigned int`
abbrev pub move_contents : Node → Mem → Mem
move_contents node new_data = elim node.contents [
  | none ↦ new_data
  | some old ↦ copy 0 new_data 0 old (node.size % 2 ^ 32)
]

-- the node with room for the bytes before `required_capacity`, `none` where `alloc`, which returns
-- `buffer` for the low 32 bits of the capacity, fails
unfoldable pub reserve : Option Mem → ℕ → Node → Option Node
unfolding new_capacity_for
reserve buffer required_capacity node =
    if ltb node.capacity required_capacity
    then (if ltb node.capacity (new_capacity_for node required_capacity)
        then elim buffer [
          | none ↦ none
          | some new_data ↦ some (record node {
            contents = some (move_contents node new_data);
            capacity = new_capacity_for node required_capacity;
          })
        ]
        else some node)
    else some node

-- the copy into the buffer, whose length is `unsigned int`, and the new position and size
unfoldable pub store : Mem → ℕ → ℕ → ℕ → Node → Fs → Option (ℤ × Fs)
store buf len f i node s = elim node.contents [
  | none ↦ none
  | some bytes ↦
      let f_pos = ((s.files f).f_pos + len) % u64_mod in
      let node' = record node {
        contents = some (copy (s.files f).f_pos bytes 0 buf (len % 2 ^ 32));
        size = if ltb node.size f_pos then f_pos else node.size;
      } in
      some (to_int len, set_file f (record (s.files f) { f_pos = f_pos }) (set_node i node' s))
]

-- the part of `tmpfs_write` behind its checks
unfoldable pub write_node : Option Mem → Mem → ℕ → ℕ → ℕ → Fs → Option (ℤ × Fs)
unfolding reserve store
write_node buffer buf len f i s =
    if is_directory (s.nodes i).node_type
    then some (eacces_vfs, s)
    else elim (reserve buffer (((s.files f).f_pos + len) % u64_mod) (s.nodes i)) [
      | none ↦ some (enomem_vfs, s)
      | some node ↦ store buf len f i node s
    ]

-- `tmpfs_write`: `buffer` is what `alloc` returns, with what that memory holds
unfoldable pub tmpfs_write : Option Mem → Option ℕ → Option Mem → ℕ → Fs → Option (ℤ × Fs)
unfolding write_node
tmpfs_write buffer none buf len s = some (einval_vfs, s)
tmpfs_write buffer (some f) none len s = some (einval_vfs, s)
tmpfs_write buffer (some f) (some buf) len s = elim (node_of s (some f)) [
  | none ↦ some (einval_vfs, s)
  | some i ↦ if len == 0 then some (pos 0, s) else write_node buffer buf len f i s
]

-- the number of bytes that a read returns, before the end of the file
abbrev pub readable : ℕ → ℕ → ℕ → ℕ
readable f_pos len size = if ltb size ((f_pos + len) % u64_mod) then size - f_pos else len

-- the part of `tmpfs_read` behind its checks: the code, the caller's buffer, the state
unfoldable pub read_node : Mem → ℕ → ℕ → ℕ → Fs → Option (ℤ × Mem × Fs)
read_node buf len f i s =
    let node = s.nodes i in
    let f_pos = (s.files f).f_pos in
    if is_directory node.node_type
    then some (eacces_vfs, buf, s)
    else if leb node.size f_pos
    then some (pos 0, buf, s)
    else elim node.contents [
      | none ↦ none
      | some bytes ↦
          let readable_len = readable f_pos len node.size in
          some (
            to_int readable_len,
            copy 0 buf f_pos bytes (readable_len % 2 ^ 32),
            set_file f (record (s.files f) { f_pos = (f_pos + readable_len) % u64_mod }) s,
          )
    ]

-- `tmpfs_read` into a buffer that is not null
unfoldable pub tmpfs_read : Option ℕ → Mem → ℕ → Fs → Option (ℤ × Mem × Fs)
unfolding read_node
tmpfs_read file buf len s = elim file [
  | none ↦ some (einval_vfs, buf, s)
  | some f ↦ elim (node_of s (some f)) [
    | none ↦ some (einval_vfs, buf, s)
    | some i ↦ if len == 0 then some (pos 0, buf, s) else read_node buf len f i s
  ]
]

-- the `switch` on `whence`: the bits of `new_pos`, `none` for any other value
abbrev pub new_pos : ℕ → ℕ → ℤ → ℕ → Option ℕ
new_pos f_pos size offset whence =
    if whence == 0
    then some (of_long offset)
    else if whence == 1
    then some ((f_pos + of_long offset) % u64_mod)
    else if whence == 2
    then some ((size + of_long offset) % u64_mod)
    else none

-- `tmpfs_lseek64`
unfoldable pub tmpfs_lseek64 : Option ℕ → ℤ → ℕ → Fs → ℤ × Fs
tmpfs_lseek64 none offset whence s = (einval_vfs, s)
tmpfs_lseek64 (some f) offset whence s = elim (node_of s (some f)) [
  | none ↦ (einval_vfs, s)
  | some i ↦
      if is_directory (s.nodes i).node_type
      then (einval_vfs, s)
      else elim (new_pos (s.files f).f_pos (s.nodes i).size offset whence) [
        | none ↦ (einval_vfs, s)
        | some p ↦
            if is_neg (to_long p)
            then (einval_vfs, s)
            else (to_long p, set_file f (record (s.files f) { f_pos = p }) s)
      ]
]
