-- ===== src/Fs/Initramfs.antt =====
-- The read-only file system over the initial ram disk, src/fs_initramfs.c. Its nodes have the fields
-- of the tmpfs nodes.
use nycu_osc.Prelude.{◌^◌}
use nycu_osc.Prelude.{
  ℕ, zero, suc, ◌+◌, ◌%◌, Bool, true, false, Option, none, some, [], ◌∷◌, ◌++◌, ◌==◌, leb,
  if◌then◌else◌,
}
use nycu_osc.Prelude.Int.{ℤ, pos, is_neg}
use nycu_osc.CString.{Text}
use nycu_osc.CString.Memory.{Mem, copy}
use nycu_osc.Cpio.{After, trailer, equal, is_header, filename, filesize, file_addr, next_header}
use nycu_osc.Fs.{
  tmpfs_node_file, tmpfs_node_directory, initramfs_ops, Node, Vnode, Fs, set_node, set_vnode,
  set_file, enomem_vfs, einval_vfs, eacces_vfs,
}
use nycu_osc.Fs.Long.{u64_mod, to_int, to_long}
use nycu_osc.Fs.Tmpfs.{is_directory, find_child, found, internal_of}
use nycu_osc.Fs.TmpfsFile.{readable, new_pos}

-- the vnode of a node, with a parent
abbrev pub initramfs_vnode : ℕ → Option ℕ → Bool → Vnode
initramfs_vnode i parent parent_is_mount = record {
  mount = none;
  v_ops = initramfs_ops;
  f_ops = initramfs_ops;
  internal = some i;
  parent = parent;
  parent_is_mount = parent_is_mount;
}

-- `initramfs_setup_mount` with what its two calls of `alloc` return: the code, `mount->root` and the
-- state. It sets no field of the root's node, and not the parent of the root.
unfoldable pub initramfs_setup_mount : Option ℕ → Option ℕ → Fs → ℤ × Option ℕ × Fs
initramfs_setup_mount none root s = (enomem_vfs, none, s)
initramfs_setup_mount (some i) none s = (enomem_vfs, none, s)
initramfs_setup_mount (some i) (some r) s =
    (pos 0, some r, set_vnode r (initramfs_vnode i (s.vnodes r).parent true) s)

-- the node of a file: its bytes are a copy of those in the archive
abbrev pub file_node : Mem → ℕ → Node
file_node mem header = record {
  name = filename mem header;
  node_type = tmpfs_node_file;
  parent = none;
  contents = some (λ i. mem (file_addr mem header + i));
  size = filesize mem header;
  capacity = filesize mem header;
  children = [];
}

-- one file of the archive joins the children of the root's node `top`
unfoldable pub add_file : Mem → ℕ → ℕ → ℕ → ℕ → ℕ → Fs → Fs
add_file mem header i v root top s =
    let s₁ =
      set_vnode v (initramfs_vnode i (some root) false) (set_node i (file_node mem header) s) in
    set_node top (record (s₁.nodes top) { children = (s₁.nodes top).children ++ (v ∷ []) }) s₁

-- the loop of `initramfs_init`, in a number of rounds; the k-th file takes its node and its vnode from
-- the addresses `fresh k`. It is `none` where the rounds run out.
unfoldable pub init_loop : ℕ → After → Mem → ℕ → (ℕ → ℕ × ℕ) → ℕ → ℕ → ℕ → Fs → Option Fs
unfolding add_file
init_loop zero after mem header fresh k root top s = none
init_loop (suc f) after mem header fresh k root top s =
    let (i, v) = fresh k in
    let rest =
      init_loop f after mem (next_header mem header) fresh (k + 1) root top
        (add_file mem header i v root top s) in
    if is_header after mem header
    then if equal (filename mem header) trailer then some s else rest
    else some s

-- `initramfs_init` on the vnode `root` whose node is `top`
unfoldable pub initramfs_init : ℕ → After → Mem → ℕ → (ℕ → ℕ × ℕ) → ℕ → ℕ → Fs → Option Fs
unfolding init_loop
initramfs_init f after mem cpio_addr fresh root top s =
    init_loop f after mem cpio_addr fresh 0 root top
      (set_node top (record (s.nodes top) { node_type = tmpfs_node_directory }) s)

-- `initramfs_lookup`
unfoldable pub initramfs_lookup : Option ℕ → Option Text → Fs → ℤ × Option ℕ
unfolding find_child
initramfs_lookup dir_node none s = (einval_vfs, none)
initramfs_lookup dir_node (some component_name) s = elim (internal_of s dir_node) [
  | none ↦ (einval_vfs, none)
  | some i ↦
      if is_directory (s.nodes i).node_type
      then found (find_child s component_name (s.nodes i).children)
      else (eacces_vfs, none)
]

unfoldable pub initramfs_create : Option ℕ → Option Text → ℤ
initramfs_create dir_node component_name = eacces_vfs

unfoldable pub initramfs_mkdir : Option ℕ → Option Text → ℤ
initramfs_mkdir dir_node component_name = eacces_vfs

-- `initramfs_open` into the handle that `*target` points to
unfoldable pub initramfs_open : Option ℕ → Option ℕ → Fs → ℤ × Fs
initramfs_open none target s = (einval_vfs, s)
initramfs_open (some v) none s = (einval_vfs, s)
initramfs_open (some v) (some f) s = (
  pos 0,
  set_file f (record (s.files f) { f_pos = 0; vnode = some v; f_ops = some (s.vnodes v).f_ops }) s,
)

unfoldable pub initramfs_close : Option ℕ → Fs → ℤ × Fs
initramfs_close none s = (einval_vfs, s)
initramfs_close (some f) s =
    (pos 0, set_file f (record { vnode = none; f_pos = 0; f_ops = none; flags = 0 }) s)

unfoldable pub initramfs_write : Option ℕ → Option Mem → ℕ → ℤ
initramfs_write file buf len = eacces_vfs

-- the node behind an open file
abbrev pub node_behind : Fs → Option ℕ → Option ℕ
node_behind s none = none
node_behind s (some f) = internal_of s (s.files f).vnode

-- the part of `initramfs_read` behind its checks, of the file `f` with node `i`
unfoldable pub initramfs_read_node : Mem → ℕ → ℕ → ℕ → Fs → Option (ℤ × Option Mem × Fs)
initramfs_read_node buf len f i s =
    let node = s.nodes i in
    let f_pos = (s.files f).f_pos in
    if is_directory node.node_type
    then some (eacces_vfs, some buf, s)
    else if leb node.size f_pos
    then some (pos 0, some buf, s)
    else elim node.contents [
      | none ↦ none
      | some data_bytes ↦
          let n = readable f_pos len node.size in
          some (
            to_int n,
            some (copy 0 buf f_pos data_bytes (n % 2 ^ 32)),
            set_file f (record (s.files f) { f_pos = (f_pos + n) % u64_mod }) s,
          )
    ]

-- `initramfs_read`
unfoldable pub initramfs_read : Option ℕ → Option Mem → ℕ → Fs → Option (ℤ × Option Mem × Fs)
unfolding initramfs_read_node
initramfs_read none buf len s = some (einval_vfs, buf, s)
initramfs_read (some f) buf len s = elim (node_behind s (some f)) [
  | none ↦ some (einval_vfs, buf, s)
  | some i ↦ elim buf [
    | none ↦ some (einval_vfs, none, s)
    | some b ↦ if len == 0 then some (pos 0, some b, s) else initramfs_read_node b len f i s
  ]
]

-- `initramfs_lseek64`
unfoldable pub initramfs_lseek64 : Option ℕ → ℤ → ℕ → Fs → ℤ × Fs
initramfs_lseek64 none offset whence s = (einval_vfs, s)
initramfs_lseek64 (some f) offset whence s = elim (node_behind s (some f)) [
  | none ↦ (einval_vfs, s)
  | some i ↦
      if is_directory (s.nodes i).node_type
      then (einval_vfs, s)
      else elim (new_pos (s.files f).f_pos (s.nodes i).size offset whence) [
        | none ↦ (einval_vfs, s)
        | some p ↦
            if is_neg (to_long p)
            then (einval_vfs, s)
            else (to_long p, set_file f (record (s.files f) { f_pos = p }) s)
      ]
]
