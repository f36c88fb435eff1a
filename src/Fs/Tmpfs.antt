-- ===== src/Fs/Tmpfs.antt =====
-- The in-memory file system, src/fs_tmpfs.c. The callers pass the address of a pointer for
-- `target`, so its null checks drop out; what they read from it is returned with the code.
pub mod Directory
use nycu_osc.Prelude.{
  ℕ, zero, suc, ◌+◌, ◌-◌, ◌*◌, ◌%◌, ◌^◌, Bool, true, false, ◌||◌, Option, none, some, List, [], ◌∷◌,
  ◌++◌, ◌==◌, ltb, leb, if◌then◌else◌,
}
use nycu_osc.Prelude.Int.{ℤ, pos, negsuc, is_neg, ◌==ℤ◌}
use nycu_osc.Prelude.Store.{update}
use nycu_osc.CString.{Text, cstr, strcmp, strlen}
use nycu_osc.CString.Memory.{Mem}
use nycu_osc.Fs.{
  NodeType, tmpfs_node_file, tmpfs_node_directory, Ops, tmpfs_ops, Node, Vnode, File, Fs, set_node,
  set_vnode, set_file, max_file_name, max_children, default_file_size, enoent_vfs, enomem_vfs,
  einval_vfs, eacces_vfs, eexist_vfs,
}
use nycu_osc.Fs.Long.{u64_mod, to_int, to_long, of_long}

-- the node without its data buffer
abbrev pub fresh_node : Text → NodeType → Option ℕ → Node
fresh_node name type parent = record {
  name = cstr name;
  node_type = type;
  parent = parent;
  contents = none;
  size = 0;
  capacity = 0;
  children = [];
}

-- `tmpfs_create_internal_node`: `at` and `buffer` are what the two calls of `alloc` return, the
-- buffer with what it holds; the node's address, `none` for `NULL`
unfoldable pub create_internal_node :
    Option ℕ → Option Mem → Text → NodeType → Option ℕ → Fs → Option ℕ × Fs
create_internal_node none buffer name type parent s = (none, s)
create_internal_node (some at) buffer name tmpfs_node_directory parent s =
    (some at, set_node at (fresh_node name tmpfs_node_directory parent) s)
create_internal_node (some at) none name tmpfs_node_file parent s =
    (none, set_node at (fresh_node name tmpfs_node_file parent) s)
create_internal_node (some at) (some buffer) name tmpfs_node_file parent s = (
  some at,
  set_node at
      (record (fresh_node name tmpfs_node_file parent) {
        contents = some buffer;
        capacity = default_file_size;
      })
      s,
)

-- the name of the node behind a child, `[]` where it has none
unfoldable pub child_name : Fs → ℕ → Text
child_name s child = elim (s.vnodes child).internal [ none ↦ [] | some i ↦ (s.nodes i).name ]

-- the loop over the children: the first one with the name
unfoldable pub find_child : Fs → Text → List ℕ → Option ℕ
unfolding child_name
find_child s component_name [] = none
find_child s component_name (child ∷ rest) =
    if strcmp (child_name s child) component_name ==ℤ pos 0
    then some child
    else find_child s component_name rest

-- the node that a vnode stands for, `none` where a pointer on the way is null
abbrev pub internal_of : Fs → Option ℕ → Option ℕ
internal_of s none = none
internal_of s (some v) = (s.vnodes v).internal

abbrev pub is_directory : NodeType → Bool
is_directory tmpfs_node_file = false
is_directory tmpfs_node_directory = true

-- the result of a search: the child with code 0, or `ENOENT_VFS`
abbrev pub found : Option ℕ → ℤ × Option ℕ
found none = (enoent_vfs, none)
found (some child) = (pos 0, some child)

-- `tmpfs_lookup`: the code and `*target`
unfoldable pub tmpfs_lookup : Option ℕ → Option Text → Fs → ℤ × Option ℕ
unfolding find_child
tmpfs_lookup dir_node none s = (einval_vfs, none)
tmpfs_lookup dir_node (some component_name) s = elim (internal_of s dir_node) [
  | none ↦ (einval_vfs, none)
  | some i ↦
      if is_directory (s.nodes i).node_type
      then found (find_child s component_name (s.nodes i).children)
      else (eacces_vfs, none)
]

-- what the calls of `alloc` in a creation return
pub record Allocs : Type 0 where
  pub node : Option ℕ
  pub buffer : Option Mem
  pub vnode : Option ℕ

-- the vnode of a new child of `dir`
abbrev pub fresh_vnode : Fs → ℕ → ℕ → Vnode
fresh_vnode s dir i = record {
  mount = (s.vnodes dir).mount;
  v_ops = tmpfs_ops;
  f_ops = tmpfs_ops;
  internal = some i;
  parent = some dir;
  parent_is_mount = false;
}

-- the vnode `v` joins the children of the directory's node `i`
abbrev pub add_child : ℕ → ℕ → Fs → Fs
add_child i v s = set_node i (record (s.nodes i) { children = (s.nodes i).children ++ (v ∷ []) }) s

-- the part of `tmpfs_create_or_mkdir` behind its checks, in the directory `dir` with node `i`
unfoldable pub create_child : Allocs → ℕ → ℕ → Text → NodeType → Fs → ℤ × Option ℕ × Fs
unfolding create_internal_node
create_child allocs dir i component_name type s =
    let (new, s₁) = create_internal_node allocs.node allocs.buffer component_name type (some i) s in
    elim new [
      | none ↦ (enomem_vfs, none, s₁)
      | some n ↦ elim allocs.vnode [
        | none ↦ (enomem_vfs, none, s₁)
        | some v ↦ (pos 0, some v, add_child i v (set_vnode v (fresh_vnode s₁ dir n) s₁))
      ]
    ]

abbrev pub count : List ℕ → ℕ
count [] = 0
count (x ∷ xs) = suc (count xs)

-- the checks of `tmpfs_create_or_mkdir` in the directory `dir` with node `i`
unfoldable pub create_checked : Allocs → ℕ → ℕ → Text → NodeType → Fs → ℤ × Option ℕ × Fs
unfolding find_child create_child
create_checked allocs dir i component_name type s =
    if is_directory (s.nodes i).node_type
    then if leb max_file_name (strlen component_name)
      then (einval_vfs, none, s)
      else elim (find_child s component_name (s.nodes i).children) [
        | some child ↦ (eexist_vfs, none, s)
        | none ↦
            if leb max_children (count (s.nodes i).children)
            then (enomem_vfs, none, s)
            else create_child allocs dir i component_name type s
      ]
    else (eacces_vfs, none, s)

-- `tmpfs_create_or_mkdir`: the code, `*target`, and the state
unfoldable pub create_or_mkdir : Allocs → Option ℕ → Option Text → NodeType → Fs → ℤ × Option ℕ × Fs
unfolding create_checked
create_or_mkdir allocs none component_name type s = (einval_vfs, none, s)
create_or_mkdir allocs (some dir) none type s = (einval_vfs, none, s)
create_or_mkdir allocs (some dir) (some component_name) type s = elim (s.vnodes dir).internal [
  | none ↦ (einval_vfs, none, s)
  | some i ↦
      if strlen component_name == 0
      then (einval_vfs, none, s)
      else create_checked allocs dir i component_name type s
]

-- what `tmpfs_create` writes to `*target`, with `new` the vnode that it returns: nothing where it fails
-- on its arguments, else the vnode or NULL
abbrev pub written_target : ℕ → Text → Option ℕ → Fs → Option (Option ℕ)
written_target dir component_name new s = elim (s.vnodes dir).internal [
  | none ↦ none
  | some i ↦ if strlen component_name == 0 then none else some new
]

unfoldable pub tmpfs_create : Allocs → Option ℕ → Option Text → Fs → ℤ × Option ℕ × Fs
unfolding create_or_mkdir
tmpfs_create allocs dir_node component_name s =
    create_or_mkdir allocs dir_node component_name tmpfs_node_file s

unfoldable pub tmpfs_mkdir : Allocs → Option ℕ → Option Text → Fs → ℤ × Option ℕ × Fs
unfolding create_or_mkdir
tmpfs_mkdir allocs dir_node component_name s =
    create_or_mkdir allocs dir_node component_name tmpfs_node_directory s

-- `tmpfs_setup_mount` with what its two calls of `alloc` return: the code, `mount->root` and the state.
-- It does not set the parent of the root.
unfoldable pub tmpfs_setup_mount : Option ℕ → Option ℕ → Fs → ℤ × Option ℕ × Fs
unfolding create_internal_node
tmpfs_setup_mount node root s =
    let (new, s₁) = create_internal_node node none (b'/' ∷ []) tmpfs_node_directory none s in
    elim new [
      | none ↦ (enomem_vfs, none, s₁)
      | some n ↦ elim root [
        | none ↦ (enomem_vfs, none, s₁)
        | some r ↦ (
          pos 0,
          some r,
          set_vnode r
              (record {
                mount = none;
                v_ops = tmpfs_ops;
                f_ops = tmpfs_ops;
                internal = some n;
                parent = (s₁.vnodes r).parent;
                parent_is_mount = true;
              })
              s₁,
        )
      ]
    ]
