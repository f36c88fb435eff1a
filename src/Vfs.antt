-- ===== src/Vfs.antt =====
-- Path lookup in the virtual file system, `get_next_component` and `vfs_lookup` of src/fs_vfs.c.
pub mod Components
pub mod Lookup
pub mod System
pub mod Open
pub mod Mount
pub mod Files
pub mod Kernel
pub mod ReadBack
pub mod Boot
pub mod Paths
pub mod Mounted
use nycu_osc.Prelude.{
  ℕ, zero, suc, ◌+◌, ◌-◌, Bool, true, false, ◌&&◌, ◌||◌, not, Option, none, some, List, [], ◌∷◌,
  ◌==◌, if◌then◌else◌, length,
}
use nycu_osc.Prelude.Int.{ℤ, pos, negsuc, ◌==ℤ◌}
use nycu_osc.CString.{Text, strcmp, strlen}
use nycu_osc.Fs.{Fs, Vnode, enomem_vfs, einval_vfs}

-- Function not implemented, -5
abbrev pub enosys_vfs : ℤ
enosys_vfs = negsuc 4

-- Internal error in file system, -8
abbrev pub einterr_vfs : ℤ
einterr_vfs = negsuc 7

-- while (*component == '/')
unfoldable pub skip_slashes : Text → Text
skip_slashes [] = []
skip_slashes (c ∷ cs) = if c == b'/' then skip_slashes cs else c ∷ cs

-- the scan to the end of the component, and what is behind the slash that ends it
unfoldable pub scan_component : Text → Text × Text
scan_component [] = ([], [])
scan_component (c ∷ cs) =
    if c == 0
    then ([], c ∷ cs)
    else if c == b'/'
    then ([], cs)
    else (c ∷ (scan_component cs).0, (scan_component cs).1)

-- whether a text is at its end
abbrev pub is_empty : Text → Bool
is_empty [] = true
is_empty (c ∷ cs) = c == 0

-- `get_next_component`: the component and the new `*path_ptr`; `none` for `NULL`
unfoldable pub get_next_component : Text → Option (Text × Text)
unfolding skip_slashes scan_component
get_next_component path =
    if is_empty (skip_slashes path) then none else some (scan_component (skip_slashes path))

-- the mounts: `rootfs->root`, and the root of the file system behind each `struct mount`; `lookup`
-- calls the operation of a vnode, `none` where it has none
pub record Vfs : Type 0 where
  pub root : ℕ
  pub mount_root : ℕ → ℕ
  pub vnode : ℕ → Vnode
  pub cwd : Option ℕ
  pub lookup : ℕ → Text → Option (ℤ × Option ℕ)

-- the vnode, or the root of the file system that is mounted on it
unfoldable pub enter_mount : Vfs → ℕ → ℕ
enter_mount s v = elim (s.vnode v).mount [ none ↦ v | some m ↦ s.mount_root m ]

-- whether `v` is the root of a file system that is mounted on `p`
abbrev pub is_mounted_on : Vfs → ℕ → ℕ → Bool
is_mounted_on s v p = elim (s.vnode p).mount [ none ↦ false | some m ↦ s.mount_root m == v ]

-- a component `..`, `none` for the internal error
unfoldable pub go_up : Vfs → ℕ → Option ℕ
go_up s v = if v == s.root then some v else elim (s.vnode v).parent [
  | none ↦ none
  | some p ↦
      if is_mounted_on s v p
      then if p == s.root then some s.root else (s.vnode p).parent
      else some p
]

-- where the walk stands: the current vnode and `*target`, or the code of the error with `*target`
pub data Walk : Type 0 where
  standing : ℕ → Option ℕ → Walk
  failed : ℤ → Option ℕ → Walk

-- The lookup of a name below `current_vnode`. A lookup that returns 0 is to give a vnode; without one,
-- where the source reads through NULL, this is a failure.
unfoldable pub lookup_name : Vfs → Text → ℕ → Option ℕ → Walk
unfolding enter_mount
lookup_name s component_name v target = elim (s.lookup (enter_mount s v) component_name) [
  | none ↦ failed enosys_vfs target
  | some r ↦
      if r.0 ==ℤ pos 0
      then elim r.1 [ none ↦ failed r.0 target | some next ↦ standing (enter_mount s next) target ]
      else failed r.0 target
]

-- one round of the loop
unfoldable pub step : Vfs → Text → ℕ → Option ℕ → Walk
unfolding go_up lookup_name
step s component_name v target =
    if strcmp component_name (b'.' ∷ []) ==ℤ pos 0
    then standing v target
    else if strcmp component_name (b'.' ∷ b'.' ∷ []) ==ℤ pos 0
    then if v == s.root
      then standing v target
      else elim (go_up s v) [ none ↦ failed einterr_vfs target | some up ↦ standing up (some up) ]
    else lookup_name s component_name v target

-- the loop over the components, in a number of rounds
unfoldable pub walk : ℕ → Vfs → Text → Walk → Walk
unfolding get_next_component step
walk zero s path w = w
walk (suc f) s path (failed code target) = failed code target
walk (suc f) s path (standing v target) = elim (get_next_component path) [
  | none ↦ standing v target
  | some r ↦ walk f s r.1 (step s r.0 v target)
]

-- the code and `*target` at the end
abbrev pub result : Walk → ℤ × Option ℕ
result (standing v target) = (pos 0, some v)
result (failed code target) = (code, target)

-- the first byte of a path is a slash
abbrev pub is_absolute : Text → Bool
is_absolute [] = false
is_absolute (c ∷ cs) = c == b'/'

-- the part of `vfs_lookup` behind the choice of the first vnode
unfoldable pub lookup_from : Vfs → Text → ℕ → ℤ × Option ℕ
unfolding walk
lookup_from s pathname v =
    if strcmp pathname (b'/' ∷ []) ==ℤ pos 0
    then (pos 0, some s.root)
    else if (strlen pathname == 0) || (strcmp pathname (b'.' ∷ []) ==ℤ pos 0)
    then (pos 0, some v)
    else result (walk (length pathname) s pathname (standing v none))

-- `vfs_lookup`: the code and `*target`; `copied` is whether `strdup` got memory
unfoldable pub vfs_lookup : Bool → Option Text → Vfs → ℤ × Option ℕ
unfolding lookup_from
vfs_lookup copied none s = (einval_vfs, none)
vfs_lookup false (some pathname) s = (enomem_vfs, none)
vfs_lookup true (some pathname) s =
    if is_absolute pathname
    then lookup_from s pathname s.root
    else elim s.cwd [ none ↦ (einterr_vfs, none) | some v ↦ lookup_from s pathname v ]
