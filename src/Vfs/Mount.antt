-- ===== src/Vfs/Mount.antt =====
-- The table of file systems and `vfs_mount` of src/fs_vfs.c.
use nycu_osc.Prelude.{
  ℕ, Bool, true, false, ◌||◌, Option, none, some, List, [], ◌∷◌, ◌++◌, ltb, if◌then◌else◌, length,
}
use nycu_osc.Prelude.Int.{ℤ, pos, negsuc, ◌==ℤ◌}
use nycu_osc.CString.{Text, strcmp}
use nycu_osc.Fs.{enomem_vfs, einval_vfs, eexist_vfs}
use nycu_osc.Vfs.{enosys_vfs, vfs_lookup}
use nycu_osc.Vfs.System.{FileSystem, System, Driver, view, put_vnode}

abbrev pub max_filesystems : ℕ
max_filesystems = 10

-- No such device, -9
abbrev pub enodev_vfs : ℤ
enodev_vfs = negsuc 8

-- Device or resource busy, -11
abbrev pub ebusy_vfs : ℤ
ebusy_vfs = negsuc 10

-- the loop over the table: the first file system with the name
unfoldable pub find_filesystem : Text → List FileSystem → Option FileSystem
find_filesystem name [] = none
find_filesystem name (f ∷ rest) =
    let later = find_filesystem name rest in if strcmp f.name name ==ℤ pos 0 then some f else later

-- `register_filesystem`; `none` is a NULL for the file system or for its name
unfoldable pub register_filesystem : {D : Type 0} → Option FileSystem → System D → ℤ × System D
unfolding find_filesystem
register_filesystem none s = (einval_vfs, s)
register_filesystem (some f) s =
    if ltb (length s.filesystems) max_filesystems
    then elim (find_filesystem f.name s.filesystems) [
      | some g ↦ (eexist_vfs, s)
      | none ↦ (pos 0, record s { filesystems = s.filesystems ++ (f ∷ []) })
    ]
    else (enomem_vfs, s)

-- the field `mount` of a vnode
abbrev pub set_mount : {D : Type 0} → ℕ → Option ℕ → System D → System D
set_mount v m s = put_vnode v (record (s.fs.vnodes v) { mount = m }) s

-- the parent of the new root
abbrev pub set_parent : {D : Type 0} → ℕ → ℕ → System D → System D
set_parent r v s = put_vnode r (record (s.fs.vnodes r) { parent = some v }) s

abbrev pub is_some : {A : Type 0} → Option A → Bool
is_some none = false
is_some (some a) = true

-- the end of `vfs_mount`, with the new `struct mount` at `m`, on the vnode `v`
unfoldable pub mount_at : {D : Type 0} → Driver D → FileSystem → ℕ → ℕ → System D → ℤ × System D
mount_at d f m v s = elim (d.setup_mount f.fs_kind) [
  | none ↦ (enosys_vfs, set_mount v (some m) s)
  | some setup ↦
      let (code, s₁) = setup m (set_mount v (some m) s) in
      if code ==ℤ pos 0
      then (pos 0, set_parent (s₁.mount_root m) v s₁)
      else (code, set_mount v none s₁)
]

-- the checks of `vfs_mount` on the vnode `v`
unfoldable pub mount_on :
    {D : Type 0} → Option ℕ → Driver D → FileSystem → ℕ → System D → ℤ × System D
unfolding mount_at
mount_on new_mount d f v s = elim (d.mkdir (s.fs.vnodes v).v_ops) [
  | none ↦ (enosys_vfs, s)
  | some mkdir ↦
      if is_some (s.fs.vnodes v).mount || (s.fs.vnodes v).parent_is_mount
      then (ebusy_vfs, s)
      else elim new_mount [ none ↦ (enomem_vfs, s) | some m ↦ mount_at d f m v s ]
]

-- `vfs_mount`; `none` where a lookup that returns 0 gives no vnode
unfoldable pub vfs_mount :
    {D : Type 0}
    → Bool
    → Option ℕ
    → Driver D
    → Option Text
    → Option Text
    → System D
    → Option (ℤ × System D)
unfolding find_filesystem mount_on
vfs_mount copied new_mount d none name s = some (einval_vfs, s)
vfs_mount copied new_mount d (some target) none s = some (einval_vfs, s)
vfs_mount copied new_mount d (some target) (some name) s =
    elim (find_filesystem name s.filesystems) [
      | none ↦ some (enodev_vfs, s)
      | some f ↦
          let (code, v) = vfs_lookup copied (some target) (view d s) in
          if code ==ℤ pos 0
          then elim v [ none ↦ none | some w ↦ some (mount_on new_mount d f w s) ]
          else some (code, s)
    ]
