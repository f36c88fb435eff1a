-- ===== src/Vfs/Mounted.antt =====
-- `vfs_mount` of src/fs_vfs.c: what path lookup meets behind it.
use nycu_osc.Prelude.{ℕ, ◌≡◌, refl, ap, ◌∙◌, true, false, none, some, ◌==◌, if◌then◌else◌, arith}
use nycu_osc.Prelude.Int.{ℤ, pos, ◌==ℤ◌}
use nycu_osc.CString.{Text}
use nycu_osc.Vfs.{Vfs, vfs_lookup, enter_mount, is_mounted_on}
use nycu_osc.Vfs.System.{FileSystem, System, Driver, view}
use nycu_osc.Vfs.Mount.{find_filesystem, vfs_mount, mount_on, mount_at, set_mount, set_parent}

-- the file system `f` has the name, and the target is the vnode `v`, a directory that nothing is
-- mounted on and that is not the root of a mount
pub record CanMount {D : Type 0} (d : Driver D) (target name : Text) (f : FileSystem) (v : ℕ)
    (s : System D) : Type 0 where
  pub mkdir : ℕ → Text → System D → ℤ × System D
  pub found : find_filesystem name s.filesystems ≡ some f
  pub looked : vfs_lookup true (some target) (view d s) ≡ (pos 0, some v)
  pub directory : d.mkdir (s.fs.vnodes v).v_ops ≡ some mkdir
  pub bare : (s.fs.vnodes v).mount ≡ none
  pub inner : (s.fs.vnodes v).parent_is_mount ≡ false

vfs_mount-mount_at :
    {D : Type 0} (d : Driver D) (target name : Text) (f : FileSystem) (v m : ℕ) (s : System D)
    → CanMount d target name f v s
    → vfs_mount true (some m) d (some target) (some name) s ≡ some (mount_at d f m v s)
unfolding vfs_mount mount_on
vfs_mount-mount_at d target name f v m s c =
    rw (c.found, vfs_mount, c.looked, c.directory, mount_on, c.bare, c.inner) refl

mount_at-setup :
    {D : Type 0} (d : Driver D) (f : FileSystem) (setup : ℕ → System D → ℤ × System D) (v m : ℕ)
    (s : System D)
    → d.setup_mount f.fs_kind ≡ some setup
    → let r = setup m (set_mount v (some m) s) in
      mount_at d f m v s ≡ (
        if r.0 ==ℤ pos 0
        then (pos 0, set_parent (r.1.mount_root m) v r.1)
        else (r.0, set_mount v none r.1))
unfolding mount_at
mount_at-setup d f setup v m s e = rw (e, mount_at) refl

enter_mount_at : (t : Vfs) (v m : ℕ) → (t.vnode v).mount ≡ some m → enter_mount t v ≡ t.mount_root m
unfolding enter_mount
enter_mount_at t v m e = rw (e, enter_mount) refl

is_mounted_at :
    (t : Vfs) (v m : ℕ) → (t.vnode v).mount ≡ some m → is_mounted_on t (t.mount_root m) v ≡ true
is_mounted_at t v m e =
    let self : (t.mount_root m == t.mount_root m) ≡ true = ground arith in
    ap (λ o. elim o [ none ↦ false | some k ↦ t.mount_root k == t.mount_root m ]) e ∙ self

-- Where `vfs_mount` may mount, and `setup_mount` fails: `vfs_mount` returns its code, and the target
-- has no mount.
pub vfs_mount_failed :
    {D : Type 0} (d : Driver D) (target name : Text) (f : FileSystem)
    (setup : ℕ → System D → ℤ × System D) (v m : ℕ) (s : System D)
    → CanMount d target name f v s
    → d.setup_mount f.fs_kind ≡ some setup
    → ((setup m (set_mount v (some m) s)).0 ==ℤ pos 0) ≡ false
    → (s' : System D) × (vfs_mount true (some m) d (some target) (some name) s
        ≡ some ((setup m (set_mount v (some m) s)).0, s'))
      × ((s'.fs.vnodes v).mount ≡ none)
vfs_mount_failed d target name f setup v m s c e fails =
    let r = setup m (set_mount v (some m) s) in
    let self : (v == v) ≡ true = ground arith in
    (
      set_mount v none r.1,
      vfs_mount-mount_at d target name f v m s c
          ∙ ap some (mount_at-setup d f setup v m s e ∙ rw fails refl),
      rw self refl,
    )

-- Where `vfs_mount` may mount, and `setup_mount` succeeds, leaves the mount of the target as it is
-- and makes a root that is another vnode: `vfs_mount` returns 0; path lookup goes from the target into
-- that root, whose parent is the target, and knows that it is mounted there.
pub vfs_mount_lem :
    {D : Type 0} (d : Driver D) (target name : Text) (f : FileSystem)
    (setup : ℕ → System D → ℤ × System D) (v m : ℕ) (s s₁ : System D)
    → CanMount d target name f v s
    → d.setup_mount f.fs_kind ≡ some setup
    → setup m (set_mount v (some m) s) ≡ (pos 0, s₁)
    → (s₁.fs.vnodes v).mount ≡ some m
    → (s₁.mount_root m == v) ≡ false
    → (s' : System D) × (vfs_mount true (some m) d (some target) (some name) s ≡ some (pos 0, s'))
      × (enter_mount (view d s') v ≡ s₁.mount_root m)
      × ((s'.fs.vnodes (s₁.mount_root m)).parent ≡ some v)
      × (is_mounted_on (view d s') (s₁.mount_root m) v ≡ true)
vfs_mount_lem d target name f setup v m s s₁ c e done kept other =
    let root = s₁.mount_root m in
    let self : (root == root) ≡ true = ground arith in
    let apart : (v == root) ≡ false = ground (arith, other) in
    let s' = set_parent root v s₁ in
    let kept' : (s'.fs.vnodes v).mount ≡ some m = rw apart kept in
    (
      s',
      vfs_mount-mount_at d target name f v m s c
          ∙ ap some (mount_at-setup d f setup v m s e ∙ rw done refl),
      enter_mount_at (view d s') v m kept',
      rw self refl,
      is_mounted_at (view d s') v m kept',
    )
