-- ===== src/Vfs/Boot.antt =====
-- `vfs_init` of src/fs_vfs.c, with `register_tmpfs` of src/fs_tmpfs.c and `register_initramfs` of
-- src/fs_initramfs.c: the mounts and the device nodes that the kernel starts with.
use nycu_osc.Prelude.{ℕ, Bool, Option, none, some, [], ◌∷◌}
use nycu_osc.Prelude.Int.{ℤ}
use nycu_osc.CString.{Text}
use nycu_osc.Fs.{tmpfs_ops, initramfs_ops, dev_uart_ops, dev_framebuffer_ops}
use nycu_osc.Vfs.{vfs_lookup}
use nycu_osc.Vfs.System.{System, Driver, view, put_vnode}
use nycu_osc.Vfs.Open.{vfs_mkdir, vfs_mknod}
use nycu_osc.Vfs.Mount.{register_filesystem, vfs_mount}

abbrev pub tmpfs_name : Text
tmpfs_name = b't' ∷ b'm' ∷ b'p' ∷ b'f' ∷ b's' ∷ []

abbrev pub initramfs_name : Text
initramfs_name = b'i' ∷ b'n' ∷ b'i' ∷ b't' ∷ b'r' ∷ b'a' ∷ b'm' ∷ b'f' ∷ b's' ∷ []

abbrev pub dev_name : Text
dev_name = b'/' ∷ b'd' ∷ b'e' ∷ b'v' ∷ []

abbrev pub uart_name : Text
uart_name = b'/' ∷ b'd' ∷ b'e' ∷ b'v' ∷ b'/' ∷ b'u' ∷ b'a' ∷ b'r' ∷ b't' ∷ []

abbrev pub framebuffer_name : Text
framebuffer_name =
    b'/' ∷ b'd' ∷ b'e' ∷ b'v' ∷ b'/' ∷ b'f' ∷ b'r' ∷ b'a' ∷ b'm' ∷ b'e' ∷ b'b' ∷ b'u' ∷ b'f' ∷ b'f'
    ∷ b'e' ∷ b'r' ∷ []

-- where `alloc` gives memory for the table
unfoldable pub register_tmpfs : {D : Type 0} → System D → ℤ × System D
unfolding register_filesystem
register_tmpfs s = register_filesystem (some (record { name = tmpfs_name; fs_kind = tmpfs_ops })) s

unfoldable pub register_initramfs : {D : Type 0} → System D → ℤ × System D
unfolding register_filesystem
register_initramfs s =
    register_filesystem (some (record { name = initramfs_name; fs_kind = initramfs_ops })) s

-- what the calls of `alloc` in `vfs_init` return: the two mounts, the handles of the two device files,
-- and whether the copies of paths get memory
pub record Supply : Type 0 where
  pub rootfs : Option ℕ
  pub mount : Option ℕ
  pub uart : Option ℕ
  pub framebuffer : Option ℕ
  pub copied : ℕ → Bool

-- the directory of the devices; `none` where a device node cannot be opened
unfoldable pub init_devices : {D : Type 0} → Supply → Driver D → System D → Option (System D)
unfolding vfs_mkdir vfs_mknod
init_devices a d s =
    let made = (vfs_mkdir a.copied d (some dev_name) s).1 in
    elim (vfs_mknod a.copied a.uart d (some uart_name) dev_uart_ops made) [
      | none ↦ none
      | some (code, s₁) ↦
          elim (vfs_mknod a.copied a.framebuffer d (some framebuffer_name) dev_framebuffer_ops s₁) [
            | none ↦ none
            | some (code', s₂) ↦ some s₂
          ]
    ]

-- the mount of the initramfs, whose files `init` copies below the vnode it gets
unfoldable pub init_initramfs :
    {D : Type 0}
    → Supply
    → Driver D
    → (ℕ → System D → Option (System D))
    → System D
    → Option (System D)
unfolding vfs_mkdir register_initramfs vfs_mount vfs_lookup
init_initramfs a d init s =
    let path : Text = b'/' ∷ initramfs_name in
    let made = (vfs_mkdir a.copied d (some path) s).1 in
    elim (vfs_mount (a.copied 0) a.mount d (some path) (some initramfs_name)
      (register_initramfs made).1) [
        | none ↦ none
        | some (code, s₁) ↦ elim (vfs_lookup (a.copied 0) (some path) (view d s₁)).1 [
          | none ↦ none
          | some v ↦ init v s₁
        ]
      ]

-- `rootfs->root` with no parent
abbrev pub set_root : {D : Type 0} → ℕ → System D → System D
set_root m s =
    let r = s.mount_root m in
    put_vnode r (record (s.fs.vnodes r) { parent = none }) (record s { root = r })

-- the mount of the root file system, `filesystems[0]`
unfoldable pub init_root : {D : Type 0} → Driver D → ℕ → System D → Option (System D)
init_root d m s = elim s.filesystems [
  | [] ↦ none
  | f ∷ rest ↦ elim (d.setup_mount f.fs_kind) [
    | none ↦ none
    | some setup ↦ some (set_root m (setup m s).1)
  ]
]

-- `vfs_init`; `none` where it goes through a null pointer
unfoldable pub vfs_init :
    {D : Type 0}
    → Supply
    → Driver D
    → (ℕ → System D → Option (System D))
    → System D
    → Option (System D)
unfolding register_tmpfs init_root init_initramfs init_devices
vfs_init a d init s =
    let s₁ = (register_tmpfs s).1 in
    elim a.rootfs [
      | none ↦ some s₁
      | some m ↦ elim (init_root d m s₁) [
        | none ↦ none
        | some s₂ ↦ elim (init_initramfs a d init s₂) [
          | none ↦ none
          | some s₃ ↦ init_devices a d s₃
        ]
      ]
    ]
