-- ===== src/Vfs/System.antt =====
-- The state of the virtual file system, src/fs_vfs.c and src/include/fs_vfs.h, and the operations
-- that the file systems and the devices give it.
use nycu_osc.Prelude.{ℕ, Option, none, some, List}
use nycu_osc.Prelude.Int.{ℤ}
use nycu_osc.CString.{Text}
use nycu_osc.CString.Memory.{Mem}
use nycu_osc.Fs.{Ops, Vnode, Fs, set_vnode}
use nycu_osc.Vfs.{Vfs}

-- `struct filesystem` by its name; its `setup_mount` is an operation of the driver
pub record FileSystem : Type 0 where
  pub name : Text
  pub fs_kind : Ops

-- the stores, `rootfs->root`, the root behind each `struct mount`, the working directory of the
-- current task, the table of file systems, and `dev` for what the devices keep
pub record System (D : Type 0) : Type 0 where
  pub fs : Fs
  pub root : ℕ
  pub mount_root : ℕ → ℕ
  pub cwd : Option ℕ
  pub filesystems : List FileSystem
  pub dev : D

-- A table of operations for each `Ops`. The outer option is `none` where the pointer to the operation
-- is NULL, the inner one where the operation leaves C; a vnode or a handle that comes back is `none`
-- where the operation does not write it, and in `create` `some none` where it writes NULL.
pub record Driver (D : Type 0) : Type 0 where
  pub lookup : Ops → Option (ℕ → Text → System D → ℤ × Option ℕ)
  pub create : Ops → Option (ℕ → Text → System D → ℤ × Option (Option ℕ) × System D)
  pub mkdir : Ops → Option (ℕ → Text → System D → ℤ × System D)
  pub f_open : Ops → ℕ → Option ℕ → System D → ℤ × Option ℕ × System D
  pub close : Ops → Option (ℕ → System D → ℤ × System D)
  pub write : Ops → Option (ℕ → Mem → ℕ → System D → Option (ℤ × System D))
  pub read : Ops → Option (ℕ → Option Mem → ℕ → System D → Option (ℤ × Option Mem × System D))
  pub lseek64 : Ops → Option (ℕ → ℤ → ℕ → System D → ℤ × System D)
  pub setup_mount : Ops → Option (ℕ → System D → ℤ × System D)

-- the lookup operation of a vnode
abbrev pub lookup_op : {D : Type 0} → Driver D → System D → ℕ → Text → Option (ℤ × Option ℕ)
lookup_op d s v name = elim (d.lookup (s.fs.vnodes v).v_ops) [
  | none ↦ none
  | some op ↦ some (op v name s)
]

-- what path lookup reads
abbrev pub view : {D : Type 0} → Driver D → System D → Vfs
view d s = record {
  root = s.root;
  mount_root = s.mount_root;
  vnode = s.fs.vnodes;
  cwd = s.cwd;
  lookup = lookup_op d s;
}

-- a vnode is replaced
abbrev pub put_vnode : {D : Type 0} → ℕ → Vnode → System D → System D
put_vnode v node s = record s { fs = set_vnode v node s.fs }
