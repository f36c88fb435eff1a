-- ===== src/Vfs/Files.antt =====
-- The file operations of src/fs_vfs.c on an open file: `vfs_close`, `vfs_write`, `vfs_read` and
-- `vfs_lseek64`.
use nycu_osc.Prelude.{ℕ, Option, none, some, ◌==◌, if◌then◌else◌}
use nycu_osc.Prelude.Int.{ℤ, pos}
use nycu_osc.CString.Memory.{Mem}
use nycu_osc.Fs.{Ops, einval_vfs}
use nycu_osc.Fs.Long.{to_int, of_long}
use nycu_osc.Vfs.{enosys_vfs}
use nycu_osc.Vfs.System.{System, Driver}

-- the operation of a file's table, `none` where the file has no table or the table no operation
abbrev pub op_of : {A : Type 0} → Option Ops → (Ops → Option A) → Option A
op_of none ops = none
op_of (some t) ops = ops t

unfoldable pub vfs_close : {D : Type 0} → Driver D → Option ℕ → System D → ℤ × System D
vfs_close d none s = (einval_vfs, s)
vfs_close d (some file) s = elim (op_of (s.fs.files file).f_ops d.close) [
  | none ↦ (enosys_vfs, s)
  | some close ↦ close file s
]

-- `none` where the operation leaves C
unfoldable pub vfs_write :
    {D : Type 0} → Driver D → Option ℕ → Option Mem → ℕ → System D → Option (ℤ × System D)
vfs_write d none buf len s = some (einval_vfs, s)
vfs_write d (some file) none len s = some (einval_vfs, s)
vfs_write d (some file) (some buf) len s =
    if len == 0 then some (pos 0, s) else elim (op_of (s.fs.files file).f_ops d.write) [
      | none ↦ some (enosys_vfs, s)
      | some write ↦ write file buf len s
    ]

-- with the buffer behind the call
unfoldable pub vfs_read :
    {D : Type 0}
    → Driver D
    → Option ℕ
    → Option Mem
    → ℕ
    → System D
    → Option (ℤ × Option Mem × System D)
vfs_read d none buf len s = some (einval_vfs, buf, s)
vfs_read d (some file) none len s = some (einval_vfs, none, s)
vfs_read d (some file) (some buf) len s =
    if len == 0 then some (pos 0, some buf, s) else elim (op_of (s.fs.files file).f_ops d.read) [
      | none ↦ some (enosys_vfs, some buf, s)
      | some read ↦ read file (some buf) len s
    ]

-- `vfs_lseek64`, an `int`: of the `long` that the operation returns, the low 32 bits
unfoldable pub vfs_lseek64 : {D : Type 0} → Driver D → Option ℕ → ℤ → ℕ → System D → ℤ × System D
vfs_lseek64 d none offset whence s = (einval_vfs, s)
vfs_lseek64 d (some file) offset whence s = elim (op_of (s.fs.files file).f_ops d.lseek64) [
  | none ↦ (enosys_vfs, s)
  | some lseek64 ↦ let (ret, s') = lseek64 file offset whence s in (to_int (of_long ret), s')
]
