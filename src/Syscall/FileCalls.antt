-- ===== src/Syscall/FileCalls.antt =====
-- The system calls on files and paths in src/syscall.c, in the current task `curr`.
use nycu_osc.Prelude.{ℕ, zero, suc, ◌+◌, ◌%◌, ◌^◌, ◌||◌, Option, none, some, ◌==◌, if◌then◌else◌}
use nycu_osc.Prelude.Int.{ℤ, pos, negsuc, is_neg, ◌==ℤ◌}
use nycu_osc.Prelude.Store.{update}
use nycu_osc.CString.{Text}
use nycu_osc.Fs.{Ops}
use nycu_osc.Fs.Long.{to_long}
use nycu_osc.Vfs.{vfs_lookup}
use nycu_osc.Vfs.System.{System, Driver, view}
use nycu_osc.Vfs.Files.{op_of, vfs_close, vfs_lseek64}
use nycu_osc.Vfs.Open.{vfs_open, vfs_mkdir}
use nycu_osc.Vfs.Mount.{vfs_mount}
use nycu_osc.Syscall.{
  thread_max_fd, Calls, Heap, return, fd_of, path_of, buffer_at, with_buffer?, buffer?,
}

-- the loop of `sys_open`: the first of the `n` descriptors from `i` on that is not in use
unfoldable pub free_fd : ℕ → ℕ → (ℕ → Option ℕ) → Option ℕ
free_fd zero i table = none
free_fd (suc n) i table =
    let rest = free_fd n (i + 1) table in elim (table i) [ none ↦ some i | some f ↦ rest ]

-- a descriptor of a task
abbrev pub set_fd : {D : Type 0} → ℕ → ℕ → Option ℕ → Calls D → Calls D
set_fd curr fd f s = record s { fd_table = update s.fd_table curr (update (s.fd_table curr) fd f) }

-- `-ret`
abbrev pub negate : ℤ → ℤ
negate (pos zero) = pos 0
negate (pos (suc n)) = negsuc n
negate (negsuc n) = pos (n + 1)

-- the descriptor and the result, by what `vfs_open` gives
unfoldable pub store_fd :
    {D : Type 0} → ℕ → ℕ → Option (ℤ × Option ℕ × System D) → Calls D → Option (Calls D)
store_fd curr fd none s = none
store_fd curr fd (some (ret, target, sys)) s = some (
    return (if ret ==ℤ pos 0 then pos fd else negate ret)
      (set_fd curr fd target (record s { sys = sys })))

-- `vfs_open` into the descriptor `fd`; `none` where it leaves C
unfoldable pub open_fd : {D : Type 0} → Heap → Driver D → Text → ℕ → ℕ → Calls D → Option (Calls D)
unfolding store_fd
open_fd h d path curr fd s =
    store_fd curr fd (vfs_open h.copied h.handle d (some path) (s.x 1 % 2 ^ 32) s.sys) s

-- `sys_open`
unfoldable pub sys_open : {D : Type 0} → Heap → Driver D → ℕ → Calls D → Option (Calls D)
unfolding free_fd open_fd
sys_open h d curr s = elim (path_of (s.x 0) s) [
  | none ↦ some (return (negsuc 0) s)
  | some path ↦ elim (free_fd thread_max_fd 0 (s.fd_table curr)) [
    | none ↦ some s
    | some fd ↦ open_fd h d path curr fd s
  ]
]

-- `sys_close`
unfoldable pub sys_close : {D : Type 0} → Driver D → ℕ → Calls D → Calls D
sys_close d curr s = elim (fd_of (s.x 0)) [
  | none ↦ return (negsuc 0) s
  | some fd ↦
      let (ret, sys) = vfs_close d (s.fd_table curr fd) s.sys in
      return ret (set_fd curr fd none (record s { sys = sys }))
]

-- the operation that a file supports, `none` where the file is not open
abbrev pub file_op : {D A : Type 0} → ℕ → (Ops → Option A) → System D → Option A
file_op f ops s = elim (s.fs.files f).vnode [
  | none ↦ none
  | some v ↦ op_of (s.fs.files f).f_ops ops
]

-- the write to the file `f`
unfoldable pub write_file : {D : Type 0} → Driver D → ℕ → Calls D → Option (Calls D)
write_file d f s = elim (file_op f d.write s.sys) [
  | none ↦ some (return (negsuc 0) s)
  | some write ↦ elim (write f (buffer_at (s.x 1) s.mem) (s.x 2 % 2 ^ 32) s.sys) [
    | none ↦ none
    | some (ret, sys) ↦ some (return ret (record s { sys = sys }))
  ]
]

-- `sys_write`; `none` where the descriptor is NULL, which the code reads through
unfoldable pub sys_write : {D : Type 0} → Driver D → ℕ → Calls D → Option (Calls D)
unfolding write_file
sys_write d curr s = elim (fd_of (s.x 0)) [
  | none ↦ some (return (negsuc 0) s)
  | some fd ↦
      if s.x 1 == 0 || s.x 2 % 2 ^ 32 == 0
      then some (return (negsuc 0) s)
      else elim (s.fd_table curr fd) [ none ↦ none | some f ↦ write_file d f s ]
]

-- the read from the file `f`
unfoldable pub read_file : {D : Type 0} → Driver D → ℕ → Calls D → Option (Calls D)
read_file d f s = elim (file_op f d.read s.sys) [
  | none ↦ some (return (negsuc 0) s)
  | some read ↦ elim (read f (buffer? (s.x 1) s.mem) (s.x 2) s.sys) [
    | none ↦ none
    | some (ret, m, sys) ↦
        some (return ret (record s { sys = sys; mem = with_buffer? (s.x 1) m s.mem }))
  ]
]

-- `sys_read`, with the same reading through a NULL descriptor
unfoldable pub sys_read : {D : Type 0} → Driver D → ℕ → Calls D → Option (Calls D)
unfolding read_file
sys_read d curr s = elim (fd_of (s.x 0)) [
  | none ↦ some (return (negsuc 0) s)
  | some fd ↦ elim (s.fd_table curr fd) [ none ↦ none | some f ↦ read_file d f s ]
]

-- the code of `sys_mkdir`, `sys_mount` and `sys_chdir`: a negative one, or 0
abbrev pub code_of : ℤ → ℤ
code_of ret = if is_neg ret then ret else pos 0

unfoldable pub sys_mkdir : {D : Type 0} → Heap → Driver D → Calls D → Calls D
sys_mkdir h d s = elim (path_of (s.x 0) s) [
  | none ↦ return (negsuc 0) s
  | some path ↦
      let (ret, sys) = vfs_mkdir h.copied d (some path) s.sys in
      return (code_of ret) (record s { sys = sys })
]

-- `sys_mount`; `none` where `vfs_mount` leaves C
unfoldable pub sys_mount : {D : Type 0} → Heap → Driver D → Calls D → Option (Calls D)
sys_mount h d s = elim (path_of (s.x 1) s) [
  | none ↦ some (return (negsuc 0) s)
  | some target ↦ elim (path_of (s.x 2) s) [
    | none ↦ some (return (negsuc 0) s)
    | some name ↦ elim (vfs_mount (h.copied 0) h.new_mount d (some target) (some name) s.sys) [
      | none ↦ none
      | some (ret, sys) ↦ some (return (code_of ret) (record s { sys = sys }))
    ]
  ]
]

-- `sys_chdir`: `vfs_lookup` writes to the working directory itself, and clears it before it reads it
unfoldable pub sys_chdir : {D : Type 0} → Heap → Driver D → Calls D → Calls D
sys_chdir h d s = elim (path_of (s.x 0) s) [
  | none ↦ return (negsuc 0) s
  | some path ↦
      let cleared = record s.sys { cwd = none } in
      let (ret, target) = vfs_lookup (h.copied 0) (some path) (view d cleared) in
      return (code_of ret) (record s { sys = record cleared { cwd = target } })
]

-- `sys_lseek64`, which drops the result
unfoldable pub sys_lseek64 : {D : Type 0} → Driver D → ℕ → Calls D → Calls D
sys_lseek64 d curr s = elim (fd_of (s.x 0)) [
  | none ↦ return (negsuc 0) s
  | some fd ↦
      let (new_pos, sys) =
        vfs_lseek64 d (s.fd_table curr fd) (to_long (s.x 1)) (s.x 2 % 2 ^ 32) s.sys in
      record s { sys = sys }
]
