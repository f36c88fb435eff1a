-- ===== src/Syscall/Entry.antt =====
-- The dispatch of the system calls, `syscall_entry` of src/exception.c, on the number in `x8`.
use nycu_osc.Prelude.{ℕ, Option, some, ◌==◌, if◌then◌else◌}
use nycu_osc.Vfs.System.{Driver}
use nycu_osc.Syscall.{
  Calls, Heap, sys_getpid, sys_uart_read, sys_uart_write, sys_exit, sys_kill, sys_signal,
  sys_sigkill,
}
use nycu_osc.Syscall.FileCalls.{
  sys_open, sys_close, sys_write, sys_read, sys_mkdir, sys_mount, sys_chdir, sys_lseek64,
}

-- The calls that are an argument: `exec`, `fork`, `mbox_call`, `sigreturn` and `ioctl`.
pub record Others (D : Type 0) : Type 0 where
  pub on_exec : Calls D → Option (Calls D)
  pub on_fork : Calls D → Option (Calls D)
  pub on_mbox_call : Calls D → Option (Calls D)
  pub on_sigreturn : Calls D → Option (Calls D)
  pub on_ioctl : Calls D → Option (Calls D)

-- the numbers from 11 on
unfoldable pub file_entry :
    {D : Type 0} → Others D → Heap → Driver D → ℕ → ℕ → Calls D → Option (Calls D)
file_entry o h d curr n s =
    if n == 11
    then sys_open h d curr s
    else if n == 12
    then some (sys_close d curr s)
    else if n == 13
    then sys_write d curr s
    else if n == 14
    then sys_read d curr s
    else if n == 15
    then some (sys_mkdir h d s)
    else if n == 16
    then sys_mount h d s
    else if n == 17
    then some (sys_chdir h d s)
    else if n == 18
    then some (sys_lseek64 d curr s)
    else if n == 19
    then o.on_ioctl s
    else some s

-- `syscall_entry` in the current task `curr`
unfoldable pub syscall_entry :
    {D : Type 0} → Others D → Heap → Driver D → ℕ → Calls D → Option (Calls D)
unfolding file_entry
syscall_entry o h d curr s =
    let n = s.x 8 in
    if n == 0
    then some (sys_getpid s)
    else if n == 1
    then sys_uart_read s
    else if n == 2
    then some (sys_uart_write s)
    else if n == 3
    then o.on_exec s
    else if n == 4
    then o.on_fork s
    else if n == 5
    then sys_exit h s
    else if n == 6
    then o.on_mbox_call s
    else if n == 7
    then sys_kill h s
    else if n == 8
    then some (sys_signal s)
    else if n == 9
    then some (sys_sigkill h s)
    else if n == 10
    then o.on_sigreturn s
    else file_entry o h d curr n s
