-- ===== src/Syscall/Exec.antt =====
-- `_exec` of src/exec.c, up to the entry into the program, with the archive in a memory of bytes.
use nycu_osc.Prelude.{ℕ, ◌+◌, Option, none, some, ◌==◌, if◌then◌else◌}
use nycu_osc.CString.{Text}
use nycu_osc.CString.Memory.{Mem}
use nycu_osc.Cpio.{After, cpio_get_file_size, cpio_get_exec}
use nycu_osc.Vfs.System.{Driver}
use nycu_osc.Sched.Create.{Threads, Memory, thread_create, thread_stack_size}

-- How `_exec` goes on: it returns where there is no file or no memory, or enters the program: at an
-- address, with the stack pointers of the program and of the kernel.
pub data Exec (D : Type 0) : Type 0 where
  returned : Exec D
  entered : ℕ → ℕ → ℕ → Mem → Threads D → Exec D

-- the registers for the new task, which is the current one; it is in the ready queue too
unfoldable pub enter : {D : Type 0} → ℕ → Mem → Threads D → Exec D
enter task m s =
    let t = s.threads task in
    entered t.lr t.sp (t.kernel_stack + thread_stack_size) m
      (record s { sched = record s.sched { current = some task } })

-- behind `thread_create`, `none` where it failed, since its -1 is used as a pointer
unfoldable pub enter_created : {D : Type 0} → Mem → Option (Option ℕ × Threads D) → Option (Exec D)
unfolding enter
enter_created m none = none
enter_created m (some (none, s)) = none
enter_created m (some (some task, s)) = some (enter task m s)

-- `_exec`: `exec_addr` is what its call of `alloc` returns; the whole is `none` where a walk over the
-- archive runs out of its rounds `n`, or the code leaves C
unfoldable pub exec :
    {D : Type 0}
    → ℕ
    → ℕ
    → After
    → Memory
    → Driver D
    → Option ℕ
    → ℕ
    → Text
    → Mem
    → Threads D
    → Option (Exec D)
unfolding enter_created
exec n f after a d exec_addr cpio_addr name m s =
    elim (cpio_get_file_size n after m name cpio_addr) [
      | none ↦ none
      | some size ↦ if size == 0 then some returned else elim exec_addr [
        | none ↦ some returned
        | some address ↦ elim (cpio_get_exec n after m name (some address) cpio_addr) [
          | none ↦ none
          | some (found, m₁) ↦ enter_created m₁ (thread_create f a d address s)
        ]
      ]
    ]
