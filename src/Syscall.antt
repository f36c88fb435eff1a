-- ===== src/Syscall.antt =====
-- The system calls of src/syscall.c on tasks, signals and the serial line, with the state that all
-- system calls share. Those on files and the dispatch are in the modules below.
pub mod FileCalls
pub mod Files
pub mod Entry
pub mod Other
pub mod Fork
pub mod Exec
use nycu_osc.Prelude.{
  ℕ, zero, suc, ◌+◌, ◌-◌, ◌*◌, ◌/◌, ◌%◌, ◌^◌, Bool, true, false, ◌||◌, Option, none, some, List, [],
  ◌∷◌, ◌++◌, ◌==◌, ltb, leb, if◌then◌else◌,
}
use Prim.Native.Nat.{bit_or}
use nycu_osc.Prelude.Int.{ℤ, pos, negsuc, is_neg, ◌==ℤ◌}
use nycu_osc.Prelude.Store.{update}
use nycu_osc.CString.{Text}
use nycu_osc.CString.Memory.{Mem}
use nycu_osc.Fs.{Ops}
use nycu_osc.Fs.Long.{to_int, to_long, of_long}
use nycu_osc.Vfs.{is_empty, vfs_lookup}
use nycu_osc.Vfs.System.{System, Driver, view}
use nycu_osc.Vfs.Files.{op_of, vfs_close, vfs_lseek64}
use nycu_osc.Vfs.Open.{vfs_open, vfs_mkdir}
use nycu_osc.Vfs.Mount.{vfs_mount}
use nycu_osc.Uart.{putn}
use nycu_osc.Uart.Input.{getn}
use nycu_osc.Sched.{Sched, get_thread_task_by_id, kill, exit}

abbrev pub thread_max_fd : ℕ
thread_max_fd = 16

abbrev pub sig_num : ℕ
sig_num = 32

-- What the calls read and write: the registers of the trap frame, the files, the queues, by task the
-- table of descriptors, the handlers and the pending signals, the memory of the program with the
-- texts that its pointers name, the bytes the line will deliver and those it was sent. The working
-- directory in `sys` is that of the current task.
pub record Calls (D : Type 0) : Type 0 where
  pub x : ℕ → ℕ
  pub sys : System D
  pub sched : Sched
  pub fd_table : ℕ → ℕ → Option ℕ
  pub sig_handlers : ℕ → ℕ → ℕ
  pub pending_sig : ℕ → ℕ
  pub mem : Mem
  pub text : ℕ → Text
  pub line : List ℕ
  pub sent : List ℕ

-- what the calls of `alloc` in a file system call return, and a bound on the length of the queues
pub record Heap : Type 0 where
  pub copied : ℕ → Bool
  pub handle : Option ℕ
  pub new_mount : Option ℕ
  pub rounds : ℕ

-- `trapframe->x[0] = v`, for the bits of a `long`
abbrev pub return : {D : Type 0} → ℤ → Calls D → Calls D
return v s = record s { x = update s.x 0 (of_long v) }

-- a NULL pointer is the address 0
abbrev pub pointer : ℕ → Option ℕ
pointer p = if p == 0 then none else some p

-- the index if it is in `0 ≤ i < n`
abbrev pub index_below : ℕ → ℤ → Option ℕ
index_below n (pos i) = if ltb i n then some i else none
index_below n (negsuc i) = none

-- a descriptor that the checks `fd < 0 || fd >= THREAD_MAX_FD` let pass
abbrev pub fd_of : ℕ → Option ℕ
fd_of w = index_below thread_max_fd (to_int w)

-- a path, `none` where it is NULL or empty
abbrev pub path_of : {D : Type 0} → ℕ → Calls D → Option Text
path_of p s = if p == 0 || is_empty (s.text p) then none else some (s.text p)

unfoldable pub sys_getpid : {D : Type 0} → Calls D → Calls D
sys_getpid s = elim s.sched.current [ none ↦ s | some curr ↦ return (pos (s.sched.id curr)) s ]

-- the size of a transfer, at most 4096; `none` where it is not positive
abbrev pub size_of : ℤ → Option ℕ
size_of (pos n) = if n == 0 then none else if ltb 4096 n then some 4096 else some n
size_of (negsuc n) = none

-- the memory with a buffer's bytes at `p`
abbrev pub buffer_at : ℕ → Mem → Mem
buffer_at p mem = λ i. mem (p + i)

-- the memory whose bytes from `p` on are those of a buffer
abbrev pub with_buffer : ℕ → Mem → Mem → Mem
with_buffer p buf mem = λ a. if leb p a then buf (a - p) else mem a

-- the same for a pointer that may be NULL
abbrev pub buffer? : ℕ → Mem → Option Mem
buffer? p mem = if p == 0 then none else some (buffer_at p mem)

abbrev pub with_buffer? : ℕ → Option Mem → Mem → Mem
with_buffer? p none mem = mem
with_buffer? p (some buf) mem = with_buffer p buf mem

-- `sys_uart_read`; `none` where it waits for ever
unfoldable pub sys_uart_read : {D : Type 0} → Calls D → Option (Calls D)
sys_uart_read s = elim (size_of (to_int (s.x 1))) [
  | none ↦ some s
  | some size ↦ elim (pointer (s.x 0)) [
    | none ↦ some s
    | some buf ↦ elim (getn size s.line (buffer_at buf s.mem)) [
      | none ↦ none
      | some (m, left) ↦
          some (return (pos size) (record s { mem = with_buffer buf m s.mem; line = left }))
    ]
  ]
]

-- the `n` bytes from `p` on
abbrev pub bytes_at : ℕ → ℕ → Mem → List ℕ
bytes_at zero p mem = []
bytes_at (suc n) p mem = mem p ∷ bytes_at n (p + 1) mem

unfoldable pub sys_uart_write : {D : Type 0} → Calls D → Calls D
sys_uart_write s = elim (size_of (to_int (s.x 1))) [
  | none ↦ s
  | some size ↦ elim (pointer (s.x 0)) [
    | none ↦ s
    | some buf ↦
        let (sent, i) = putn size (bytes_at size buf s.mem) in
        return (pos i) (record s { sent = s.sent ++ sent })
  ]
]

-- `sys_exit`; `none` where the scheduler has no task to run
unfoldable pub sys_exit : {D : Type 0} → Heap → Calls D → Option (Calls D)
sys_exit h s = elim (exit h.rounds s.sched) [ none ↦ none | some r ↦ some (record s { sched = r }) ]

-- `sys_kill`, which leaves the registers
unfoldable pub sys_kill : {D : Type 0} → Heap → Calls D → Option (Calls D)
sys_kill h s = elim (kill h.rounds (s.x 0 % 2 ^ 32) s.sched).1 [
  | none ↦ none
  | some r ↦ some (record s { sched = r })
]

unfoldable pub sys_signal : {D : Type 0} → Calls D → Calls D
sys_signal s = elim s.sched.current [
  | none ↦ s
  | some curr ↦ elim (index_below sig_num (to_int (s.x 0))) [
    | none ↦ s
    | some sig ↦ record s {
      x = update s.x 0 (s.sig_handlers curr sig);
      sig_handlers = update s.sig_handlers curr (update (s.sig_handlers curr) sig (s.x 1));
    }
  ]
]

-- `sys_sigkill`; the pending signals are a mask of 32 bits
unfoldable pub sys_sigkill : {D : Type 0} → Heap → Calls D → Calls D
sys_sigkill h s = elim (get_thread_task_by_id h.rounds (s.x 0 % 2 ^ 32) s.sched) [
  | none ↦ s
  | some task ↦ elim (index_below sig_num (to_int (s.x 1))) [
    | none ↦ s
    | some sig ↦ record s {
      pending_sig = update s.pending_sig task (bit_or (s.pending_sig task) (2 ^ sig));
    }
  ]
]
