-- ===== src/Syscall/Fork.antt =====
-- `sys_fork` and `sys_sigreturn` of src/syscall.c, and the frame that `handle_signal` of src/signal.c
-- saves, over a memory of bytes with the trap frames and the stacks. What `alloc` returns, the stack
-- pointer and the address of the label at the end of `sys_fork` are arguments.
pub mod Frames
pub mod Copies
pub mod Forked
use nycu_osc.Prelude.{
  ℕ, zero, suc, ◌+◌, ◌-◌, ◌*◌, ◌/◌, ◌%◌, ◌^◌, ◌&&◌, Bool, Option, none, some, List, ◌==◌, ltb, leb,
  if◌then◌else◌,
}
use nycu_osc.Prelude.Store.{update}
use nycu_osc.CString.Memory.{Mem, memcpy}
use nycu_osc.Sched.{Sched, task_ready, set_state, add_ready}
use nycu_osc.Sched.Create.{Thread, thread_stack_size}

abbrev pub u64_mod : ℕ
u64_mod = 2 ^ 64

-- `sizeof (struct TrapFrame)`, and the place of `sp_el0` in it
abbrev pub frame_size : ℕ
frame_size = 272

abbrev pub sp_el0_offset : ℕ
sp_el0_offset = 248

-- an `unsigned long` in the memory, lowest byte first
abbrev pub put_long : ℕ → ℕ → Mem → Mem
put_long p v m a = if leb p a && ltb a (p + 8) then v / 2 ^ (8 * (a - p)) % 256 else m a

abbrev pub get_long : ℕ → Mem → ℕ
get_long p m =
    m (p + 0)
    + m (p + 1) * 2 ^ 8
    + m (p + 2) * 2 ^ 16
    + m (p + 3) * 2 ^ 24
    + m (p + 4) * 2 ^ 32
    + m (p + 5) * 2 ^ 40
    + m (p + 6) * 2 ^ 48
    + m (p + 7) * 2 ^ 56

-- the address in one block that stands where `p` stands in another
abbrev pub moved : ℕ → ℕ → ℕ → ℕ
moved block p old = (block + (p + u64_mod - old)) % u64_mod

-- the tasks with the registers `x19` to `x28` of their contexts, the queues and the memory
pub record Forks : Type 0 where
  pub threads : ℕ → Thread
  pub saved : ℕ → ℕ → ℕ
  pub sched : Sched
  pub thread_cnt : ℕ
  pub mem : Mem

-- the three calls of `alloc`
pub record Blocks : Type 0 where
  pub task : Option ℕ
  pub kernel_stack : Option ℕ
  pub user_stack : Option ℕ

-- `trapframe->x[0] = v`
abbrev pub return_long : ℕ → ℕ → Forks → Forks
return_long frame v s = record s { mem = put_long frame v s.mem }

-- `trapframe->x[0] = -1`
abbrev pub fails : ℕ → Forks → Forks
fails frame s = return_long frame (u64_mod - 1) s

-- the child with its id and state
abbrev pub number_child : ℕ → Forks → Forks
number_child child s = record s {
  sched = set_state child task_ready (record s.sched { id = update s.sched.id child s.thread_cnt });
  thread_cnt = (s.thread_cnt + 1) % 2 ^ 32;
}

-- The fields of the child, of which `cwd`, the descriptors and `sig_frame` are what the memory held:
-- `context_sp` and `label` replace the copied `sp` and `lr`.
abbrev pub child_thread : Thread → Thread → ℕ → ℕ → ℕ → ℕ → Thread
child_thread old parent kernel_stack user_stack context_sp label = record old {
  counter = parent.counter;
  priority = parent.priority;
  preempt_count = parent.preempt_count;
  kernel_stack = kernel_stack;
  user_stack = user_stack;
  pending_sig = parent.pending_sig;
  sig_handlers = parent.sig_handlers;
  lr = label;
  sp = context_sp;
  fp = parent.fp;
}

-- the copies of the stacks and of the frame, with the child's `x0` and `sp_el0`
unfoldable pub copy_frames : Thread → ℕ → ℕ → ℕ → Mem → Mem
copy_frames parent kernel_stack user_stack frame m =
    let m₁ = memcpy user_stack parent.user_stack thread_stack_size m in
    let m₂ = memcpy kernel_stack parent.kernel_stack thread_stack_size m₁ in
    let child_frame = moved kernel_stack frame parent.kernel_stack in
    let m₃ = memcpy child_frame frame frame_size m₂ in
    let m₄ = put_long child_frame 0 m₃ in
    put_long (child_frame + sp_el0_offset)
      (moved user_stack (get_long (frame + sp_el0_offset) m₄) parent.user_stack) m₄

-- `sys_fork` behind its allocations; `f` bounds the walk to the end of the ready queue
unfoldable pub start_child : ℕ → ℕ → ℕ → ℕ → ℕ → ℕ → ℕ → ℕ → Forks → Forks
unfolding copy_frames
start_child f frame curr_sp label parent child kernel_stack user_stack s =
    let p = s.threads parent in
    let context_sp = moved kernel_stack curr_sp p.kernel_stack in
    return_long frame (s.sched.id child) (record s {
      threads =
          update s.threads child
            (child_thread (s.threads child) p kernel_stack user_stack context_sp label);
      saved = update s.saved child (s.saved parent);
      mem = copy_frames p kernel_stack user_stack frame s.mem;
      sched = add_ready f child s.sched;
    })

-- `sys_fork` with the trap frame at `frame`; without a current task nothing happens
unfoldable pub sys_fork : ℕ → Blocks → ℕ → ℕ → ℕ → Forks → Forks
unfolding start_child
sys_fork f a frame curr_sp label s = elim s.sched.current [
  | none ↦ s
  | some parent ↦ elim a.task [
    | none ↦ fails frame s
    | some child ↦ elim a.kernel_stack [
      | none ↦ fails frame (number_child child s)
      | some kernel_stack ↦ elim a.user_stack [
        | none ↦ fails frame (number_child child s)
        | some user_stack ↦
            start_child f frame curr_sp label parent child kernel_stack user_stack
              (number_child child s)
      ]
    ]
  ]
]

-- The copy in `handle_signal`: `field` is the address of the field `sig_frame`, in which the code
-- begins the copy.
unfoldable pub save_frame : ℕ → ℕ → Mem → Mem
save_frame field frame m = memcpy field frame frame_size m

-- `sys_sigreturn`: the block that it frees, for the `fp` of the task's context, and the memory
unfoldable pub sys_sigreturn : ℕ → ℕ → ℕ → Mem → ℕ × Mem
sys_sigreturn fp field frame m =
    ((fp + u64_mod - thread_stack_size) % u64_mod, memcpy frame field frame_size m)
