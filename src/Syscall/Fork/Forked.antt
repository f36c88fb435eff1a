-- ===== src/Syscall/Fork/Forked.antt =====
-- The frame and the stacks of a child of `sys_fork`.
use nycu_osc.Prelude.{ℕ, ◌+◌, ◌^◌, ◌≤◌, ◌<◌, ◌≡◌, sym, ap, arith, Option, none, some}
use mathlib.Core.Path.{subst}
use nycu_osc.Prelude.Store.{update_self}
use nycu_osc.CString.Memory.{Mem}
use nycu_osc.Sched.{add_ready}
use nycu_osc.Sched.Create.{Thread, thread_stack_size}
use nycu_osc.Sched.Plan.{Plan, Implements, Covers}
use nycu_osc.Sched.Admit.{plan_admit, IsFresh, admit-Implements}
use nycu_osc.Syscall.Fork.{
  put_long, get_long, moved, u64_mod, frame_size, sp_el0_offset, copy_frames, Forks, Blocks,
  sys_fork, start_child, number_child,
}
use nycu_osc.Syscall.Fork.Copies.{
  Layout, user_bytes, frame_bytes, child_x0, child_sp, parent_x0, copied,
}
use nycu_osc.Syscall.Fork.Frames.{IsOutside}

-- What a fork leaves of the memory `m`: the child's user stack and frame are those of the parent, but
-- that `x0` of the child is 0 and its stack pointer stands in its own stack where the parent's
-- stands in the parent's; `x0` of the parent is the id.
pub record IsForked (p : Thread) (ks us off id : ℕ) (m n : Mem) : Type 0 where
  pub user_stack : (i : ℕ) → i < thread_stack_size → n (us + i) ≡ m (p.user_stack + i)
  pub registers :
      (j : ℕ)
      → j < frame_size
      → 8 ≤ j
      → IsOutside j sp_el0_offset 8
      → n (ks + off + j) ≡ m (p.kernel_stack + off + j)
  pub returns_zero : get_long (ks + off) n ≡ 0
  pub stack_pointer :
      get_long (ks + off + sp_el0_offset) n
      ≡ moved us (get_long (p.kernel_stack + off + sp_el0_offset) m) p.user_stack
  pub returns_id : get_long (p.kernel_stack + off) n ≡ id

frames-IsForked :
    (p : Thread) (ks us off id : ℕ) (m : Mem)
    → Layout p ks us off
    → id < u64_mod
    → IsForked p ks us off id m
        (put_long (p.kernel_stack + off) id (copy_frames p ks us (p.kernel_stack + off) m))
frames-IsForked p ks us off id m l h =
    subst (IsForked p ks us off id m) (sym (copied p ks us off id m l)) (record {
      user_stack = user_bytes p ks us off id m l;
      registers = frame_bytes p ks us off id m l;
      returns_zero = child_x0 p ks us off id m l;
      stack_pointer = child_sp p ks us off id m l;
      returns_id = parent_x0 p ks us off id m l h;
    })

-- the three blocks are there
abbrev pub all_blocks : ℕ → ℕ → ℕ → Blocks
all_blocks child ks us = record { task = some child; kernel_stack = some ks; user_stack = some us }

-- what the call leaves
abbrev pub Forked : ℕ → ℕ → ℕ → ℕ → Forks → Plan → Forks → Type 0
Forked child ks us off s plan s₁ =
    Implements s₁.sched (plan_admit child plan)
    × (s₁.sched.id child ≡ s.thread_cnt)
    × IsForked (s.threads plan.task) ks us off s.thread_cnt s.mem s₁.mem

start_child-Forked :
    (f child ks us off curr_sp label : ℕ) (s : Forks) (plan : Plan)
    → Implements s.sched plan
    → Covers f plan
    → IsFresh child plan
    → Layout (s.threads plan.task) ks us off
    → s.thread_cnt < 2 ^ 32
    → Forked child ks us off s plan (
        start_child f
          ((s.threads plan.task).kernel_stack + off)
          curr_sp
          label
          plan.task
          child
          ks
          us
          (number_child child s))
unfolding start_child add_ready
start_child-Forked f child ks us off curr_sp label s plan h c fresh l n =
    let p = s.threads plan.task in
    let frame = p.kernel_stack + off in
    let self = update_self s.sched.id child s.thread_cnt in
    (
      admit-Implements f child s.thread_cnt s.sched plan h c fresh,
      self,
      subst
          (λ (id : ℕ).
            IsForked p ks us off s.thread_cnt s.mem
              (put_long frame id (copy_frames p ks us frame s.mem)))
          (sym self) (frames-IsForked p ks us off s.thread_cnt s.mem l (omega arith)),
    )

-- Where `alloc` serves `sys_fork` with a task that the plan of the scheduler does not know and with
-- stacks that share nothing with each other and the parent's, in the lower half of the memory, the
-- parent's frame lies in its kernel stack, the count of tasks fits in 32 bits, and there is a round
-- for every task of each queue: the child is ready behind the other tasks with the parent's user
-- stack and frame; it gets 0 from the call and the parent gets the child's id.
pub sys_fork_lem :
    (f child ks us off curr_sp label : ℕ) (s : Forks) (plan : Plan)
    → Implements s.sched plan
    → Covers f plan
    → IsFresh child plan
    → Layout (s.threads plan.task) ks us off
    → s.thread_cnt < 2 ^ 32
    → Forked child ks us off s plan (
        sys_fork f
          (all_blocks child ks us)
          ((s.threads plan.task).kernel_stack + off)
          curr_sp
          label
          s)
unfolding sys_fork
sys_fork_lem f child ks us off curr_sp label s plan h c fresh l n =
    let frame = (s.threads plan.task).kernel_stack + off in
    subst (Forked child ks us off s plan)
      (sym (
        ap
          (λ (o : Option ℕ). elim o as (λ x. Forks) [
            | none ↦ s
            | some parent ↦
                start_child f frame curr_sp label parent child ks us (number_child child s)
          ])
          h.current))
      (start_child-Forked f child ks us off curr_sp label s plan h c fresh l n)
