-- ===== src/Sched/Switch.antt =====
-- A switch of src/sched.c to the next ready task.
use nycu_osc.Prelude.{
  ℕ, ◌≤◌, ◌≡◌, refl, ap, ◌∙◌, false, Option, some, List, [], ◌∷◌, ◌++◌, ◌==◌, arith, length,
}
use mathlib.Core.Path.{ap₂}
use nycu_osc.Prelude.Store.{update, update_self, update_ne, ◌∉◌}
use nycu_osc.Prelude.Links.{Links, IsQueue}
use nycu_osc.Sched.{
  task_ready, task_running, Sched, add_thread_task, pop_thread_task, add_ready, set_state, put_back,
  switch_to, yield_to, schedule_cases, schedule,
}
use nycu_osc.Sched.Queue.{add_thread_task-IsQueue}

-- `task` is the current one, and the tasks `xs` are ready
abbrev pub Runs : Sched → ℕ → List ℕ → Type 0
Runs s task xs =
    (s.current ≡ some task)
    × (s.state task ≡ task_running)
    × (task ∉ xs)
    × IsQueue s.next s.ready_queue xs

pub pop_some :
    (next : Links) (queue : Option ℕ) (x : ℕ)
    → queue ≡ some x
    → pop_thread_task queue next ≡ (some x, next x)
unfolding pop_thread_task
pop_some next queue x e = rw e refl

-- the state behind the switch
switched : ℕ → ℕ → ℕ → Sched → Sched
switched f prev x s = switch_to x (add_ready f prev (set_state prev task_ready s))

pub schedule-yield_to :
    (f : ℕ) (s : Sched) (prev x : ℕ)
    → s.current ≡ some prev
    → s.ready_queue ≡ some x
    → schedule f s ≡ yield_to f prev x s
unfolding schedule schedule_cases
schedule-yield_to f s prev x at first = ap₂ (schedule_cases f s) at first

yield_to-switched :
    (f : ℕ) (s : Sched) (prev x : ℕ)
    → (x == prev) ≡ false
    → s.state prev ≡ task_running
    → yield_to f prev x s ≡ some (switched f prev x s)
unfolding yield_to put_back switched
yield_to-switched f s prev x ne running = rw (ne, running, put_back) refl

schedule-switched :
    (f : ℕ) (s : Sched) (prev x : ℕ) (xs : List ℕ)
    → Runs s prev (x ∷ xs)
    → schedule f s ≡ some (switched f prev x s)
schedule-switched f s prev x xs (at, running, out, q) =
    schedule-yield_to f s prev x at q.0 ∙ yield_to-switched f s prev x (ground arith) running

-- Where the current task runs and others are ready, `schedule`, with a round for every ready task,
-- switches to the first of them, which then runs, and the current task is ready behind the others.
pub schedule_lem :
    (f : ℕ) (s : Sched) (prev x : ℕ) (xs : List ℕ)
    → Runs s prev (x ∷ xs)
    → length (x ∷ xs) ≤ f
    → (s' : Sched) × (schedule f s ≡ some s')
      × (s'.current ≡ some x)
      × (s'.state x ≡ task_running)
      × (s'.state prev ≡ task_ready)
      × IsQueue s'.next s'.ready_queue (xs ++ (prev ∷ []))
unfolding switched switch_to add_ready
schedule_lem f s prev x xs (at, running, out, q) h =
    let r = add_thread_task f s.ready_queue prev s.next in
    let added = add_thread_task-IsQueue f s.next s.ready_queue (x ∷ xs) prev q out h in
    let pop = pop_some r.1 r.0 x added.0 in
    let ne : (prev == x) ≡ false = ground arith in
    (
      switched f prev x s,
      schedule-switched f s prev x xs (at, running, out, q),
      ap (λ p. p.0) pop,
      update_self (update s.state prev task_ready) x task_running,
      update_ne (update s.state prev task_ready) x prev task_running ne
          ∙ update_self s.state prev task_ready,
      rw pop added.2,
    )
