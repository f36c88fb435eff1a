-- ===== src/Sched/Plan.antt =====
-- An abstract scheduler, of lists of tasks, for the operations of src/sched.c, and `schedule` and
-- `_exit` as its operations.
use nycu_osc.Prelude.{
  ℕ, ◌≤◌, ◌≡◌, refl, sym, ap, false, Option, some, List, [], ◌∷◌, ◌++◌, ◌==◌, arith, length,
}
use mathlib.Core.Path.{subst}
use nycu_osc.Prelude.Store.{update_self, ◌∈◌}
use nycu_osc.Sched.{
  TaskState, task_ready, task_running, task_blocked, task_exited, Sched, add_ready, add_wait,
  add_zombie, set_state, put_back, switch_to, yield_to,
}
use nycu_osc.Sched.Inv.{
  Queues, IsOut, set_state-Queues, add_ready-Queues, add_wait-Queues, add_zombie-Queues, ready-wait,
  ready-zombie,
}
use nycu_osc.Sched.Switch.{pop_some}

-- how the current task stands
pub data Status : Type 0 where
  is_running : Status
  is_blocked : Status
  is_exited : Status

-- the current task and the tasks of the queues
pub record Plan : Type 0 where
  pub task : ℕ
  pub status : Status
  pub ready : List ℕ
  pub wait : List ℕ
  pub zombie : List ℕ

abbrev pub state_of : Status → TaskState
state_of is_running = task_running
state_of is_blocked = task_blocked
state_of is_exited = task_exited

-- the next task runs; the current one goes to the end of the queue for its status
abbrev pub requeue : Status → ℕ → ℕ → List ℕ → Plan → Plan
requeue is_running t x xs p = record p { task = x; status = is_running; ready = xs ++ (t ∷ []) }
requeue is_blocked t x xs p = record p {
  task = x;
  status = is_running;
  ready = xs;
  wait = p.wait ++ (t ∷ []);
}
requeue is_exited t x xs p = record p {
  task = x;
  status = is_running;
  ready = xs;
  zombie = p.zombie ++ (t ∷ []);
}

abbrev pub plan_next : List ℕ → Plan → Plan
plan_next [] p = p
plan_next (x ∷ xs) p = requeue p.status p.task x xs p

-- the abstract `schedule` and `_exit`
abbrev pub plan_schedule : Plan → Plan
plan_schedule p = plan_next p.ready p

abbrev pub plan_exit : Plan → Plan
plan_exit p = plan_schedule (record p { status = is_exited })

-- The state is that of the plan: the queues hold its tasks, each in the state that goes with its
-- queue, and the current task is in none of them.
pub record Implements (s : Sched) (p : Plan) : Type 0 where
  pub queues : Queues s p.ready p.wait p.zombie
  pub current : s.current ≡ some p.task
  pub out : IsOut p.task p.ready p.wait p.zombie
  pub state : s.state p.task ≡ state_of p.status

-- a round for every task of each queue
abbrev pub Covers : ℕ → Plan → Type 0
Covers f p = (length p.ready ≤ f) × (length p.wait ≤ f) × (length p.zombie ≤ f)

module _ (s : Sched) (x : ℕ) (xs w z : List ℕ) (h : Queues s (x ∷ xs) w z) where
  first-IsOut : IsOut x xs w z
  first-IsOut =
      let m : x ∈ (x ∷ xs) = ground arith in
      (h.ready.1, ready-wait 0 s (x ∷ xs) w z x h x m, ready-zombie 0 s (x ∷ xs) w z x h x m)

  -- the queues without the task, and those behind the switch
  popped : Queues (set_state x task_running (record s { ready_queue = s.next x })) xs w z
  popped =
      set_state-Queues 0 (record s { ready_queue = s.next x }) xs w z x
        (record {
          ready = h.ready.2;
          wait = h.wait;
          zombie = h.zombie;
          all_ready = λ a m. h.all_ready a (ground arith);
          all_blocked = h.all_blocked;
          all_exited = h.all_exited;
        })
        task_running first-IsOut

  switch_to_eq :
      switch_to x s
      ≡ record (set_state x task_running s) { ready_queue = s.next x; current = some x }
  unfolding switch_to
  switch_to_eq =
      ap
        (λ (r : Option ℕ × Option ℕ). record (set_state x task_running s) {
          ready_queue = r.1;
          current = r.0;
        })
        (pop_some s.next s.ready_queue x h.ready.0)

  -- the first ready task runs
  switch_to-Implements :
      Implements
        (switch_to x s)
        (record { task = x; status = is_running; ready = xs; wait = w; zombie = z })
  switch_to-Implements =
      subst
        (λ s'.
          Implements s'
            (record { task = x; status = is_running; ready = xs; wait = w; zombie = z }))
        (sym switch_to_eq)
        (record {
          queues = record {
            ready = popped.ready;
            wait = popped.wait;
            zombie = popped.zombie;
            all_ready = popped.all_ready;
            all_blocked = popped.all_blocked;
            all_exited = popped.all_exited;
          };
          current = refl;
          out = first-IsOut;
          state = update_self s.state x task_running;
        })

pub yield_to_eq :
    (f : ℕ) (s s₁ : Sched) (prev x : ℕ)
    → (x == prev) ≡ false
    → put_back f prev (s.state prev) s ≡ some s₁
    → yield_to f prev x s ≡ some (switch_to x s₁)
unfolding yield_to
yield_to_eq f s s₁ prev x ne e = rw (ne, e) refl

-- what `put_back` leaves for the switch
abbrev pub PutBack : ℕ → ℕ → List ℕ → Sched → Plan → Type 0
PutBack f x xs s p =
    (s₁ : Sched) × (put_back f p.task (s.state p.task) s ≡ some s₁)
    × Implements (switch_to x s₁) (requeue p.status p.task x xs p)

pub put_back_lem :
    (f x : ℕ) (xs : List ℕ) (s : Sched) (p : Plan)
    → Implements s p
    → p.ready ≡ x ∷ xs
    → Covers f p
    → PutBack f x xs s p
unfolding put_back
put_back_lem f x xs s p h first (cr, cw, cz) = go p.status h.state
  where
    q : Queues s (x ∷ xs) p.wait p.zombie
    q = subst (λ r. Queues s r p.wait p.zombie) first h.queues

    out : IsOut p.task (x ∷ xs) p.wait p.zombie
    out = subst (λ r. IsOut p.task r p.wait p.zombie) first h.out

    go :
        (v : Status)
        → s.state p.task ≡ state_of v
        → (s₁ : Sched) × (put_back f p.task (s.state p.task) s ≡ some s₁)
          × Implements (switch_to x s₁) (requeue v p.task x xs p)
    go is_running e = (
      add_ready f p.task (set_state p.task task_ready s),
      rw (e, put_back) refl,
      switch_to-Implements (add_ready f p.task (set_state p.task task_ready s)) x
          (xs ++ (p.task ∷ [])) p.wait p.zombie
          (add_ready-Queues f (set_state p.task task_ready s) (x ∷ xs) p.wait p.zombie p.task
            (set_state-Queues f s (x ∷ xs) p.wait p.zombie p.task q task_ready out) out
            (update_self s.state p.task task_ready)
            (subst (λ (r : List ℕ). length r ≤ f) first cr)),
    )
    go is_blocked e = (
      add_wait f p.task s,
      rw (e, put_back) refl,
      switch_to-Implements (add_wait f p.task s) x xs (p.wait ++ (p.task ∷ [])) p.zombie
          (add_wait-Queues f s (x ∷ xs) p.wait p.zombie p.task q out e cw),
    )
    go is_exited e = (
      add_zombie f p.task s,
      rw (e, put_back) refl,
      switch_to-Implements (add_zombie f p.task s) x xs p.wait (p.zombie ++ (p.task ∷ []))
          (add_zombie-Queues f s (x ∷ xs) p.wait p.zombie p.task q out e cz),
    )
