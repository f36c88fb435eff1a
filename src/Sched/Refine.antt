-- ===== src/Sched/Refine.antt =====
-- The operations of src/sched.c implement those of the abstract scheduler.
use nycu_osc.Prelude.{
  ℕ, zero, suc, ◌≤◌, ◌≡◌, refl, sym, ap, ◌∙◌, Bool, true, ◌||◌, Option, none, some, List, [], ◌∷◌,
  ◌==◌, if◌then◌else◌, arith, length, inl, inr, Bool-cases, some_inj,
}
use mathlib.Core.Path.{subst, ap₂}
use nycu_osc.Prelude.Store.{update_self, has, ◌∈◌, ◌∉◌, erase}
use nycu_osc.Prelude.Links.{IsQueue}
use nycu_osc.Sched.{
  task_exited, Sched, retire, schedule_cases, schedule, exit, find_task, get_thread_task_by_id,
}
use nycu_osc.Sched.Inv.{Queues, retire-Queues}
use nycu_osc.Sched.Plan.{
  is_exited, Plan, plan_next, plan_schedule, plan_exit, Implements, Covers, put_back_lem,
  yield_to_eq,
}
use nycu_osc.Sched.Remove.{erase_absent}
use nycu_osc.Sched.Switch.{schedule-yield_to}

-- the operation returns, and the state that it leaves is that of the plan
abbrev pub Reaches : Option Sched → Plan → Type 0
Reaches o p = (s : Sched) × (o ≡ some s) × Implements s p

schedule_go :
    (f : ℕ) (s : Sched) (p : Plan) (r : List ℕ)
    → p.ready ≡ r
    → Implements s p
    → Covers f p
    → Reaches (schedule f s) (plan_next r p)
unfolding schedule schedule_cases
schedule_go f s p [] e h c =
    let at : s.ready_queue ≡ none = subst (λ r. IsQueue s.next s.ready_queue r) e h.queues.ready in
    (s, ap₂ (schedule_cases f s) h.current at, h)
schedule_go f s p (x ∷ xs) e h c =
    let q = subst (λ r. IsQueue s.next s.ready_queue r) e h.queues.ready in
    let out = subst (λ (r : List ℕ). p.task ∉ r) e h.out.0 in
    let (s₁, put, imp) = put_back_lem f x xs s p h e c in
    (
      _,
      schedule-yield_to f s p.task x h.current q.0 ∙ yield_to_eq f s s₁ p.task x (ground arith) put,
      imp,
    )

-- With a round for every task of each queue, in a state of a plan, `schedule` returns, and leaves the
-- state of the plan's `schedule`: with no ready task nothing changes; otherwise the first ready task
-- runs, and the task that gives up the processor goes to the end of the queue for its status.
pub schedule-Implements :
    (f : ℕ) (s : Sched) (p : Plan)
    → Implements s p
    → Covers f p
    → Reaches (schedule f s) (plan_schedule p)
schedule-Implements f s p h c = schedule_go f s p p.ready refl h c

-- `retire` of the current task only ends it
retire_current :
    (f : ℕ) (s : Sched) (p : Plan)
    → Implements s p
    → Covers f p
    → Implements (retire f p.task s) (record p { status = is_exited })
unfolding retire
retire_current f s p h (cr, cw, cz) =
    let (or, ow, oz) = h.out in
    let r = retire-Queues f s p.ready p.wait p.zombie p.task h.queues oz cr cw in
    record {
      queues =
          subst (λ w. Queues (retire f p.task s) p.ready w p.zombie) (erase_absent p.task p.wait ow)
            (subst (λ r. Queues (retire f p.task s) r (erase p.task p.wait) p.zombie)
              (erase_absent p.task p.ready or) r.0);
      current = h.current;
      out = h.out;
      state = update_self s.state p.task task_exited;
    }

-- With a round for every task of each queue, `_exit` of the current task of a plan returns: the first
-- ready task runs and the one that ends is the last zombie, or none is ready and it stays the
-- current task.
pub exit-Implements :
    (f : ℕ) (s : Sched) (p : Plan) → Implements s p → Covers f p → Reaches (exit f s) (plan_exit p)
unfolding exit
exit-Implements f s p h c =
    let (s₁, e, imp) =
      schedule-Implements f (retire f p.task s) (record p { status = is_exited })
        (retire_current f s p h c) c in
    (
      s₁,
      ap (λ (o : Option ℕ). elim o [ none ↦ some s | some t ↦ schedule f (retire f t s) ]) h.current
          ∙ e,
      imp,
    )

-- the first task of a list with an id
abbrev pub with_id : (ℕ → ℕ) → ℕ → List ℕ → Option ℕ
with_id id pid [] = none
with_id id pid (x ∷ xs) = if id x == pid then some x else with_id id pid xs

find_task-with_id :
    (f pid : ℕ) (queue : Option ℕ) (s : Sched) (xs : List ℕ)
    → IsQueue s.next queue xs
    → length xs ≤ f
    → find_task f pid queue s ≡ with_id s.id pid xs
unfolding find_task
find_task-with_id zero pid queue s [] q h = refl
find_task-with_id zero pid queue s (x ∷ xs) q h = absurd (omega (arith, h))
find_task-with_id (suc f) pid none s [] q h = refl
find_task-with_id (suc f) pid none s (x ∷ xs) q h = let c = q.0 in cc
find_task-with_id (suc f) pid (some c) s [] q h = cc
find_task-with_id (suc f) pid (some c) s (x ∷ xs) q h =
    ap (λ y. find_task (suc f) pid (some y) s) (some_inj q.0)
    ∙ ap (λ (rest : Option ℕ). if s.id x == pid then some x else rest)
        (find_task-with_id f pid (s.next x) s xs q.2 (omega arith))

-- the task that `_kill` finds: of the ready tasks, or else of the waiting ones
abbrev or_else : Option ℕ → Option ℕ → Option ℕ
or_else (some t) other = some t
or_else none other = other

abbrev pub plan_find : (ℕ → ℕ) → ℕ → Plan → Option ℕ
plan_find id pid p = or_else (with_id id pid p.ready) (with_id id pid p.wait)

with_id-mem : (id : ℕ → ℕ) (pid t : ℕ) (xs : List ℕ) → with_id id pid xs ≡ some t → t ∈ xs
with_id-mem id pid t [] e = cc
with_id-mem id pid t (x ∷ xs) e = elim (Bool-cases (id x == pid)) [
  | inl hit ↦
      let x_t : x ≡ t =
        some_inj (ap (λ (b : Bool). if b then some x else with_id id pid xs) (sym hit) ∙ e) in
      ground arith
  | inr miss ↦
      let m =
        with_id-mem id pid t xs
          (ap (λ (b : Bool). if b then some x else with_id id pid xs) (sym miss) ∙ e) in
      ground arith
]

pub plan_find-mem :
    (id : ℕ → ℕ) (pid t : ℕ) (p : Plan)
    → plan_find id pid p ≡ some t
    → (has t p.ready || has t p.wait) ≡ true
plan_find-mem id pid t p e = go (with_id id pid p.ready) refl e
  where
    go :
        (o : Option ℕ)
        → with_id id pid p.ready ≡ o
        → or_else o (with_id id pid p.wait) ≡ some t
        → (has t p.ready || has t p.wait) ≡ true
    go (some u) at e = let m = with_id-mem id pid t p.ready (at ∙ e) in ground arith
    go none at e = let m = with_id-mem id pid t p.wait e in ground arith

pub get_thread_task_by_id-plan_find :
    (f pid : ℕ) (s : Sched) (p : Plan)
    → Implements s p
    → Covers f p
    → get_thread_task_by_id f pid s ≡ plan_find s.id pid p
unfolding get_thread_task_by_id
get_thread_task_by_id-plan_find f pid s p h (cr, cw, cz) =
    ap₂ (λ (a b : Option ℕ). elim a as (λ x. Option ℕ) [ some task ↦ some task | none ↦ b ])
      (find_task-with_id f pid s.ready_queue s p.ready h.queues.ready cr)
      (find_task-with_id f pid s.wait_queue s p.wait h.queues.wait cw)
    ∙ go (with_id s.id pid p.ready)
  where
    go :
        (o : Option ℕ)
        → elim o as (λ x. Option ℕ) [ some task ↦ some task | none ↦ with_id s.id pid p.wait ]
          ≡ or_else o (with_id s.id pid p.wait)
    go (some t) = refl
    go none = refl
