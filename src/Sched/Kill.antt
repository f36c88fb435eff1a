-- ===== src/Sched/Kill.antt =====
-- `_kill` and `kill_zombies` of src/sched.c as operations of the abstract scheduler.
use nycu_osc.Prelude.{
  ℕ, zero, suc, ◌<◌, ◌≡◌, refl, sym, ap, ◌∙◌, Bool, true, false, ◌||◌, Option, none, some, List, [],
  ◌∷◌, ◌++◌, ◌==◌, if◌then◌else◌, arith, length, inl, inr, Bool-cases,
}
use nycu_osc.Prelude.Int.{ℤ, pos, negsuc}
use mathlib.Core.Path.{subst}
use nycu_osc.Prelude.Store.{update_self, update_ne, has, ◌∉◌, erase, ne_of_mem, not-mem-erase}
use nycu_osc.Prelude.Links.{IsQueue}
use nycu_osc.Sched.{
  task_exited, Sched, add_zombie, retire, is_task, schedule, kill, pop_thread_task,
  get_thread_task_by_id,
}
use nycu_osc.Sched.Create.{kill_zombies}
use nycu_osc.Sched.Inv.{add_zombie-Queues, retire-Queues, ready-zombie, wait-zombie}
use nycu_osc.Sched.Plan.{Plan, Implements, Covers}
use nycu_osc.Sched.Queue.{not_mem_snoc}
use nycu_osc.Sched.Refine.{plan_find, plan_find-mem, get_thread_task_by_id-plan_find}
use nycu_osc.Sched.Switch.{pop_some}

-- the abstract `_kill` of a task of the ready queue or the wait queue
abbrev pub plan_kill : ℕ → Plan → Plan
plan_kill t p = record p {
  ready = erase t p.ready;
  wait = erase t p.wait;
  zombie = p.zombie ++ (t ∷ []);
}

-- the result of `_kill`, by the task that it finds
abbrev pub Killed : Sched → Plan → ℤ × Option Sched → Option ℕ → Type 0
Killed s p r none = r ≡ (negsuc 0, some s)
Killed s p r (some t) = (s₁ : Sched) × (r ≡ (pos 0, some s₁)) × Implements s₁ (plan_kill t p)

kill_cases : ℕ → Sched → Option ℕ → ℤ × Option Sched
kill_cases f s none = (negsuc 0, some s)
kill_cases f s (some task) =
    if is_task task s.current
    then (pos 0, schedule f (retire f task s))
    else (pos 0, some (add_zombie f task (retire f task s)))

kill-cases : (f pid : ℕ) (s : Sched) → kill f pid s ≡ kill_cases f s (get_thread_task_by_id f pid s)
unfolding kill kill_cases
kill-cases f pid s = go (get_thread_task_by_id f pid s)
  where
    go :
        (o : Option ℕ)
        → elim o as (λ x. ℤ × Option Sched) [
          | none ↦ (negsuc 0, some s)
          | some task ↦
              if is_task task s.current
              then (pos 0, schedule f (retire f task s))
              else (pos 0, some (add_zombie f task (retire f task s)))
        ]
          ≡ kill_cases f s o
    go none = refl
    go (some t) = refl

module _ (f : ℕ) (s : Sched) (p : Plan) (h : Implements s p) (c : Covers f p) (t : ℕ)
    (m : (has t p.ready || has t p.wait) ≡ true) where
  found_not_zombie : t ∉ p.zombie
  found_not_zombie = elim (Bool-cases (has t p.ready)) [
    | inl r ↦ ready-zombie f s p.ready p.wait p.zombie t h.queues t r
    | inr n ↦ wait-zombie f s p.ready p.wait p.zombie t h.queues t (ground arith)
  ]

  found_not_current : (p.task == t) ≡ false
  found_not_current =
      let (or, ow, oz) = h.out in
      elim (Bool-cases (has t p.ready)) [
        | inl r ↦ ne_of_mem p.task t p.ready or r
        | inr n ↦ ne_of_mem p.task t p.wait ow (ground arith)
      ]

  killed-Implements : Implements (add_zombie f t (retire f t s)) (plan_kill t p)
  unfolding retire add_zombie
  killed-Implements =
      let (cr, cw, cz) = c in
      let (or, ow, oz) = h.out in
      let (q, gone) = retire-Queues f s p.ready p.wait p.zombie t h.queues found_not_zombie cr cw in
      record {
        queues =
            add_zombie-Queues f (retire f t s) (erase t p.ready) (erase t p.wait) p.zombie t q gone
              (update_self s.state t task_exited) cz;
        current = h.current;
        out = (
          not-mem-erase p.task t p.ready or,
          not-mem-erase p.task t p.wait ow,
          not_mem_snoc p.task t p.zombie oz found_not_current,
        );
        state = update_ne s.state t p.task task_exited found_not_current ∙ h.state;
      }

kill_cases-Killed :
    (f : ℕ) (s : Sched) (p : Plan)
    → Implements s p
    → Covers f p
    → (o : Option ℕ) → ((t : ℕ) → o ≡ some t → (has t p.ready || has t p.wait) ≡ true)
    → Killed s p (kill_cases f s o) o
unfolding kill_cases
kill_cases-Killed f s p h c none m = refl
kill_cases-Killed f s p h c (some t) m =
    let at : is_task t s.current ≡ false =
      ap (is_task t) h.current ∙ found_not_current f s p h c t (m t refl) in
    (
      add_zombie f t (retire f t s),
      ap
          (λ (b : Bool).
            if b
            then (pos 0, schedule f (retire f t s))
            else (pos 0, some (add_zombie f t (retire f t s))))
          at,
      killed-Implements f s p h c t (m t refl),
    )

-- With a round for every task of each queue, in a state of a plan: where no ready or waiting task has
-- the id, `_kill` returns -1 and nothing changes; otherwise it returns 0, and the first ready task
-- with the id, or else the first waiting one, has left its queue and is the last zombie. The current
-- task goes on, also where the id is its own.
pub kill-Implements :
    (f pid : ℕ) (s : Sched) (p : Plan)
    → Implements s p
    → Covers f p
    → Killed s p (kill f pid s) (plan_find s.id pid p)
kill-Implements f pid s p h c =
    subst (λ r. Killed s p r (plan_find s.id pid p))
      (sym
        (kill-cases f pid s ∙ ap (kill_cases f s) (get_thread_task_by_id-plan_find f pid s p h c)))
      (kill_cases-Killed f s p h c (plan_find s.id pid p) (λ t e. plan_find-mem s.id pid t p e))

-- the queue of zombies is the list
zombies_round :
    (f x : ℕ) (s : Sched) (xs : List ℕ)
    → IsQueue s.next s.zombie_queue (x ∷ xs)
    → kill_zombies (suc f) s
      ≡ (let (freed, s₁) = kill_zombies f (record s { zombie_queue = s.next x }) in (x ∷ freed, s₁))
unfolding kill_zombies
zombies_round f x s xs q =
    ap
      (λ (r : Option ℕ × Option ℕ).
        let (freed, s₁) = kill_zombies f (record s { zombie_queue = r.1 }) in
        elim r.0 as (λ x. List ℕ × Sched) [ none ↦ ([], s) | some task ↦ (task ∷ freed, s₁) ])
      (pop_some s.next s.zombie_queue x q.0)

zombies_all :
    (f : ℕ) (s : Sched) (xs : List ℕ)
    → IsQueue s.next s.zombie_queue xs
    → length xs < f
    → kill_zombies f s ≡ (xs, record s { zombie_queue = none })
unfolding kill_zombies pop_thread_task
zombies_all zero s xs q h = absurd (omega (arith, h))
zombies_all (suc f) s [] q h =
    ap
      (λ (r : Option ℕ × Option ℕ).
        let (freed, s₁) = kill_zombies f (record s { zombie_queue = r.1 }) in
        elim r.0 as (λ x. List ℕ × Sched) [ none ↦ ([], s) | some task ↦ (task ∷ freed, s₁) ])
      (ap (λ o. pop_thread_task o s.next) q)
    ∙ ap
        (λ (o : Option ℕ).
          let none_left : List ℕ × Sched = ([], record s { zombie_queue = o }) in none_left)
        q
zombies_all (suc f) s (x ∷ xs) q h =
    zombies_round f x s xs q
    ∙ ap (λ (r : List ℕ × Sched). (x ∷ r.0, r.1))
        (zombies_all f (record s { zombie_queue = s.next x }) xs q.2 (omega arith))

-- the abstract `kill_zombies`
abbrev pub plan_bury : Plan → Plan
plan_bury p = record p { zombie = [] }

-- With more rounds than there are zombies, in a state of a plan, `kill_zombies` frees the zombies in
-- their order, each once, and leaves no zombie; nothing else changes.
pub kill_zombies-Implements :
    (f : ℕ) (s : Sched) (p : Plan)
    → Implements s p
    → length p.zombie < f
    → (s₁ : Sched) × (kill_zombies f s ≡ (p.zombie, s₁)) × Implements s₁ (plan_bury p)
kill_zombies-Implements f s p h enough =
    let (or, ow, oz) = h.out in
    (
      record s { zombie_queue = none },
      zombies_all f s p.zombie h.queues.zombie enough,
      record {
        queues = record {
          ready = h.queues.ready;
          wait = h.queues.wait;
          zombie = refl;
          all_ready = h.queues.all_ready;
          all_blocked = h.queues.all_blocked;
          all_exited = λ a m. cc;
        };
        current = h.current;
        out = (or, ow, refl);
        state = h.state;
      },
    )
