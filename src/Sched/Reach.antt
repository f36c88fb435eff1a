-- ===== src/Sched/Reach.antt =====
-- The operations of src/sched.c in any order: what they reach, and that no task is lost.
use nycu_osc.Prelude.{
  ℕ, ◌≡◌, refl, sym, ap, ◌∙◌, Bool, true, ◌||◌, Option, none, some, List, [], ◌∷◌, ◌++◌, ◌==◌, ◌≤◌,
  ◌<◌, arith, length, ◌⊎◌, inl, inr, Bool-cases, some_inj,
}
use nycu_osc.Prelude.Int.{ℤ}
use mathlib.Core.Path.{subst}
use nycu_osc.Prelude.Store.{has, ◌∈◌, has-append, mem-erase_ne}
use nycu_osc.Prelude.Links.{IsQueue-unique}
use nycu_osc.Sched.{Sched, schedule, exit, kill}
use nycu_osc.Sched.Create.{kill_zombies}
use nycu_osc.Sched.Plan.{
  Status, is_running, is_blocked, is_exited, Plan, requeue, plan_next, plan_schedule, plan_exit,
  Implements, Covers,
}
use nycu_osc.Sched.Refine.{schedule-Implements, exit-Implements, plan_find, Reaches}
use nycu_osc.Sched.Admit.{plan_admit, admit, IsFresh, admit-Implements}
use nycu_osc.Sched.Kill.{plan_kill, plan_bury, Killed, kill-Implements, kill_zombies-Implements}

-- the rounds are enough for the queues, however they are read
abbrev pub IsEnough : ℕ → Sched → Type 0
IsEnough f s = (p : Plan) → Implements s p → Covers f p × (length p.zombie < f)

-- one reading of the queues is all there are
pub IsEnough-of :
    (f : ℕ) (s : Sched) (p : Plan)
    → Implements s p
    → Covers f p
    → length p.zombie < f
    → IsEnough f s
IsEnough-of f s p h (cr, cw, cz) enough p₁ h₁ =
    let er = IsQueue-unique s.next s.ready_queue p.ready p₁.ready h.queues.ready h₁.queues.ready in
    let ew = IsQueue-unique s.next s.wait_queue p.wait p₁.wait h.queues.wait h₁.queues.wait in
    let ez =
      IsQueue-unique s.next s.zombie_queue p.zombie p₁.zombie h.queues.zombie h₁.queues.zombie in
    (
      (
        subst (λ (l : List ℕ). length l ≤ f) er cr,
        subst (λ (l : List ℕ). length l ≤ f) ew cw,
        subst (λ (l : List ℕ). length l ≤ f) ez cz,
      ),
      subst (λ (l : List ℕ). length l < f) ez enough,
    )

-- One operation, with the tasks that it frees. A new task is one that the state does not know yet.
pub data Step (f : ℕ) (s : Sched) (freed : List ℕ) (s₁ : Sched) : Type 0 where
  reschedules : IsEnough f s → freed ≡ [] → schedule f s ≡ some s₁ → Step f s freed s₁
  ends : IsEnough f s → freed ≡ [] → exit f s ≡ some s₁ → Step f s freed s₁
  kills : (pid : ℕ) → IsEnough f s → freed ≡ [] → (kill f pid s).1 ≡ some s₁ → Step f s freed s₁
  buries : IsEnough f s → kill_zombies f s ≡ (freed, s₁) → Step f s freed s₁
  admits :
      (t id : ℕ)
      → IsEnough f s
      → ((p : Plan) → Implements s p → IsFresh t p)
      → freed ≡ []
      → s₁ ≡ admit f t id s
      → Step f s freed s₁

-- operations in a row, with all the tasks that they free
pub data Steps (f : ℕ) (s : Sched) : List ℕ → Sched → Type 0 where
  here : Steps f s [] s
  more : {xs ys : List ℕ} {t u : Sched} → Steps f s xs t → Step f t ys u → Steps f s (xs ++ ys) u

-- whether a task is the current one or in a queue
abbrev pub known : ℕ → Plan → Bool
known a p = (a == p.task) || has a p.ready || has a p.wait || has a p.zombie

-- the tasks of one plan are in the other, or were freed
abbrev pub Keeps : Plan → List ℕ → Plan → Type 0
Keeps p freed p₁ = (a : ℕ) → known a p ≡ true → (known a p₁ ≡ true) ⊎ (a ∈ freed)

has-snoc : (a t : ℕ) (xs : List ℕ) → has a (xs ++ (t ∷ [])) ≡ (has a xs || (a == t))
has-snoc a t xs = ground (arith, has-append a xs (t ∷ []))

plan_next-Keeps : (r : List ℕ) (p : Plan) → p.ready ≡ r → Keeps p [] (plan_next r p)
plan_next-Keeps [] p e a k = inl k
plan_next-Keeps (x ∷ xs) p e a k = inl (go p.status)
  where
    k' : ((a == p.task) || ((a == x) || has a xs) || has a p.wait || has a p.zombie) ≡ true
    k' = ap (λ (r : List ℕ). (a == p.task) || has a r || has a p.wait || has a p.zombie) (sym e) ∙ k

    go : (v : Status) → known a (requeue v p.task x xs p) ≡ true
    go is_running = rw has-snoc (ground (arith, k'))
    go is_blocked = rw has-snoc (ground (arith, k'))
    go is_exited = rw has-snoc (ground (arith, k'))

plan_kill-Keeps : (t : ℕ) (p : Plan) → Keeps p [] (plan_kill t p)
plan_kill-Keeps t p a k =
    let e = mem-erase_ne a t p.ready in
    let e' = mem-erase_ne a t p.wait in inl (rw has-snoc (ground (arith, e, e', k)))

plan_bury-Keeps : (p : Plan) → Keeps p p.zombie (plan_bury p)
plan_bury-Keeps p a k = elim (Bool-cases (has a p.zombie)) [
  | inl z ↦ inr z
  | inr n ↦ inl (ground (arith, k, n))
]

plan_admit-Keeps : (t : ℕ) (p : Plan) → Keeps p [] (plan_admit t p)
plan_admit-Keeps t p a k = inl (rw has-snoc (ground (arith, k)))

-- what an operation leaves
abbrev pub Leaves : Plan → List ℕ → Sched → Type 0
Leaves p freed s₁ = (p₁ : Plan) × Implements s₁ p₁ × Keeps p freed p₁

reached :
    (o : Option Sched) (s₁ : Sched) (p p₁ : Plan)
    → o ≡ some s₁
    → Reaches o p₁
    → Keeps p [] p₁
    → Leaves p [] s₁
reached o s₁ p p₁ e (s₂, e₂, imp) k =
    (p₁, subst (λ s. Implements s p₁) (some_inj (sym e₂ ∙ e)) imp, k)

killed :
    (s s₁ : Sched) (p : Plan) (r : ℤ × Option Sched) (o : Option ℕ)
    → r.1 ≡ some s₁
    → Implements s p
    → Killed s p r o
    → Leaves p [] s₁
killed s s₁ p r none e h k = (
  p,
  subst (λ s. Implements s p) (some_inj (ap (λ (q : ℤ × Option Sched). q.1) (sym k) ∙ e)) h,
  λ a m. inl m,
)
killed s s₁ p r (some t) e h (s₂, e₂, imp) =
    reached r.1 s₁ p (plan_kill t p) e (s₂, ap (λ (q : ℤ × Option Sched). q.1) e₂, imp)
      (plan_kill-Keeps t p)

Step-Leaves :
    (f : ℕ) (s s₁ : Sched) (freed : List ℕ) (p : Plan)
    → Implements s p
    → Step f s freed s₁
    → Leaves p freed s₁
Step-Leaves f s s₁ freed p h (reschedules enough e r) =
    subst (λ l. Leaves p l s₁) (sym e)
      (reached (schedule f s) s₁ p (plan_schedule p) r (schedule-Implements f s p h (enough p h).0)
        (plan_next-Keeps p.ready p refl))
Step-Leaves f s s₁ freed p h (ends enough e r) =
    let ended = record p { status = is_exited } in
    subst (λ l. Leaves p l s₁) (sym e)
      (reached (exit f s) s₁ p (plan_exit p) r (exit-Implements f s p h (enough p h).0)
        (plan_next-Keeps p.ready ended refl))
Step-Leaves f s s₁ freed p h (kills pid enough e r) =
    subst (λ l. Leaves p l s₁) (sym e)
      (killed s s₁ p (kill f pid s) (plan_find s.id pid p) r h
        (kill-Implements f pid s p h (enough p h).0))
Step-Leaves f s s₁ freed p h (buries enough r) =
    let (s₂, e, imp) = kill_zombies-Implements f s p h (enough p h).1 in
    let same = sym e ∙ r in
    (
      plan_bury p,
      subst (λ t. Implements t (plan_bury p)) (ap (λ (q : List ℕ × Sched). q.1) same) imp,
      subst (λ l. Keeps p l (plan_bury p)) (ap (λ (q : List ℕ × Sched). q.0) same)
          (plan_bury-Keeps p),
    )
Step-Leaves f s s₁ freed p h (admits t id enough fresh e r) =
    subst (λ l. Leaves p l s₁) (sym e)
      (
        plan_admit t p,
        subst (λ u. Implements u (plan_admit t p)) (sym r)
            (admit-Implements f t id s p h (enough p h).0 (fresh p h)),
        plan_admit-Keeps t p,
      )

-- From a state of a plan, any operations in a row (switches, exits, kills, the burial of zombies and
-- the start of tasks that are not known yet, each with enough rounds) reach a state of a plan: the
-- queues are lists that share no task, each task has the state that goes with its queue, and the
-- current one is in none of them. A task that was current or queued still is, or one of the
-- operations has freed it.
pub Steps-Leaves :
    (f : ℕ) (s s₁ : Sched) (freed : List ℕ) (p : Plan)
    → Implements s p
    → Steps f s freed s₁
    → Leaves p freed s₁
Steps-Leaves f s s₁ freed p h here = (p, h, λ a k. inl k)
Steps-Leaves f s s₁ freed p h (more {xs = xs} {ys = ys} {t = t} before step) =
    let (p₁, h₁, k₁) = Steps-Leaves f s t xs p h before in
    let (p₂, h₂, k₂) = Step-Leaves f t s₁ ys p₁ h₁ step in
    (p₂, h₂, Keeps-append p p₁ p₂ xs ys k₁ k₂)
  where
    Keeps-append :
        (p p₁ p₂ : Plan) (xs ys : List ℕ) → Keeps p xs p₁ → Keeps p₁ ys p₂ → Keeps p (xs ++ ys) p₂
    Keeps-append p p₁ p₂ xs ys k₁ k₂ a k = elim (k₁ a k) [
      | inr m ↦ inr (ground (arith, has-append a xs ys, m))
      | inl k' ↦ elim (k₂ a k') [
        | inl k'' ↦ inl k''
        | inr m ↦ inr (ground (arith, has-append a xs ys, m))
      ]
    ]
