-- ===== src/Sched/Remove.antt =====
-- The unlinking of a task from a queue of src/sched.c, `rm_thread_task`, and the entries that it and
-- `add_thread_task` leave alone.
use nycu_osc.Prelude.{
  ℕ, zero, suc, ◌≤◌, ◌≡◌, refl, sym, ap, ◌∙◌, true, false, Option, none, some, List, [], ◌∷◌, ◌==◌,
  arith, length, some_inj, inl, inr, Bool-cases,
}
use mathlib.Core.Path.{subst}
use nycu_osc.Prelude.Store.{
  update, update_self, update_ne, ◌∈◌, ◌∉◌, erase, ne_of_mem, not-mem-erase,
}
use nycu_osc.Prelude.Links.{Links, IsQueue, IsQueue-frame}
use nycu_osc.Sched.{unlink, rm_loop, rm_thread_task, last_task, add_thread_task}
use nycu_osc.Sched.Queue.{last_task_mem}

-- the links of the tasks outside `xs` are the same
abbrev pub SameOutside : List ℕ → Links → Links → Type 0
SameOutside xs l₁ l₂ = (q : ℕ) → q ∉ xs → l₂ q ≡ l₁ q

-- Two stores that agree on a list have it both.
pub IsQueue-agree :
    (l₁ l₂ : Links) (head : Option ℕ) (xs : List ℕ)
    → ((q : ℕ) → q ∈ xs → l₂ q ≡ l₁ q)
    → IsQueue l₁ head xs
    → IsQueue l₂ head xs
IsQueue-agree l₁ l₂ head [] same q = q
IsQueue-agree l₁ l₂ head (x ∷ xs) same (at, own, q) =
    let e : l₂ x ≡ l₁ x = same x (ground arith) in
    (at, own, rw e (IsQueue-agree l₁ l₂ (l₁ x) xs (λ y m. same y (ground arith)) q))

-- a list of distinct tasks has none twice
pub not-mem-erase_self :
    (l : Links) (head : Option ℕ) (xs : List ℕ) (t : ℕ) → IsQueue l head xs → t ∉ erase t xs
not-mem-erase_self l head [] t q = refl
not-mem-erase_self l head (x ∷ xs) t (at, own, q) =
    ground (arith, not-mem-erase_self l (l x) xs t q)

pub erase_absent : (t : ℕ) (xs : List ℕ) → t ∉ xs → erase t xs ≡ xs
erase_absent t [] out = refl
erase_absent t (x ∷ xs) out = ground (arith, erase_absent t xs)

-- what a removal behind `prev` leaves
abbrev RemovedAfter : ℕ → ℕ → Option ℕ → List ℕ → Links → Option ℕ × Links → Type 0
RemovedAfter task prev queue xs next r =
    (r.0 ≡ queue) × IsQueue r.1 (r.1 prev) (erase task xs) × SameOutside (prev ∷ xs) next r.1

rm_after_hit :
    (task prev x : ℕ) (queue : Option ℕ) (xs : List ℕ) (next : Links)
    → (task == x) ≡ true
    → prev ∉ (x ∷ xs)
    → IsQueue next (next x) xs
    → RemovedAfter task prev queue (x ∷ xs) next (unlink (some prev) x queue next)
unfolding unlink
rm_after_hit task prev x queue xs next hit out q =
    let self = update_self next prev (next x) in
    (
      refl,
      rw (self, hit) (IsQueue-frame next (next x) (next x) xs prev (ground arith) q),
      λ q out'. update_ne next prev q (next x) (ground arith),
    )

rm_loop_hit :
    (f task x : ℕ) (prev queue : Option ℕ) (next : Links)
    → (x == task) ≡ true
    → rm_loop (suc f) task prev (some x) queue next ≡ unlink prev x queue next
unfolding rm_loop
rm_loop_hit f task x prev queue next e = rw e refl

rm_loop_miss :
    (f task x : ℕ) (prev queue : Option ℕ) (next : Links)
    → (x == task) ≡ false
    → rm_loop (suc f) task prev (some x) queue next ≡ rm_loop f task (some x) (next x) queue next
unfolding rm_loop
rm_loop_miss f task x prev queue next e = rw (e, rm_loop) refl

-- The removal behind `x` leaves `x` behind `prev`.
rm_after_miss :
    (task prev x : ℕ) (queue : Option ℕ) (xs : List ℕ) (next : Links) (r : Option ℕ × Links)
    → (task == x) ≡ false
    → next prev ≡ some x
    → prev ∉ (x ∷ xs)
    → x ∉ xs
    → RemovedAfter task x queue xs next r
    → RemovedAfter task prev queue (x ∷ xs) next r
rm_after_miss task prev x queue xs next r ne at out own (same, q, outside) = (
  same,
  rw ne (outside prev out ∙ at, not-mem-erase x task xs own, q),
  λ y out'. outside y (ground arith),
)

rm_after :
    (f task prev : ℕ) (current queue : Option ℕ) (xs : List ℕ) (next : Links)
    → next prev ≡ current
    → IsQueue next current xs
    → prev ∉ xs
    → length xs ≤ f
    → RemovedAfter task prev queue xs next (rm_loop f task (some prev) current queue next)
unfolding rm_loop
rm_after zero task prev current queue [] next at q out h = (refl, at ∙ q, λ q out. refl)
rm_after zero task prev current queue (x ∷ xs) next at q out h = absurd (omega (arith, h))
rm_after (suc f) task prev none queue [] next at q out h = (refl, at, λ q out. refl)
rm_after (suc f) task prev none queue (x ∷ xs) next at q out h = let c = q.0 in cc
rm_after (suc f) task prev (some c) queue [] next at q out h = cc
rm_after (suc f) task prev (some c) queue (x ∷ xs) next at (first, own, q) out h =
    let e : c ≡ x = some_inj first in
    elim (Bool-cases (x == task)) [
      | inl hit ↦
          subst (RemovedAfter task prev queue (x ∷ xs) next)
            (sym (
              ap (λ y. rm_loop (suc f) task (some prev) (some y) queue next) e
              ∙ rm_loop_hit f task x (some prev) queue next hit))
            (rm_after_hit task prev x queue xs next (ground arith) out q)
      | inr miss ↦
          subst (RemovedAfter task prev queue (x ∷ xs) next)
            (sym (
              ap (λ y. rm_loop (suc f) task (some prev) (some y) queue next) e
              ∙ rm_loop_miss f task x (some prev) queue next miss))
            (rm_after_miss task prev x queue xs next (rm_loop f task (some x) (next x) queue next)
              (ground arith) (at ∙ ap some e) out own
              (rm_after f task x (next x) queue xs next refl q own (omega arith)))
    ]

abbrev Removed : ℕ → List ℕ → Links → Option ℕ × Links → Type 0
Removed task xs next r = IsQueue r.1 r.0 (erase task xs) × SameOutside xs next r.1

rm_first :
    (f task x : ℕ) (xs : List ℕ) (next : Links)
    → IsQueue next (some x) (x ∷ xs)
    → length (x ∷ xs) ≤ suc f
    → Removed task (x ∷ xs) next (rm_loop (suc f) task none (some x) (some x) next)
unfolding unlink
rm_first f task x xs next (at, own, q) h = elim (Bool-cases (x == task)) [
  | inl hit ↦
      let e : (task == x) ≡ true = ground arith in
      subst (Removed task (x ∷ xs) next) (sym (rm_loop_hit f task x none (some x) next hit))
        (rw e q, λ y out. refl)
  | inr miss ↦
      let e : (task == x) ≡ false = ground arith in
      let (same, rest, outside) =
        rm_after f task x (next x) (some x) xs next refl q own (omega arith) in
      subst (Removed task (x ∷ xs) next) (sym (rm_loop_miss f task x none (some x) next miss))
        (rw e (same, not-mem-erase x task xs own, rest), outside)
]

rm_all :
    (f task : ℕ) (queue : Option ℕ) (xs : List ℕ) (next : Links)
    → IsQueue next queue xs
    → length xs ≤ f
    → Removed task xs next (rm_loop f task none queue queue next)
unfolding rm_loop
rm_all zero task queue [] next q h = (q, λ y out. refl)
rm_all zero task queue (x ∷ xs) next q h = absurd (omega (arith, h))
rm_all (suc f) task none [] next q h = (refl, λ y out. refl)
rm_all (suc f) task none (x ∷ xs) next q h = let c = q.0 in cc
rm_all (suc f) task (some c) [] next q h = cc
rm_all (suc f) task (some c) (x ∷ xs) next q h =
    subst (λ o. Removed task (x ∷ xs) next (rm_loop (suc f) task none o o next)) (sym q.0)
      (rm_first f task x xs next (refl, q.1, q.2) h)

-- With a round for every task of the queue, `rm_thread_task` takes the task out of the queue, if it
-- is there, keeps the others in their order, and leaves the links of all tasks outside the queue.
pub rm_thread_task-IsQueue :
    (f task : ℕ) (queue : Option ℕ) (xs : List ℕ) (next : Links)
    → IsQueue next queue xs
    → length xs ≤ f
    → Removed task xs next (rm_thread_task f queue task next)
unfolding rm_thread_task
rm_thread_task-IsQueue f task queue xs next q h = rm_all f task queue xs next q h

-- `add_thread_task` writes the links of the new task and of those in the queue.
pub add_thread_task_outside :
    (f : ℕ) (next : Links) (queue : Option ℕ) (xs : List ℕ) (t : ℕ)
    → IsQueue next queue xs
    → length xs ≤ f
    → SameOutside (t ∷ xs) next (add_thread_task f queue t next).1
unfolding add_thread_task
add_thread_task_outside f next none xs t q h y out = update_ne next t y none (ground arith)
add_thread_task_outside f next (some c) [] t q h y out = cc
add_thread_task_outside f next (some c) (x ∷ xs) t q h y out =
    let e : c ≡ x = some_inj q.0 in
    let mem = last_task_mem f next x (some c) xs q h in
    let end = last_task f next c in
    let ne : (y == end) ≡ false =
      ne_of_mem y end (x ∷ xs) (ground arith)
        (subst (λ z. z ∈ (x ∷ xs)) (sym (ap (last_task f next) e)) mem) in
    update_ne (update next end (some t)) t y none (ground arith) ∙ update_ne next end y (some t) ne
