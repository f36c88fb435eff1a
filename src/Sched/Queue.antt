-- ===== src/Sched/Queue.antt =====
-- The queues of src/sched.c as lists.
use nycu_osc.Prelude.{
  ℕ, zero, suc, ◌≤◌, ◌≡◌, refl, sym, ap, ◌∙◌, true, false, Option, none, some, List, [], ◌∷◌, ◌++◌,
  ◌==◌, arith, length, some_inj,
}
use mathlib.Core.Path.{subst}
use nycu_osc.Prelude.Store.{update, ◌∈◌, ◌∉◌, has-append, ne_of_mem}
use nycu_osc.Prelude.Links.{Links, IsQueue}
use nycu_osc.Sched.{last_task, pop_thread_task, add_thread_task}

abbrev pub prepend : Option ℕ → List ℕ → List ℕ
prepend none xs = xs
prepend (some x) xs = x ∷ xs

last_task_end : (f : ℕ) (next : Links) (x : ℕ) → next x ≡ none → last_task (suc f) next x ≡ x
unfolding last_task
last_task_end f next x e = rw (e, last_task) refl

last_task_go :
    (f : ℕ) (next : Links) (x y : ℕ)
    → next x ≡ some y
    → last_task (suc f) next x ≡ last_task f next y
unfolding last_task
last_task_go f next x y e = rw (e, last_task) refl

pub last_task_mem :
    (f : ℕ) (next : Links) (x : ℕ) (head : Option ℕ) (xs : List ℕ)
    → IsQueue next head (x ∷ xs)
    → length (x ∷ xs) ≤ f
    → last_task f next x ∈ (x ∷ xs)
last_task_mem zero next x head xs q h = absurd (omega (arith, h))
last_task_mem (suc f) next x head [] (at, out, q) h =
    let e : (x == x) ≡ true = ground arith in rw (last_task_end f next x q, e) refl
last_task_mem (suc f) next x head (y ∷ ys) (at, out, q) h =
    let ih = last_task_mem f next y (next x) ys q (omega arith) in
    subst (λ e. e ∈ (x ∷ y ∷ ys)) (sym (last_task_go f next x y q.0)) (ground (arith, ih))

pub not_mem_snoc : (x t : ℕ) (xs : List ℕ) → x ∉ xs → (x == t) ≡ false → x ∉ (xs ++ (t ∷ []))
not_mem_snoc x t xs out ne = has-append x xs (t ∷ []) ∙ ground arith

-- The walk ends at the last task, whose link is then set: the queue goes on to the new task.
append-IsQueue :
    (f : ℕ) (next : Links) (x t end : ℕ) (head : Option ℕ) (xs : List ℕ)
    → last_task f next x ≡ end
    → IsQueue next head (x ∷ xs)
    → t ∉ (x ∷ xs)
    → length (x ∷ xs) ≤ f
    → IsQueue (update (update next end (some t)) t none) head ((x ∷ xs) ++ (t ∷ []))
append-IsQueue zero next x t end head xs l q out h = absurd (omega (arith, h))
append-IsQueue (suc f) next x t end head [] l (at, own, q) out h =
    let ne : (x == t) ≡ false = ground arith in
    let is_end : x ≡ end = sym (last_task_end f next x q) ∙ l in
    let hit : (x == end) ≡ true = ground arith in
    let self : (t == t) ≡ true = ground arith in
    (at, not_mem_snoc x t [] own ne, rw (ne, hit, self) (refl, refl, refl))
append-IsQueue (suc f) next x t end head (y ∷ ys) l (at, own, q) out h =
    let l' : last_task f next y ≡ end = sym (last_task_go f next x y q.0) ∙ l in
    let ih = append-IsQueue f next y t end (next x) ys l' q (ground arith) (omega arith) in
    let ne : (x == t) ≡ false = ground arith in
    let mem = last_task_mem f next y (next x) ys q (omega arith) in
    let other : (x == end) ≡ false = rw l' at (ne_of_mem x (last_task f next y) (y ∷ ys) own mem) in
    (at, not_mem_snoc x t (y ∷ ys) own ne, rw (ne, other) ih)

-- With a round for every task of the queue, `add_thread_task` puts a task that is not in the queue
-- behind its last one.
pub add_thread_task-IsQueue :
    (f : ℕ) (next : Links) (queue : Option ℕ) (xs : List ℕ) (t : ℕ)
    → IsQueue next queue xs
    → t ∉ xs
    → length xs ≤ f
    → let r = add_thread_task f queue t next in IsQueue r.1 r.0 (xs ++ (t ∷ []))
unfolding add_thread_task
add_thread_task-IsQueue f next none [] t q out h =
    let self : (t == t) ≡ true = ground arith in rw self (refl, refl, refl)
add_thread_task-IsQueue f next (some y) [] t q out h = cc
add_thread_task-IsQueue f next none (x ∷ xs) t q out h = let c = q.0 in cc
add_thread_task-IsQueue f next (some y) (x ∷ xs) t q out h =
    let same : last_task f next y ≡ last_task f next x = ap (last_task f next) (some_inj q.0) in
    append-IsQueue f next x t (last_task f next y) (some y) xs (sym same) q out h

-- `pop_thread_task` takes the first task, and returns NULL on an empty queue.
pub pop_thread_task-IsQueue :
    (next : Links) (queue : Option ℕ) (xs : List ℕ)
    → IsQueue next queue xs
    → (r : List ℕ) × IsQueue next (pop_thread_task queue next).1 r
      × (xs ≡ prepend (pop_thread_task queue next).0 r)
unfolding pop_thread_task
pop_thread_task-IsQueue next none [] q = ([], refl, refl)
pop_thread_task-IsQueue next (some y) [] q = cc
pop_thread_task-IsQueue next none (x ∷ xs) q = let c = q.0 in cc
pop_thread_task-IsQueue next (some y) (x ∷ xs) q =
    let e : y ≡ x = some_inj q.0 in (xs, rw e q.2, rw e refl)
