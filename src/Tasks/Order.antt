-- ===== src/Tasks/Order.antt =====
-- The order of the deferred tasks in src/tasks.c.
use nycu_osc.Prelude.{◌≡◌, refl, Bool, true, false, List, [], ◌∷◌, arith, Bool-cases, inl, inr}
use nycu_osc.Prelude.Int.{ℤ, pos, negsuc}
use nycu_osc.Tasks.{Task, lt_int, insert_behind, add_task}

-- no task of the list comes before the priority
abbrev pub AllFrom : ℤ → List Task → Type 0
AllFrom p [] = true ≡ true
AllFrom p (t ∷ ts) = (lt_int t.priority p ≡ false) × AllFrom p ts

abbrev pub IsSorted : List Task → Type 0
IsSorted [] = true ≡ true
IsSorted (t ∷ ts) = AllFrom t.priority ts × IsSorted ts

lt_int_trans : (a b c : ℤ) → lt_int b a ≡ false → lt_int c b ≡ false → lt_int c a ≡ false
lt_int_trans (pos a) (pos b) (pos c) h k = ground arith
lt_int_trans (pos a) (pos b) (negsuc c) h k = cc
lt_int_trans (pos a) (negsuc b) (pos c) h k = cc
lt_int_trans (pos a) (negsuc b) (negsuc c) h k = cc
lt_int_trans (negsuc a) (pos b) (pos c) h k = refl
lt_int_trans (negsuc a) (pos b) (negsuc c) h k = cc
lt_int_trans (negsuc a) (negsuc b) (pos c) h k = refl
lt_int_trans (negsuc a) (negsuc b) (negsuc c) h k = ground arith

lt_int_asym : (a b : ℤ) → lt_int a b ≡ true → lt_int b a ≡ false
lt_int_asym (pos a) (pos b) h = ground arith
lt_int_asym (pos a) (negsuc b) h = cc
lt_int_asym (negsuc a) (pos b) h = refl
lt_int_asym (negsuc a) (negsuc b) h = ground arith

AllFrom-trans : (a b : ℤ) (ts : List Task) → lt_int b a ≡ false → AllFrom b ts → AllFrom a ts
AllFrom-trans a b [] h all = refl
AllFrom-trans a b (t ∷ ts) h (k, all) =
    (lt_int_trans a b t.priority h k, AllFrom-trans a b ts h all)

AllFrom-insert_behind :
    (a : ℤ) (t : Task) (ts : List Task)
    → lt_int t.priority a ≡ false
    → AllFrom a ts
    → AllFrom a (insert_behind t ts)
unfolding insert_behind
AllFrom-insert_behind a t [] h all = (h, refl)
AllFrom-insert_behind a t (u ∷ ts) h (k, all) = elim (Bool-cases (lt_int u.priority t.priority)) [
  | inl less ↦ rw less (k, AllFrom-insert_behind a t ts h all)
  | inr ge ↦ rw ge (h, (k, all))
]

insert_behind-IsSorted : (t : Task) (ts : List Task) → IsSorted ts → IsSorted (insert_behind t ts)
unfolding insert_behind
insert_behind-IsSorted t [] sorted = (refl, refl)
insert_behind-IsSorted t (u ∷ ts) (all, sorted) = elim (Bool-cases (lt_int u.priority t.priority)) [
  | inl less ↦ rw less (
    AllFrom-insert_behind u.priority t ts (lt_int_asym u.priority t.priority less) all,
    insert_behind-IsSorted t ts sorted,
  )
  | inr ge ↦ rw ge ((ge, AllFrom-trans t.priority u.priority ts ge all), (all, sorted))
]

-- Where the list of tasks is in the order of priority: `add_task` keeps it so, whether it gets memory
-- or not.
pub add_task-IsSorted :
    (got : Bool) (t : Task) (ts : List Task) → IsSorted ts → IsSorted (add_task got t ts)
unfolding add_task
add_task-IsSorted false t ts sorted = sorted
add_task-IsSorted true t [] sorted = (refl, refl)
add_task-IsSorted true t (u ∷ ts) (all, sorted) = elim (Bool-cases (lt_int u.priority t.priority)) [
  | inl less ↦ rw less (
    AllFrom-insert_behind u.priority t ts (lt_int_asym u.priority t.priority less) all,
    insert_behind-IsSorted t ts sorted,
  )
  | inr ge ↦ rw ge ((ge, AllFrom-trans t.priority u.priority ts ge all), (all, sorted))
]
