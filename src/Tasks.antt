-- ===== src/Tasks.antt =====
-- The deferred tasks of src/tasks.c: the list that `task_head` heads, in the order of priority. The
-- code keeps a link back from each task as well, which it never follows.
pub mod Order
pub mod Irq
use nycu_osc.Prelude.{
  ℕ, ◌≡◌, refl, Bool, true, false, Option, none, some, List, [], ◌∷◌, ltb, if◌then◌else◌, not, ◌⊎◌,
  inl, inr, Bool-cases, arith,
}
use nycu_osc.Prelude.Int.{ℤ, pos, negsuc}

-- a lower number is a higher priority; a callback is named by its address
pub record Task : Type 0 where
  pub callback : ℕ
  pub priority : ℤ

-- the test `<` on `int`
abbrev pub lt_int : ℤ → ℤ → Bool
lt_int (pos a) (pos b) = ltb a b
lt_int (pos a) (negsuc b) = false
lt_int (negsuc a) (pos b) = true
lt_int (negsuc a) (negsuc b) = ltb b a

-- the walk of `add_task` behind a task that comes before the new one
unfoldable pub insert_behind : Task → List Task → List Task
insert_behind t [] = t ∷ []
insert_behind t (next ∷ rest) =
    let more = insert_behind t rest in
    if lt_int next.priority t.priority then next ∷ more else t ∷ next ∷ rest

-- `add_task`, where `got` says whether `alloc` returned memory
unfoldable pub add_task : Bool → Task → List Task → List Task
unfolding insert_behind
add_task false t tasks = tasks
add_task true t [] = t ∷ []
add_task true t (head ∷ rest) =
    if lt_int head.priority t.priority then head ∷ insert_behind t rest else t ∷ head ∷ rest

-- the list of tasks, and the state of the other parts
pub record Deferred (S : Type 0) : Type 0 where
  pub tasks : List Task
  pub rest : S

-- The first of some tasks runs, and sees the list without it; `none` where there is none, which the
-- code reads through. `call` is what the callback at an address does.
unfoldable pub run_first :
    {S : Type 0} → (ℕ → Deferred S → Deferred S) → List Task → Deferred S → Option (Deferred S)
run_first call [] s = none
run_first call (curr_task ∷ rest) s = some (call curr_task.callback (record s { tasks = rest }))

-- `execute_task`
unfoldable pub execute_task :
    {S : Type 0} → (ℕ → Deferred S → Deferred S) → Deferred S → Option (Deferred S)
unfolding run_first
execute_task call s = run_first call s.tasks s
