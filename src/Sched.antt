-- ===== src/Sched.antt =====
-- The task queues and the scheduler of src/sched.c: singly linked lists in a shared store of `next`
-- pointers. Interrupt masks and the saved registers are not part of the state.
pub mod Queue
pub mod Remove
pub mod Switch
pub mod Create
pub mod Inv
pub mod Plan
pub mod Refine
pub mod Kill
pub mod Admit
pub mod Reach
use nycu_osc.Prelude.{
  ℕ, zero, suc, Bool, true, false, Option, none, some, List, [], ◌∷◌, ◌==◌, if◌then◌else◌,
}
use nycu_osc.Prelude.Int.{ℤ, pos, negsuc}
use nycu_osc.Prelude.Store.{update}
use nycu_osc.Prelude.Links.{Links}

-- the values of `state`; `task_invalid` stands for any other
pub data TaskState : Type 0 where
  task_ready : TaskState
  task_running : TaskState
  task_blocked : TaskState
  task_exited : TaskState
  task_invalid : TaskState

-- the loop of `add_thread_task`, in a number of rounds: the last task of the queue
unfoldable pub last_task : ℕ → Links → ℕ → ℕ
last_task zero next current = current
last_task (suc f) next current = elim (next current) [
  | none ↦ current
  | some task ↦ last_task f next task
]

-- `add_thread_task`: the queue and the links
unfoldable pub add_thread_task : ℕ → Option ℕ → ℕ → Links → Option ℕ × Links
unfolding last_task
add_thread_task f none task next = (some task, update next task none)
add_thread_task f (some head) task next =
    (some head, update (update next (last_task f next head) (some task)) task none)

-- `pop_thread_task`: the task and the queue
unfoldable pub pop_thread_task : Option ℕ → Links → Option ℕ × Option ℕ
pop_thread_task none next = (none, none)
pop_thread_task (some task) next = (some task, next task)

-- the unlinking in `rm_thread_task`, with the task before
unfoldable pub unlink : Option ℕ → ℕ → Option ℕ → Links → Option ℕ × Links
unlink none current queue next = (next current, next)
unlink (some prev) current queue next = (queue, update next prev (next current))

-- the loop of `rm_thread_task`, in a number of rounds
unfoldable pub rm_loop : ℕ → ℕ → Option ℕ → Option ℕ → Option ℕ → Links → Option ℕ × Links
unfolding unlink
rm_loop zero task prev current queue next = (queue, next)
rm_loop (suc f) task prev none queue next = (queue, next)
rm_loop (suc f) task prev (some current) queue next =
    let rest = rm_loop f task (some current) (next current) queue next in
    if current == task then unlink prev current queue next else rest

-- `rm_thread_task`
unfoldable pub rm_thread_task : ℕ → Option ℕ → ℕ → Links → Option ℕ × Links
unfolding rm_loop
rm_thread_task f queue task next = rm_loop f task none queue queue next

-- the queues, the tasks' `id`, `state` and `next`, and what `get_current` returns
pub record Sched : Type 0 where
  pub ready_queue : Option ℕ
  pub wait_queue : Option ℕ
  pub zombie_queue : Option ℕ
  pub next : Links
  pub state : ℕ → TaskState
  pub id : ℕ → ℕ
  pub current : Option ℕ

unfoldable pub add_ready : ℕ → ℕ → Sched → Sched
unfolding add_thread_task
add_ready f task s =
    let r = add_thread_task f s.ready_queue task s.next in
    record s { ready_queue = r.0; next = r.1 }

unfoldable pub add_wait : ℕ → ℕ → Sched → Sched
unfolding add_thread_task
add_wait f task s =
    let r = add_thread_task f s.wait_queue task s.next in record s { wait_queue = r.0; next = r.1 }

unfoldable pub add_zombie : ℕ → ℕ → Sched → Sched
unfolding add_thread_task
add_zombie f task s =
    let r = add_thread_task f s.zombie_queue task s.next in
    record s { zombie_queue = r.0; next = r.1 }

abbrev pub set_state : ℕ → TaskState → Sched → Sched
set_state task v s = record s { state = update s.state task v }

-- where the task that gives up the processor goes, `none` in an invalid state
unfoldable pub put_back : ℕ → ℕ → TaskState → Sched → Option Sched
unfolding add_ready add_wait add_zombie
put_back f prev task_ready s = some s
put_back f prev task_running s = some (add_ready f prev (set_state prev task_ready s))
put_back f prev task_blocked s = some (add_wait f prev s)
put_back f prev task_exited s = some (add_zombie f prev s)
put_back f prev task_invalid s = none

-- the first ready task, `head`, runs: `pop_thread_task` and `cpu_switch_to`
unfoldable pub switch_to : ℕ → Sched → Sched
unfolding pop_thread_task
switch_to head s =
    let running = set_state head task_running s in
    let r = pop_thread_task running.ready_queue running.next in
    record running { ready_queue = r.1; current = r.0 }

-- whether the first ready task is the current one
abbrev pub is_task : ℕ → Option ℕ → Bool
is_task prev none = false
is_task prev (some t) = t == prev

-- the part of `schedule` from the first ready task `head` on
unfoldable pub yield_to : ℕ → ℕ → ℕ → Sched → Option Sched
unfolding put_back switch_to
yield_to f prev head s = if head == prev then some s else elim (put_back f prev (s.state prev) s) [
  | none ↦ some s
  | some s' ↦ some (switch_to head s')
]

-- the cases of `schedule`, by `get_current()` and `ready_queue`; `none` where it writes through a null
-- queue
unfoldable pub schedule_cases : ℕ → Sched → Option ℕ → Option ℕ → Option Sched
unfolding yield_to
schedule_cases f s none none = none
schedule_cases f s none (some head) =
    some (record (set_state head task_running s) { current = some head })
schedule_cases f s (some prev) none = some s
schedule_cases f s (some prev) (some head) = yield_to f prev head s

-- `schedule`; `f` bounds the walk to the end of a queue
unfoldable pub schedule : ℕ → Sched → Option Sched
unfolding schedule_cases
schedule f s = schedule_cases f s s.current s.ready_queue

-- both removals of `_exit` and `_kill`, and the new state
unfoldable pub retire : ℕ → ℕ → Sched → Sched
unfolding rm_thread_task
retire f task s =
    let r = rm_thread_task f s.ready_queue task s.next in
    let w = rm_thread_task f s.wait_queue task r.1 in
    set_state task task_exited (record s { ready_queue = r.0; wait_queue = w.0; next = w.1 })

-- `_exit`
unfoldable pub exit : ℕ → Sched → Option Sched
unfolding retire schedule
exit f s = elim s.current [ none ↦ some s | some curr ↦ schedule f (retire f curr s) ]

-- a loop of `get_thread_task_by_id`, in a number of rounds
unfoldable pub find_task : ℕ → ℕ → Option ℕ → Sched → Option ℕ
find_task zero pid current s = none
find_task (suc f) pid none s = none
find_task (suc f) pid (some task) s =
    let rest = find_task f pid (s.next task) s in if s.id task == pid then some task else rest

-- `get_thread_task_by_id`
unfoldable pub get_thread_task_by_id : ℕ → ℕ → Sched → Option ℕ
unfolding find_task
get_thread_task_by_id f pid s = elim (find_task f pid s.ready_queue s) [
  | some task ↦ some task
  | none ↦ find_task f pid s.wait_queue s
]

-- `_kill`: the code and the state
unfoldable pub kill : ℕ → ℕ → Sched → ℤ × Option Sched
unfolding get_thread_task_by_id retire schedule
kill f pid s = elim (get_thread_task_by_id f pid s) [
  | none ↦ (negsuc 0, some s)
  | some task ↦
      if is_task task s.current
      then (pos 0, schedule f (retire f task s))
      else (pos 0, some (add_zombie f task (retire f task s)))
]
