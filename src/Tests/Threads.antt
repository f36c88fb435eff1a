-- ===== src/Tests/Threads.antt =====
-- The scheduler of src/sched.c with three tasks.
use nycu_osc.Prelude.{
  inr, ◌+◌, ◌%◌, ◌≡◌, refl, none, some, [], ◌∷◌, ◌++◌, ◌==◌, if◌then◌else◌, arith,
}
use nycu_osc.Sched.Create.{Thread}
use nycu_osc.Syscall.Fork.{Forks, sys_fork}
use nycu_osc.Syscall.Fork.Forked.{Forked, all_blocks, sys_fork_lem}
use nycu_osc.Prelude.Links.{Links, IsQueue}
use nycu_osc.Sched.{
  switch_to, add_ready, set_state, exit, kill, task_exited, task_ready, task_running, Sched,
  pop_thread_task, schedule,
}
use nycu_osc.Prelude.Int.{pos}
use nycu_osc.Sched.Create.{kill_zombies}
use nycu_osc.Sched.Plan.{Plan, is_running, plan_schedule, plan_exit, Implements, Covers}
use nycu_osc.Sched.Refine.{schedule-Implements, exit-Implements}
use nycu_osc.Sched.Kill.{plan_kill, plan_bury, kill-Implements, kill_zombies-Implements}
use nycu_osc.Sched.Reach.{Leaves, Steps-Leaves, here, more, buries, reschedules, IsEnough-of}

-- task 1 is in front of task 2
abbrev links : Links
links t = if t == 1 then some 2 else none

one_two-IsQueue : IsQueue links (some 1) (1 ∷ 2 ∷ [])
one_two-IsQueue = (refl, refl, (refl, refl, refl))

-- task 3 runs, tasks 1 and 2 are ready
abbrev three_tasks : Sched
three_tasks = record {
  ready_queue = some 1;
  wait_queue = none;
  zombie_queue = none;
  next = links;
  state = λ t. if t == 3 then task_running else task_ready;
  id = λ t. t;
  current = some 3;
}

abbrev three_tasks_plan : Plan
three_tasks_plan = record {
  task = 3;
  status = is_running;
  ready = 1 ∷ 2 ∷ [];
  wait = [];
  zombie = [];
}

three_tasks-Implements : Implements three_tasks three_tasks_plan
three_tasks-Implements = record {
  queues = record {
    ready = one_two-IsQueue;
    wait = refl;
    zombie = refl;
    all_ready = λ a m. ground arith;
    all_blocked = λ a m. cc;
    all_exited = λ a m. cc;
  };
  current = refl;
  out = (refl, refl, refl);
  state = refl;
}

three_tasks-Covers : Covers 2 three_tasks_plan
three_tasks-Covers = (omega arith, omega arith, omega arith)

schedule-Implements_example :
    (s : Sched) × (schedule 2 three_tasks ≡ some s) × Implements s (plan_schedule three_tasks_plan)
schedule-Implements_example =
    schedule-Implements 2 three_tasks three_tasks_plan three_tasks-Implements three_tasks-Covers

exit-Implements_example :
    (s : Sched) × (exit 2 three_tasks ≡ some s) × Implements s (plan_exit three_tasks_plan)
exit-Implements_example =
    exit-Implements 2 three_tasks three_tasks_plan three_tasks-Implements three_tasks-Covers

-- the task with the id 2 ends
kill-Implements_example :
    (s : Sched) × (kill 2 2 three_tasks ≡ (pos 0, some s))
    × Implements s (plan_kill 2 three_tasks_plan)
kill-Implements_example =
    kill-Implements 2 2 three_tasks three_tasks_plan three_tasks-Implements three_tasks-Covers

-- task 2 is a zombie
abbrev one_zombie : Sched
one_zombie = record {
  ready_queue = some 1;
  wait_queue = none;
  zombie_queue = some 2;
  next = λ t. none;
  state = λ t. if t == 3 then task_running else if t == 2 then task_exited else task_ready;
  id = λ t. t;
  current = some 3;
}

abbrev one_zombie_plan : Plan
one_zombie_plan = record {
  task = 3;
  status = is_running;
  ready = 1 ∷ [];
  wait = [];
  zombie = 2 ∷ [];
}

one_zombie-Implements : Implements one_zombie one_zombie_plan
one_zombie-Implements = record {
  queues = record {
    ready = (refl, refl, refl);
    wait = refl;
    zombie = (refl, refl, refl);
    all_ready = λ a m. ground arith;
    all_blocked = λ a m. cc;
    all_exited = λ a m. ground arith;
  };
  current = refl;
  out = (refl, refl, refl);
  state = refl;
}

kill_zombies-Implements_example :
    (s : Sched) × (kill_zombies 3 one_zombie ≡ (2 ∷ [], s))
    × Implements s (plan_bury one_zombie_plan)
kill_zombies-Implements_example =
    kill_zombies-Implements 3 one_zombie one_zombie_plan one_zombie-Implements (omega arith)

-- the zombie is freed
abbrev none_left : Sched
none_left = record one_zombie { zombie_queue = none }

abbrev none_left_plan : Plan
none_left_plan = record one_zombie_plan { zombie = [] }

none_left-Implements : Implements none_left none_left_plan
none_left-Implements = record {
  queues = record {
    ready = (refl, refl, refl);
    wait = refl;
    zombie = refl;
    all_ready = λ a m. ground arith;
    all_blocked = λ a m. cc;
    all_exited = λ a m. cc;
  };
  current = refl;
  out = (refl, refl, refl);
  state = refl;
}

-- and task 1 runs
abbrev one_runs : Sched
one_runs = switch_to 1 (add_ready 3 3 (set_state 3 task_ready none_left))

Steps-Leaves_example : Leaves one_zombie_plan (([] ++ (2 ∷ [])) ++ []) one_runs
unfolding kill_zombies pop_thread_task schedule
Steps-Leaves_example =
    Steps-Leaves 3 one_zombie one_runs (([] ++ (2 ∷ [])) ++ []) one_zombie_plan
      one_zombie-Implements
      (more
        (more here (
          buries
            (IsEnough-of 3 one_zombie one_zombie_plan one_zombie-Implements
              (omega arith, omega arith, omega arith) (omega arith))
            refl))
        (reschedules
          (IsEnough-of 3 none_left none_left_plan none_left-Implements
            (omega arith, omega arith, omega arith) (omega arith))
          refl refl))

-- a thread with its stacks at 0x10000 and 0x20000
abbrev parent_thread : Thread
parent_thread = record {
  counter = 10;
  priority = 10;
  preempt_count = 1;
  kernel_stack = 0x10000;
  user_stack = 0x20000;
  pending_sig = 0;
  sig_handlers = λ sig. 0;
  sig_frame = none;
  cwd = 0;
  fd_table = λ fd. none;
  lr = 0x80000;
  sp = 0x11000;
  fp = 0x11000;
}

abbrev three_forks : Forks
three_forks = record {
  threads = λ t. parent_thread;
  saved = λ t i. 0;
  sched = three_tasks;
  thread_cnt = 4;
  mem = λ a. a % 256;
}

-- task 5 is the child
sys_fork_lem_example :
    Forked 5 0x30000 0x40000 100 three_forks three_tasks_plan
      (sys_fork 2 (all_blocks 5 0x30000 0x40000) (0x10000 + 100) 0x10040 0x90000 three_forks)
sys_fork_lem_example =
    sys_fork_lem 2 5 0x30000 0x40000 100 0x10040 0x90000 three_forks three_tasks_plan
      three_tasks-Implements three_tasks-Covers ((refl, refl, refl), refl)
      (record {
        users = inr (omega arith);
        kernels = inr (omega arith);
        user_kernel = inr (omega arith);
        user_parent = inr (omega arith);
        fits = omega arith;
        low = (omega arith, omega arith);
      })
      (omega arith)
