-- ===== src/Sched/Create.antt =====
-- The creation and the end of tasks in src/sched.c: `thread_create`, `sched_init` and
-- `kill_zombies`. What `alloc` returns is an argument.
use nycu_osc.Prelude.{
  ℕ, zero, suc, ◌+◌, ◌%◌, ◌^◌, Bool, Option, none, some, List, [], ◌∷◌, ◌==◌, if◌then◌else◌,
}
use nycu_osc.Prelude.Store.{update}
use nycu_osc.Vfs.System.{System, Driver}
use nycu_osc.Vfs.Open.{vfs_open}
use nycu_osc.Vfs.Boot.{uart_name}
use nycu_osc.Sched.{
  Sched, task_ready, task_running, set_state, add_ready, pop_thread_task, schedule,
}

abbrev pub default_priority : ℕ
default_priority = 10

abbrev pub thread_stack_size : ℕ
thread_stack_size = 0x1000

-- the fields of `struct ThreadTask` that the queues do not use; of `cpu_context` those that are not 0
pub record Thread : Type 0 where
  pub counter : ℕ
  pub priority : ℕ
  pub preempt_count : ℕ
  pub kernel_stack : ℕ
  pub user_stack : ℕ
  pub pending_sig : ℕ
  pub sig_handlers : ℕ → ℕ
  pub sig_frame : Option ℕ
  pub cwd : ℕ
  pub fd_table : ℕ → Option ℕ
  pub lr : ℕ
  pub sp : ℕ
  pub fp : ℕ

-- the queues, the tasks, `thread_cnt` and the files
pub record Threads (D : Type 0) : Type 0 where
  pub sched : Sched
  pub threads : ℕ → Thread
  pub thread_cnt : ℕ
  pub sys : System D

-- what the calls of `alloc` return, for the copies of paths and the handles of the n-th file too, and
-- the addresses of the default handlers
pub record Memory : Type 0 where
  pub task : Option ℕ
  pub kernel_stack : Option ℕ
  pub user_stack : Option ℕ
  pub sig_frame : Option ℕ
  pub handle : ℕ → Option ℕ
  pub copied : ℕ → Bool
  pub default_handler : ℕ
  pub default_sigkill_handler : ℕ

-- the loop over the handlers; `SIGKILL` is 9
unfoldable pub init_handlers : Memory → ℕ → ℕ
init_handlers a i = if i == 9 then a.default_sigkill_handler else a.default_handler

-- the next `n` of the three files from the descriptor `fd` on; `none` where `vfs_open` leaves C
unfoldable pub open_files :
    {D : Type 0}
    → ℕ
    → Memory
    → Driver D
    → ℕ
    → (ℕ → Option ℕ)
    → System D
    → Option ((ℕ → Option ℕ) × System D)
unfolding vfs_open
open_files zero a d fd table s = some (table, s)
open_files (suc n) a d fd table s = elim (vfs_open a.copied (a.handle fd) d (some uart_name) 0 s) [
  | none ↦ none
  | some (code, target, s₁) ↦ open_files n a d (fd + 1) (update table fd target) s₁
]

-- the fields of a new task with its stacks and files
abbrev pub fresh_thread : Memory → ℕ → ℕ → ℕ → ℕ → (ℕ → Option ℕ) → Thread
fresh_thread a kernel_stack user_stack root callback table = record {
  counter = default_priority;
  priority = default_priority;
  preempt_count = 1;
  kernel_stack = kernel_stack;
  user_stack = user_stack;
  pending_sig = 0;
  sig_handlers = init_handlers a;
  sig_frame = a.sig_frame;
  cwd = root;
  fd_table = table;
  lr = callback;
  sp = user_stack + thread_stack_size;
  fp = user_stack + thread_stack_size;
}

-- a task with its id, which is ready but in no queue yet
abbrev pub number_task : {D : Type 0} → ℕ → Threads D → Threads D
number_task task s = record s {
  sched = set_state task task_ready (record s.sched { id = update s.sched.id task s.thread_cnt });
  thread_cnt = (s.thread_cnt + 1) % 2 ^ 32;
}

-- the part of `thread_create` behind its allocations; `f` bounds the walk to the end of the queue
unfoldable pub start_task :
    {D : Type 0} → ℕ → Memory → Driver D → ℕ → ℕ → ℕ → ℕ → Threads D → Option (Threads D)
unfolding open_files
start_task f a d callback task kernel_stack user_stack s =
    elim (open_files 3 a d 0 (λ fd. none) s.sys) [
      | none ↦ none
      | some (table, sys) ↦ some (record s {
        sys = sys;
        threads =
            update s.threads task
              (fresh_thread a kernel_stack user_stack s.sys.root callback table);
        sched = add_ready f task s.sched;
      })
    ]

-- `thread_create`: the task, `none` for the -1 that stands for a failure; the whole is `none` where
-- `vfs_open` leaves C
unfoldable pub thread_create :
    {D : Type 0} → ℕ → Memory → Driver D → ℕ → Threads D → Option (Option ℕ × Threads D)
unfolding start_task
thread_create f a d callback s = elim a.task [
  | none ↦ some (none, s)
  | some task ↦ elim a.kernel_stack [
    | none ↦ some (none, number_task task s)
    | some kernel_stack ↦ elim a.user_stack [
      | none ↦ some (none, number_task task s)
      | some user_stack ↦
          elim (start_task f a d callback task kernel_stack user_stack (number_task task s)) [
            | none ↦ none
            | some s₁ ↦ some (some task, s₁)
          ]
    ]
  ]
]

-- no queue has a task
abbrev pub no_tasks : Sched → Sched
no_tasks s = record s { ready_queue = none; wait_queue = none; zombie_queue = none }

-- `sched_init`: `idle_task` is what its own call of `alloc` returns, `idle` the address of the function
unfoldable pub sched_init :
    {D : Type 0} → ℕ → Memory → Driver D → Option ℕ → ℕ → Threads D → Option (Threads D)
unfolding thread_create
sched_init f a d idle_task idle s =
    let s₁ = record s { sched = no_tasks s.sched; thread_cnt = 0 } in
    elim idle_task [
      | none ↦ some s₁
      | some task ↦ elim (thread_create f a d idle s₁) [
        | none ↦ none
        | some (created, s₂) ↦ some (record s₂ {
          sched = set_state task task_running (record s₂.sched { current = some task });
        })
      ]
    ]

-- the loop of `kill_zombies`, in a number of rounds: the tasks that are freed, in their order
unfoldable pub kill_zombies : ℕ → Sched → List ℕ × Sched
unfolding pop_thread_task
kill_zombies zero s = ([], s)
kill_zombies (suc f) s =
    let (zombie, rest) = pop_thread_task s.zombie_queue s.next in
    let (freed, s₁) = kill_zombies f (record s { zombie_queue = rest }) in
    elim zombie [ none ↦ ([], s) | some task ↦ (task ∷ freed, s₁) ]

-- one round of `idle`; `f` bounds the length of the queues
unfoldable pub idle_round : ℕ → Sched → Option Sched
unfolding kill_zombies schedule
idle_round f s = schedule f (kill_zombies f s).1
