-- ===== src/Sched/Admit.antt =====
-- The start of a task by `thread_create` of src/sched.c as an operation of the abstract scheduler.
use nycu_osc.Prelude.{
  ℕ, ◌≡◌, refl, sym, ap, ◌∙◌, false, Option, none, some, some_inj, [], ◌∷◌, ◌++◌, ◌==◌,
}
use nycu_osc.Prelude.Store.{update, update_self, update_ne}
use nycu_osc.Sched.{task_ready, Sched, add_ready, set_state}
use nycu_osc.Sched.Inv.{Queues, IsOut, add_ready-Queues, set_state-Queues}
use nycu_osc.Sched.Plan.{Plan, Implements, Covers}
use nycu_osc.Sched.Queue.{not_mem_snoc}
use nycu_osc.Vfs.System.{System, Driver}
use nycu_osc.Sched.Create.{
  Threads, Memory, thread_create, start_task, number_task, open_files, fresh_thread,
}

-- a task with a new id, as `thread_create` and `sys_fork` put it into the ready queue
abbrev pub admit : ℕ → ℕ → ℕ → Sched → Sched
admit f t id s = add_ready f t (set_state t task_ready (record s { id = update s.id t id }))

abbrev pub plan_admit : ℕ → Plan → Plan
plan_admit t p = record p { ready = p.ready ++ (t ∷ []) }

-- a task that is in no queue and not the current one
abbrev pub IsFresh : ℕ → Plan → Type 0
IsFresh t p = IsOut t p.ready p.wait p.zombie × ((p.task == t) ≡ false)

pub admit-Implements :
    (f t id : ℕ) (s : Sched) (p : Plan)
    → Implements s p
    → Covers f p
    → IsFresh t p
    → Implements (admit f t id s) (plan_admit t p)
unfolding add_ready
admit-Implements f t id s p h (cr, cw, cz) (fresh, ne) =
    let s₀ = record s { id = update s.id t id } in
    let (or, ow, oz) = h.out in
    let q : Queues s₀ p.ready p.wait p.zombie = record {
      ready = h.queues.ready;
      wait = h.queues.wait;
      zombie = h.queues.zombie;
      all_ready = h.queues.all_ready;
      all_blocked = h.queues.all_blocked;
      all_exited = h.queues.all_exited;
    } in
    record {
      queues =
          add_ready-Queues f (set_state t task_ready s₀) p.ready p.wait p.zombie t
            (set_state-Queues f s₀ p.ready p.wait p.zombie t q task_ready fresh) fresh
            (update_self s.state t task_ready) cr;
      current = h.current;
      out = (not_mem_snoc p.task t p.ready or ne, ow, oz);
      state = update_ne s.state t p.task task_ready ne ∙ h.state;
    }

module _ {D : Type 0} (f : ℕ) (a : Memory) (d : Driver D) (callback : ℕ) where
  start_task-sched :
      (t kernel_stack user_stack : ℕ) (s s₁ : Threads D)
      → start_task f a d callback t kernel_stack user_stack s ≡ some s₁
      → s₁.sched ≡ add_ready f t s.sched
  unfolding start_task
  start_task-sched t kernel_stack user_stack s s₁ e = go (open_files 3 a d 0 (λ fd. none) s.sys) e
    where
      go :
          (o : Option ((ℕ → Option ℕ) × System D))
          → elim o as (λ x. Option (Threads D)) [
            | none ↦ none
            | some (table, sys) ↦ some (record s {
              sys = sys;
              threads =
                  update s.threads t
                    (fresh_thread a kernel_stack user_stack s.sys.root callback table);
              sched = add_ready f t s.sched;
            })
          ]
            ≡ some s₁
          → s₁.sched ≡ add_ready f t s.sched
      go none e = cc
      go (some (table, sys)) e = ap Threads.sched (sym (some_inj e))

  -- A task that `thread_create` returns has the next number and is the last ready one.
  pub thread_create-admit :
      (t : ℕ) (s s₁ : Threads D)
      → thread_create f a d callback s ≡ some (some t, s₁)
      → s₁.sched ≡ admit f t s.thread_cnt s.sched
  unfolding thread_create
  thread_create-admit t s s₁ e = with_task a.task e
    where
      finish :
          (task kernel_stack user_stack : ℕ) (o : Option (Threads D))
          → start_task f a d callback task kernel_stack user_stack (number_task task s) ≡ o
          → elim o as (λ x. Option (Option ℕ × Threads D)) [
            | none ↦ none
            | some s₂ ↦ some (some task, s₂)
          ]
            ≡ some (some t, s₁)
          → s₁.sched ≡ admit f t s.thread_cnt s.sched
      finish task ks us none h e = cc
      finish task ks us (some s₂) h e =
          let same_task : task ≡ t =
            some_inj (ap (λ (r : Option ℕ × Threads D). r.0) (some_inj e)) in
          let same : s₂ ≡ s₁ = ap (λ (r : Option ℕ × Threads D). r.1) (some_inj e) in
          ap Threads.sched (sym same)
          ∙ start_task-sched task ks us (number_task task s) s₂ h
          ∙ ap (λ u. admit f u s.thread_cnt s.sched) same_task

      with_user :
          (task kernel_stack : ℕ) (o : Option ℕ)
          → elim o as (λ x. Option (Option ℕ × Threads D)) [
            | none ↦ some (none, number_task task s)
            | some user_stack ↦
                elim (start_task f a d callback task kernel_stack user_stack (number_task task s)) [
                  | none ↦ none
                  | some s₂ ↦ some (some task, s₂)
                ]
          ]
            ≡ some (some t, s₁)
          → s₁.sched ≡ admit f t s.thread_cnt s.sched
      with_user task ks none e = cc
      with_user task ks (some us) e =
          finish task ks us (start_task f a d callback task ks us (number_task task s)) refl e

      with_kernel :
          (task : ℕ) (o : Option ℕ)
          → elim o as (λ x. Option (Option ℕ × Threads D)) [
            | none ↦ some (none, number_task task s)
            | some kernel_stack ↦ elim a.user_stack [
              | none ↦ some (none, number_task task s)
              | some user_stack ↦
                  elim (start_task f a d callback task kernel_stack user_stack
                    (number_task task s)) [ none ↦ none | some s₂ ↦ some (some task, s₂) ]
            ]
          ]
            ≡ some (some t, s₁)
          → s₁.sched ≡ admit f t s.thread_cnt s.sched
      with_kernel task none e = cc
      with_kernel task (some ks) e = with_user task ks a.user_stack e

      with_task :
          (o : Option ℕ)
          → elim o as (λ x. Option (Option ℕ × Threads D)) [
            | none ↦ some (none, s)
            | some task ↦ elim a.kernel_stack [
              | none ↦ some (none, number_task task s)
              | some kernel_stack ↦ elim a.user_stack [
                | none ↦ some (none, number_task task s)
                | some user_stack ↦
                    elim (start_task f a d callback task kernel_stack user_stack
                      (number_task task s)) [ none ↦ none | some s₂ ↦ some (some task, s₂) ]
              ]
            ]
          ]
            ≡ some (some t, s₁)
          → s₁.sched ≡ admit f t s.thread_cnt s.sched
      with_task none e = cc
      with_task (some task) e = with_kernel task a.kernel_stack e
