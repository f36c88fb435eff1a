-- ===== src/Sched/Inv.antt =====
-- What holds of the queues of src/sched.c between two operations.
use nycu_osc.Prelude.{
  ℕ, ◌≤◌, ◌≡◌, sym, ap, ◌∙◌, Option, List, [], ◌∷◌, ◌++◌, arith, length, ◌≢◌, inl, inr, Bool-cases,
}
use nycu_osc.Prelude.Store.{update_ne, ◌∈◌, ◌∉◌, has, erase, has-append, mem_ne, mem_of_mem-erase}
use nycu_osc.Prelude.Links.{Links, IsQueue}
use nycu_osc.Sched.{
  TaskState, task_ready, task_blocked, task_exited, Sched, add_thread_task, rm_thread_task,
  add_ready, add_wait, add_zombie, set_state, retire,
}
use nycu_osc.Sched.Queue.{add_thread_task-IsQueue}
use nycu_osc.Sched.Remove.{
  IsQueue-agree, rm_thread_task-IsQueue, add_thread_task_outside, not-mem-erase_self,
}

-- the tasks of a list are in a state
abbrev pub AllIn : Sched → TaskState → List ℕ → Type 0
AllIn s v xs = (a : ℕ) → a ∈ xs → s.state a ≡ v

-- The three queues hold the tasks `r`, `w` and `z`, each in the state that goes with its queue.
pub record Queues (s : Sched) (r w z : List ℕ) : Type 0 where
  pub ready : IsQueue s.next s.ready_queue r
  pub wait : IsQueue s.next s.wait_queue w
  pub zombie : IsQueue s.next s.zombie_queue z
  pub all_ready : AllIn s task_ready r
  pub all_blocked : AllIn s task_blocked w
  pub all_exited : AllIn s task_exited z

-- a task in none of the queues
abbrev pub IsOut : ℕ → List ℕ → List ℕ → List ℕ → Type 0
IsOut a r w z = (a ∉ r) × (a ∉ w) × (a ∉ z)

-- lists that share no task
abbrev pub Disjoint : List ℕ → List ℕ → Type 0
Disjoint xs ys = (a : ℕ) → a ∈ xs → a ∉ ys

-- Since the states differ, no task is in two queues.
pub apart :
    (s : Sched) (u v : TaskState) (xs ys : List ℕ)
    → AllIn s u xs
    → AllIn s v ys
    → u ≢ v
    → Disjoint xs ys
apart s u v xs ys hx hy ne a m = elim (Bool-cases (has a ys)) [
  | inl m' ↦ absurd (ne (sym (hx a m) ∙ hy a m'))
  | inr out ↦ out
]

AllIn-set_state :
    (s : Sched) (v u : TaskState) (xs : List ℕ) (t : ℕ)
    → t ∉ xs
    → AllIn s v xs
    → AllIn (set_state t u s) v xs
AllIn-set_state s v u xs t out h a m = update_ne s.state t a u (mem_ne a t xs m out) ∙ h a m

AllIn-snoc :
    (s : Sched) (v : TaskState) (xs : List ℕ) (t : ℕ)
    → s.state t ≡ v
    → AllIn s v xs
    → AllIn s v (xs ++ (t ∷ []))
AllIn-snoc s v xs t st h a m = elim (Bool-cases (has a xs)) [
  | inl m' ↦ h a m'
  | inr out ↦
      let e : a ≡ t = ground (arith, sym (has-append a xs (t ∷ [])) ∙ m, out) in ap s.state e ∙ st
]

AllIn-erase :
    (s : Sched) (v : TaskState) (xs : List ℕ) (t : ℕ) → AllIn s v xs → AllIn s v (erase t xs)
AllIn-erase s v xs t h a m = h a (mem_of_mem-erase a t xs m)

-- An addition to one queue leaves another, and so does a removal.
add-IsQueue_other :
    (f : ℕ) (next : Links) (queue head : Option ℕ) (xs ys : List ℕ) (t : ℕ)
    → IsQueue next queue xs
    → length xs ≤ f
    → IsQueue next head ys
    → Disjoint ys xs
    → t ∉ ys
    → IsQueue (add_thread_task f queue t next).1 head ys
add-IsQueue_other f next queue head xs ys t q h other dis out =
    IsQueue-agree next (add_thread_task f queue t next).1 head ys
      (λ a m.
        add_thread_task_outside f next queue xs t q h a
          (let e = mem_ne a t ys m out in let o = dis a m in ground arith))
      other

rm-IsQueue_other :
    (f : ℕ) (next : Links) (queue head : Option ℕ) (xs ys : List ℕ) (t : ℕ)
    → IsQueue next queue xs
    → length xs ≤ f
    → IsQueue next head ys
    → Disjoint ys xs
    → IsQueue (rm_thread_task f queue t next).1 head ys
rm-IsQueue_other f next queue head xs ys t q h other dis =
    IsQueue-agree next (rm_thread_task f queue t next).1 head ys
      (λ a m. (rm_thread_task-IsQueue f t queue xs next q h).1 a (dis a m)) other

module _ (f : ℕ) (s : Sched) (r w z : List ℕ) (t : ℕ) (h : Queues s r w z) where
  wait-ready : Disjoint w r
  wait-ready = apart s task_blocked task_ready w r h.all_blocked h.all_ready (λ e. cc)

  zombie-ready : Disjoint z r
  zombie-ready = apart s task_exited task_ready z r h.all_exited h.all_ready (λ e. cc)

  pub ready-wait : Disjoint r w
  ready-wait = apart s task_ready task_blocked r w h.all_ready h.all_blocked (λ e. cc)

  zombie-wait : Disjoint z w
  zombie-wait = apart s task_exited task_blocked z w h.all_exited h.all_blocked (λ e. cc)

  pub ready-zombie : Disjoint r z
  ready-zombie = apart s task_ready task_exited r z h.all_ready h.all_exited (λ e. cc)

  pub wait-zombie : Disjoint w z
  wait-zombie = apart s task_blocked task_exited w z h.all_blocked h.all_exited (λ e. cc)

  pub set_state-Queues : (v : TaskState) → IsOut t r w z → Queues (set_state t v s) r w z
  set_state-Queues v (or, ow, oz) = record {
    ready = h.ready;
    wait = h.wait;
    zombie = h.zombie;
    all_ready = AllIn-set_state s task_ready v r t or h.all_ready;
    all_blocked = AllIn-set_state s task_blocked v w t ow h.all_blocked;
    all_exited = AllIn-set_state s task_exited v z t oz h.all_exited;
  }

  -- A task in no queue goes to the end of the ready queue, where its state is that of the queue.
  pub add_ready-Queues :
      IsOut t r w z
      → s.state t ≡ task_ready
      → length r ≤ f
      → Queues (add_ready f t s) (r ++ (t ∷ [])) w z
  unfolding add_ready
  add_ready-Queues (or, ow, oz) st enough = record {
    ready = add_thread_task-IsQueue f s.next s.ready_queue r t h.ready or enough;
    wait =
        add-IsQueue_other f s.next s.ready_queue s.wait_queue r w t h.ready enough h.wait wait-ready
          ow;
    zombie =
        add-IsQueue_other f s.next s.ready_queue s.zombie_queue r z t h.ready enough h.zombie
          zombie-ready oz;
    all_ready = AllIn-snoc s task_ready r t st h.all_ready;
    all_blocked = h.all_blocked;
    all_exited = h.all_exited;
  }

  pub add_wait-Queues :
      IsOut t r w z
      → s.state t ≡ task_blocked
      → length w ≤ f
      → Queues (add_wait f t s) r (w ++ (t ∷ [])) z
  unfolding add_wait
  add_wait-Queues (or, ow, oz) st enough = record {
    ready =
        add-IsQueue_other f s.next s.wait_queue s.ready_queue w r t h.wait enough h.ready ready-wait
          or;
    wait = add_thread_task-IsQueue f s.next s.wait_queue w t h.wait ow enough;
    zombie =
        add-IsQueue_other f s.next s.wait_queue s.zombie_queue w z t h.wait enough h.zombie
          zombie-wait oz;
    all_ready = h.all_ready;
    all_blocked = AllIn-snoc s task_blocked w t st h.all_blocked;
    all_exited = h.all_exited;
  }

  pub add_zombie-Queues :
      IsOut t r w z
      → s.state t ≡ task_exited
      → length z ≤ f
      → Queues (add_zombie f t s) r w (z ++ (t ∷ []))
  unfolding add_zombie
  add_zombie-Queues (or, ow, oz) st enough = record {
    ready =
        add-IsQueue_other f s.next s.zombie_queue s.ready_queue z r t h.zombie enough h.ready
          ready-zombie or;
    wait =
        add-IsQueue_other f s.next s.zombie_queue s.wait_queue z w t h.zombie enough h.wait
          wait-zombie ow;
    zombie = add_thread_task-IsQueue f s.next s.zombie_queue z t h.zombie oz enough;
    all_ready = h.all_ready;
    all_blocked = h.all_blocked;
    all_exited = AllIn-snoc s task_exited z t st h.all_exited;
  }

  -- the task has left the ready queue and the wait queue
  pub retire-Queues :
      t ∉ z
      → length r ≤ f
      → length w ≤ f
      → Queues (retire f t s) (erase t r) (erase t w) z × IsOut t (erase t r) (erase t w) z
  unfolding retire
  retire-Queues oz hr hw =
      let r₁ = rm_thread_task f s.ready_queue t s.next in
      let ready₁ = (rm_thread_task-IsQueue f t s.ready_queue r s.next h.ready hr).0 in
      let wait₁ =
        rm-IsQueue_other f s.next s.ready_queue s.wait_queue r w t h.ready hr h.wait wait-ready in
      let zombie₁ =
        rm-IsQueue_other f s.next s.ready_queue s.zombie_queue r z t h.ready hr h.zombie
          zombie-ready in
      let or = not-mem-erase_self s.next s.ready_queue r t h.ready in
      let ow = not-mem-erase_self s.next s.wait_queue w t h.wait in
      (
        record {
          ready =
              rm-IsQueue_other f r₁.1 s.wait_queue r₁.0 w (erase t r) t wait₁ hw ready₁
                (λ a m. ready-wait a (mem_of_mem-erase a t r m));
          wait = (rm_thread_task-IsQueue f t s.wait_queue w r₁.1 wait₁ hw).0;
          zombie =
              rm-IsQueue_other f r₁.1 s.wait_queue s.zombie_queue w z t wait₁ hw zombie₁
                zombie-wait;
          all_ready =
              AllIn-set_state s task_ready task_exited (erase t r) t or
                (AllIn-erase s task_ready r t h.all_ready);
          all_blocked =
              AllIn-set_state s task_blocked task_exited (erase t w) t ow
                (AllIn-erase s task_blocked w t h.all_blocked);
          all_exited = AllIn-set_state s task_exited task_exited z t oz h.all_exited;
        },
        (or, ow, oz),
      )
