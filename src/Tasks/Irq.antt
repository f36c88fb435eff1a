-- ===== src/Tasks/Irq.antt =====
-- The interrupts as deferred tasks: `uart_irq_handler` of src/uart.c and `irq_entry` of
-- src/exception.c, up to the check of the pending signals. The registers they read are arguments.
use nycu_osc.Prelude.{
  ℕ, ◌/◌, ◌%◌, ◌^◌, Bool, true, ◌&&◌, Option, none, some, List, ◌==◌, if◌then◌else◌, [], ◌∷◌, ◌++◌,
  ◌≡◌, refl, ap, ◌∙◌, Bool-cases, inl, inr,
}
use nycu_osc.Prelude.Int.{pos}
use nycu_osc.Tasks.{Task, Deferred, run_first, add_task, execute_task}
use nycu_osc.Tasks.Order.{AllFrom}

-- the addresses of the three handlers
pub record Handlers : Type 0 where
  pub core_timer_handler : ℕ
  pub irq_rx_handler : ℕ
  pub irq_tx_handler : ℕ

-- a bit of a register
abbrev pub has_bit : ℕ → ℕ → Bool
has_bit i w = w / 2 ^ i % 2 == 1

-- `add_task(callback, 0)` and `execute_task()`, where `got` says whether `alloc` has memory
unfoldable pub run_task :
    {S : Type 0} → (ℕ → Deferred S → Deferred S) → Bool → ℕ → Deferred S → Option (Deferred S)
unfolding add_task execute_task
run_task call got callback s =
    execute_task call
      (record s { tasks = add_task got (record { callback = callback; priority = pos 0 }) s.tasks })

-- the end of `uart_irq_handler` behind its first test
unfoldable pub transmit :
    {S : Type 0}
    → (ℕ → Deferred S → Deferred S)
    → Handlers
    → Bool
    → ℕ
    → Option (Deferred S)
    → Option (Deferred S)
unfolding run_task
transmit call h got tx none = none
transmit call h got tx (some s) =
    if has_bit 1 tx then run_task call got h.irq_tx_handler s else some s

-- `uart_irq_handler`: `rx` and `tx` are what its two reads of the register give, `got` whether `alloc`
-- has memory for each task
unfoldable pub uart_irq_handler :
    {S : Type 0}
    → (ℕ → Deferred S → Deferred S)
    → Handlers
    → (ℕ → Bool)
    → ℕ
    → ℕ
    → Deferred S
    → Option (Deferred S)
unfolding run_task transmit
uart_irq_handler call h got rx tx s =
    transmit call h (got 1) tx
      (if has_bit 2 rx then run_task call (got 0) h.irq_rx_handler s else some s)

-- `irq_entry` before it checks the signals
unfoldable pub irq_entry :
    {S : Type 0}
    → (ℕ → Deferred S → Deferred S)
    → Handlers
    → (ℕ → Bool)
    → ℕ
    → ℕ
    → ℕ
    → ℕ
    → Deferred S
    → Option (Deferred S)
unfolding run_task uart_irq_handler
irq_entry call h got irq_src pending_1 rx tx s =
    if has_bit 1 irq_src
    then run_task call (got 0) h.core_timer_handler s
    else if has_bit 8 irq_src && has_bit 29 pending_1
    then uart_irq_handler call h got rx tx s
    else some s

add_task_first : (t : Task) (ts : List Task) → AllFrom t.priority ts → add_task true t ts ≡ t ∷ ts
unfolding add_task
add_task_first t [] all = refl
add_task_first t (u ∷ ts) (ge, all) = rw ge refl

run_task_first :
    {S : Type 0} (call : ℕ → Deferred S → Deferred S) (callback : ℕ) (s : Deferred S)
    → AllFrom (pos 0) s.tasks
    → run_task call true callback s ≡ some (call callback s)
unfolding run_task execute_task run_first
run_task_first call callback s all =
    let t : Task = record { callback = callback; priority = pos 0 } in
    ap (λ ts. run_first call ts (record s { tasks = ts })) (add_task_first t s.tasks all)

-- a callback leaves no task of a negative priority in the list where there was none
abbrev pub KeepsOrder : {S : Type 0} → (ℕ → Deferred S → Deferred S) → Type 0
KeepsOrder {S} call =
    (callback : ℕ) (s : Deferred S)
    → AllFrom (pos 0) s.tasks
    → AllFrom (pos 0) (call callback s).tasks

-- the handlers that an interrupt runs, one after the other
abbrev pub run_all : {S : Type 0} → (ℕ → Deferred S → Deferred S) → List ℕ → Deferred S → Deferred S
run_all call [] s = s
run_all call (callback ∷ rest) s = run_all call rest (call callback s)

-- the handlers for the bits of the registers: receive before transmit, and the timer alone
abbrev pub pending_handlers : Handlers → ℕ → ℕ → ℕ → ℕ → List ℕ
pending_handlers h irq_src pending_1 rx tx =
    if has_bit 1 irq_src
    then h.core_timer_handler ∷ []
    else if has_bit 8 irq_src && has_bit 29 pending_1
    then (if has_bit 2 rx then h.irq_rx_handler ∷ [] else [])
      ++ (if has_bit 1 tx then h.irq_tx_handler ∷ [] else [])
    else []

module _ {S : Type 0} (call : ℕ → Deferred S → Deferred S) (h : Handlers) (got : ℕ → Bool)
    (memory : (k : ℕ) → got k ≡ true) (keeps : KeepsOrder call) where
  transmit_first :
      (tx : ℕ) (s : Deferred S)
      → AllFrom (pos 0) s.tasks
      → transmit call h (got 1) tx (some s)
        ≡ some (run_all call (if has_bit 1 tx then h.irq_tx_handler ∷ [] else []) s)
  unfolding transmit
  transmit_first tx s all = elim (Bool-cases (has_bit 1 tx)) [
    | inl full ↦ rw (full, memory 1) (run_task_first call h.irq_tx_handler s all)
    | inr idle ↦ rw idle refl
  ]

  uart_irq_handler_first :
      (rx tx : ℕ) (s : Deferred S)
      → AllFrom (pos 0) s.tasks
      → uart_irq_handler call h got rx tx s
        ≡ some (
            run_all call
              ((if has_bit 2 rx then h.irq_rx_handler ∷ [] else [])
                ++ (if has_bit 1 tx then h.irq_tx_handler ∷ [] else []))
              s)
  unfolding uart_irq_handler
  uart_irq_handler_first rx tx s all = elim (Bool-cases (has_bit 2 rx)) [
    | inl received ↦
        rw (received, memory 0)
          (ap (transmit call h (got 1) tx) (run_task_first call h.irq_rx_handler s all)
            ∙ transmit_first tx (call h.irq_rx_handler s) (keeps h.irq_rx_handler s all))
    | inr nothing ↦ rw nothing (transmit_first tx s all)
  ]

-- Where `alloc` has memory for the tasks, no task in the list has a negative priority, and no
-- callback leaves one that has: an interrupt runs its handlers at once, before every task that waits.
-- The timer's handler runs alone; without that interrupt, the serial port's receive handler and
-- then its transmit handler run, each where its bit is set; any other interrupt runs nothing.
pub irq_entry_lem :
    {S : Type 0} (call : ℕ → Deferred S → Deferred S) (h : Handlers) (got : ℕ → Bool)
    (irq_src pending_1 rx tx : ℕ) (s : Deferred S)
    → ((k : ℕ) → got k ≡ true)
    → KeepsOrder call
    → AllFrom (pos 0) s.tasks
    → irq_entry call h got irq_src pending_1 rx tx s
      ≡ some (run_all call (pending_handlers h irq_src pending_1 rx tx) s)
unfolding irq_entry
irq_entry_lem call h got irq_src pending_1 rx tx s memory keeps all =
    elim (Bool-cases (has_bit 1 irq_src)) [
      | inl timer ↦ rw (timer, memory 0) (run_task_first call h.core_timer_handler s all)
      | inr other ↦ elim (Bool-cases (has_bit 8 irq_src && has_bit 29 pending_1)) [
        | inl serial ↦
            rw (other, serial) (uart_irq_handler_first call h got memory keeps rx tx s all)
        | inr unknown ↦ rw (other, unknown) refl
      ]
    ]
