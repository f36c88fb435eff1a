-- ===== src/Tests/Interrupt.antt =====
-- An interrupt of src/exception.c as a deferred task of src/tasks.c.
use nycu_osc.Prelude.{ℕ, ◌+◌, ◌^◌, ◌≡◌, refl, true, some, [], ◌∷◌}
use nycu_osc.Prelude.Int.{pos}
use nycu_osc.Tasks.{Deferred}
use nycu_osc.Tasks.Irq.{Handlers, KeepsOrder, irq_entry, irq_entry_lem}

-- a task of priority 3 waits; a callback adds its address to a count
abbrev waiting : Deferred ℕ
waiting = record { tasks = record { callback = 50; priority = pos 3 } ∷ []; rest = 1 }

abbrev count_call : ℕ → Deferred ℕ → Deferred ℕ
count_call callback s = record s { rest = s.rest + callback }

abbrev three_handlers : Handlers
three_handlers = record { core_timer_handler = 100; irq_rx_handler = 200; irq_tx_handler = 300 }

count_call-KeepsOrder : KeepsOrder count_call
count_call-KeepsOrder callback s all = all

-- the timer interrupt alone, and the other interrupts with both bits of the serial port
irq_timer :
    irq_entry count_call three_handlers (λ n. true) 2 0 0 0 waiting
    ≡ some (record waiting { rest = 101 })
irq_timer =
    irq_entry_lem count_call three_handlers (λ n. true) 2 0 0 0 waiting (λ n. refl)
      count_call-KeepsOrder (refl, refl)

irq_entry_lem_example :
    irq_entry count_call three_handlers (λ n. true) (2 ^ 8) (2 ^ 29) 4 2 waiting
    ≡ some (record waiting { rest = 501 })
irq_entry_lem_example =
    irq_entry_lem count_call three_handlers (λ n. true) (2 ^ 8) (2 ^ 29) 4 2 waiting (λ n. refl)
      count_call-KeepsOrder (refl, refl)
