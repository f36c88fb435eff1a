-- ===== src/Uart/Drain.antt =====
-- The transmit interrupt of src/uart.c, taken again and again.
use nycu_osc.Prelude.{ℕ, zero, suc, ◌≡◌, refl, ap, ◌∙◌, false, List, [], ◌∷◌, length}
use mathlib.Core.Path.{subst}
use nycu_osc.Uart.{Uart, irq_tx_handler}
use nycu_osc.Uart.Async.{IsValid, pending, Sends, irq_tx_handler_lem}

-- `n` interrupts, one after the other
abbrev pub interrupts : ℕ → Uart → Uart
interrupts zero u = u
interrupts (suc n) u = interrupts n (irq_tx_handler u)

-- the bytes sent, the last one first, with those of a queue behind them
abbrev pub sent_after : List ℕ → List ℕ → List ℕ
sent_after [] sent = sent
sent_after (c ∷ q) sent = sent_after q (c ∷ sent)

drain :
    (q : List ℕ) (u : Uart)
    → IsValid u
    → pending u ≡ q
    → let u' = interrupts (suc (length q)) u in
      IsValid u' × (pending u' ≡ []) × (u'.sent ≡ sent_after q u.sent) × (u'.tx_irq ≡ false)
drain [] u v e =
    let (v', _, sends) = irq_tx_handler_lem u v in
    let (p, s, i) = subst (λ q. Sends q u (irq_tx_handler u)) e sends in (v', p, s, i)
drain (c ∷ q) u v e =
    let (v', _, sends) = irq_tx_handler_lem u v in
    let (p, s) = subst (λ q. Sends q u (irq_tx_handler u)) e sends in
    let (v'', p', s', i') = drain q (irq_tx_handler u) v' p in
    (v'', p', s' ∙ ap (sent_after q) s, i')

-- With all indices in the arrays, the transmit interrupts send all the bytes that are pending, in
-- their order, one at a time; the interrupt behind the last byte turns itself off.
pub drain_lem :
    (u : Uart)
    → IsValid u
    → let u' = interrupts (suc (length (pending u))) u in
      IsValid u'
      × (pending u' ≡ [])
      × (u'.sent ≡ sent_after (pending u) u.sent)
      × (u'.tx_irq ≡ false)
drain_lem u v = drain (pending u) u v refl
