-- ===== src/Uart/Echoed.antt =====
-- What `test_uart_async` of src/uart.c sends back.
use nycu_osc.Prelude.{
  ℕ, zero, suc, ◌+◌, ◌<◌, ◌≡◌, refl, sym, ap, ◌∙◌, Bool, true, false, Option, none, some, List, [],
  ◌∷◌, ◌++◌, ◌==◌, if◌then◌else◌, length, length-append, arith,
}
use mathlib.Core.Path.{subst}
use mathlib.Core.List.{append_assoc, append-nil}
use nycu_osc.Prelude.Store.{◌∉◌}
use nycu_osc.Uart.{Uart, next, async_getc, async_putc}
use nycu_osc.Uart.Setup.{disable_irq}
use nycu_osc.Uart.Async.{IsValid, received, pending, Reads, wire, async_getc_lem, async_putc_lem}
use nycu_osc.Uart.Ring.{window, used}
use nycu_osc.Uart.Echo.{Ended, exited, failed, echo}

length-window : (buf : ℕ → ℕ) (t n : ℕ) → length (window buf t n) ≡ n
length-window buf t zero = refl
length-window buf t (suc n) = ap suc (length-window buf (next t) n)

-- what the transmit ring gets for a text
abbrev pub echoed : List ℕ → List ℕ
echoed [] = []
echoed (c ∷ cs) = wire c ++ echoed cs

length-wire : (c : ℕ) → 0 < length (wire c)
length-wire c = ground arith

-- no interrupt comes
abbrev pub quiet : ℕ → Uart → Uart
quiet i u = u

-- the end of a round
abbrev round_end : ℕ → ℕ → Uart → ℕ → Option Ended × Uart
round_end f i u₁ ch =
    if ch == b'q'
    then (some exited, disable_irq u₁)
    else if (async_putc ch u₁).0
    then echo f quiet (i + 1) (async_putc ch u₁).1
    else (some failed, disable_irq (async_putc ch u₁).1)

echo_got :
    (f i : ℕ) (u : Uart) (ch : ℕ)
    → (async_getc u).0 ≡ some ch
    → echo (suc f) quiet i u ≡ round_end f i (async_getc u).1 ch
unfolding echo
echo_got f i u ch e =
    ap
      (λ (o : Option ℕ). elim o as (λ x. Option Ended × Uart) [
        | none ↦ echo f quiet (i + 1) (async_getc u).1
        | some c ↦ round_end f i (async_getc u).1 c
      ])
      e

-- a byte that is sent back
round_end_more :
    (f i : ℕ) (u₁ : Uart) (ch : ℕ)
    → (ch == b'q') ≡ false
    → (async_putc ch u₁).0 ≡ true
    → round_end f i u₁ ch ≡ echo f quiet (i + 1) (async_putc ch u₁).1
round_end_more f i u₁ ch other sent =
    let u₂ = (async_putc ch u₁).1 in
    ap
      (λ (b : Bool).
        if b
        then (some exited, disable_irq u₁)
        else if (async_putc ch u₁).0
        then echo f quiet (i + 1) u₂
        else (some failed, disable_irq u₂))
      other
    ∙ ap (λ (b : Bool). if b then echo f quiet (i + 1) u₂ else (some failed, disable_irq u₂)) sent

-- the test has ended by a `q` behind the text, and sent the text back
abbrev pub Echoes : List ℕ → List ℕ → Uart → Option Ended × Uart → Type 0
Echoes t more u r =
    (r.0 ≡ some exited)
    × (pending r.1 ≡ pending u ++ echoed t)
    × (received r.1 ≡ more)
    × (r.1.rx_irq ≡ false)
    × (r.1.tx_irq ≡ false)

-- With all indices in the arrays, where no interrupt comes, a text without a `q`, a `q` and more are
-- received, and the transmit ring has room for the text with a line feed behind each carriage
-- return and for two bytes more: with more rounds than the text has bytes the loop ends, has sent
-- the text back behind what was pending, leaves what is behind the `q`, and turns both interrupts
-- off.
pub echo_lem :
    (t more : List ℕ) (f i : ℕ) (u : Uart)
    → IsValid u
    → received u ≡ t ++ (b'q' ∷ more)
    → b'q' ∉ t
    → length (pending u) + length (echoed t) < 4094
    → length t < f
    → Echoes t more u (echo f quiet i u)
unfolding disable_irq
echo_lem t more zero i u v e out room h = absurd (omega (arith, h))
echo_lem [] more (suc f) i u v e out room h =
    let (v₁, p₁, reads) = async_getc_lem u v in
    let (got, left) = subst (λ q. Reads q (async_getc u)) e reads in
    subst (Echoes [] more u) (sym (echo_got f i u b'q' got))
      (refl, p₁ ∙ sym (append-nil (pending u)), left, refl, refl)
echo_lem (c ∷ t) more (suc f) i u v e out room h =
    let (v₁, p₁, reads) = async_getc_lem u v in
    let (got, left) = subst (λ q. Reads q (async_getc u)) e reads in
    let u₁ = (async_getc u).1 in
    let n = length-window u₁.tx_buffer u₁.tx_tail (used u₁.tx_head u₁.tx_tail) in
    let l = ap length p₁ in
    let (tx, r₂, full, puts) = async_putc_lem u₁ c v₁ in
    let split = length-append (wire c) (echoed t) in
    let (sent, v₂, p₂) = puts (omega (arith, n, l, split, room, length-wire c)) in
    let p : pending (async_putc c u₁).1 ≡ pending u ++ wire c = p₂ ∙ ap (λ q. q ++ wire c) p₁ in
    let (end, q, rest, rx_off, tx_off) =
      echo_lem t more f (i + 1) (async_putc c u₁).1 v₂ (r₂ ∙ left) (ground (arith, out))
        (omega (arith, ap length p, length-append (pending u) (wire c), split, room))
        (omega arith) in
    subst (Echoes (c ∷ t) more u)
      (sym (echo_got f i u c got ∙ round_end_more f i u₁ c (ground (arith, out)) sent))
      (
        end,
        q ∙ ap (λ l. l ++ echoed t) p ∙ append_assoc (pending u) (wire c) (echoed t),
        rest,
        rx_off,
        tx_off,
      )
