-- ===== src/Uart/Echo.antt =====
-- The interactive test of src/uart.c, `test_uart_async`, which sends back what it receives.
use nycu_osc.Prelude.{ℕ, zero, suc, ◌+◌, Option, none, some, [], ◌∷◌, ◌==◌, if◌then◌else◌}
use nycu_osc.CString.{Text}
use nycu_osc.Uart.{Uart, async_getc, async_putc, async_puts, enable_rx_irq}
use nycu_osc.Uart.Setup.{disable_irq}

-- how the test ends: by a `q`, or where a byte finds no place; `none` where the rounds run out
pub data Ended : Type 0 where
  exited : Ended
  failed : Ended

-- Its loop, in a number of rounds: `interrupts` is what the interrupts do in front of each round, which
-- is counted.
unfoldable pub echo : ℕ → (ℕ → Uart → Uart) → ℕ → Uart → Option Ended × Uart
unfolding disable_irq
echo zero interrupts i u = (none, u)
echo (suc f) interrupts i u =
    let (received, u₁) = async_getc (interrupts i u) in
    let idle = echo f interrupts (i + 1) u₁ in
    elim received [
      | none ↦ idle
      | some ch ↦
          let (sent, u₂) = async_putc ch u₁ in
          let more = echo f interrupts (i + 1) u₂ in
          if ch == b'q'
          then (some exited, disable_irq u₁)
          else if sent
          then more
          else (some failed, disable_irq u₂)
    ]

-- behind the two lines of the greeting, each of which may find no place
unfoldable pub greet : ℕ → (ℕ → Uart → Uart) → Text → Text → Uart → Option Ended × Uart
unfolding echo
greet f interrupts first second u =
    let (first_sent, u₁) = async_puts first u in
    let (second_sent, u₂) = async_puts second u₁ in
    if first_sent
    then (if second_sent then echo f interrupts 0 u₂ else (some failed, disable_irq u₂))
    else (some failed, disable_irq u₁)

-- "Async UART test started...\r" and "Press 'q' to exit...\r"
abbrev pub started_text : Text
started_text =
    b'A' ∷ b's' ∷ b'y' ∷ b'n' ∷ b'c' ∷ b' ' ∷ b'U' ∷ b'A' ∷ b'R' ∷ b'T' ∷ b' ' ∷ b't' ∷ b'e' ∷ b's'
    ∷ b't' ∷ b' ' ∷ b's' ∷ b't' ∷ b'a' ∷ b'r' ∷ b't' ∷ b'e' ∷ b'd' ∷ b'.' ∷ b'.' ∷ b'.' ∷ b'\r' ∷ []

abbrev pub press_text : Text
press_text =
    b'P' ∷ b'r' ∷ b'e' ∷ b's' ∷ b's' ∷ b' ' ∷ 39 ∷ b'q' ∷ 39 ∷ b' ' ∷ b't' ∷ b'o' ∷ b' ' ∷ b'e'
    ∷ b'x' ∷ b'i' ∷ b't' ∷ b'.' ∷ b'.' ∷ b'.' ∷ b'\r' ∷ []

-- `test_uart_async`
unfoldable pub test_uart_async : ℕ → (ℕ → Uart → Uart) → Uart → Option Ended × Uart
unfolding greet
test_uart_async f interrupts u = greet f interrupts started_text press_text (enable_rx_irq u)
