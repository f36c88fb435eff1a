-- ===== src/Uart.antt =====
-- The mini UART driver, src/uart.c: the text output and the two ring buffers of the interrupt
-- driven path. The registers that the driver writes are fields of the state.
pub mod Ring
pub mod Async
pub mod Print
pub mod Input
pub mod Drain
pub mod Setup
pub mod Echo
pub mod Echoed
use nycu_osc.Prelude.{
  ℕ, zero, suc, ◌+◌, ◌-◌, ◌*◌, ◌/◌, ◌%◌, ◌^◌, Bool, true, false, Option, none, some, List, [], ◌∷◌,
  ◌++◌, ◌==◌, ltb, leb, if◌then◌else◌,
}
use nycu_osc.Prelude.Store.{update}
use nycu_osc.Prelude.Int.{ℤ, pos, negsuc}
use nycu_osc.CString.{Text}
use mathlib.Core.List.{reverse}

abbrev pub buffer_size : ℕ
buffer_size = 4096

-- `rx_irq` and `tx_irq` are bits 0 and 1 of the interrupt enable register, `line` is bit 29 of
-- `ENABLE_IRQS_1`, and `sent` holds what was written to the data register, last byte first.
pub record Uart : Type 0 where
  pub rx_buffer : ℕ → ℕ
  pub tx_buffer : ℕ → ℕ
  pub rx_head : ℕ
  pub rx_tail : ℕ
  pub tx_head : ℕ
  pub tx_tail : ℕ
  pub rx_irq : Bool
  pub tx_irq : Bool
  pub line : Bool
  pub sent : List ℕ

abbrev pub next : ℕ → ℕ
next i = (i + 1) % buffer_size

-- `uart_puts`: the bytes that it sends
unfoldable pub puts : Text → List ℕ
puts [] = []
puts (c ∷ cs) = if c == 0 then [] else if c == b'\n' then b'\r' ∷ b'\n' ∷ puts cs else c ∷ puts cs

-- `uart_putn`: the first `n` bytes, and their number
unfoldable pub putn : ℕ → Text → List ℕ × ℕ
putn zero str = ([], 0)
putn (suc n) [] = (0 ∷ (putn n []).0, suc (putn n []).1)
putn (suc n) (c ∷ cs) = (c ∷ (putn n cs).0, suc (putn n cs).1)

-- the character of a nibble
abbrev pub hex_char : ℕ → ℕ
hex_char n = if leb n 9 then n + b'0' else n - 10 + b'a'

-- the loop of `uart_hex`: the nibbles from bit `4 * n` down; `& 0xF` is the remainder by 16
unfoldable pub hex_digits : ℕ → ℕ → Text
hex_digits zero d = []
hex_digits (suc n) d = hex_char (d / 2 ^ (4 * n) % 16) ∷ hex_digits n d

unfoldable pub hex : ℕ → List ℕ
unfolding hex_digits
hex d = b'0' ∷ b'x' ∷ hex_digits 8 d

-- `do … while (d > 0)`: the digits in the order of the array; ten rounds do for an `int`
unfoldable pub int_digits : ℕ → ℕ → Text
int_digits zero d = []
int_digits (suc f) d =
    let rest = int_digits f (d / 10) in
    if d / 10 == 0 then (d % 10 + b'0') ∷ [] else (d % 10 + b'0') ∷ rest

-- `uart_int`
unfoldable pub int : ℤ → List ℕ
int (pos n) = reverse (int_digits 10 n)
int (negsuc n) = b'-' ∷ reverse (int_digits 10 (n + 1))

unfoldable pub enable_rx_irq : Uart → Uart
enable_rx_irq u = record u { rx_irq = true; line = true }

unfoldable pub enable_tx_irq : Uart → Uart
enable_tx_irq u = record u { tx_irq = true; line = true }

unfoldable pub disable_rx_irq : Uart → Uart
disable_rx_irq u = record u { rx_irq = false }

unfoldable pub disable_tx_irq : Uart → Uart
disable_tx_irq u = record u { tx_irq = false }

-- `uart_irq_rx_handler`, with the byte that the data register holds
unfoldable pub irq_rx_handler : ℕ → Uart → Uart
unfolding disable_rx_irq
irq_rx_handler io u =
    if next u.rx_head == u.rx_tail
    then disable_rx_irq u
    else record u { rx_buffer = update u.rx_buffer u.rx_head io; rx_head = next u.rx_head }

-- `uart_irq_tx_handler`
unfoldable pub irq_tx_handler : Uart → Uart
unfolding disable_tx_irq
irq_tx_handler u =
    if u.tx_head == u.tx_tail
    then disable_tx_irq u
    else record u { sent = u.tx_buffer u.tx_tail ∷ u.sent; tx_tail = next u.tx_tail }

-- `uart_async_getc`: the character, `none` where it returns 0
unfoldable pub async_getc : Uart → Option ℕ × Uart
async_getc u =
    if u.rx_head == u.rx_tail
    then (none, record u { rx_irq = true })
    else (some (u.rx_buffer u.rx_tail), record u { rx_tail = next u.rx_tail })

-- one byte into the transmit ring
unfoldable pub tx_store : ℕ → Uart → Uart
tx_store c u = record u { tx_buffer = update u.tx_buffer u.tx_head c; tx_head = next u.tx_head }

-- `uart_async_putc`: whether it returns 1
unfoldable pub async_putc : ℕ → Uart → Bool × Uart
unfolding enable_tx_irq tx_store
async_putc ch u = if next u.tx_head == u.tx_tail then (false, enable_tx_irq u) else (
  true,
  enable_tx_irq (if ch == b'\r' then tx_store b'\n' (tx_store b'\r' u) else tx_store ch u),
)

-- `uart_async_gets`, with the number of rounds that it may take; the characters it stores
unfoldable pub async_gets : ℕ → Uart → Text × Uart
async_gets zero u = ([], u)
async_gets (suc f) u =
    let (o, u') = async_getc u in
    elim o [
      | none ↦ ([], u')
      | some c ↦ let r = async_gets f u' in if c == b'\r' then ([], u') else (c ∷ r.0, r.1)
    ]

-- what follows a character that was put: nothing where the buffer was full
abbrev pub and_then : Bool × Uart → (Uart → Bool × Uart) → Bool × Uart
and_then (true, u) k = k u
and_then (false, u) k = (false, u)

-- `uart_async_puts`
unfoldable pub async_puts : Text → Uart → Bool × Uart
async_puts [] u = (true, u)
async_puts (c ∷ cs) u =
    if c == 0
    then (true, u)
    else if c == b'\n'
    then and_then (async_putc b'\r' u) (λ u'. and_then (async_putc b'\n' u') (async_puts cs))
    else and_then (async_putc c u) (async_puts cs)
