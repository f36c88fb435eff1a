-- ===== src/Tests/Serial.antt =====
-- The serial port of src/uart.c.
use nycu_osc.Prelude.{length}
use nycu_osc.Prelude.{
  refl, ◌*◌, ℕ, ◌+◌, ◌%◌, ◌^◌, ◌<◌, ◌≡◌, true, false, [], ◌∷◌, ◌++◌, ◌==◌, if◌then◌else◌, arith,
}
use nycu_osc.CString.{Text}
use nycu_osc.Uart.{Uart, irq_rx_handler, async_getc, async_putc, hex}
use nycu_osc.Uart.Ring.{used}
use nycu_osc.Uart.Async.{
  IsValid, received, pending, Reads, wire, irq_rx_handler_lem, async_getc_lem, async_putc_lem,
  async_putc_loses,
}
use nycu_osc.Uart.Echo.{echo}
use nycu_osc.Uart.Echoed.{Echoes, quiet, echo_lem}
use nycu_osc.Uart.Setup.{select_pins}
use nycu_osc.Uart.Drain.{interrupts, drain_lem}
use nycu_osc.Uart.Print.{hex-hex_to_uint}
use nycu_osc.Utils.{hex_to_uint}

-- two bytes received and `n` bytes pending, from index 10 on
abbrev busy : ℕ → Uart
busy n = record {
  rx_buffer = λ i. b'a';
  tx_buffer = λ i. b'x';
  rx_head = 1;
  rx_tail = 4095;
  tx_head = (10 + n) % 4096;
  tx_tail = 10;
  rx_irq = true;
  tx_irq = true;
  line = true;
  sent = [];
}

irq_rx_handler_lem_example :
    let u' = irq_rx_handler b'q' (busy 3) in
    IsValid u'
    × (pending u' ≡ pending (busy 3))
    × (if used 1 4095 == 4095
        then (received u' ≡ received (busy 3)) × (u'.rx_irq ≡ false)
        else (received u' ≡ received (busy 3) ++ (b'q' ∷ [])))
irq_rx_handler_lem_example =
    irq_rx_handler_lem (busy 3) b'q' (omega arith, omega arith, omega arith, omega arith)

async_getc_lem_example :
    let r = async_getc (busy 3) in
    IsValid r.1 × (pending r.1 ≡ pending (busy 3)) × Reads (received (busy 3)) r
async_getc_lem_example =
    async_getc_lem (busy 3) (omega arith, omega arith, omega arith, omega arith)

async_putc_lem_example :
    let r = async_putc b'\r' (busy 3) in
    (r.1.tx_irq ≡ true)
    × (received r.1 ≡ received (busy 3))
    × (used 13 10 ≡ 4095 → (r.0 ≡ false) × IsValid r.1 × (pending r.1 ≡ pending (busy 3)))
    × (used 13 10 < 4094
        → (r.0 ≡ true) × IsValid r.1 × (pending r.1 ≡ pending (busy 3) ++ wire b'\r'))
async_putc_lem_example =
    async_putc_lem (busy 3) b'\r' (omega arith, omega arith, omega arith, omega arith)

async_putc_loses_example :
    ((async_putc b'\r' (busy 4094)).0 ≡ true) × (pending (async_putc b'\r' (busy 4094)).1 ≡ [])
async_putc_loses_example =
    async_putc_loses (busy 4094) (omega arith, omega arith, omega arith, omega arith) (omega arith)

hex-hex_to_uint_example :
    (t : Text) × (length t ≡ 8) × (hex 0xC0FFEE ≡ b'0' ∷ b'x' ∷ t) × (hex_to_uint t ≡ 0xC0FFEE)
hex-hex_to_uint_example = hex-hex_to_uint 0xC0FFEE (omega arith)

drain_lem_example :
    let u' = interrupts 4 (busy 3) in
    IsValid u' × (pending u' ≡ []) × (u'.sent ≡ b'x' ∷ b'x' ∷ b'x' ∷ []) × (u'.tx_irq ≡ false)
drain_lem_example = drain_lem (busy 3) (omega arith, omega arith, omega arith, omega arith)

-- an `a` and a `q` are received
abbrev asked : Uart
asked = record (busy 3) { rx_buffer = λ i. if i == 0 then b'q' else b'a' }

echo_lem_example : Echoes (b'a' ∷ []) [] asked (echo 5 quiet 0 asked)
echo_lem_example =
    echo_lem (b'a' ∷ []) [] 5 0 asked (omega arith, omega arith, omega arith, omega arith) refl refl
      (omega arith) (omega arith)

-- a pin that had function 7 keeps it
select_pins_seven : select_pins (7 * 2 ^ 12) ≡ 7 * 2 ^ 12 + 2 * 2 ^ 15
unfolding select_pins
select_pins_seven = refl
