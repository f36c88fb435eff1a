-- ===== src/Uart/Setup.antt =====
-- The set-up of the serial port in src/uart.c and the waiting for its status register, the watchdog of
-- src/power.c: the writes to registers in their order, and the reads as lists of what they give.
use Prim.Native.Nat.{bit_and, bit_or}
use native.Mathlib.Nat.{mod-eq_of_lt}
use nycu_osc.Prelude.{
  ℕ, ◌+◌, ◌-◌, ◌*◌, ◌^◌, ◌<◌, ◌≡◌, ap, ◌∙◌, true, false, Option, none, some, List, [], ◌∷◌, ◌==◌,
  if◌then◌else◌,
}
use nycu_osc.Prelude.Bits.{bit_and-mask}
use nycu_osc.Uart.{Uart}

-- the registers by their addresses
abbrev pub mmio_base : ℕ
mmio_base = 0x3f000000

abbrev pub gpfsel1 : ℕ
gpfsel1 = mmio_base + 0x00200004

abbrev pub gppud : ℕ
gppud = mmio_base + 0x00200094

abbrev pub gppudclk0 : ℕ
gppudclk0 = mmio_base + 0x00200098

abbrev pub auxenb : ℕ
auxenb = mmio_base + 0x00215004

abbrev pub aux_mu_ier_reg : ℕ
aux_mu_ier_reg = mmio_base + 0x00215044

abbrev pub aux_mu_iir_reg : ℕ
aux_mu_iir_reg = mmio_base + 0x00215048

abbrev pub aux_mu_lcr_reg : ℕ
aux_mu_lcr_reg = mmio_base + 0x0021504c

abbrev pub aux_mu_mcr_reg : ℕ
aux_mu_mcr_reg = mmio_base + 0x00215050

abbrev pub aux_mu_cntl_reg : ℕ
aux_mu_cntl_reg = mmio_base + 0x00215060

abbrev pub aux_mu_baud : ℕ
aux_mu_baud = mmio_base + 0x00215068

pub data Access : Type 0 where
  writes : ℕ → ℕ → Access
  delay : ℕ → Access

-- `~x` on 32 bits
abbrev pub complement : ℕ → ℕ
complement x = 2 ^ 32 - 1 - x

-- the new value of `GPFSEL1`
unfoldable pub select_pins : ℕ → ℕ
select_pins selector =
    bit_or (bit_and selector (bit_or (complement (7 * 2 ^ 12)) (complement (7 * 2 ^ 15))))
      (bit_or (2 * 2 ^ 12) (2 * 2 ^ 15))

-- the registers in `init_uart`: what `AUXENB` and `GPFSEL1` read is an argument
unfoldable pub init_uart_registers : ℕ → ℕ → List Access
unfolding select_pins
init_uart_registers enabled selector =
    writes auxenb (bit_or enabled 1)
    ∷ writes aux_mu_cntl_reg 0
    ∷ writes aux_mu_ier_reg 0
    ∷ writes aux_mu_lcr_reg 3
    ∷ writes aux_mu_mcr_reg 0
    ∷ writes aux_mu_baud 270
    ∷ writes aux_mu_iir_reg 6
    ∷ writes gpfsel1 (select_pins selector)
    ∷ writes gppud 0
    ∷ delay 150
    ∷ writes gppudclk0 (bit_or (2 ^ 14) (2 ^ 15))
    ∷ delay 150
    ∷ writes gppudclk0 0
    ∷ writes aux_mu_cntl_reg 3
    ∷ []

-- a loop that reads the status register while a bit of it is set, and one while it is clear; what is
-- left of the readings, `none` where they run out
unfoldable pub while_set : ℕ → List ℕ → Option (List ℕ)
while_set mask [] = none
while_set mask (status ∷ rest) =
    let more = while_set mask rest in if bit_and status mask == 0 then some rest else more

unfoldable pub while_clear : ℕ → List ℕ → Option (List ℕ)
while_clear mask [] = none
while_clear mask (status ∷ rest) =
    let more = while_clear mask rest in if bit_and status mask == 0 then more else some rest

-- `uart_flush_rx`, which drops a byte in each round, and `uart_flush_tx`
unfoldable pub flush_rx : List ℕ → Option (List ℕ)
unfolding while_set
flush_rx readings = while_set 0x01 readings

unfoldable pub flush_tx : List ℕ → Option (List ℕ)
unfolding while_clear
flush_tx readings = while_clear 0x20 readings

-- `uart_flush`
unfoldable pub flush : List ℕ → Option (List ℕ)
unfolding flush_rx flush_tx
flush readings = elim (flush_rx readings) [ none ↦ none | some rest ↦ flush_tx rest ]

-- `uart_enable_irq` and `uart_disable_irq`
unfoldable pub enable_irq : Uart → Uart
enable_irq u = record u { rx_irq = true; tx_irq = true; line = true }

unfoldable pub disable_irq : Uart → Uart
disable_irq u = record u { rx_irq = false; tx_irq = false; line = false }

-- `set` and `reset` of src/power.c
unfoldable pub set : ℕ → ℕ → Access
set address value = writes address value

unfoldable pub reset : ℕ → List Access
unfolding set
reset tick = set 0x3F10001c (bit_or 0x5a000000 0x20) ∷ set 0x3F100024 (bit_or 0x5a000000 tick) ∷ []

-- The mask of `init_uart` keeps every bit: the function of a pin that was set before stays set beside
-- the new one.
pub select_pins_lem : (x : ℕ) → x < 2 ^ 32 → select_pins x ≡ bit_or x (2 * 2 ^ 12 + 2 * 2 ^ 15)
unfolding select_pins
select_pins_lem x h =
    ap (λ (t : ℕ). bit_or t (2 * 2 ^ 12 + 2 * 2 ^ 15)) (bit_and-mask 32 x ∙ mod-eq_of_lt h)
