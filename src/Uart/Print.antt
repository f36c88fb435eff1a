-- ===== src/Uart/Print.antt =====
-- The text output of src/uart.c: what it prints reads back.
use nycu_osc.Prelude.{
  ℕ, zero, suc, ◌+◌, ◌/◌, ◌%◌, ◌^◌, ◌<◌, ◌≡◌, ◌∙◌, ap, refl, sym, true, false, [], ◌∷◌, ◌==◌,
  length, arith, inl, inr, Bool-cases,
}
use nycu_osc.Prelude.Int.{pos, negsuc}
use nycu_osc.CString.{Text}
use nycu_osc.Utils.{hex_value, hex_loop, hex_to_uint, u32_mod, digit_loop, itoa_buffer, itoa}
use nycu_osc.Uart.{hex_char, hex_digits, hex, int_digits, int}
use mathlib.Core.List.{reverse, reverse-append}
use native.Mathlib.Nat.{pow-suc}

hex_value-hex_char : (n : ℕ) → n < 16 → hex_value (hex_char n) ≡ n
unfolding hex_value
hex_value-hex_char n h = ground arith

nibble : (d k : ℕ) → hex_value (hex_char (d / 2 ^ k % 16)) ≡ d / 2 ^ k % 16
nibble d k = hex_value-hex_char (d / 2 ^ k % 16) (omega arith)

-- `uart_hex` prints a 32-bit number as `0x` and eight digits, and `hex_to_uint` of the digits is
-- the number.
pub hex-hex_to_uint :
    (d : ℕ)
    → d < u32_mod
    → (t : Text) × (length t ≡ 8) × (hex d ≡ b'0' ∷ b'x' ∷ t) × (hex_to_uint t ≡ d)
unfolding hex_to_uint hex_loop hex_digits hex
hex-hex_to_uint d h = (
  hex_digits 8 d,
  refl,
  refl,
  omega (
    arith,
    nibble d 28,
    nibble d 24,
    nibble d 20,
    nibble d 16,
    nibble d 12,
    nibble d 8,
    nibble d 4,
    nibble d 0,
  ),
)

digit_loop_zero : (f n : ℕ) → (n == 0) ≡ true → [] ≡ digit_loop f n
unfolding digit_loop
digit_loop_zero zero n h = refl
digit_loop_zero (suc f) n h = rw h refl

-- The two digit loops agree on a number that is not 0.
int_digits-digit_loop : (f n : ℕ) → n < 10 ^ f → (n == 0) ≡ false → int_digits f n ≡ digit_loop f n
unfolding int_digits digit_loop
int_digits-digit_loop zero n h k = ground arith
int_digits-digit_loop (suc f) n h k = elim (Bool-cases (n / 10 == 0)) [
  | inl last ↦ rw (last, k) (ap (λ r. (n % 10 + b'0') ∷ r) (digit_loop_zero f (n / 10) last))
  | inr more ↦
      rw (more, k)
        (ap (λ r. (n % 10 + b'0') ∷ r)
          (int_digits-digit_loop f (n / 10) (omega (arith, pow-suc 10 f)) more))
]

int_digits-reverse :
    (n : ℕ) → n < 2 ^ 31 → (n == 0) ≡ false → reverse (int_digits 10 n) ≡ reverse (digit_loop 10 n)
int_digits-reverse n h k = ap reverse (int_digits-digit_loop 10 n (omega arith) k)

zero_text : reverse (int_digits 10 0) ≡ b'0' ∷ []
unfolding int_digits
zero_text = refl

-- `uart_int` prints the text that `itoa` writes, for every `int` but the least.
pub int-itoa :
    (n : ℕ)
    → n < 2 ^ 31
    → (int (pos n) ≡ itoa (pos n)) × (n + 1 < 2 ^ 31 → int (negsuc n) ≡ itoa (negsuc n))
unfolding int itoa itoa_buffer
int-itoa n h = (
  elim (Bool-cases (n == 0)) [
    | inl nothing ↦ let e : n ≡ 0 = ground arith in rw e zero_text
    | inr more ↦ rw more (int_digits-reverse n h more)
  ],
  λ k.
      ap (λ t. b'-' ∷ t) (int_digits-reverse (n + 1) k (ground arith))
      ∙ sym (reverse-append (digit_loop 10 (n + 1)) (b'-' ∷ [])),
)
