-- ===== src/Utils/Decimal.antt =====
-- `atoi` of src/utils.c reads what `itoa` prints.
use nycu_osc.Prelude.{
  ℕ, zero, suc, ◌+◌, ◌-◌, ◌*◌, ◌/◌, ◌%◌, ◌^◌, ◌<◌, ◌≡◌, ◌∙◌, refl, false, [], ◌∷◌, ◌==◌, arith, inl,
  inr, Bool-cases,
}
use mathlib.Core.List.{reverse_aux}
use native.Mathlib.Nat.{pow-suc}
use nycu_osc.Prelude.Int.{pos}
use nycu_osc.CString.{Text}
use nycu_osc.Utils.{atoi, atoi_loop, digit_loop, itoa, itoa_buffer, u32_mod}

atoi_loop_digit :
    (n : ℕ) (t : Text) → n < 2 ^ 31 → atoi_loop (n / 10) ((n % 10 + b'0') ∷ t) ≡ atoi_loop n t
unfolding atoi_loop
atoi_loop_digit n t k =
    let skip : (n % 10 + b'0' == 0) ≡ false = ground arith in
    let e : (n / 10 * 10 + (n % 10 + b'0') + u32_mod - b'0') % u32_mod ≡ n = omega arith in
    rw (skip, e) refl

-- Reading goes on behind the digits of a number as from that number.
atoi_loop-digits :
    (f n : ℕ) (t : Text)
    → n < 10 ^ f
    → n < 2 ^ 31
    → atoi_loop 0 (reverse_aux (digit_loop f n) t) ≡ atoi_loop n t
unfolding digit_loop atoi_loop
atoi_loop-digits zero n t h k = let e : n ≡ 0 = omega arith in rw e
atoi_loop-digits (suc f) n t h k = elim (Bool-cases (n == 0)) [
  | inl nothing ↦ let e : n ≡ 0 = ground arith in rw (nothing, e) refl
  | inr more ↦ rw more (
      atoi_loop-digits f (n / 10) ((n % 10 + b'0') ∷ t) (omega (arith, pow-suc 10 f)) (omega arith)
      ∙ atoi_loop_digit n t k)
]

-- `atoi` of the text that `itoa` prints of a non-negative `int` is that number.
pub atoi-itoa : (n : ℕ) → n < 2 ^ 31 → atoi (itoa (pos n)) ≡ n
unfolding atoi itoa itoa_buffer atoi_loop
atoi-itoa n h = elim (Bool-cases (n == 0)) [
  | inl is_zero ↦ let e : n ≡ 0 = ground arith in rw (is_zero, e) refl
  | inr more ↦ rw more (atoi_loop-digits 10 n [] (omega arith) h)
]
