-- ===== src/Mm/Buddy.antt =====
-- The buddy of a block: `get_buddy` of src/mm.c and the block that two buddies make up.
use nycu_osc.Prelude.{
  ℕ, suc, ◌+◌, ◌-◌, ◌*◌, ◌/◌, ◌%◌, ◌^◌, ◌≡◌, ◌⊎◌, inl, inr, ap, ◌∙◌, true, false, ◌==◌,
  if◌then◌else◌, arith, Bool-cases,
}
use native.Mathlib.Nat.{pow-suc, one-le-pow, mul-div_cancel}
use nycu_osc.Prelude.Bits.{bit_xor-two_pow}
use nycu_osc.Mm.Order.{get_buddy}
use nycu_osc.Mm.Blocks.{IsAligned}

-- `lo` and `hi` are the halves of an aligned block of the next order.
pub record Halves (lo hi o : ℕ) : Type 0 where
  pub step : hi ≡ lo + 2 ^ o
  pub aligned : IsAligned lo (suc o)

get_buddy-eq :
    (q o : ℕ)
    → get_buddy (q * 2 ^ o) o ≡ (if q % 2 == 0 then q * 2 ^ o + 2 ^ o else q * 2 ^ o - 2 ^ o)
unfolding get_buddy
get_buddy-eq q o =
    bit_xor-two_pow o (q * 2 ^ o)
    ∙ ap (λ (n : ℕ). if n % 2 == 0 then q * 2 ^ o + 2 ^ o else q * 2 ^ o - 2 ^ o)
        (mul-div_cancel q (one-le-pow o 2 (omega arith)))

even : (q o : ℕ) → (q % 2 == 0) ≡ true → Halves (q * 2 ^ o) (q * 2 ^ o + 2 ^ o) o
even q o e = record {
  step = omega arith;
  aligned =
      let half : q ≡ q / 2 * 2 = ground arith in
      (
        q / 2,
        omega (arith, ap (λ (t : ℕ). t * 2 ^ o) half, ap (λ (t : ℕ). q / 2 * t) (pow-suc 2 o)),
      );
}

odd : (q o : ℕ) → (q % 2 == 0) ≡ false → Halves (q * 2 ^ o - 2 ^ o) (q * 2 ^ o) o
odd q o e =
    let half : q ≡ q / 2 * 2 + 1 = ground arith in
    let at : q * 2 ^ o ≡ q / 2 * (2 ^ o * 2) + 2 ^ o =
      omega (arith, ap (λ (t : ℕ). t * 2 ^ o) half) in
    record {
      step = omega arith;
      aligned = (q / 2, omega (arith, ap (λ (t : ℕ). q / 2 * t) (pow-suc 2 o)));
    }

-- `get_buddy` of a block gives the block with which it makes up one of the next order.
pub get_buddy-Halves :
    (c o : ℕ) → IsAligned c o → Halves c (get_buddy c o) o ⊎ Halves (get_buddy c o) c o
get_buddy-Halves c o (q, e) = rw e (elim (Bool-cases (q % 2 == 0)) [
  | inl yes_even ↦ inl (rw (get_buddy-eq q o, yes_even) (even q o yes_even))
  | inr is_odd ↦ inr (rw (get_buddy-eq q o, is_odd) (odd q o is_odd))
])
