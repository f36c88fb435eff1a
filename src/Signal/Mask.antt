-- ===== src/Signal/Mask.antt =====
-- The mask of pending signals of src/signal.c as a list of signals, and what is left of it behind each.
use Prim.Native.Nat.{bit_and}
use native.Mathlib.Nat.{pow-suc, one-le-pow, mul-div_cancel}
use nycu_osc.Prelude.{
  ℕ, zero, suc, ◌+◌, ◌-◌, ◌*◌, ◌/◌, ◌%◌, ◌^◌, ◌<◌, ◌≡◌, ap, ◌∙◌, true, false, not, List, [], ◌∷◌,
  ◌==◌, if◌then◌else◌, arith, Bool-cases, inl, inr,
}
use nycu_osc.Prelude.Bits.{bit_and-two_pow_is_zero, bit_and-all_but}
use nycu_osc.Signal.{Signals, is_pending, clear_pending}

-- the signals of the `n` bits of `q`, of which the lowest stands for `sig`
abbrev pub signals_from : ℕ → ℕ → ℕ → List ℕ
signals_from zero sig q = []
signals_from (suc n) sig q =
    let rest = signals_from n (sig + 1) (q / 2) in if q % 2 == 0 then rest else sig ∷ rest

-- the mask of signals
abbrev pub mask_of : List ℕ → ℕ
mask_of [] = 0
mask_of (sig ∷ rest) = 2 ^ sig + mask_of rest

pub two_pow_next : (n : ℕ) → 2 ^ (n + 1) ≡ 2 ^ n * 2
two_pow_next n = ap (λ (t : ℕ). 2 ^ t) {x = n + 1} {y = suc n} (omega arith) ∙ pow-suc 2 n

pub even_shift : (q p : ℕ) → (q % 2 == 0) ≡ true → q / 2 * (p * 2) ≡ q * p
even_shift q p e =
    let q2 : q / 2 * 2 ≡ q = ground arith in
    let m : q / 2 * (p * 2) ≡ q / 2 * 2 * p = omega arith in m ∙ ap (λ (t : ℕ). t * p) q2

pub odd_shift : (q p : ℕ) → (q % 2 == 0) ≡ false → p + q / 2 * (p * 2) ≡ q * p
odd_shift q p e =
    let q2 : q / 2 * 2 + 1 ≡ q = ground arith in
    let m : p + q / 2 * (p * 2) ≡ (q / 2 * 2 + 1) * p = omega arith in m ∙ ap (λ (t : ℕ). t * p) q2

pub mask_of-signals_from : (n sig q : ℕ) → q < 2 ^ n → mask_of (signals_from n sig q) ≡ q * 2 ^ sig
mask_of-signals_from zero sig q h = let z : q ≡ 0 = omega arith in rw z (omega arith)
mask_of-signals_from (suc n) sig q h =
    let ih =
      mask_of-signals_from n (sig + 1) (q / 2) (omega (arith, pow-suc 2 n))
      ∙ ap (λ (t : ℕ). q / 2 * t) (two_pow_next sig) in
    elim (Bool-cases (q % 2 == 0)) [
      | inl e ↦ rw e (ih ∙ even_shift q (2 ^ sig) e)
      | inr e ↦ rw e (ap (λ (t : ℕ). 2 ^ sig + t) ih ∙ odd_shift q (2 ^ sig) e)
    ]

shift_back : (sig q : ℕ) → q * 2 ^ sig / 2 ^ sig ≡ q
shift_back sig q = mul-div_cancel q (one-le-pow sig 2 (omega arith))

low_bit : (sig q : ℕ) → q * 2 ^ sig / 2 ^ sig % 2 * 2 ^ sig ≡ q % 2 * 2 ^ sig
low_bit sig q = ap (λ (t : ℕ). t % 2 * 2 ^ sig) (shift_back sig q)

-- the lowest bit of what is left of the mask is that of the signal
pub is_pending-low : (sig q : ℕ) → is_pending sig (q * 2 ^ sig) ≡ not (q % 2 == 0)
is_pending-low sig q =
    ap not
      (bit_and-two_pow_is_zero sig (q * 2 ^ sig) ∙ ap (λ (t : ℕ). t % 2 == 0) (shift_back sig q))

pub clear_pending-low :
    (sig q : ℕ) (s : Signals)
    → s.pending_sig ≡ q * 2 ^ sig
    → q * 2 ^ sig < 2 ^ 32
    → sig < 32
    → (q % 2 == 0) ≡ false
    → clear_pending sig s ≡ record s { pending_sig = q / 2 * 2 ^ (sig + 1) }
clear_pending-low sig q s e h k odd =
    let o : q % 2 ≡ 1 = ground arith in
    let left : q * 2 ^ sig - q % 2 * 2 ^ sig ≡ q / 2 * 2 ^ (sig + 1) = omega (
      arith,
      odd_shift q (2 ^ sig) odd,
      ap (λ (t : ℕ). t * 2 ^ sig) o,
      ap (λ (t : ℕ). q / 2 * t) (two_pow_next sig),
    ) in
    ap (λ (t : ℕ). record s { pending_sig = t })
      (ap (λ (t : ℕ). bit_and t (2 ^ 32 - 1 - 2 ^ sig)) e
        ∙ bit_and-all_but sig 32 (q * 2 ^ sig) k h
        ∙ ap (λ (t : ℕ). q * 2 ^ sig - t) (low_bit sig q)
        ∙ left)
