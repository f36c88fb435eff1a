-- ===== src/Prelude/Bits.antt =====
-- The bit operations at variables: exclusive or with a power of two, and masks of low bits.
use Prim.Native.Nat.{
  ℕ, zero, suc, ◌+◌, ◌-◌, ◌*◌, ◌/◌, ◌%◌, ◌^◌, ◌≤◌, ◌<◌, min, max, bit_and, bit_or, bit_xor, differ,
  digits, bit_and-bitwise, bit_or-bitwise, bit_xor-bitwise,
}
use mathlib.Core.Path.{◌≡◌, refl, ap, ap₂, sym, ◌∙◌}
use mathlib.Core.Bool.{false}
use mathlib.Core.Logic.{inl, inr}
use native.Mathlib.Nat.{
  pow-suc, one-le-pow, div-div-eq-div-mul, div-add-mod, mul_comm, le-div_iff_mul-le, mod-eq_of_lt,
}
use native.Mathlib.Omega.{arith}
use nycu_osc.Prelude.Tests.{Bool-cases, ◌==◌, if◌then◌else◌}

-- More fuel than the first number changes nothing.
digits_enough :
    (z : ℕ → ℕ) (f : ℕ → ℕ → ℕ) (k a b : ℕ) → a ≤ k → digits z f k a b ≡ digits z f a a b
digits_enough z f k a b h = go k a a b h (omega arith)
  where
    go : (k l a b : ℕ) → a ≤ k → a ≤ l → digits z f k a b ≡ digits z f l a b
    go zero zero zero b p q = refl
    go zero (suc l) zero b p q = refl
    go (suc k) zero zero b p q = refl
    go (suc k) (suc l) zero b p q = refl
    go zero l (suc a) b p q = absurd (omega arith)
    go (suc k) zero (suc a) b p q = absurd (omega arith)
    go (suc k) (suc l) (suc a) b p q = rw (go k l (suc a / 2) (b / 2) (omega arith) (omega arith))

bitwise_step :
    (z : ℕ → ℕ) (f : ℕ → ℕ → ℕ) (a b : ℕ)
    → digits z f (suc a) (suc a) b
      ≡ digits z f (suc a / 2) (suc a / 2) (b / 2) * 2 + f (suc a % 2) (b % 2)
bitwise_step z f a b = omega (arith, digits_enough z f a (suc a / 2) (b / 2) (omega arith))

differ_zero : (b : ℕ) → b < 2 → differ 0 b ≡ b
differ_zero zero h = refl
differ_zero (suc zero) h = refl
differ_zero (suc (suc b)) h = absurd (omega arith)

-- One equation for the lowest bit of each operation.
pub bit_xor_halves : (x y : ℕ) → bit_xor x y ≡ bit_xor (x / 2) (y / 2) * 2 + differ (x % 2) (y % 2)
bit_xor_halves zero y = simp bit_xor-bitwise (omega (arith, differ_zero (y % 2) (omega arith)))
bit_xor_halves (suc x) y = simp bit_xor-bitwise (bitwise_step (λ t. t) differ x y)

module _ (y : ℕ) where
  pub bit_and_halves : (x : ℕ) → bit_and x y ≡ bit_and (x / 2) (y / 2) * 2 + min (x % 2) (y % 2)
  bit_and_halves zero = simp bit_and-bitwise (omega arith)
  bit_and_halves (suc x) = simp bit_and-bitwise (bitwise_step (λ t. 0) min x y)

  pub bit_or_halves : (x : ℕ) → bit_or x y ≡ bit_or (x / 2) (y / 2) * 2 + max (x % 2) (y % 2)
  bit_or_halves zero = simp bit_or-bitwise (omega arith)
  bit_or_halves (suc x) = simp bit_or-bitwise (bitwise_step (λ t. t) max x y)

-- Halving below a bound proves a fact that a step carries from `a / 2` to `a`.
halving_fuel :
    (P : ℕ → Type 0) (k a : ℕ) → a ≤ k → P 0 → ((n : ℕ) → P (suc n / 2) → P (suc n)) → P a
halving_fuel P k zero h base next = base
halving_fuel P zero (suc a) h base next = absurd (omega arith)
halving_fuel P (suc k) (suc a) h base next =
    next a (halving_fuel P k (suc a / 2) (omega arith) base next)

pub bit_and-zero : (a : ℕ) → bit_and a 0 ≡ 0
bit_and-zero a =
    halving_fuel (λ n. bit_and n 0 ≡ 0) a a (omega arith) refl
      λ n ih. omega (arith, bit_and_halves 0 (suc n), ih)

pub bit_or-zero : (a : ℕ) → bit_or a 0 ≡ a
bit_or-zero a =
    halving_fuel (λ n. bit_or n 0 ≡ n) a a (omega arith) refl
      λ n ih. omega (arith, bit_or_halves 0 (suc n), ih)

differ-zero : (b : ℕ) → differ b 0 ≡ b
differ-zero zero = refl
differ-zero (suc b) = refl

differ_bit : (b : ℕ) → b < 2 → differ b 1 ≡ 1 - b
differ_bit zero h = refl
differ_bit (suc zero) h = refl
differ_bit (suc (suc b)) h = absurd (omega arith)

pub bit_xor-zero : (a : ℕ) → bit_xor a 0 ≡ a
bit_xor-zero a =
    halving_fuel (λ n. bit_xor n 0 ≡ n) a a (omega arith) refl
      λ n ih. ground (arith, bit_xor_halves (suc n) 0, differ-zero (suc n % 2), ih)

div-two-div : (x p : ℕ) → x / (p * 2) ≡ x / 2 / p
div-two-div x p = rw mul_comm (sym (div-div-eq-div-mul x 2 p))

mod-two_mul : (x p : ℕ) → x % (p * 2) ≡ x / 2 % p * 2 + x % 2
mod-two_mul x p =
    omega (arith, rw (div-two-div x p) at (div-add-mod x (p * 2)), div-add-mod (x / 2) p)

bit_xor-double : (x p : ℕ) → bit_xor x (p * 2) ≡ bit_xor (x / 2) p * 2 + x % 2
bit_xor-double x p =
    bit_xor_halves x (p * 2)
    ∙ ap₂ (λ (a b : ℕ). a * 2 + b) (ap (bit_xor (x / 2)) (omega arith))
        (ap (differ (x % 2)) {y = 0} (omega arith) ∙ differ-zero (x % 2))

le_of_bit : (y p : ℕ) → 0 < p → (y / p % 2 == 0) ≡ false → p ≤ y
le_of_bit y p h set = omega (arith, (le-div_iff_mul-le {k = p} {x = 1} {y = y} h).0 (ground arith))

toggle_double :
    (x p : ℕ)
    → 0 < p
    → (if x / 2 / p % 2 == 0 then x / 2 + p else x / 2 - p) * 2 + x % 2
      ≡ (if x / 2 / p % 2 == 0 then x + p * 2 else x - p * 2)
toggle_double x p h = ground (arith, le_of_bit (x / 2) p)

-- `x ^ (1 << k)` toggles bit `k`.
pub bit_xor-two_pow :
    (k x : ℕ) → bit_xor x (2 ^ k) ≡ (if x / 2 ^ k % 2 == 0 then x + 2 ^ k else x - 2 ^ k)
bit_xor-two_pow zero x =
    ground (arith, bit_xor_halves x 1, bit_xor-zero (x / 2), differ_bit (x % 2) (omega arith))
bit_xor-two_pow (suc k) x =
    rw (pow-suc 2 k, bit_xor-double, div-two-div, bit_xor-two_pow k (x / 2))
      (toggle_double x (2 ^ k) (one-le-pow k 2 (omega arith)))

bit_and-double : (x p : ℕ) → 0 < p → bit_and x (p * 2 - 1) ≡ bit_and (x / 2) (p - 1) * 2 + x % 2
bit_and-double x p h =
    bit_and_halves (p * 2 - 1) x
    ∙ ap₂ (λ (a b : ℕ). a * 2 + b) (ap (bit_and (x / 2)) (omega arith)) (omega arith)

-- A mask of `k` low bits is the remainder by `2 ^ k`.
pub bit_and-mask : (k x : ℕ) → bit_and x (2 ^ k - 1) ≡ x % 2 ^ k
bit_and-mask zero x = omega (arith, bit_and-zero x)
bit_and-mask (suc k) x = rw (
  pow-suc 2 k,
  bit_and-double x (2 ^ k) (one-le-pow k 2 (omega arith)),
  mod-two_mul,
  bit_and-mask k (x / 2),
)

bit_and-even : (x m : ℕ) → bit_and x (m * 2) ≡ bit_and (x / 2) m * 2
bit_and-even x m =
    bit_and_halves (m * 2) x
    ∙ omega (arith, ap (bit_and (x / 2)) (let e : m * 2 / 2 ≡ m = omega arith in e))

-- A mask of higher bits.
pub bit_and-shift : (k x m : ℕ) → bit_and x (m * 2 ^ k) ≡ bit_and (x / 2 ^ k) m * 2 ^ k
bit_and-shift zero x m =
    let e : m * 1 ≡ m = omega arith in let f : x / 1 ≡ x = omega arith in rw (e, f) (omega arith)
bit_and-shift (suc k) x m =
    let e : m * 2 ^ suc k ≡ m * 2 ^ k * 2 = omega (arith, ap (λ (t : ℕ). m * t) (pow-suc 2 k)) in
    rw (e, bit_and-even, bit_and-shift k (x / 2) m, pow-suc 2 k, div-two-div) (omega arith)

bit_or-even : (x y b : ℕ) → b < 2 → bit_or (x * 2) (y * 2 + b) ≡ bit_or x y * 2 + b
bit_or-even x y b h =
    let e : x * 2 / 2 ≡ x = omega arith in
    let f : (y * 2 + b) / 2 ≡ y = omega arith in
    bit_or_halves (y * 2 + b) (x * 2) ∙ ap₂ (λ (a c : ℕ). a * 2 + c) (ap₂ bit_or e f) (omega arith)

-- `|` of disjoint fields is their sum.
pub bit_or-fields : (k q r : ℕ) → r < 2 ^ k → bit_or (q * 2 ^ k) r ≡ q * 2 ^ k + r
bit_or-fields zero q r h = let e : r ≡ 0 = omega arith in rw e (bit_or-zero (q * 1) ∙ omega arith)
bit_or-fields (suc k) q r h =
    let e : q * 2 ^ suc k ≡ q * 2 ^ k * 2 = omega (arith, ap (λ (t : ℕ). q * t) (pow-suc 2 k)) in
    let f : r ≡ r / 2 * 2 + r % 2 = omega arith in
    ap₂ bit_or e f
    ∙ bit_or-even (q * 2 ^ k) (r / 2) (r % 2) (omega arith)
    ∙ omega (arith, e, bit_or-fields k q (r / 2) (omega (arith, pow-suc 2 k)))

-- A mask of one bit, and of all bits but one.
pub bit_and-two_pow : (k x : ℕ) → bit_and x (2 ^ k) ≡ x / 2 ^ k % 2 * 2 ^ k
bit_and-two_pow k x =
    let e : 2 ^ k ≡ 1 * 2 ^ k = omega arith in
    ap (bit_and x) e ∙ bit_and-shift k x 1 ∙ ap (λ (t : ℕ). t * 2 ^ k) (bit_and-mask 1 (x / 2 ^ k))

two_pow_lt : (k n : ℕ) → k < n → 2 ^ k < 2 ^ n
two_pow_lt k zero h = absurd (omega arith)
two_pow_lt zero (suc n) h = omega (arith, pow-suc 2 n, one-le-pow n 2 (omega arith))
two_pow_lt (suc k) (suc n) h = omega (arith, pow-suc 2 n, pow-suc 2 k, two_pow_lt k n (omega arith))

bit_le : (y p : ℕ) → 0 < p → y / p % 2 * p ≤ y
bit_le y p h = elim (Bool-cases (y / p % 2 == 0)) [
  | inl e ↦ let z : y / p % 2 ≡ 0 = ground arith in rw z (omega arith)
  | inr e ↦ let o : y / p % 2 ≡ 1 = ground arith in rw o (omega (arith, le_of_bit y p h e))
]

pub bit_and-all_but :
    (k n x : ℕ) → k < n → x < 2 ^ n → bit_and x (2 ^ n - 1 - 2 ^ k) ≡ x - x / 2 ^ k % 2 * 2 ^ k
bit_and-all_but k zero x h hx = absurd (omega arith)
bit_and-all_but zero (suc n) x h hx =
    let e : 2 ^ suc n - 1 - 2 ^ 0 ≡ (2 ^ n - 1) * 2 = omega (arith, pow-suc 2 n) in
    let small : x / 2 < 2 ^ n = omega (arith, pow-suc 2 n) in
    let all : x / 2 % 2 ^ n ≡ x / 2 = mod-eq_of_lt small in
    let one : x / 1 ≡ x = omega arith in
    ap (bit_and x) e
    ∙ bit_and-even x (2 ^ n - 1)
    ∙ ap (λ (t : ℕ). t * 2) (bit_and-mask n (x / 2) ∙ all)
    ∙ (rw one (omega arith))
bit_and-all_but (suc k) (suc n) x h hx =
    let less = two_pow_lt k n (omega arith) in
    let e : 2 ^ suc n - 1 - 2 ^ suc k ≡ (2 ^ n - 1 - 2 ^ k) * 2 + 1 =
      omega (arith, pow-suc 2 n, pow-suc 2 k, less) in
    let ih = bit_and-all_but k n (x / 2) (omega arith) (omega (arith, pow-suc 2 n)) in
    let half : ((2 ^ n - 1 - 2 ^ k) * 2 + 1) / 2 ≡ 2 ^ n - 1 - 2 ^ k = omega arith in
    let low : min (x % 2) (((2 ^ n - 1 - 2 ^ k) * 2 + 1) % 2) ≡ x % 2 = omega arith in
    let le = bit_le (x / 2) (2 ^ k) (one-le-pow k 2 (omega arith)) in
    let top : x / 2 ^ suc k % 2 * 2 ^ suc k ≡ x / 2 / 2 ^ k % 2 * 2 ^ k * 2 =
      rw (pow-suc 2 k, div-two-div) (omega arith) in
    ap (bit_and x) e
    ∙ bit_and_halves ((2 ^ n - 1 - 2 ^ k) * 2 + 1) x
    ∙ ap₂ (λ (a b : ℕ). a * 2 + b) (ap (bit_and (x / 2)) half ∙ ih) low
    ∙ omega (arith, top, le)

zero-bit_or : (y : ℕ) → bit_or 0 y ≡ y
zero-bit_or y = simp bit_or-bitwise refl

pub bit_or_comm : (x y : ℕ) → bit_or x y ≡ bit_or y x
bit_or_comm x =
    halving_fuel (λ n. (y : ℕ) → bit_or n y ≡ bit_or y n) x x (omega arith)
      (λ y. zero-bit_or y ∙ sym (bit_or-zero y))
      λ n ih y. omega (arith, bit_or_halves y (suc n), bit_or_halves (suc n) y, ih (y / 2))

bit_test : (b p : ℕ) → 0 < p → b < 2 → (b * p == 0) ≡ (b == 0)
bit_test zero p h k = let z : 0 * p ≡ 0 = omega arith in rw z refl
bit_test (suc zero) p h k = let o : 1 * p ≡ p = omega arith in rw o (ground (arith, h))
bit_test (suc (suc b)) p h k = absurd (omega arith)

-- the test of one bit
pub bit_and-two_pow_is_zero : (k x : ℕ) → (bit_and x (2 ^ k) == 0) ≡ (x / 2 ^ k % 2 == 0)
bit_and-two_pow_is_zero k x =
    ap (λ (t : ℕ). t == 0) (bit_and-two_pow k x)
    ∙ bit_test (x / 2 ^ k % 2) (2 ^ k) (one-le-pow k 2 (omega arith)) (omega arith)
