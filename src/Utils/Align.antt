-- ===== src/Utils/Align.antt =====
-- `align` and `be2le_u32` of src/utils.c as arithmetic.
use Prim.Native.Nat.{bit_and, bit_or}
use nycu_osc.Prelude.{ℕ, ◌+◌, ◌-◌, ◌*◌, ◌/◌, ◌%◌, ◌^◌, ◌<◌, ◌≤◌, ◌≡◌, ◌∙◌, ap, arith}
use mathlib.Core.Path.{ap₂}
use nycu_osc.Prelude.Bits.{bit_and-mask, bit_and-shift, bit_or-fields}
use nycu_osc.Utils.{align, be2le_u32, u32_mod}

-- `align` to 4, the alignment that the callers use, rounds up to the next multiple of 4.
pub align_four :
    (n : ℕ) → n + 3 < u32_mod → (n ≤ align n 4) × (align n 4 < n + 4) × (align n 4 % 4 ≡ 0)
unfolding align
align_four n h =
    let x = (n + 4 + u32_mod - 1) % u32_mod in
    let e : bit_and x (u32_mod - 4) ≡ x / 4 % 2 ^ 30 * 4 =
      bit_and-shift 2 x (2 ^ 30 - 1) ∙ ap (λ (t : ℕ). t * 4) (bit_and-mask 30 (x / 4)) in
    omega (arith, e)

-- byte `k` of a number
abbrev byte : ℕ → ℕ → ℕ
byte k n = n / 2 ^ (8 * k) % 256

-- `be2le_u32` reverses the four bytes.
pub be2le_u32-bytes :
    (n : ℕ)
    → n < u32_mod
    → be2le_u32 n ≡ ((byte 0 n * 256 + byte 1 n) * 256 + byte 2 n) * 256 + byte 3 n
unfolding be2le_u32
be2le_u32-bytes n h =
    let b₀ : bit_and n 0xFF * 2 ^ 24 % u32_mod ≡ byte 0 n * 2 ^ 24 =
      omega (arith, bit_and-mask 8 n) in
    let b₁ : bit_and n 0xFF00 * 2 ^ 8 % u32_mod ≡ byte 1 n * 2 ^ 16 =
      omega (arith, bit_and-shift 8 n 0xFF, bit_and-mask 8 (n / 2 ^ 8)) in
    let b₂ : bit_and n 0xFF0000 / 2 ^ 8 ≡ byte 2 n * 2 ^ 8 =
      omega (arith, bit_and-shift 16 n 0xFF, bit_and-mask 8 (n / 2 ^ 16)) in
    let b₃ : bit_and n 0xFF000000 / 2 ^ 24 ≡ byte 3 n =
      omega (arith, bit_and-shift 24 n 0xFF, bit_and-mask 8 (n / 2 ^ 24)) in
    let o₁ = ap₂ bit_or b₀ b₁ ∙ bit_or-fields 24 (byte 0 n) (byte 1 n * 2 ^ 16) (omega arith) in
    let r₁ : byte 0 n * 2 ^ 24 + byte 1 n * 2 ^ 16 ≡ (byte 0 n * 256 + byte 1 n) * 2 ^ 16 =
      omega arith in
    let o₂ =
      ap₂ bit_or (o₁ ∙ r₁) b₂
      ∙ bit_or-fields 16 (byte 0 n * 256 + byte 1 n) (byte 2 n * 2 ^ 8) (omega arith) in
    let r₂ : (byte 0 n * 256 + byte 1 n) * 2 ^ 16 + byte 2 n * 2 ^ 8
        ≡ ((byte 0 n * 256 + byte 1 n) * 256 + byte 2 n) * 2 ^ 8 =
      omega arith in
    ap₂ bit_or (o₂ ∙ r₂) b₃
    ∙ bit_or-fields 8 ((byte 0 n * 256 + byte 1 n) * 256 + byte 2 n) (byte 3 n) (omega arith)

-- `be2le_u32` undoes itself.
pub be2le_u32-be2le_u32 : (n : ℕ) → n < u32_mod → be2le_u32 (be2le_u32 n) ≡ n
be2le_u32-be2le_u32 n h =
    let e = be2le_u32-bytes n h in be2le_u32-bytes (be2le_u32 n) (omega arith) ∙ omega arith
