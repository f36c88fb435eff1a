-- ===== src/Fs/Long.antt =====
-- The integer types that the file operations convert between: `size_t` and `long` of 64 bits, and
-- the `int` of 32 bits that a call returns.
use nycu_osc.Prelude.{ℕ, ◌-◌, ◌%◌, ◌^◌, ◌<◌, ◌≡◌, ltb, if◌then◌else◌, arith}
use nycu_osc.Prelude.Int.{ℤ, pos, negsuc}

abbrev pub u64_mod : ℕ
u64_mod = 2 ^ 64

-- the `int` with the low 32 bits of `x`
unfoldable pub to_int : ℕ → ℤ
to_int x = if ltb (x % 2 ^ 32) (2 ^ 31) then pos (x % 2 ^ 32) else negsuc (2 ^ 32 - 1 - x % 2 ^ 32)

-- the `long` with the bits of `x`
unfoldable pub to_long : ℕ → ℤ
to_long x =
    if ltb (x % u64_mod) (2 ^ 63) then pos (x % u64_mod) else negsuc (u64_mod - 1 - x % u64_mod)

-- the bits of a `long`
unfoldable pub of_long : ℤ → ℕ
of_long (pos n) = n % u64_mod
of_long (negsuc n) = (u64_mod - 1 - n % u64_mod) % u64_mod

pub to_int_lem : (x : ℕ) → x < 2 ^ 31 → to_int x ≡ pos x
unfolding to_int
to_int_lem x h = ground arith

pub to_long_lem : (x : ℕ) → x < 2 ^ 63 → to_long x ≡ pos x
unfolding to_long
to_long_lem x h = ground arith

pub of_long_lem : (x : ℕ) → x < 2 ^ 63 → of_long (pos x) ≡ x
unfolding of_long
of_long_lem x h = omega arith
