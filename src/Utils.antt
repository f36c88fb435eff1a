-- ===== src/Utils.antt =====
-- The conversions of src/utils.c: numbers in text, byte order and alignment.
pub mod Decimal
pub mod Align
use Prim.Native.Nat.{bit_and, bit_or}
use nycu_osc.Prelude.{
  ℕ, zero, suc, ◌+◌, ◌-◌, ◌*◌, ◌/◌, ◌%◌, ◌^◌, Bool, ◌&&◌, List, [], ◌∷◌, ◌++◌, ◌==◌, leb,
  if◌then◌else◌,
}
use mathlib.Core.List.{reverse}
use nycu_osc.Prelude.Int.{ℤ, pos, negsuc}
use nycu_osc.CString.{Text}

abbrev pub u32_mod : ℕ
u32_mod = 2 ^ 32

-- what one character adds in `hex_to_uint`; any other character adds nothing
unfoldable pub hex_value : ℕ → ℕ
hex_value c =
    if leb b'0' c && leb c b'9'
    then c - b'0'
    else if leb b'a' c && leb c b'f'
    then c - b'a' + 10
    else if leb b'A' c && leb c b'F'
    then c - b'A' + 10
    else 0

-- the loop of `hex_to_uint`, on the `len` characters; `result << 4` is on 32 bits
unfoldable pub hex_loop : ℕ → Text → ℕ
hex_loop result [] = result
hex_loop result (c ∷ cs) = hex_loop ((result * 2 ^ 4 % u32_mod + hex_value c) % u32_mod) cs

unfoldable pub hex_to_uint : Text → ℕ
hex_to_uint s = hex_loop 0 s

-- `result * 10 + *str - '0'` on the bit pattern of an `int`
unfoldable pub atoi_loop : ℕ → Text → ℕ
atoi_loop result [] = result
atoi_loop result (c ∷ cs) =
    if c == 0 then result else atoi_loop ((result * 10 + c + u32_mod - b'0') % u32_mod) cs

unfoldable pub atoi : Text → ℕ
atoi s = atoi_loop 0 s

-- `while (num > 0)`: the digits in the order they enter the buffer; ten rounds do for an `int`
unfoldable pub digit_loop : ℕ → ℕ → Text
digit_loop zero num = []
digit_loop (suc f) num =
    let rest = digit_loop f (num / 10) in if num == 0 then [] else (num % 10 + b'0') ∷ rest

-- the buffer before it is reversed
unfoldable pub itoa_buffer : ℤ → Text
itoa_buffer (pos n) = if n == 0 then b'0' ∷ [] else digit_loop 10 n
itoa_buffer (negsuc n) = digit_loop 10 (n + 1) ++ (b'-' ∷ [])

-- `itoa`; the loop that swaps the ends of the buffer is a reversal
unfoldable pub itoa : ℤ → Text
itoa num = reverse (itoa_buffer num)

unfoldable pub be2le_u32 : ℕ → ℕ
be2le_u32 be =
    bit_or
      (bit_or (bit_or (bit_and be 0xFF * 2 ^ 24 % u32_mod) (bit_and be 0xFF00 * 2 ^ 8 % u32_mod))
        (bit_and be 0xFF0000 / 2 ^ 8))
      (bit_and be 0xFF000000 / 2 ^ 24)

-- `(n + alignment - 1) & ~(alignment - 1)` on 32 bits
unfoldable pub align : ℕ → ℕ → ℕ
align n alignment =
    bit_and ((n + alignment + u32_mod - 1) % u32_mod)
      (u32_mod - 1 - (alignment + u32_mod - 1) % u32_mod)
