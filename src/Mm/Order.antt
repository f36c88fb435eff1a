-- ===== src/Mm/Order.antt =====
-- `round`, `get_order` and `get_buddy` of src/mm.c: sizes in bytes, block orders and buddies.
use nycu_osc.Prelude.{
  ℕ, zero, suc, ◌+◌, ◌-◌, ◌*◌, ◌/◌, ◌%◌, ◌^◌, ◌≤◌, ◌<◌, ◌≡◌, ◌⊎◌, inl, inr, arith, ◌==◌, ltb,
  if◌then◌else◌, Bool-cases, true,
}
use mathlib.Core.Path.{subst}
use native.Mathlib.Nat.{pow-le-pow_right}
use native.Mathlib.Decide.{dec_lt}
use Prim.Native.Nat.{bit_xor}
use nycu_osc.Mm.Types.{page_size, max_order, max_block_size, max_alloc_size}

-- The callers pass at most 2 ^ 25, so the `int` arithmetic does not overflow.
unfoldable pub round : ℕ → ℕ
round size = if size % page_size == 0 then size else (size / page_size + 1) * page_size

-- the loop of `get_order`, on fuel
order_loop : ℕ → ℕ → ℕ → ℕ
order_loop zero order size = order
order_loop (suc f) order size =
    let rest = order_loop f (order + 1) size in if ltb (2 ^ order) size then rest else order

unfoldable pub get_order : ℕ → ℕ
unfolding order_loop
get_order size = order_loop 31 0 (size / page_size)

unfoldable pub get_buddy : ℕ → ℕ → ℕ
get_buddy idx order = bit_xor idx (2 ^ order)

-- `round` goes up to the next multiple of the page size, and no further.
pub round_bounds :
    (size : ℕ)
    → (size ≤ round size) × (round size < size + page_size) × (round size % page_size ≡ 0)
unfolding round
round_bounds size = ground arith

Least-last :
    (order size r : ℕ)
    → ltb (2 ^ order) size ≡ true
    → order + 1 ≤ r
    → (r ≡ order + 1) ⊎ (2 ^ (r - 1) < size)
    → 2 ^ (r - 1) < size
Least-last order size r more from (inl e) =
    let e' : r - 1 ≡ order = omega arith in rw e' (ground arith)
Least-last order size r more from (inr h) = h

-- what the loop returns from `order` on
record Least (order size r : ℕ) : Type 0 where
  fits : size ≤ 2 ^ r
  from : order ≤ r
  least : (r ≡ order) ⊎ (2 ^ (r - 1) < size)

Least-suc :
    (order size r : ℕ) → ltb (2 ^ order) size ≡ true → Least (order + 1) size r → Least order size r
Least-suc order size r more l = record {
  fits = l.fits;
  from = omega (arith, l.from);
  least = inr (Least-last order size r more l.from l.least);
}

order_loop-Least :
    (f order size : ℕ) → size ≤ 2 ^ (order + f) → Least order size (order_loop f order size)
unfolding order_loop
order_loop-Least zero order size h = record {
  fits = ground arith;
  from = omega arith;
  least = inl (omega arith);
}
order_loop-Least (suc f) order size h = elim (Bool-cases (ltb (2 ^ order) size)) [
  | inl more ↦
      let h' : size ≤ 2 ^ (order + 1 + f) = subst (λ n. size ≤ 2 ^ n) (omega arith) h in
      rw more (Least-suc order size _ more (order_loop-Least f (order + 1) size h'))
  | inr stop ↦
      rw stop (record { fits = ground arith; from = omega arith; least = inl (omega arith) })
]

-- For every size of an `int` the loop ends by its test: the order is the least one whose block
-- holds the size in whole pages.
pub get_order_least :
    (size : ℕ)
    → size < 2 ^ 31
    → (size / page_size ≤ 2 ^ get_order size)
      × ((get_order size ≡ 0) ⊎ (2 ^ (get_order size - 1) < size / page_size))
unfolding get_order
get_order_least size h =
    let l = order_loop-Least 31 0 (size / page_size) (omega arith) in (l.fits, l.least)

-- A size up to the largest block rounds to at most the pages of that block.
round_pages :
    (size : ℕ)
    → size ≤ max_alloc_size
    → (round size / page_size ≤ max_block_size)
      × (size ≤ round size / page_size * page_size)
      × (round size < size + page_size)
      × (round size / page_size * page_size ≡ round size)
round_pages size h =
    let (lo, hi, whole) = round_bounds size in
    let b : round size ≤ max_alloc_size = omega arith in (omega arith, omega arith, hi, omega arith)

pub get_order-round_fits :
    (size : ℕ)
    → size ≤ max_alloc_size
    → let order = get_order (round size) in
      (size ≤ 2 ^ order * page_size) × ((order ≡ 0) ⊎ (2 ^ (order - 1) * page_size < size))
get_order-round_fits size h =
    let (pages, fits, near, whole) = round_pages size h in
    let (enough, least) = get_order_least (round size) (omega arith) in
    (omega arith, elim least [ inl e ↦ inl e | inr l ↦ inr (omega arith) ])

pow_cancel : (a b : ℕ) → 2 ^ a < 2 ^ b → a < b
pow_cancel a b h = elim (dec_lt a b) [
  | yes l ↦ l
  | no g ↦
      absurd (omega (arith, pow-le-pow_right {n = 2} (omega arith) {i = b} {j = a} (omega arith)))
]

pub get_order-round_lt : (size : ℕ) → size ≤ max_alloc_size → get_order (round size) < max_order
get_order-round_lt size h =
    let (pages, fits, near, whole) = round_pages size h in
    let (enough, least) = get_order_least (round size) (omega arith) in
    elim least [
      | inl e ↦ omega arith
      | inr l ↦ let c = pow_cancel (get_order (round size) - 1) 13 (omega arith) in omega arith
    ]
