-- ===== src/CString/Memory.antt =====
-- `memset` and `memcpy` of src/string.c over a byte-addressed memory.
use nycu_osc.Prelude.{
  ℕ, zero, suc, ◌+◌, ◌-◌, ◌%◌, ◌≤◌, ◌≡◌, ◌⊎◌, inl, inr, ◌&&◌, ltb, leb, if◌then◌else◌, arith,
}
use nycu_osc.Prelude.Store.{update}

abbrev pub Mem : Type 0
Mem = ℕ → ℕ

unfoldable pub memset : ℕ → ℕ → ℕ → Mem → Mem
memset p c zero m = m
memset p c (suc n) m = memset (p + 1) c n (update m p (c % 256))

unfoldable pub memcpy : ℕ → ℕ → ℕ → Mem → Mem
memcpy d s zero m = m
memcpy d s (suc n) m = memcpy (d + 1) (s + 1) n (update m d (m s))

-- `memcpy` between two buffers that do not overlap: from `s` of `src` to `d` of `dst`
unfoldable pub copy : ℕ → Mem → ℕ → Mem → ℕ → Mem
copy d dst s src zero = dst
copy d dst s src (suc n) = copy (d + 1) (update dst d (src s)) (s + 1) src n

pub copy_lem :
    (d s n : ℕ) (dst src : Mem) (a : ℕ)
    → copy d dst s src n a ≡ (if leb d a && ltb a (d + n) then src (s + (a - d)) else dst a)
unfolding copy
copy_lem d s zero dst src a = ground arith
copy_lem d s (suc n) dst src a =
    ground (arith, copy_lem (d + 1) (s + 1) n (update dst d (src s)) src a)

-- `memset` writes the low byte of `c` to the `n` bytes from `p` on, and to no other.
pub memset_lem :
    (p c n : ℕ) (m : Mem) (a : ℕ)
    → memset p c n m a ≡ (if leb p a && ltb a (p + n) then c % 256 else m a)
unfolding memset
memset_lem p c zero m a = ground arith
memset_lem p c (suc n) m a = ground (arith, memset_lem (p + 1) c n (update m p (c % 256)) a)

-- Where the destination does not begin inside the source past its first byte, `memcpy` gives it
-- the old bytes of the source, and changes no other byte.
pub memcpy_lem :
    (d s n : ℕ) (m : Mem) (a : ℕ)
    → (d ≤ s) ⊎ (s + n ≤ d)
    → memcpy d s n m a ≡ (if leb d a && ltb a (d + n) then m (s + (a - d)) else m a)
unfolding memcpy
memcpy_lem d s zero m a h = ground arith
memcpy_lem d s (suc n) m a h =
    ground (arith, memcpy_lem (d + 1) (s + 1) n (update m d (m s)) a (shift h))
  where
    shift : (d ≤ s) ⊎ (s + suc n ≤ d) → (d + 1 ≤ s + 1) ⊎ (s + 1 + n ≤ d + 1)
    shift (inl k) = inl (omega arith)
    shift (inr k) = inr (omega arith)
