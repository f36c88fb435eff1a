-- ===== src/Syscall/Fork/Frames.antt =====
-- Reads behind the copies that `sys_fork` makes.
use nycu_osc.Prelude.{
  ℕ, ◌+◌, ◌-◌, ◌*◌, ◌/◌, ◌%◌, ◌^◌, ◌≤◌, ◌<◌, ◌≡◌, ◌⊎◌, inl, inr, refl, ap, ◌∙◌, ◌&&◌, false, true,
  ltb, leb, arith,
}
use nycu_osc.CString.Memory.{Mem, memcpy, memcpy_lem}
use nycu_osc.Syscall.Fork.{put_long, get_long, u64_mod}

-- an address outside the `n` bytes from `p` on
abbrev pub IsOutside : ℕ → ℕ → ℕ → Type 0
IsOutside a p n = (a < p) ⊎ (p + n ≤ a)

-- two blocks of `n` bytes that share none
abbrev pub AreApart : ℕ → ℕ → ℕ → Type 0
AreApart n p q = (p + n ≤ q) ⊎ (q + n ≤ p)

out_of_range : (a p n : ℕ) → IsOutside a p n → (leb p a && ltb a (p + n)) ≡ false
out_of_range a p n (inl h) = ground (arith, h)
out_of_range a p n (inr h) = ground (arith, h)

in_range : (p i n : ℕ) → i < n → (leb p (p + i) && ltb (p + i) (p + n)) ≡ true
in_range p i n h = ground (arith, h)

pub memcpy_outside :
    (d s n a : ℕ) (m : Mem) → AreApart n d s → IsOutside a d n → memcpy d s n m a ≡ m a
memcpy_outside d s n a m apart out =
    memcpy_lem d s n m a (below apart) ∙ rw (out_of_range a d n out) refl
  where
    below : AreApart n d s → (d ≤ s) ⊎ (s + n ≤ d)
    below (inl h) = inl (omega arith)
    below (inr h) = inr h

pub memcpy_inside :
    (d s n i : ℕ) (m : Mem) → AreApart n d s → i < n → memcpy d s n m (d + i) ≡ m (s + i)
memcpy_inside d s n i m apart h =
    let e : d + i - d ≡ i = omega arith in
    memcpy_lem d s n m (d + i) (below apart) ∙ rw (in_range d i n h) (ap (λ (t : ℕ). m (s + t)) e)
  where
    below : AreApart n d s → (d ≤ s) ⊎ (s + n ≤ d)
    below (inl h) = inl (omega arith)
    below (inr h) = inr h

pub put_long_outside : (p v a : ℕ) (m : Mem) → IsOutside a p 8 → put_long p v m a ≡ m a
put_long_outside p v a m out = rw (out_of_range a p 8 out) refl

pub put_long_inside : (p v i : ℕ) (m : Mem) → i < 8 → put_long p v m (p + i) ≡ v / 2 ^ (8 * i) % 256
put_long_inside p v i m h =
    let e : p + i - p ≡ i = omega arith in
    rw (in_range p i 8 h) (ap (λ (t : ℕ). v / 2 ^ (8 * t) % 256) e)

pub get_long-put_long : (p v : ℕ) (m : Mem) → v < u64_mod → get_long p (put_long p v m) ≡ v
get_long-put_long p v m h =
    rw
      (
        put_long_inside p v 0 m (omega arith),
        put_long_inside p v 1 m (omega arith),
        put_long_inside p v 2 m (omega arith),
        put_long_inside p v 3 m (omega arith),
        put_long_inside p v 4 m (omega arith),
        put_long_inside p v 5 m (omega arith),
        put_long_inside p v 6 m (omega arith),
        put_long_inside p v 7 m (omega arith),
      )
      (omega arith)

-- The same eight bytes are the same number.
pub get_long_same :
    (p q : ℕ) (m n : Mem) → ((i : ℕ) → i < 8 → m (p + i) ≡ n (q + i)) → get_long p m ≡ get_long q n
get_long_same p q m n h =
    rw
      (
        h 0 (omega arith),
        h 1 (omega arith),
        h 2 (omega arith),
        h 3 (omega arith),
        h 4 (omega arith),
        h 5 (omega arith),
        h 6 (omega arith),
        h 7 (omega arith),
      )
      refl
