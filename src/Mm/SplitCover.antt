-- ===== src/Mm/SplitCover.antt =====
-- The splitting loop of `_alloc` in src/mm.c neither loses nor invents a page.
use nycu_osc.Prelude.{ℕ, zero, suc, ◌+◌, ◌^◌, ◌<◌, ◌≡◌, ◌↔◌, ◌⊎◌, inl, inr, arith}
use native.Mathlib.Nat.{pow-suc}
use native.Mathlib.Decide.{dec_lt}
use nycu_osc.Mm.Types.{max_order}
use nycu_osc.Mm.Blocks.{FreeLists, InBlock, Covered, push, Covered-push}
use nycu_osc.Mm.Split.{split_free}

-- The pages of the block are those of its two halves.
pub InBlock-halves : (b k p : ℕ) → InBlock b (suc k) p ↔ (InBlock b k p ⊎ InBlock (b + 2 ^ k) k p)
InBlock-halves b k p = (there, back)
  where
    there : InBlock b (suc k) p → InBlock b k p ⊎ InBlock (b + 2 ^ k) k p
    there (lo, hi) = elim (dec_lt p (b + 2 ^ k)) [
      | yes h ↦ inl (lo, h)
      | no h ↦ inr (omega arith, omega (arith, pow-suc 2 k))
    ]

    back : InBlock b k p ⊎ InBlock (b + 2 ^ k) k p → InBlock b (suc k) p
    back (inl (lo, hi)) = (lo, omega (arith, pow-suc 2 k))
    back (inr (lo, hi)) = (omega arith, omega (arith, pow-suc 2 k))

-- Splitting neither loses nor invents a page.
pub Covered-split_free :
    (free : FreeLists) (b order k p : ℕ)
    → order + k < max_order
    → (Covered free p ⊎ InBlock b (order + k) p)
      ↔ (Covered (split_free b order k free) p ⊎ InBlock b order p)
unfolding split_free
Covered-split_free free b order zero p h =
    let e : order + 0 ≡ order = omega arith in rw e ((λ x. x), (λ x. x))
Covered-split_free free b order (suc k) p h =
    let e : order + suc k ≡ suc (order + k) = omega arith in
    let i = order + k in
    let ih = Covered-split_free (push i (b + 2 ^ i) free) b order k p (omega arith) in
    let c = Covered-push free i (b + 2 ^ i) p (omega arith) in
    let s = InBlock-halves b i p in rw e (λ x. ih.0 (apart c s x), λ x. joined c s (ih.1 x))
  where
    apart : {A B C D E : Type 0} → (A ↔ (B ⊎ C)) → (D ↔ (E ⊎ C)) → B ⊎ D → A ⊎ E
    apart c s (inl x) = inl (c.1 (inl x))
    apart c s (inr y) = elim (s.0 y) [ inl z ↦ inr z | inr z ↦ inl (c.1 (inr z)) ]

    joined : {A B C D E : Type 0} → (A ↔ (B ⊎ C)) → (D ↔ (E ⊎ C)) → A ⊎ E → B ⊎ D
    joined c s (inl x) = elim (c.0 x) [ inl z ↦ inl z | inr z ↦ inr (s.1 (inr z)) ]
    joined c s (inr y) = inr (s.1 (inl y))
