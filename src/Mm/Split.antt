-- ===== src/Mm/Split.antt =====
-- The splitting of a block in `_alloc` of src/mm.c: each round gives the upper half back to the
-- free lists and keeps the lower half.
use nycu_osc.Prelude.{
  ℕ, zero, suc, ◌+◌, ◌*◌, ◌^◌, ◌<◌, ◌≡◌, ◌⊎◌, inl, inr, refl, sym, ◌∙◌, ap, false, Option, some,
  ◌==◌, arith, Bool-cases, ==_iff, some_inj,
}
use mathlib.Core.Path.{subst}
use native.Mathlib.Nat.{pow-suc, one-le-pow}
use nycu_osc.Prelude.Int.{pos}
use nycu_osc.Mm.Types.{Mm, max_order, set_idx}
use nycu_osc.Prelude.Store.{◌∈◌, mem_ne}
use nycu_osc.Mm.FreeList.{add_to_free_list}
use nycu_osc.Mm.Blocks.{FreeLists, Clear, InBlock, push, mem-push, Clear-not_mem}
use nycu_osc.Mm.Inv.{
  Lists, Held, Info, SameInfo, SameLinks, InList, Lists-frame, Lists-push, SameInfo-trans,
  add-SameInfo, linked-push,
}
use nycu_osc.Mm.Alloc.{mark, split_step, split_down}

module _ (free : FreeLists) (b k : ℕ) (c : Clear free b (suc k)) where
  half : 2 ^ suc k ≡ 2 ^ k * 2
  half = pow-suc 2 k

  half_times : (q : ℕ) → q * 2 ^ suc k ≡ q * (2 ^ k * 2)
  half_times q = ap (λ (t : ℕ). q * t) half

  Clear-upper : Clear free (b + 2 ^ k) k
  Clear-upper = record {
    aligned = let (q, e) = c.aligned in (q * 2 + 1, omega (arith, half_times q));
    inside = omega (arith, half, c.inside);
    away = λ o a p h i x y. c.away o a p h i x (omega (arith, half));
  }

  Clear-lower : Clear (push k (b + 2 ^ k) free) b k
  Clear-lower = record {
    aligned = let (q, e) = c.aligned in (q * 2, omega (arith, half_times q));
    inside = omega (arith, half, c.inside);
    away = λ o a p h i x y. away o a p h x y (mem-push free k (b + 2 ^ k) o a i);
  }
    where
      away :
          (o a p : ℕ)
          → o < max_order
          → InBlock a o p
          → InBlock b k p
          → ((o ≡ k) × (a ≡ b + 2 ^ k)) ⊎ (a ∈ free o)
          → ⊥
      away o a p h x y (inl (e, f)) = omega arith
      away o a p h x y (inr i) = c.away o a p h i x (omega (arith, half))

-- `mark` spares the links, and all pages but its own.
pub mark-SameLinks : (n i : ℕ) (entry : Option ℕ) (m : Mm) → SameLinks m (mark n i entry m)
unfolding mark
mark-SameLinks n i entry m = record {
  prev = λ a. ground arith;
  next = λ a. ground arith;
  head = λ o. refl;
}

pub mark-SameInfo :
    (n i : ℕ) (entry : Option ℕ) (m : Mm) (x : ℕ)
    → (x == n) ≡ false
    → SameInfo m (mark n i entry m) x
unfolding mark
mark-SameInfo n i entry m x ne = record {
  idx = ground arith;
  order = ground arith;
  entry = ground arith;
}

pub mark_self :
    (n i : ℕ) (entry : Option ℕ) (m : Mm)
    → (((mark n i entry m).page_list n).idx ≡ (m.page_list n).idx)
      × (((mark n i entry m).page_list n).order ≡ pos i)
      × (((mark n i entry m).page_list n).entry_in_list ≡ entry)
unfolding mark
mark_self n i entry m = (ground arith, ground arith, ground arith)

module _ (m : Mm) (free : FreeLists) (b k : ℕ) where
  abbrev new : ℕ
  new = b + 2 ^ k

  abbrev m₁ : Mm
  m₁ = set_idx new ((m.page_list b).idx + 2 ^ k) m

  abbrev m₂ : Mm
  m₂ = add_to_free_list (some new) (pos k) m₁

  new_ne : (b == new) ≡ false
  new_ne = ground (arith, one-le-pow k 2 (omega arith))

  m₁-SameInfo : (x : ℕ) → (x == new) ≡ false → SameInfo m m₁ x
  m₁-SameInfo x ne = record { idx = ground arith; order = ground arith; entry = ground arith }

  module _ (own : (m.page_list b).idx ≡ b) where
    -- the page whose `order` and `entry_in_list` are set
    split_step-mark : split_step b k m ≡ mark new k (some new) m₂
    unfolding split_step
    split_step-mark =
        ap (λ n. mark n k (some new) m₂) ((add-SameInfo m₁ new k new).idx ∙ ground arith)

    m₂-SameInfo : (x : ℕ) → (x == new) ≡ false → SameInfo m m₂ x
    m₂-SameInfo x ne = SameInfo-trans (m₁-SameInfo x ne) (add-SameInfo m₁ new k x)

    abbrev m₃ : Mm
    m₃ = mark new k (some new) m₂

    m₃-SameInfo : (x : ℕ) → (x == new) ≡ false → SameInfo m m₃ x
    m₃-SameInfo x ne = SameInfo-trans (m₂-SameInfo x ne) (mark-SameInfo new k (some new) m₂ x ne)

    m₃-Info : Info m₃ new k
    m₃-Info =
        let (i, o, e) = mark_self new k (some new) m₂ in
        record { idx = i ∙ (add-SameInfo m₁ new k new).idx ∙ ground arith; order = o; entry = e }

    module _ (h : suc k < max_order) (v : Held m free b (suc k)) where
      m₁-Lists : Lists m₁ free
      m₁-Lists =
          Lists-frame m m₁ free
            (record { prev = λ a. ground arith; next = λ a. ground arith; head = λ o. refl })
            (λ o a h' i. m₁-SameInfo a (
              mem_ne a new (free o) i
                (Clear-not_mem free new k o (Clear-upper free b k v.clear) h')))
            v.base

      m₃-linked :
          (x e : ℕ)
          → (x == b) ≡ false
          → (m₃.page_list x).entry_in_list ≡ some e
          → (e ≡ x) × InList m₃ (push k new free) x
      m₃-linked x e ne at = elim (Bool-cases (x == new)) [
        | inl same ↦
            let x≡new = (==_iff x new).0 same in
            rw x≡new (
              some_inj (sym (rw x≡new at at) ∙ m₃-Info.entry),
              (k, omega arith, m₃-Info.order, ground arith),
            )
        | inr ne' ↦
            let s = m₃-SameInfo x ne' in
            linked-push m m₃ free k new x e s (v.linked x e ne (sym s.entry ∙ at))
      ]

      m₃-Held : Held m₃ (push k new free) b k
      m₃-Held = record {
        base =
            Lists-push m₁ m₃ free k new (omega arith) m₁-Lists (Clear-upper free b k v.clear)
              (mark-SameLinks new k (some new) m₂)
              (λ x ne.
                SameInfo-trans (add-SameInfo m₁ new k x) (mark-SameInfo new k (some new) m₂ x ne))
              m₃-Info;
        linked = m₃-linked;
        clear = Clear-lower free b k v.clear;
      }

-- The lower half is kept, and its first page still holds its own index.
abbrev pub Kept : Mm → FreeLists → ℕ → ℕ → Type 0
Kept m free b k = Held m free b k × ((m.page_list b).idx ≡ b)

split_step-Kept :
    (m : Mm) (free : FreeLists) (b k : ℕ)
    → suc k < max_order
    → Kept m free b (suc k)
    → Kept (split_step b k m) (push k (b + 2 ^ k) free) b k
split_step-Kept m free b k h (v, own) =
    subst (λ m'. Kept m' (push k (b + 2 ^ k) free) b k) (sym (split_step-mark m free b k own))
      (m₃-Held m free b k own h v, (m₃-SameInfo m free b k own b (new_ne m free b k)).idx ∙ own)

-- the free lists after `k` rounds
unfoldable pub split_free : ℕ → ℕ → ℕ → FreeLists → FreeLists
split_free b order zero free = free
split_free b order (suc k) free = split_free b order k (push (order + k) (b + 2 ^ (order + k)) free)

pub split_down-Kept :
    (m : Mm) (free : FreeLists) (b order k : ℕ)
    → order + k < max_order
    → Kept m free b (order + k)
    → Kept (split_down b order k m) (split_free b order k free) b order
unfolding split_down split_free
split_down-Kept m free b order zero h v = subst (Kept m free b) (omega arith) v
split_down-Kept m free b order (suc k) h v =
    split_down-Kept (split_step b (order + k) m) (push (order + k) (b + 2 ^ (order + k)) free) b
      order k (omega arith)
      (split_step-Kept m free b (order + k) (omega arith) (subst (Kept m free b) (omega arith) v))
