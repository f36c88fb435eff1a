-- ===== src/Mm/Blocks.antt =====
-- The abstract view of the page allocator of src/mm.c: for each order the first pages of the free
-- blocks. Blocks are aligned, lie in the memory and do not overlap.
use nycu_osc.Prelude.{
  ℕ, sym, ◌∙◌, ◌&&◌, ◌+◌, ◌*◌, ◌^◌, ◌≤◌, ◌<◌, ◌≡◌, ◌↔◌, ◌⊎◌, inl, inr, false, List, ◌∷◌, ◌==◌,
  arith, Bool-cases,
}
use native.Mathlib.Nat.{le_refl, one-le-pow}
use nycu_osc.Prelude.Store.{update, has, ◌∈◌, ◌∉◌, erase, mem_of_mem-erase, mem-erase_ne}
use nycu_osc.Mm.Types.{max_order, page_num}

-- page `p` lies in the block of order `o` that begins at `a`
abbrev pub InBlock : ℕ → ℕ → ℕ → Type 0
InBlock a o p = (a ≤ p) × (p < a + 2 ^ o)

abbrev pub FreeLists : Type 0
FreeLists = ℕ → List ℕ

-- page `p` lies in a free block
abbrev pub Covered : FreeLists → ℕ → Type 0
Covered free p = (o : ℕ) × (a : ℕ) × (o < max_order) × (a ∈ free o) × (a ≤ p) × (p < a + 2 ^ o)

abbrev pub push : ℕ → ℕ → FreeLists → FreeLists
push o a free = update free o (a ∷ free o)

abbrev pub drop_block : ℕ → ℕ → FreeLists → FreeLists
drop_block o a free = update free o (erase a (free o))

abbrev pub IsAligned : ℕ → ℕ → Type 0
IsAligned a o = (q : ℕ) × (a ≡ q * 2 ^ o)

pub record Blocks (free : FreeLists) : Type 0 where
  pub aligned : (o a : ℕ) → o < max_order → a ∈ free o → IsAligned a o
  pub inside : (o a : ℕ) → o < max_order → a ∈ free o → a + 2 ^ o ≤ page_num
  pub disjoint :
      (o o' a b p : ℕ)
      → o < max_order
      → o' < max_order
      → a ∈ free o
      → b ∈ free o'
      → InBlock a o p
      → InBlock b o' p
      → (a ≡ b) × (o ≡ o')

-- a block that no free block overlaps
pub record Clear (free : FreeLists) (b k : ℕ) : Type 0 where
  pub aligned : IsAligned b k
  pub inside : b + 2 ^ k ≤ page_num
  pub away : (o a p : ℕ) → o < max_order → a ∈ free o → InBlock a o p → ¬ InBlock b k p

pub lt-add-pow : (b o : ℕ) → b < b + 2 ^ o
lt-add-pow b o = omega (arith, one-le-pow o 2 (omega arith))

-- membership after the two changes
pub mem-drop : (free : FreeLists) (o a o' b : ℕ) → b ∈ drop_block o a free o' → b ∈ free o'
mem-drop free o a o' b h = ground (arith, mem_of_mem-erase b a (free o))

pub mem-drop_ne :
    (free : FreeLists) (o a o' b : ℕ)
    → ((o' == o) && (b == a)) ≡ false
    → b ∈ free o'
    → b ∈ drop_block o a free o'
mem-drop_ne free o a o' b ne h = ground (arith, mem-erase_ne b a (free o))

pub mem-push :
    (free : FreeLists) (o a o' b : ℕ) → b ∈ push o a free o' → ((o' ≡ o) × (b ≡ a)) ⊎ (b ∈ free o')
mem-push free o a o' b h = ground arith

pub mem-push_old : (free : FreeLists) (o a o' b : ℕ) → b ∈ free o' → b ∈ push o a free o'
mem-push_old free o a o' b h = ground arith

module _ (free : FreeLists) (o a : ℕ) where
  pub Blocks-drop : Blocks free → Blocks (drop_block o a free)
  Blocks-drop w = record {
    aligned = λ o' b h i. w.aligned o' b h (mem-drop free o a o' b i);
    inside = λ o' b h i. w.inside o' b h (mem-drop free o a o' b i);
    disjoint = λ o₁ o₂ b c p h k i j.
        w.disjoint o₁ o₂ b c p h k (mem-drop free o a o₁ b i) (mem-drop free o a o₂ c j);
  }

  pub Clear-drop :
      Blocks free
      → o < max_order
      → a ∈ free o
      → a ∉ erase a (free o)
      → Clear (drop_block o a free) a o
  Clear-drop w h i out = record {
    aligned = w.aligned o a h i;
    inside = w.inside o a h i;
    away = λ o' b p h' j inb ina.
        let e = w.disjoint o' o b a p h' h (mem-drop free o a o' b j) i inb ina in ground arith;
  }

  -- Dropping a block uncovers exactly its pages.
  pub Covered-drop :
      (p : ℕ)
      → o < max_order
      → a ∈ free o
      → Covered free p ↔ (Covered (drop_block o a free) p ⊎ InBlock a o p)
  Covered-drop p h i = (there, back)
    where
      there : Covered free p → Covered (drop_block o a free) p ⊎ InBlock a o p
      there (o', b, h', j, lo, hi) = elim (Bool-cases ((o' == o) && (b == a))) [
        | inl same ↦ inr (ground arith, ground arith)
        | inr ne ↦ inl (o', b, h', mem-drop_ne free o a o' b ne j, lo, hi)
      ]

      back : Covered (drop_block o a free) p ⊎ InBlock a o p → Covered free p
      back (inl (o', b, h', j, lo, hi)) = (o', b, h', mem-drop free o a o' b j, lo, hi)
      back (inr (lo, hi)) = (o, a, h, i, lo, hi)

  pub Blocks-push : Blocks free → Clear free a o → Blocks (push o a free)
  Blocks-push w c = record {
    aligned = λ o' b h i. aligned o' b h (mem-push free o a o' b i);
    inside = λ o' b h i. inside o' b h (mem-push free o a o' b i);
    disjoint = λ o₁ o₂ b d p h k i j.
        disjoint o₁ o₂ b d p h k (mem-push free o a o₁ b i) (mem-push free o a o₂ d j);
  }
    where
      aligned : (o' b : ℕ) → o' < max_order → ((o' ≡ o) × (b ≡ a)) ⊎ (b ∈ free o') → IsAligned b o'
      aligned o' b h (inl (e, f)) = rw (e, f) c.aligned
      aligned o' b h (inr i) = w.aligned o' b h i

      inside :
          (o' b : ℕ) → o' < max_order → ((o' ≡ o) × (b ≡ a)) ⊎ (b ∈ free o') → b + 2 ^ o' ≤ page_num
      inside o' b h (inl (e, f)) = rw (e, f) c.inside
      inside o' b h (inr i) = w.inside o' b h i

      disjoint :
          (o₁ o₂ b d p : ℕ)
          → o₁ < max_order
          → o₂ < max_order
          → ((o₁ ≡ o) × (b ≡ a)) ⊎ (b ∈ free o₁)
          → ((o₂ ≡ o) × (d ≡ a)) ⊎ (d ∈ free o₂)
          → InBlock b o₁ p
          → InBlock d o₂ p
          → (b ≡ d) × (o₁ ≡ o₂)
      disjoint o₁ o₂ b d p h k (inl (e, f)) (inl (e', f')) x y = (f ∙ sym f', e ∙ sym e')
      disjoint o₁ o₂ b d p h k (inl (e, f)) (inr j) x y =
          absurd (c.away o₂ d p k j y (rw (← e, ← f) x))
      disjoint o₁ o₂ b d p h k (inr i) (inl (e, f)) x y =
          absurd (c.away o₁ b p h i x (rw (← e, ← f) y))
      disjoint o₁ o₂ b d p h k (inr i) (inr j) x y = w.disjoint o₁ o₂ b d p h k i j x y

  -- A new block covers exactly its pages.
  pub Covered-push :
      (p : ℕ) → o < max_order → Covered (push o a free) p ↔ (Covered free p ⊎ InBlock a o p)
  Covered-push p h = (there, back)
    where
      found :
          (o' b : ℕ)
          → o' < max_order
          → InBlock b o' p
          → ((o' ≡ o) × (b ≡ a)) ⊎ (b ∈ free o')
          → Covered free p ⊎ InBlock a o p
      found o' b h' x (inl (e, f)) = inr (rw (← e, ← f) x)
      found o' b h' x (inr j) = inl (o', b, h', j, x.0, x.1)

      there : Covered (push o a free) p → Covered free p ⊎ InBlock a o p
      there (o', b, h', j, lo, hi) = found o' b h' (lo, hi) (mem-push free o a o' b j)

      back : Covered free p ⊎ InBlock a o p → Covered (push o a free) p
      back (inl (o', b, h', j, lo, hi)) = (o', b, h', mem-push_old free o a o' b j, lo, hi)
      back (inr (lo, hi)) = (o, a, h, ground arith, lo, hi)

-- The first page of a clear block is in no list.
pub Clear-not_mem : (free : FreeLists) (b k o : ℕ) → Clear free b k → o < max_order → b ∉ free o
Clear-not_mem free b k o c h = elim (Bool-cases (has b (free o))) [
  | inl i ↦ absurd (c.away o b b h i (le_refl b, lt-add-pow b o) (le_refl b, lt-add-pow b k))
  | inr out ↦ out
]
