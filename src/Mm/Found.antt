-- ===== src/Mm/Found.antt =====
-- `_alloc` of src/mm.c gives out a block that was free, and keeps the invariant.
use nycu_osc.Prelude.{
  ℕ, zero, suc, ◌+◌, ◌-◌, ◌*◌, ◌^◌, ◌≤◌, ◌<◌, ◌≡◌, ◌↔◌, ◌⊎◌, inl, inr, refl, sym, ◌∙◌, true, false,
  none, some, ◌==◌, arith, Bool-cases, Option-cases, ==_iff, ltb, ◌||◌,
}
use mathlib.Core.Path.{subst}
use native.Mathlib.Nat.{le_refl}
use nycu_osc.Mm.Order.{round, get_order, get_order-round_lt, get_order-round_fits}
use nycu_osc.Prelude.Int.{pos}
use nycu_osc.Prelude.Store.{◌∈◌, mem_ne}
use nycu_osc.Mm.Types.{Mm, max_order, page_size, max_alloc_size}
use nycu_osc.Mm.FreeList.{rm_from_free_list}
use nycu_osc.Mm.Dll.{not-mem-erase_self, head-mem}
use nycu_osc.Mm.Blocks.{
  FreeLists, Clear, InBlock, Covered, drop_block, mem-drop_ne, Clear-drop, Covered-drop,
  Clear-not_mem,
}
use nycu_osc.Mm.Inv.{Lists, IsValid, Held, InList, Lists-frame, Lists-drop, rm-SameInfo}
use nycu_osc.Mm.Alloc.{mark, split_down, take_block, find_block, page_alloc}
use nycu_osc.Mm.Split.{Kept, mark-SameLinks, mark-SameInfo, mark_self, split_free, split_down-Kept}
use nycu_osc.Mm.SplitCover.{Covered-split_free}

-- The block of order `order` at page `b` is given out: no free block overlaps it, it was free
-- before, and no other page has changed sides.
pub record Allocated (m' : Mm) (free free' : FreeLists) (b order : ℕ) : Type 0 where
  pub valid : IsValid m' free'
  pub clear : Clear free' b order
  pub order_set : (m'.page_list b).order ≡ pos order
  pub unlinked : (m'.page_list b).entry_in_list ≡ none
  pub pages : (p : ℕ) → Covered free p ↔ (Covered free' p ⊎ InBlock b order p)

-- The removal of a free block leaves it in no list.
pub rm-Held :
    (m : Mm) (free : FreeLists) (b i : ℕ)
    → i < max_order
    → IsValid m free
    → b ∈ free i
    → Held (rm_from_free_list (some b) (pos i) m) (drop_block i b free) b i
rm-Held m free b i h v j = record {
  base = Lists-drop m free i b h v.base j;
  linked = linked;
  clear =
      Clear-drop free i b v.base.blocks h j
        (not-mem-erase_self m.page_list b none (m.free_list i) (free i) (v.base.lists i h));
}
  where
    linked :
        (a e : ℕ)
        → (a == b) ≡ false
        → ((rm_from_free_list (some b) (pos i) m).page_list a).entry_in_list ≡ some e
        → (e ≡ a) × InList (rm_from_free_list (some b) (pos i) m) (drop_block i b free) a
    linked a e ne at =
        let s = rm-SameInfo m b i a in
        let (e≡a, (o, k, ord, l)) = v.linked a e (sym s.entry ∙ at) in
        (e≡a, (o, k, s.order ∙ ord, mem-drop_ne free i b o a (ground arith) l))

-- Marking the kept block as allocated closes the operation.
mark-IsValid :
    (m : Mm) (free : FreeLists) (b order : ℕ)
    → Held m free b order
    → IsValid (mark b order none m) free
mark-IsValid m free b order v = record { base = base; linked = linked }
  where
    base : Lists (mark b order none m) free
    base =
        Lists-frame m (mark b order none m) free (mark-SameLinks b order none m)
          (λ o a h i.
            mark-SameInfo b order none m a
              (mem_ne a b (free o) i (Clear-not_mem free b order o v.clear h)))
          v.base

    linked :
        (a e : ℕ)
        → ((mark b order none m).page_list a).entry_in_list ≡ some e
        → (e ≡ a) × InList (mark b order none m) free a
    linked a e at = elim (Bool-cases (a == b)) [
      | inl same ↦
          let a≡b = (==_iff a b).0 same in
          let f = sym (rw a≡b at at) ∙ (mark_self b order none m).2 in cc
      | inr ne ↦
          let s = mark-SameInfo b order none m a ne in
          let (e≡a, (o, k, ord, l)) = v.linked a e ne (sym s.entry ∙ at) in
          (e≡a, (o, k, s.order ∙ ord, l))
    ]

module _ (m : Mm) (free : FreeLists) (b order i : ℕ) (h : i < max_order) (le : order ≤ i)
    (v : IsValid m free) (j : b ∈ free i) where
  abbrev m₁ : Mm
  m₁ = split_down b order (i - order) (rm_from_free_list (some b) (pos i) m)

  abbrev free₁ : FreeLists
  free₁ = split_free b order (i - order) (drop_block i b free)

  back : order + (i - order) ≡ i
  back = omega arith

  m₁-Kept : Kept m₁ free₁ b order
  m₁-Kept =
      split_down-Kept (rm_from_free_list (some b) (pos i) m) (drop_block i b free) b order
        (i - order) (omega arith)
        (subst (Kept (rm_from_free_list (some b) (pos i) m) (drop_block i b free) b) (sym back)
          (rm-Held m free b i h v j, (rm-SameInfo m b i b).idx ∙ (v.base.info i b h j).idx))

  take_block-eq : take_block b i order m ≡ (b * page_size, mark b order none m₁)
  unfolding take_block
  take_block-eq = rw (m₁-Kept.1)

  pages₁ : (p : ℕ) → Covered free p ↔ (Covered free₁ p ⊎ InBlock b order p)
  pages₁ p =
      let dropped = drop_block i b free in
      let d = Covered-drop free i b p h j in
      let s = Covered-split_free (drop_block i b free) b order (i - order) p (omega arith) in
      let s' : (Covered dropped p ⊎ InBlock b i p) ↔ (Covered free₁ p ⊎ InBlock b order p) =
        subst (λ n. (Covered dropped p ⊎ InBlock b n p) ↔ (Covered free₁ p ⊎ InBlock b order p))
          back s in
      (λ x. s'.0 (d.0 x), λ y. d.1 (s'.1 y))

  take_block-Allocated : Allocated (mark b order none m₁) free free₁ b order
  take_block-Allocated = record {
    valid = mark-IsValid m₁ free₁ b order m₁-Kept.0;
    clear = m₁-Kept.0.clear;
    order_set = (mark_self b order none m₁).1;
    unlinked = (mark_self b order none m₁).2;
    pages = pages₁;
  }

-- what `_alloc` returns for a block of order `order`: NULL and the old state where all lists from
-- that order on are empty, and otherwise a block
pub data Outcome (m : Mm) (free : FreeLists) (order i : ℕ) (r : ℕ × Mm) : Type 0 where
  exhausted :
      ((o : ℕ) → i ≤ o → o < max_order → m.free_list o ≡ none)
      → r ≡ (0, m)
      → Outcome m free order i r
  served :
      (b : ℕ) (free' : FreeLists)
      → r.0 ≡ b * page_size
      → Allocated r.1 free free' b order
      → Outcome m free order i r

none_from :
    (m : Mm) (i : ℕ)
    → m.free_list i ≡ none
    → ((o : ℕ) → i + 1 ≤ o → o < max_order → m.free_list o ≡ none)
    → (o : ℕ) → i ≤ o
    → o < max_order
    → m.free_list o ≡ none
none_from m i empty nothing o lo hi = elim (Bool-cases (o == i)) [
  | inl same ↦ rw ((==_iff o i).0 same) empty
  | inr ne ↦ nothing o (ground arith) hi
]

find_block-Outcome :
    (m : Mm) (free : FreeLists) (order i k : ℕ)
    → IsValid m free
    → order ≤ i
    → i + k ≡ max_order
    → Outcome m free order i (find_block order i k m)
unfolding find_block
find_block-Outcome m free order i zero v le e = exhausted (λ o lo hi. absurd (omega arith)) refl
find_block-Outcome m free order i (suc k) v le e = elim (Option-cases (m.free_list i)) [
  | inl empty ↦
      rw (empty, find_block)
        (later empty (find_block-Outcome m free order (i + 1) k v (omega arith) (omega arith)))
  | inr (b, at) ↦
      rw (at, find_block)
        (let h : i < max_order = omega arith in
          let j = head-mem m.page_list b none (m.free_list i) (free i) (v.base.lists i h) at in
          let eq = take_block-eq m free b order i h le v j in
          subst (Outcome m free order i) (sym eq) (
            served b (free₁ m free b order i h le v j) refl
              (take_block-Allocated m free b order i h le v j)))
]
  where
    later :
        {r : ℕ × Mm}
        → m.free_list i ≡ none
        → Outcome m free order (i + 1) r
        → Outcome m free order i r
    later empty (exhausted nothing e') =
        exhausted (λ o lo hi. none_from m i empty nothing o lo hi) e'
    later empty (served b free' a al) = served b free' a al

-- In a state with the invariant, `_alloc` of a size from 1 to the largest block: the order is the
-- least whose block holds the size, and the result is NULL with the state unchanged, where every
-- list from that order on is empty, or else the address of a block of that order that was free;
-- the invariant is kept, the block is marked with its order and in no list, and the free pages
-- are the old ones without those of the block.
pub page_alloc_serves :
    (m : Mm) (free : FreeLists) (size : ℕ)
    → IsValid m free
    → 0 < size
    → size ≤ max_alloc_size
    → let order = get_order (round size) in
      (size ≤ 2 ^ order * page_size)
      × ((order ≡ 0) ⊎ (2 ^ (order - 1) * page_size < size))
      × Outcome m free order order (page_alloc size m)
unfolding page_alloc
page_alloc_serves m free size v nonzero hi =
    let order = get_order (round size) in
    let h : order < max_order = get_order-round_lt size hi in
    let (fits, least) = get_order-round_fits size hi in
    let go : ((size == 0) || ltb max_alloc_size size) ≡ false = ground arith in
    (
      fits,
      least,
      rw go (
          find_block-Outcome m free order order (max_order - order) v (le_refl order)
            (omega arith)),
    )

-- `_alloc` of 0 or of more than the largest block returns NULL and changes nothing.
pub page_alloc_refuses :
    (m : Mm) (size : ℕ) → (size ≡ 0) ⊎ (max_alloc_size < size) → page_alloc size m ≡ (0, m)
unfolding page_alloc
page_alloc_refuses m size (inl e) = rw e
page_alloc_refuses m size (inr h) =
    let stop : ((size == 0) || ltb max_alloc_size size) ≡ true = ground arith in rw stop
