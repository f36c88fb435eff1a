-- ===== src/Mm/Merge.antt =====
-- One merge in `_free` of src/mm.c: a block and its free buddy become one block.
use nycu_osc.Prelude.{
  ℕ, suc, ◌+◌, ◌^◌, ◌<◌, ◌≡◌, ◌↔◌, ◌⊎◌, inl, inr, refl, sym, ◌∙◌, false, none, some, ◌==◌, arith,
  Bool-cases, ==_iff,
}
use native.Mathlib.Nat.{pow-suc}
use nycu_osc.Prelude.Int.{pos}
use nycu_osc.Prelude.Store.{◌∈◌, mem_ne}
use nycu_osc.Mm.Types.{Mm, max_order}
use nycu_osc.Mm.FreeList.{rm_from_free_list}
use nycu_osc.Mm.Dll.{not-mem-erase_self}
use nycu_osc.Mm.Blocks.{
  FreeLists, Clear, InBlock, Covered, drop_block, mem-drop, mem-drop_ne, Clear-drop, Covered-drop,
  Clear-not_mem,
}
use nycu_osc.Mm.Inv.{
  Lists, Held, InList, SameInfo, SameLinks, SameInfo-trans, Lists-frame, Lists-drop, rm-SameInfo,
}
use nycu_osc.Mm.SplitCover.{InBlock-halves}
use nycu_osc.Mm.Buddy.{Halves}
use nycu_osc.Mm.Free.{merge}

merge-SameLinks : (s g o : ℕ) (m : Mm) → SameLinks m (merge s g o m)
unfolding merge
merge-SameLinks s g o m = record {
  prev = λ a. ground arith;
  next = λ a. ground arith;
  head = λ n. refl;
}

merge-SameInfo :
    (s g o : ℕ) (m : Mm) (x : ℕ)
    → (x == s) ≡ false
    → (x == g) ≡ false
    → SameInfo m (merge s g o m) x
unfolding merge
merge-SameInfo s g o m x ne ne' = record {
  idx = ground arith;
  order = ground arith;
  entry = ground arith;
}

merge-entry : (s g o : ℕ) (m : Mm) → ((merge s g o m).page_list g).entry_in_list ≡ none
unfolding merge
merge-entry s g o m = ground arith

pub merge-order :
    (s g o : ℕ) (m : Mm) → (s == g) ≡ false → ((merge s g o m).page_list s).order ≡ pos o
unfolding merge
merge-order s g o m ne = ground arith

-- the block `c` that is freed and its buddy `b` are the halves `s` and `g`
module _ (m : Mm) (free : FreeLists) (c b s g o : ℕ) (h : suc o < max_order) (v : Held m free c o)
    (i : b ∈ free o) (halves : Halves s g o)
    (which : ((s ≡ c) × (g ≡ b)) ⊎ ((s ≡ b) × (g ≡ c))) where
  abbrev m₁ : Mm
  m₁ = rm_from_free_list (some b) (pos o) m

  abbrev free₁ : FreeLists
  free₁ = drop_block o b free

  abbrev m₂ : Mm
  m₂ = merge s g (o + 1) m₁

  buddy-Clear : Clear free₁ b o
  buddy-Clear = Clear-drop free o b v.base.blocks (omega arith) i (
      not-mem-erase_self m.page_list b none (m.free_list o) (free o) (v.base.lists o (omega arith)))

  own_away : (o' a p : ℕ) → o' < max_order → a ∈ free₁ o' → InBlock a o' p → ¬ InBlock c o p
  own_away o' a p h' j x y = v.clear.away o' a p h' (mem-drop free o b o' a j) x y

  outside : (o' a : ℕ) → o' < max_order → a ∈ free₁ o' → ((a == s) ≡ false) × ((a == g) ≡ false)
  outside o' a h' j =
      let nb = mem_ne a b (free₁ o') j (Clear-not_mem free₁ b o o' buddy-Clear h') in
      let nc =
        mem_ne a c (free o') (mem-drop free o b o' a j) (Clear-not_mem free c o o' v.clear h') in
      ground arith

  base : Lists m₂ free₁
  base =
      Lists-frame m₁ m₂ free₁ (merge-SameLinks s g (o + 1) m₁)
        (λ o' a h' j. let (p, q) = outside o' a h' j in merge-SameInfo s g (o + 1) m₁ a p q)
        (Lists-drop m free o b (omega arith) v.base i)

  linked :
      (x e : ℕ)
      → (x == s) ≡ false
      → (m₂.page_list x).entry_in_list ≡ some e
      → (e ≡ x) × InList m₂ free₁ x
  linked x e ne at = elim (Bool-cases (x == g)) [
    | inl same ↦
        let x≡g = (==_iff x g).0 same in
        let f = sym (rw x≡g at at) ∙ merge-entry s g (o + 1) m₁ in cc
    | inr ne' ↦
        let t = SameInfo-trans (rm-SameInfo m b o x) (merge-SameInfo s g (o + 1) m₁ x ne ne') in
        let (e≡x, (o', h', ord, j)) = v.linked x e (ground arith) (sym t.entry ∙ at) in
        (e≡x, (o', h', t.order ∙ ord, mem-drop_ne free o b o' x (ground arith) j))
  ]

  -- The pages of the merged block are those of the two.
  halves-pages : (p : ℕ) → InBlock s (suc o) p ↔ (InBlock c o p ⊎ InBlock b o p)
  halves-pages p =
      (λ x. to which ((InBlock-halves s o p).0 x), λ y. (InBlock-halves s o p).1 (from which y))
    where
      to :
          ((s ≡ c) × (g ≡ b)) ⊎ ((s ≡ b) × (g ≡ c))
          → InBlock s o p ⊎ InBlock (s + 2 ^ o) o p
          → InBlock c o p ⊎ InBlock b o p
      to (inl (e, f)) (inl x) = inl (omega arith)
      to (inl (e, f)) (inr x) = inr (omega (arith, halves.step))
      to (inr (e, f)) (inl x) = inr (omega arith)
      to (inr (e, f)) (inr x) = inl (omega (arith, halves.step))

      from :
          ((s ≡ c) × (g ≡ b)) ⊎ ((s ≡ b) × (g ≡ c))
          → InBlock c o p ⊎ InBlock b o p
          → InBlock s o p ⊎ InBlock (s + 2 ^ o) o p
      from (inl (e, f)) (inl x) = inl (omega arith)
      from (inl (e, f)) (inr x) = inr (omega (arith, halves.step))
      from (inr (e, f)) (inl x) = inr (omega (arith, halves.step))
      from (inr (e, f)) (inr x) = inl (omega arith)

  away :
      (o' a p : ℕ)
      → o' < max_order
      → a ∈ free₁ o'
      → InBlock a o' p
      → InBlock c o p ⊎ InBlock b o p
      → ⊥
  away o' a p h' j x (inl y) = own_away o' a p h' j x y
  away o' a p h' j x (inr y) = buddy-Clear.away o' a p h' j x y

  pub merge-Held : Held m₂ free₁ s (suc o)
  merge-Held = record {
    base = base;
    linked = linked;
    clear = record {
      aligned = halves.aligned;
      inside = omega (arith, halves.step, pow-suc 2 o, which, v.clear.inside, buddy-Clear.inside);
      away = λ o' a p h' j x y. away o' a p h' j x ((halves-pages p).0 y);
    };
  }

  -- Merging neither loses nor invents a page.
  pub merge-pages :
      (p : ℕ) → (Covered free₁ p ⊎ InBlock s (suc o) p) ↔ (Covered free p ⊎ InBlock c o p)
  merge-pages p = (there, back)
    where
      d : Covered free p ↔ (Covered free₁ p ⊎ InBlock b o p)
      d = Covered-drop free o b p (omega arith) i

      there : Covered free₁ p ⊎ InBlock s (suc o) p → Covered free p ⊎ InBlock c o p
      there (inl x) = inl (d.1 (inl x))
      there (inr y) = elim ((halves-pages p).0 y) [ inl z ↦ inr z | inr z ↦ inl (d.1 (inr z)) ]

      back : Covered free p ⊎ InBlock c o p → Covered free₁ p ⊎ InBlock s (suc o) p
      back (inl x) = elim (d.0 x) [ inl z ↦ inl z | inr z ↦ inr ((halves-pages p).1 (inr z)) ]
      back (inr y) = inr ((halves-pages p).1 (inl y))
