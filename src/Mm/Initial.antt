-- ===== src/Mm/Initial.antt =====
-- `mm_init` of src/mm.c sets the invariant of the page allocator up.
use nycu_osc.Prelude.{
  ℕ, zero, suc, ◌+◌, ◌*◌, ◌/◌, ◌^◌, ◌≤◌, ◌<◌, ◌≡◌, ◌↔◌, ◌⊎◌, inl, inr, refl, sym, ◌∙◌, true, false,
  [], ltb, arith, Bool-cases,
}
use mathlib.Core.Path.{subst}
use nycu_osc.Prelude.Store.{◌∈◌}
use nycu_osc.Mm.Types.{Mm, max_order, page_num, max_block_size}
use nycu_osc.Mm.Blocks.{FreeLists, InBlock, Covered, IsAligned, push, mem-push, Covered-push}
use nycu_osc.Mm.Inv.{IsValid, Held, SameInfo, Lists-frame}
use nycu_osc.Mm.Alloc.{mark}
use nycu_osc.Mm.Free.{give_back}
use nycu_osc.Mm.Freed.{give_back-IsValid}
use nycu_osc.Mm.Init.{cleared, init_block, init_blocks, init_cache_order, mm_init}

abbrev no_blocks : FreeLists
no_blocks o = []

cleared-IsValid : IsValid cleared no_blocks
cleared-IsValid = record {
  base = record {
    lists = λ o h. refl;
    info = λ o a h i. let c : false ≡ true = i in cc;
    blocks = record {
      aligned = λ o a h i. let c : false ≡ true = i in cc;
      inside = λ o a h i. let c : false ≡ true = i in cc;
      disjoint = λ o o' a b p h h' i j u w. let c : false ≡ true = i in cc;
    };
  };
  linked = λ a e at. cc;
}

-- A round of the loop is the step that gives a block back.
init_block-give_back : (i : ℕ) (m : Mm) → init_block i m ≡ give_back i 13 m
unfolding init_block give_back mark
init_block-give_back i m = refl

-- the free blocks lie below page `i`
abbrev Below : FreeLists → ℕ → Type 0
Below free i = (o a p : ℕ) → o < max_order → a ∈ free o → InBlock a o p → p < i

-- A block is free of the blocks below it, and its first page is in no list.
Below-Held :
    (m : Mm) (free : FreeLists) (i : ℕ)
    → IsValid m free
    → Below free i
    → IsAligned i 13
    → i + max_block_size ≤ page_num
    → Held m free i 13
Below-Held m free i v below aligned inside = record {
  base = v.base;
  linked = λ a e ne at. v.linked a e at;
  clear = record {
    aligned = aligned;
    inside = inside;
    away = λ o a p h j u w. omega (arith, below o a p h j u, w.0);
  };
}

Below-push : (free : FreeLists) (i : ℕ) → Below free i → Below (push 13 i free) (i + max_block_size)
Below-push free i below o a p h j u = elim (mem-push free 13 i o a j) [
  | inl e ↦
      let hi : p < i + 2 ^ 13 =
        subst (λ x. p < x + 2 ^ 13) e.1 (subst (λ x. p < a + 2 ^ x) e.0 u.1) in
      omega (arith, hi)
  | inr old ↦ omega (arith, below o a p h old u)
]

-- the pages that `n` rounds from page `i` on make free
abbrev pub Range : ℕ → ℕ → ℕ → Type 0
Range i n p = (i ≤ p) × (p < i + n * max_block_size)

cover :
    (i n p : ℕ) (free free' : FreeLists)
    → (Covered free' p ↔ (Covered (push 13 i free) p ⊎ Range (i + max_block_size) n p))
    → (Covered (push 13 i free) p ↔ (Covered free p ⊎ InBlock i 13 p))
    → Covered free' p ↔ (Covered free p ⊎ Range i (suc n) p)
cover i n p free free' rest first = (there, back)
  where
    there : Covered free' p → Covered free p ⊎ Range i (suc n) p
    there c = elim (rest.0 c) [
      | inr r ↦ inr (omega (arith, r.0), omega (arith, r.1))
      | inl d ↦ elim (first.0 d) [ inl old ↦ inl old | inr b ↦ inr (b.0, omega (arith, b.1)) ]
    ]

    back : Covered free p ⊎ Range i (suc n) p → Covered free' p
    back (inl old) = rest.1 (inl (first.1 (inl old)))
    back (inr r) = elim (Bool-cases (ltb p (i + max_block_size))) [
      | inl in_first ↦ rest.1 (inl (first.1 (inr (r.0, ground (arith, in_first)))))
      | inr later ↦ rest.1 (inr (ground (arith, later), omega (arith, r.1)))
    ]

-- The loop keeps the invariant, and its blocks become free.
init_blocks-IsValid :
    (n i : ℕ) (m : Mm) (free : FreeLists)
    → i + n * max_block_size ≤ page_num
    → IsAligned i 13
    → IsValid m free
    → Below free i
    → (free' : FreeLists) × IsValid (init_blocks n i m) free'
      × ((p : ℕ) → Covered free' p ↔ (Covered free p ⊎ Range i n p))
unfolding init_blocks
init_blocks-IsValid zero i m free h aligned v below = (
  free,
  v,
  λ p. (λ c. inl c, λ c. elim c [ inl d ↦ d | inr r ↦ absurd (omega (arith, r.0, r.1)) ]),
)
init_blocks-IsValid (suc n) i m free h (q, e) v below =
    let held = Below-Held m free i v below (q, e) (omega arith) in
    let v₁ : IsValid (init_block i m) (push 13 i free) =
      subst (λ s. IsValid s (push 13 i free)) (sym (init_block-give_back i m))
        (give_back-IsValid m free i 13 (omega arith) held) in
    let (free', v', pages) =
      init_blocks-IsValid n (i + max_block_size) (init_block i m) (push 13 i free) (omega arith)
        (q + 1, omega arith) v₁ (Below-push free i below) in
    (free', v', λ p. cover i n p free free' (pages p) (Covered-push free 13 i p (omega arith)))

-- Writing the cache orders changes nothing that the invariant reads.
init_cache_order-IsValid :
    (m : Mm) (free : FreeLists) → IsValid m free → IsValid (init_cache_order m) free
unfolding init_cache_order
init_cache_order-IsValid m free v = record {
  base =
      Lists-frame m (init_cache_order m) free
        (record { prev = λ a. ground arith; next = λ a. ground arith; head = λ o. refl })
        (λ o a h i. same a) v.base;
  linked = λ a e at.
      let (own, (o, h, order, i)) = v.linked a e (sym (same a).entry ∙ at) in
      (own, (o, h, (same a).order ∙ order, i));
}
  where
    same : (a : ℕ) → SameInfo m (init_cache_order m) a
    same a = record { idx = ground arith; order = ground arith; entry = ground arith }

-- `mm_init` sets the invariant up, with every page of the memory free.
pub mm_init-IsValid :
    (free : FreeLists) × IsValid mm_init free × ((p : ℕ) → p < page_num → Covered free p)
unfolding mm_init
mm_init-IsValid =
    let (free, v, pages) =
      init_blocks-IsValid (page_num / max_block_size) 0 cleared no_blocks (omega arith) (0, refl)
        cleared-IsValid (λ o a p h i u. let c : false ≡ true = i in cc) in
    (
      free,
      init_cache_order-IsValid (init_blocks (page_num / max_block_size) 0 cleared) free v,
      λ p h. (pages p).1 (inr (omega arith, omega (arith, h))),
    )
