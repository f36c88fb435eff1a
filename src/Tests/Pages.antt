-- ===== src/Tests/Pages.antt =====
-- The page allocator of src/mm.c with one free block.
use nycu_osc.Prelude.{
  ℕ, ◌+◌, ◌-◌, ◌*◌, ◌/◌, ◌^◌, ◌≤◌, ◌<◌, ◌≡◌, ◌⊎◌, inl, inr, refl, none, some, [], ◌∷◌, ◌==◌,
  if◌then◌else◌, arith, Bool-cases, true, sym, ◌∙◌, some_inj,
}
use mathlib.Core.Path.{subst}
use nycu_osc.Prelude.Int.{pos, negsuc}
use nycu_osc.Prelude.Store.{◌∈◌}
use nycu_osc.Mm.Types.{Mm, PageInfo, max_order, page_num, page_size}
use nycu_osc.Mm.Order.{round, get_order, get_order_least}
use nycu_osc.Mm.Blocks.{FreeLists, IsAligned, Blocks, Clear, InBlock}
use nycu_osc.Mm.Dll.{IsFreeList}
use nycu_osc.Mm.Inv.{IsValid, InList, Info}
use nycu_osc.Mm.Alloc.{page_alloc}
use nycu_osc.Mm.Free.{page_free}
use nycu_osc.Mm.Found.{Outcome, page_alloc_serves}
use nycu_osc.Mm.Freed.{Freed, page_free_lem, page_free_largest}

-- the block of order `o` at `a` is the only one that is free
abbrev one_free : ℕ → ℕ → FreeLists
one_free a o n = if n == o then a ∷ [] else []

abbrev one_page : ℕ → ℕ → ℕ → PageInfo
one_page a o p = record {
  idx = p;
  order = if p == a then pos o else pos 0;
  cache_order = negsuc 0;
  entry_in_list = if p == a then some a else none;
  prev = none;
  next = none;
}

abbrev one : ℕ → ℕ → Mm
one a o = record { free_list = λ n. if n == o then some a else none; page_list = one_page a o }

the_one : (a o n b : ℕ) → b ∈ one_free a o n → (b ≡ a) × (n ≡ o)
the_one a o n b h = ground arith

one-Blocks : (a o : ℕ) → IsAligned a o → a + 2 ^ o ≤ page_num → Blocks (one_free a o)
one-Blocks a o aligned inside = record {
  aligned = λ n b h i. let e = the_one a o n b i in rw (e.0, e.1) aligned;
  inside = λ n b h i. let e = the_one a o n b i in rw (e.0, e.1) inside;
  disjoint = λ n m b c p h k i j u w.
      let e = the_one a o n b i in
      let f = the_one a o m c j in rw (e.0, e.1, f.0, f.1) (refl, refl);
}

one-Info : (a o : ℕ) → Info (one a o) a o
one-Info a o =
    let self : (a == a) ≡ true = ground arith in
    record { idx = refl; order = rw self refl; entry = rw self refl }

one-IsFreeList : (a o n : ℕ) → IsFreeList (one a o) n (one_free a o n)
one-IsFreeList a o n = elim (Bool-cases (n == o)) [
  | inl same ↦ rw same (refl, refl, refl, refl)
  | inr other ↦ rw other refl
]

one-linked :
    (a o b e : ℕ)
    → o < max_order
    → (one_page a o b).entry_in_list ≡ some e
    → (e ≡ b) × InList (one a o) (one_free a o) b
one-linked a o b e h at = elim (Bool-cases (b == a)) [
  | inl same ↦
      let b≡a : b ≡ a = ground arith in
      let self : (o == o) ≡ true = ground arith in
      let c : some a ≡ some e = rw same at at in
      (sym (some_inj c) ∙ sym b≡a, (o, h, rw same refl, rw (self, b≡a) (ground arith)))
  | inr other ↦ let c : none ≡ some e = rw other at at in cc
]

one-IsValid :
    (a o : ℕ)
    → o < max_order
    → IsAligned a o
    → a + 2 ^ o ≤ page_num
    → IsValid (one a o) (one_free a o)
one-IsValid a o h aligned inside = record {
  base = record {
    lists = λ n k. one-IsFreeList a o n;
    info = λ n b k i. let e = the_one a o n b i in rw (e.0, e.1) (one-Info a o);
    blocks = one-Blocks a o aligned inside;
  };
  linked = λ b e at. one-linked a o b e h at;
}

-- one block of two pages at page 2
abbrev two_pages : Mm
two_pages = one 2 1

two_pages-IsValid : IsValid two_pages (one_free 2 1)
two_pages-IsValid = one-IsValid 2 1 (omega arith) (1, refl) (omega arith)

page_alloc_serves_example :
    let order = get_order (round 100) in
    (100 ≤ 2 ^ order * page_size)
    × ((order ≡ 0) ⊎ (2 ^ (order - 1) * page_size < 100))
    × Outcome two_pages (one_free 2 1) order order (page_alloc 100 two_pages)
page_alloc_serves_example =
    page_alloc_serves two_pages (one_free 2 1) 100 two_pages-IsValid (omega arith) (omega arith)

get_order_least_example :
    (10000 / page_size ≤ 2 ^ get_order 10000)
    × ((get_order 10000 ≡ 0) ⊎ (2 ^ (get_order 10000 - 1) < 10000 / page_size))
get_order_least_example = get_order_least 10000 (omega arith)

-- page 5 is free and page 4, its buddy, is allocated
abbrev odd_page : Mm
odd_page = one 5 0

four-Clear : Clear (one_free 5 0) 4 0
four-Clear = record {
  aligned = (4, refl);
  inside = omega arith;
  away = λ n b p h i inner outer.
      let e = the_one 5 0 n b i in
      let (lo, hi) : InBlock 5 0 p =
        subst (λ c. InBlock c 0 p) e.0 (subst (λ m. InBlock b m p) e.1 inner) in
      omega (arith, outer.0, outer.1);
}

page_free_lem_example :
    (m' : Mm) × (page_free (4 * page_size) odd_page ≡ some m') × Freed (one_free 5 0) 4 0 m'
page_free_lem_example =
    page_free_lem odd_page (one_free 5 0) 4 0
      (one-IsValid 5 0 (omega arith) (5, refl) (omega arith)) four-Clear refl refl (omega arith)
      (omega arith)

-- every page says that it is allocated as the first of a block of the largest order
abbrev all_largest : Mm
all_largest = record {
  free_list = λ n. none;
  page_list = λ p. record {
    idx = p;
    order = pos 13;
    cache_order = negsuc 0;
    entry_in_list = none;
    prev = none;
    next = none;
  };
}

page_free_largest_example : page_free (8192 * page_size) all_largest ≡ some all_largest
page_free_largest_example = page_free_largest all_largest 8192 refl refl (omega arith) (omega arith)
