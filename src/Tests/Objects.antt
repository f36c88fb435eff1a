-- ===== src/Tests/Objects.antt =====
-- The object allocator of src/alloc.c.
use nycu_osc.Prelude.{
  ℕ, ◌+◌, ◌^◌, ◌≤◌, ◌<◌, ◌≡◌, refl, inl, inr, true, false, none, some, [], ◌∷◌, ◌==◌, if◌then◌else◌,
  arith, Bool-cases,
}
use nycu_osc.Prelude.Int.{pos}
use nycu_osc.Prelude.Store.{update, ◌∈◌, ◌∉◌}
use nycu_osc.Prelude.Links.{IsQueue}
use nycu_osc.Mm.Types.{Mm, page_size, set_head, set_idx, set_cache_order}
use nycu_osc.Mm.Init.{cleared}
use nycu_osc.Mm.Order.{round, get_order}
use nycu_osc.Mm.FreeList.{rm_from_free_list}
use nycu_osc.Mm.Alloc.{page_alloc, find_block, take_block, split_down}
use nycu_osc.Kmem.{
  Kmem, get_chunk_order, cache_num, take_cache_page, request_page, chunk_num, kmalloc, kfree,
}
use nycu_osc.Kmem.Pools.{Pools, IsValid, IsTaken, Serves, kmalloc_lem, kfree_lem}
use nycu_osc.Kmem.Chunks.{Unused, Grown, page_chunks, Apart, request_page_lem}

-- page 7 is the only free one
abbrev one_page : Mm
one_page = set_head 0 (some 7) (set_idx 7 7 cleared)

-- the cache 1 has two free chunks, the others have none
abbrev two_chunks : Kmem
two_chunks = record {
  cache_size = λ c. 2 ^ (c + 4);
  free_list = λ c. if c == 1 then some 1000 else none;
  next = λ e. if e == 1000 then some 2000 else none;
  prev = λ e. none;
  mm = one_page;
  heap_ptr = none;
  bss_end = 500;
  stack_top = 900;
}

abbrev two_pools : Pools
two_pools c = if c == 1 then 1000 ∷ 2000 ∷ [] else []

two_chunks-IsValid : IsValid two_chunks two_pools
two_chunks-IsValid = record { lists = λ c k. lists c; apart = apart }
  where
    lists : (c : ℕ) → IsQueue two_chunks.next (two_chunks.free_list c) (two_pools c)
    lists c = elim (Bool-cases (c == 1)) [
      | inl own ↦ rw own (refl, refl, (refl, refl, refl))
      | inr other ↦ rw other refl
    ]

    apart :
        (c d e : ℕ)
        → c < cache_num
        → d < cache_num
        → (c == d) ≡ false
        → e ∈ two_pools c
        → e ∉ two_pools d
    apart c d e k l ne i = elim (Bool-cases (d == 1)) [
      | inr other ↦ rw other refl
      | inl own ↦
          let away : (c == 1) ≡ false = ground (arith, own, ne) in
          let none_there : false ≡ true = rw away at i in cc
    ]

kmalloc_lem_example :
    let r = kmalloc 20 two_chunks in
    Serves 20 1
    × (r.0 ≡ some 1016)
    × IsValid r.1 (update two_pools 1 (2000 ∷ []))
    × IsTaken (update two_pools 1 (2000 ∷ [])) 1000
unfolding get_chunk_order
kmalloc_lem_example =
    kmalloc_lem two_chunks two_pools 20 1000 (2000 ∷ []) two_chunks-IsValid (omega arith) refl

page_taken : (take_cache_page 0 two_chunks).0 ≡ some 28672
unfolding take_cache_page page_alloc find_block get_order round take_block split_down
    rm_from_free_list
page_taken = refl

no_chunk_in_page : Unused two_pools 28672 32 127
no_chunk_in_page c e k i = elim (Bool-cases (c == 1)) [
  | inl own ↦ let j : e ∈ (1000 ∷ 2000 ∷ []) = rw own at i in inl (ground (arith, j))
  | inr other ↦ let none_there : false ≡ true = rw other at i in cc
]

request_page_lem_example :
    let ys = page_chunks 28672 16 [] in
    Grown (request_page 0 two_chunks) two_pools 0 ys
    × ((e : ℕ) → e ∈ ys → e ∉ [] → (28672 ≤ e) × (e + 32 ≤ 28672 + page_size))
    × ((e e' : ℕ) → e ∈ ys → e' ∈ ys → e ∉ [] → e' ∉ [] → Apart 32 e e')
unfolding chunk_num
request_page_lem_example =
    request_page_lem two_chunks two_pools 0 28672 two_chunks-IsValid (omega arith) page_taken
      no_chunk_in_page

-- the same, with a page 0 of the cache 1
abbrev cut_page : Kmem
cut_page = record two_chunks { mm = set_cache_order 0 (pos 5) one_page }

IsTaken-3000 : IsTaken two_pools 3000
IsTaken-3000 c h = elim (Bool-cases (c == 1)) [ inl own ↦ rw own refl | inr other ↦ rw other refl ]

kfree_lem_example : IsValid (kfree 3016 cut_page) (update two_pools 1 (3000 ∷ 1000 ∷ 2000 ∷ []))
kfree_lem_example =
    kfree_lem cut_page two_pools 1 3000
      (record { lists = two_chunks-IsValid.lists; apart = two_chunks-IsValid.apart }) (omega arith)
      IsTaken-3000 refl refl
