-- ===== src/Kmem.antt =====
-- The object allocator, src/alloc.c: chunks of 16 to 128 bytes cut from pages of the page allocator.
-- A chunk is named by the address of the `struct kmem_cache_entry` in front of it.
pub mod Pools
pub mod Chunks
use nycu_osc.Prelude.{
  ℕ, zero, suc, ◌+◌, ◌-◌, ◌*◌, ◌/◌, ◌^◌, Bool, true, false, ◌&&◌, ◌||◌, Option, none, some, ◌==◌,
  ltb, leb, if◌then◌else◌,
}
use nycu_osc.Prelude.Int.{ℤ, pos, negsuc, ◌==ℤ◌}
use nycu_osc.Prelude.Store.{update}
use nycu_osc.Prelude.Links.{Links}
use nycu_osc.Mm.Types.{Mm, page_size, page_num, set_cache_order}
use nycu_osc.Mm.Alloc.{page_alloc}
use nycu_osc.Mm.Free.{page_free}

abbrev pub max_chunk_size : ℕ
max_chunk_size = 128

abbrev pub min_cache_order : ℕ
min_cache_order = 4

abbrev pub max_cache_order : ℕ
max_cache_order = 7

abbrev pub cache_num : ℕ
cache_num = 4

-- `sizeof(struct kmem_cache_entry)`: two pointers
abbrev pub header_size : ℕ
header_size = 16

-- `kmem_caches` by its two fields, the links of the entries, the page allocator, and `heap_ptr`;
-- `bss_end` and `stack_top` are the addresses that the linker script sets.
pub record Kmem : Type 0 where
  pub cache_size : ℕ → ℕ
  pub free_list : ℕ → Option ℕ
  pub next : Links
  pub prev : Links
  pub mm : Mm
  pub heap_ptr : Option ℕ
  pub bss_end : ℕ
  pub stack_top : ℕ

-- where the simple heap begins
unfoldable pub heap_start : Kmem → ℕ
heap_start s = elim s.heap_ptr [ none ↦ s.bss_end | some p ↦ p ]

-- `simple_alloc`: the address, `none` for `NULL`
unfoldable pub simple_alloc : ℕ → Kmem → Option ℕ × Kmem
unfolding heap_start
simple_alloc size s =
    let heap = heap_start s in
    if ltb s.stack_top (heap + size)
    then (none, record s { heap_ptr = some heap })
    else (some heap, record s { heap_ptr = some (heap + size) })

-- the write through a pointer that the code tests for NULL first
abbrev pub set_link? : Option ℕ → Option ℕ → Links → Links
set_link? none v links = links
set_link? (some e) v links = update links e v

-- `kmem_freelist_push`, to the cache `c`
unfoldable pub kmem_freelist_push : ℕ → ℕ → Kmem → Kmem
kmem_freelist_push entry c s = record s {
  next = update s.next entry (s.free_list c);
  prev = update (set_link? (s.free_list c) (some entry) s.prev) entry none;
  free_list = update s.free_list c (some entry);
}

-- `kmem_freelist_pop` of the cache `c`, whose first entry is `tmp`
unfoldable pub kmem_freelist_pop : ℕ → ℕ → Kmem → Kmem
kmem_freelist_pop tmp c s = record s {
  free_list = update s.free_list c (s.next tmp);
  prev = update (set_link? (s.next tmp) none s.prev) tmp none;
  next = update s.next tmp none;
}

-- the loop that splits chunks: `n` entries from the address `page` on, `step` bytes apart
unfoldable pub split_page : ℕ → ℕ → ℕ → ℕ → Kmem → Kmem
unfolding kmem_freelist_push
split_page zero page step c s = s
split_page (suc n) page step c s = split_page n (page + step) step c (kmem_freelist_push page c s)

-- `PAGE_SIZE / (chunk_size + sizeof(struct kmem_cache_entry))`
unfoldable pub chunk_num : ℕ → ℕ
chunk_num chunk_size = page_size / (chunk_size + header_size)

-- a page for the cache `c`: whether there is one, its address, and the state with its cache order
unfoldable pub take_cache_page : ℕ → Kmem → Option ℕ × Kmem
take_cache_page c s =
    let (page, m) = page_alloc page_size s.mm in
    if page == 0 then (none, record s { mm = m }) else (
      some page,
      record s { mm = set_cache_order (page / page_size) (pos (c + min_cache_order)) m },
    )

-- the chunks of the page that `request_page` got, if it got one; its loop begins at 1
unfoldable pub fill_page : Option ℕ → ℕ → Kmem → Kmem
unfolding split_page chunk_num
fill_page none c s = s
fill_page (some page) c s =
    let size = s.cache_size c in split_page (chunk_num size - 1) page (size + header_size) c s

-- `request_page`
unfoldable pub request_page : ℕ → Kmem → Kmem
unfolding take_cache_page fill_page
request_page c s = let (page, s₁) = take_cache_page c s in fill_page page c s₁

-- the loop of `kmem_cache_init` from cache `c` on, by the rounds left; it ends where no page is left
unfoldable pub init_caches : ℕ → ℕ → Kmem → Kmem
unfolding take_cache_page split_page chunk_num
init_caches zero c s = s
init_caches (suc n) c s =
    let (page, s₁) = take_cache_page c s in
    elim page [
      | none ↦ s₁
      | some p ↦
          let size = s₁.cache_size c in
          let s₂ = record s₁ { free_list = update s₁.free_list c none } in
          init_caches n (c + 1) (split_page (chunk_num size) p (size + header_size) c s₂)
    ]

-- `kmem_cache_init`
unfoldable pub kmem_cache_init : Kmem → Kmem
unfolding init_caches
kmem_cache_init s = init_caches cache_num 0 (record s {
  cache_size = λ c. if ltb c cache_num then 2 ^ (c + 4) else s.cache_size c;
  free_list = λ c. if ltb c cache_num then none else s.free_list c;
})

-- the loop of `get_chunk_order`, in a number of rounds
unfoldable pub chunk_order_loop : ℕ → ℕ → ℕ → ℕ
chunk_order_loop zero order size = order
chunk_order_loop (suc f) order size =
    let rest = chunk_order_loop f (order + 1) size in if ltb (2 ^ order) size then rest else order

-- `get_chunk_order`; up to 2^31 the shift of an `int` gives the power of two
unfoldable pub get_chunk_order : ℕ → ℕ
unfolding chunk_order_loop
get_chunk_order size = chunk_order_loop 28 4 size

-- `if (kmem_caches[order].free_list == NULL) request_page(order)`, by that list
unfoldable pub refill_at : Option ℕ → ℕ → Kmem → Kmem
unfolding request_page
refill_at none c s = request_page c s
refill_at (some entry) c s = s

-- the first chunk of the cache `c`, by its list, and the memory behind its entry
unfoldable pub pop_at : Option ℕ → ℕ → Kmem → Option ℕ × Kmem
unfolding kmem_freelist_pop
pop_at none c s = (none, s)
pop_at (some entry) c s = (some (entry + header_size), kmem_freelist_pop entry c s)

-- a chunk of the cache `c`
unfoldable pub take_chunk : ℕ → Kmem → Option ℕ × Kmem
unfolding refill_at pop_at
take_chunk c s = let s₁ = refill_at (s.free_list c) c s in pop_at (s₁.free_list c) c s₁

-- `kmalloc`: the address, `none` for `NULL`; the rounded size is a power of two, so it is not 0
unfoldable pub kmalloc : ℕ → Kmem → Option ℕ × Kmem
unfolding get_chunk_order take_chunk
kmalloc size s =
    let order = get_chunk_order size in
    if ltb max_chunk_size (2 ^ order) then (none, s) else take_chunk (order - min_cache_order) s

-- whether an address is in the part of the memory that `simple_alloc` serves
abbrev pub in_heap : Kmem → ℕ → Bool
in_heap s ptr = leb s.bss_end ptr && ltb ptr s.stack_top

-- the part of `kfree` behind its tests, by the cache order of the page
unfoldable pub kfree_order : ℤ → ℕ → Kmem → Kmem
unfolding kmem_freelist_push
kfree_order (negsuc n) ptr s = s
kfree_order (pos order) ptr s =
    if ltb order min_cache_order || ltb max_cache_order order
    then s
    else kmem_freelist_push (ptr - header_size) (order - min_cache_order) s

-- `kfree`; addresses are small enough for a page index of 31 bits
unfoldable pub kfree : ℕ → Kmem → Kmem
unfolding kfree_order
kfree ptr s =
    if ptr == 0 || in_heap s ptr
    then s
    else kfree_order (s.mm.page_list (ptr / page_size)).cache_order ptr s

-- `_alloc` in the state
unfoldable pub alloc_pages : ℕ → Kmem → Option ℕ × Kmem
alloc_pages size s =
    let (addr, m) = page_alloc size s.mm in
    (if addr == 0 then none else some addr, record s { mm = m })

-- `alloc`: the address, `none` for `NULL`
unfoldable pub alloc : ℕ → Kmem → Option ℕ × Kmem
unfolding kmalloc alloc_pages
alloc size s =
    if size == 0
    then (none, s)
    else if ltb max_chunk_size size
    then alloc_pages size s
    else kmalloc size s

-- `_free` in the state, `none` where it shifts by a negative count
unfoldable pub free_pages : ℕ → Kmem → Option Kmem
free_pages ptr s = elim (page_free ptr s.mm) [ none ↦ none | some m ↦ some (record s { mm = m }) ]

-- `free`, `none` where `_free` shifts by a negative count
unfoldable pub free : ℕ → Kmem → Option Kmem
unfolding kfree free_pages
free ptr s =
    if ptr == 0 || in_heap s ptr || leb page_num (ptr / page_size)
    then some s
    else if (s.mm.page_list (ptr / page_size)).cache_order ==ℤ negsuc 0
    then free_pages ptr s
    else some (kfree ptr s)
