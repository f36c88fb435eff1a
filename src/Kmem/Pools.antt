-- ===== src/Kmem/Pools.antt =====
-- The free lists of src/alloc.c as pools of chunks.
use nycu_osc.Prelude.{
  ℕ, ◌+◌, ◌-◌, ◌/◌, ◌^◌, ◌≤◌, ◌<◌, ◌≡◌, ◌⊎◌, inl, inr, refl, sym, ap, ◌∙◌, true, false, none, some,
  List, ◌∷◌, ◌==◌, ltb, arith, Bool-cases, ==_iff,
}
use mathlib.Core.Path.{subst}
use native.Mathlib.Nat.{pow-le-pow_right}
use nycu_osc.Prelude.Int.{pos}
use nycu_osc.Prelude.Store.{update, has, ◌∈◌, ◌∉◌, mem_ne}
use nycu_osc.Prelude.Links.{IsQueue, IsQueue-frame}
use nycu_osc.Mm.Types.{page_size}
use nycu_osc.Kmem.{
  Kmem, cache_num, header_size, min_cache_order, max_cache_order, max_chunk_size,
  kmem_freelist_push, kmem_freelist_pop, chunk_order_loop, get_chunk_order, refill_at, pop_at,
  take_chunk, kmalloc, kfree, kfree_order, in_heap,
}

-- for each cache the chunks that are free
abbrev pub Pools : Type 0
Pools = ℕ → List ℕ

pub record IsValid (s : Kmem) (pools : Pools) : Type 0 where
  pub lists : (c : ℕ) → c < cache_num → IsQueue s.next (s.free_list c) (pools c)
  pub apart :
      (c d e : ℕ) → c < cache_num → d < cache_num → (c == d) ≡ false → e ∈ pools c → e ∉ pools d

-- a chunk that is in no pool
abbrev pub IsTaken : Pools → ℕ → Type 0
IsTaken pools e = (c : ℕ) → c < cache_num → e ∉ pools c

-- `kmem_freelist_push` adds a taken chunk to its pool.
pub push-IsValid :
    (s : Kmem) (pools : Pools) (c e : ℕ)
    → IsValid s pools
    → c < cache_num
    → IsTaken pools e
    → IsValid (kmem_freelist_push e c s) (update pools c (e ∷ pools c))
unfolding kmem_freelist_push
push-IsValid s pools c e v h taken = record { lists = lists; apart = apart }
  where
    lists :
        (d : ℕ)
        → d < cache_num
        → IsQueue
            (kmem_freelist_push e c s).next
            ((kmem_freelist_push e c s).free_list d)
            (update pools c (e ∷ pools c) d)
    lists d k = elim (Bool-cases (d == c)) [
      | inl same ↦
          let self : (c == c) ≡ true = ground arith in
          let own : (e == e) ≡ true = ground arith in
          subst
            (λ x.
              IsQueue (kmem_freelist_push e c s).next ((kmem_freelist_push e c s).free_list x)
                (update pools c (e ∷ pools c) x))
            (sym ((==_iff d c).0 same))
            (rw (self, own)
              (
                refl,
                taken c h,
                IsQueue-frame s.next (s.free_list c) (s.free_list c) (pools c) e (taken c h)
                    (v.lists c h),
              ))
      | inr ne ↦ rw ne (
          IsQueue-frame s.next (s.free_list d) (s.free_list c) (pools d) e (taken d k)
            (v.lists d k))
    ]

    apart :
        (d d' x : ℕ)
        → d < cache_num
        → d' < cache_num
        → (d == d') ≡ false
        → x ∈ update pools c (e ∷ pools c) d
        → x ∉ update pools c (e ∷ pools c) d'
    apart d d' x k k' ne i = elim (Bool-cases (d == c)) [
      | inl same ↦
          let d≡c = (==_iff d c).0 same in
          let other : (d' == c) ≡ false = ground arith in
          rw other (elim (Bool-cases (x == e)) [
            | inl hit ↦ rw ((==_iff x e).0 hit) (taken d' k')
            | inr miss ↦ v.apart c d' x h k' (ground arith) (ground (arith, i))
          ])
      | inr there ↦
          let old : x ∈ pools d = rw there at i in
          elim (Bool-cases (d' == c)) [
            | inl same ↦
                let d'≡c = (==_iff d' c).0 same in
                let miss = mem_ne x e (pools d) old (taken d k) in
                let out = v.apart d c x k h (ground arith) old in
                rw same (ground (arith, miss, out))
            | inr else_where ↦ rw else_where (v.apart d d' x k k' ne old)
          ]
    ]

-- A pool without its first chunk has no new chunks.
module _ (pools : Pools) (c e : ℕ) (xs : List ℕ) (at : pools c ≡ e ∷ xs) where
  mem-pop : (d x : ℕ) → x ∈ update pools c xs d → x ∈ pools d
  mem-pop d x i = elim (Bool-cases (d == c)) [
    | inl same ↦
        let j : x ∈ xs = rw same at i in
        subst (λ y. x ∈ pools y) (sym ((==_iff d c).0 same)) (rw at (ground (arith, j)))
    | inr ne ↦ rw ne at i
  ]

  not_mem-pop : (d x : ℕ) → x ∉ pools d → x ∉ update pools c xs d
  not_mem-pop d x out = elim (Bool-cases (has x (update pools c xs d))) [
    | inl i ↦ let j = mem-pop d x i in let k : true ≡ false = sym j ∙ out in cc
    | inr o ↦ o
  ]

  pop-lists :
      (s : Kmem)
      → IsValid s pools
      → c < cache_num
      → (d : ℕ) → d < cache_num
      → IsQueue (update s.next e none) (update s.free_list c (s.next e) d) (update pools c xs d)
  pop-lists s v h d k = elim (Bool-cases (d == c)) [
    | inl same ↦
        let q : IsQueue s.next (s.free_list c) (e ∷ xs) =
          subst (λ l. IsQueue s.next (s.free_list c) l) at (v.lists c h) in
        rw same (IsQueue-frame s.next (s.next e) none xs e q.1 q.2)
    | inr ne ↦
        let i : e ∈ pools c = rw at (ground arith) in
        rw ne (
          IsQueue-frame s.next (s.free_list d) none (pools d) e (v.apart c d e h k (ground arith) i)
            (v.lists d k))
  ]

  pop-IsTaken : (s : Kmem) → IsValid s pools → c < cache_num → IsTaken (update pools c xs) e
  pop-IsTaken s v h d k = elim (Bool-cases (d == c)) [
    | inl same ↦
        let q : IsQueue s.next (s.free_list c) (e ∷ xs) =
          subst (λ l. IsQueue s.next (s.free_list c) l) at (v.lists c h) in
        rw same q.1
    | inr ne ↦
        let i : e ∈ pools c = rw at (ground arith) in rw ne (v.apart c d e h k (ground arith) i)
  ]

-- `kmem_freelist_pop` takes the first chunk of a pool.
pub pop-IsValid :
    (s : Kmem) (pools : Pools) (c e : ℕ) (xs : List ℕ)
    → IsValid s pools
    → c < cache_num
    → pools c ≡ e ∷ xs
    → IsValid (kmem_freelist_pop e c s) (update pools c xs) × IsTaken (update pools c xs) e
unfolding kmem_freelist_pop
pop-IsValid s pools c e xs v h at = (
  record {
    lists = λ d k. pop-lists pools c e xs at s v h d k;
    apart = λ d d' x k k' ne i.
        not_mem-pop pools c e xs at d' x (v.apart d d' x k k' ne (mem-pop pools c e xs at d x i));
  },
  pop-IsTaken pools c e xs at s v h,
)

-- the cache that serves a size: the least whose chunks hold it
pub record Serves (size c : ℕ) : Type 0 where
  pub cache : c < cache_num
  pub fits : size ≤ 2 ^ (c + 4)
  pub least : (c ≡ 0) ⊎ (2 ^ (c + 3) < size)

-- the order of a chunk for a size of at most 128
chunk_order :
    (size : ℕ) → size ≤ max_chunk_size → (c : ℕ) × (get_chunk_order size ≡ c + 4) × Serves size c
unfolding get_chunk_order chunk_order_loop
chunk_order size h = elim (Bool-cases (ltb 16 size)) [
  | inr s16 ↦
      (0, rw s16 refl, record { cache = omega arith; fits = ground arith; least = inl refl })
  | inl m16 ↦ elim (Bool-cases (ltb 32 size)) [
    | inr s32 ↦ (
      1,
      rw (m16, s32) refl,
      record { cache = omega arith; fits = ground arith; least = inr (ground arith) },
    )
    | inl m32 ↦ elim (Bool-cases (ltb 64 size)) [
      | inr s64 ↦ (
        2,
        rw (m16, m32, s64) refl,
        record { cache = omega arith; fits = ground arith; least = inr (ground arith) },
      )
      | inl m64 ↦
          let s128 : ltb 128 size ≡ false = ground arith in
          (
            3,
            rw (m16, m32, m64, s128) refl,
            record { cache = omega arith; fits = ground arith; least = inr (ground arith) },
          )
    ]
  ]
]

take_chunk-pop :
    (c e : ℕ) (s : Kmem)
    → s.free_list c ≡ some e
    → take_chunk c s ≡ (some (e + header_size), kmem_freelist_pop e c s)
unfolding take_chunk refill_at pop_at
take_chunk-pop c e s at =
    ap (λ o. let s₁ = refill_at o c s in pop_at (s₁.free_list c) c s₁) at
    ∙ ap (λ o. pop_at o c s) at

kmalloc-take_chunk :
    (s : Kmem) (size c : ℕ)
    → get_chunk_order size ≡ c + 4
    → c < cache_num
    → kmalloc size s ≡ take_chunk c s
unfolding kmalloc
kmalloc-take_chunk s size c order h =
    let pow : 2 ^ (c + 4) ≤ 2 ^ 7 =
      pow-le-pow_right {n = 2} (omega arith) {i = c + 4} {j = 7} (omega arith) in
    let small : ltb max_chunk_size (2 ^ (c + 4)) ≡ false = ground (arith, pow) in
    let e : c + 4 - min_cache_order ≡ c = omega arith in rw (order, small, e) refl

-- the cache that `kmalloc` takes a chunk from
abbrev pub cache_of : ℕ → ℕ
cache_of size = get_chunk_order size - min_cache_order

-- Where the free lists are lists of distinct chunks that share nothing, for a size of at most 128 and
-- a first chunk in the cache of that size: the cache is the least whose chunks hold the size, and
-- `kmalloc` takes that chunk and returns the memory behind its entry; the chunk is then in no pool,
-- and the other pools stay.
pub kmalloc_lem :
    (s : Kmem) (pools : Pools) (size e : ℕ) (xs : List ℕ)
    → IsValid s pools
    → size ≤ max_chunk_size
    → pools (cache_of size) ≡ e ∷ xs
    → let r = kmalloc size s in
      Serves size (cache_of size)
      × (r.0 ≡ some (e + header_size))
      × IsValid r.1 (update pools (cache_of size) xs)
      × IsTaken (update pools (cache_of size) xs) e
kmalloc_lem s pools size e xs v h at =
    let (c, order, serves) = chunk_order size h in
    let same : cache_of size ≡ c = omega (arith, order) in
    let at' : pools c ≡ e ∷ xs = rw same at at in
    let q : IsQueue s.next (s.free_list c) (e ∷ xs) =
      subst (λ l. IsQueue s.next (s.free_list c) l) at' (v.lists c serves.cache) in
    let (valid, taken) = pop-IsValid s pools c e xs v serves.cache at' in
    rw (kmalloc-take_chunk s size c order serves.cache ∙ take_chunk-pop c e s q.0, same)
      (serves, refl, valid, taken)

kfree_order-push :
    (c e : ℕ) (s : Kmem)
    → c < cache_num
    → kfree_order (pos (c + 4)) (e + header_size) s ≡ kmem_freelist_push e c s
unfolding kfree_order
kfree_order-push c e s h =
    let lo : ltb (c + 4) min_cache_order ≡ false = ground arith in
    let hi : ltb max_cache_order (c + 4) ≡ false = ground arith in
    let back : e + header_size - header_size ≡ e = omega arith in
    let cache : c + 4 - min_cache_order ≡ c = omega arith in rw (lo, hi, back, cache) refl

-- Where the free lists are lists of distinct chunks that share nothing: `kfree` of the memory behind
-- the entry of a chunk in none of them, outside the simple heap and in a page that says the chunk's
-- cache, puts the chunk first into the list of that cache, and they still share nothing.
pub kfree_lem :
    (s : Kmem) (pools : Pools) (c e : ℕ)
    → IsValid s pools
    → c < cache_num
    → IsTaken pools e
    → in_heap s (e + header_size) ≡ false
    → (s.mm.page_list ((e + header_size) / page_size)).cache_order ≡ pos (c + 4)
    → IsValid (kfree (e + header_size) s) (update pools c (e ∷ pools c))
unfolding kfree
kfree_lem s pools c e v h taken out order =
    let nul : (e + header_size == 0) ≡ false = ground arith in
    let same : kfree (e + header_size) s ≡ kmem_freelist_push e c s =
      rw (nul, out)
        (ap (λ o. kfree_order o (e + header_size) s) order ∙ kfree_order-push c e s h) in
    subst (λ s'. IsValid s' (update pools c (e ∷ pools c))) (sym same)
      (push-IsValid s pools c e v h taken)
