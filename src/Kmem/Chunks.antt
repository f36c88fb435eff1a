-- ===== src/Kmem/Chunks.antt =====
-- The chunks that src/alloc.c cuts from a page.
use nycu_osc.Prelude.{
  ℕ, zero, suc, ◌+◌, ◌-◌, ◌*◌, ◌/◌, ◌≤◌, ◌<◌, ◌≡◌, ◌⊎◌, inl, inr, refl, sym, ap, ◌∙◌, true, false,
  none, some, List, ◌∷◌, ◌==◌, arith, Bool-cases, ltb, ltb→lt, ==_iff, some_inj,
}
use mathlib.Core.Path.{subst}
use nycu_osc.Prelude.Store.{update, has, ◌∈◌, ◌∉◌, update_self}
use nycu_osc.Prelude.Int.{pos}
use nycu_osc.Mm.Types.{Mm, page_size, set_cache_order}
use nycu_osc.Mm.Alloc.{page_alloc}
use native.Mathlib.Nat.{div-mul-le_self, mul-le-mul_right}
use nycu_osc.Kmem.{
  Kmem, cache_num, min_cache_order, header_size, kmem_freelist_push, split_page, chunk_num,
  fill_page, request_page, take_cache_page,
}
use nycu_osc.Kmem.Pools.{Pools, IsValid, IsTaken, push-IsValid}

-- the entries that the loop makes, in front of the pool `xs`
abbrev pub chunks : ℕ → ℕ → ℕ → List ℕ → List ℕ
chunks zero page step xs = xs
chunks (suc n) page step xs = chunks n (page + step) step (page ∷ xs)

-- no chunk of a pool begins in the `n` places from `page` on
abbrev pub Unused : Pools → ℕ → ℕ → ℕ → Type 0
Unused pools page step n =
    (c e : ℕ) → c < cache_num → e ∈ pools c → (e < page) ⊎ (page + n * step ≤ e)

-- A push keeps the rest of the places unused.
Unused-push :
    (pools : Pools) (c page step n : ℕ)
    → 0 < step
    → Unused pools page step (suc n)
    → Unused (update pools c (page ∷ pools c)) (page + step) step n
Unused-push pools c page step n pos_step unused d e k i = elim (Bool-cases (d == c)) [
  | inl same ↦
      let j : e ∈ (page ∷ pools c) = rw same at i in
      elim (Bool-cases (e == page)) [
        | inl hit ↦ inl (ground arith)
        | inr miss ↦ shift e (unused c e (ground arith) (ground (arith, j)))
      ]
  | inr ne ↦ shift e (unused d e k (rw ne at i))
]
  where
    shift :
        (e : ℕ)
        → (e < page) ⊎ (page + suc n * step ≤ e)
        → (e < page + step) ⊎ (page + step + n * step ≤ e)
    shift e (inl lo) = inl (omega arith)
    shift e (inr hi) = inr (omega arith)

Unused-IsTaken :
    (pools : Pools) (page step n : ℕ)
    → 0 < step
    → Unused pools page step (suc n)
    → IsTaken pools page
Unused-IsTaken pools page step n pos_step unused c h = elim (Bool-cases (has page (pools c))) [
  | inr out ↦ out
  | inl i ↦ elim (unused c page h i) [
    | inl lo ↦ absurd (omega (arith, lo))
    | inr hi ↦ absurd (omega (arith, hi))
  ]
]

-- the pools behind the loop: the chunks are in front of the pool, and the others stay
pub record Grown (s' : Kmem) (pools : Pools) (c : ℕ) (xs : List ℕ) : Type 0 where
  pub pools' : Pools
  pub valid : IsValid s' pools'
  pub own : pools' c ≡ xs
  pub others : (d : ℕ) → (d == c) ≡ false → pools' d ≡ pools d

split_page-Grown :
    (n page step c : ℕ) (s : Kmem) (pools : Pools)
    → IsValid s pools
    → c < cache_num
    → 0 < step
    → Unused pools page step n
    → Grown (split_page n page step c s) pools c (chunks n page step (pools c))
unfolding split_page
split_page-Grown zero page step c s pools v h pos_step unused = record {
  pools' = pools;
  valid = v;
  own = refl;
  others = λ d ne. refl;
}
split_page-Grown (suc n) page step c s pools v h pos_step unused =
    let pools₁ = update pools c (page ∷ pools c) in
    let v₁ = push-IsValid s pools c page v h (Unused-IsTaken pools page step n pos_step unused) in
    let g =
      split_page-Grown n (page + step) step c (kmem_freelist_push page c s) pools₁ v₁ h pos_step
        (Unused-push pools c page step n pos_step unused) in
    record {
      pools' = g.pools';
      valid = g.valid;
      own = g.own ∙ ap (chunks n (page + step) step) (update_self pools c (page ∷ pools c));
      others = λ d ne. g.others d ne ∙ rw ne refl;
    }

-- Each new chunk is one of the places.
chunk_place :
    (n page step e : ℕ) (xs : List ℕ)
    → e ∈ chunks n page step xs
    → (e ∈ xs) ⊎ ((j : ℕ) × (j < n) × (e ≡ page + j * step))
chunk_place zero page step e xs i = inl i
chunk_place (suc n) page step e xs i = elim (chunk_place n (page + step) step e (page ∷ xs) i) [
  | inr (j, k, at) ↦ inr (j + 1, omega arith, omega arith)
  | inl found ↦ elim (Bool-cases (e == page)) [
    | inl hit ↦ inr (0, omega arith, ground arith)
    | inr miss ↦ inl (ground (arith, found))
  ]
]

-- two chunks of the same size are the same or do not overlap
abbrev pub Apart : ℕ → ℕ → ℕ → Type 0
Apart step e e' = (e ≡ e') ⊎ ((e + step ≤ e') ⊎ (e' + step ≤ e))

multiples_apart : (i j step : ℕ) → i < j → i * step + step ≤ j * step
multiples_apart i j step h =
    let k : suc i * step ≤ j * step = mul-le-mul_right step (omega (arith, h)) in omega (arith, k)

places_Apart : (page step i j : ℕ) → Apart step (page + i * step) (page + j * step)
places_Apart page step i j = elim (Bool-cases (i == j)) [
  | inl same ↦ inl (ap (λ k. page + k * step) ((==_iff i j).0 same))
  | inr ne ↦ elim (Bool-cases (ltb i j)) [
    | inl lt ↦ let k = multiples_apart i j step (ltb→lt i j lt) in inr (inl (omega (arith, k)))
    | inr ge ↦ let k = multiples_apart j i step (ground arith) in inr (inr (omega (arith, k)))
  ]
]

-- the chunks that `request_page` makes for a cache of chunks of `size` bytes
abbrev pub page_chunks : ℕ → ℕ → List ℕ → List ℕ
page_chunks page size xs = chunks (chunk_num size - 1) page (size + header_size) xs

chunk_fits :
    (size page j : ℕ)
    → j < chunk_num size - 1
    → page + j * (size + header_size) + (size + header_size) ≤ page + page_size
unfolding chunk_num
chunk_fits size page j h =
    let whole : chunk_num size * (size + header_size) ≤ page_size =
      div-mul-le_self page_size (size + header_size) in
    let last = multiples_apart j (chunk_num size) (size + header_size) (omega (arith, h)) in
    omega (arith, whole, last)

taken_state :
    (c p : ℕ) (s : Kmem)
    → (take_cache_page c s).0 ≡ some p
    → (m : Mm) × (take_cache_page c s ≡ (some p, record s { mm = m }))
unfolding take_cache_page
taken_state c p s h = elim (Bool-cases ((page_alloc page_size s.mm).0 == 0)) [
  | inl full ↦ let no_page : none ≡ some p = rw full at h in cc
  | inr ok ↦
      let page : some (page_alloc page_size s.mm).0 ≡ some p = rw ok at h in
      let at : (page_alloc page_size s.mm).0 ≡ p = some_inj page in
      (
        set_cache_order (p / page_size) (pos (c + min_cache_order)) (page_alloc page_size s.mm).1,
        rw (ok, at) refl,
      )
]

-- Where the free lists are lists of distinct chunks that share nothing, `_alloc` has a page for
-- `request_page` of one of the four caches, and no chunk of a list begins in the places that the loop
-- uses: the lists still share nothing, and only that of the cache grows. Each of its new chunks lies
-- with its header in the page, and no two of them overlap.
pub request_page_lem :
    (s : Kmem) (pools : Pools) (c p : ℕ)
    → IsValid s pools
    → c < cache_num
    → (take_cache_page c s).0 ≡ some p
    → Unused pools p (s.cache_size c + header_size) (chunk_num (s.cache_size c) - 1)
    → let step = s.cache_size c + header_size in
      let ys = page_chunks p (s.cache_size c) (pools c) in
      Grown (request_page c s) pools c ys
      × ((e : ℕ) → e ∈ ys → e ∉ pools c → (p ≤ e) × (e + step ≤ p + page_size))
      × ((e e' : ℕ) → e ∈ ys → e' ∈ ys → e ∉ pools c → e' ∉ pools c → Apart step e e')
unfolding request_page fill_page
request_page_lem s pools c p v h at unused =
    let (m, taken) = taken_state c p s at in
    let size = s.cache_size c in
    let step = size + header_size in
    let g =
      split_page-Grown (chunk_num size - 1) p step c (record s { mm = m }) pools
        (record { lists = v.lists; apart = v.apart }) h (omega arith) unused in
    (
      subst (λ r. Grown (fill_page r.0 c r.1) pools c (page_chunks p size (pools c))) (sym taken) g,
      λ e i out.
          let (j, k, e_at) = place size e i out in
          let fits = chunk_fits size p j k in (omega (arith, e_at), omega (arith, e_at, fits)),
      λ e e' i i' out out'.
          let (j, k, e_at) = place size e i out in
          let (j', k', e_at') = place size e' i' out' in
          rw (e_at, e_at') (places_Apart p step j j'),
    )
  where
    place :
        (size e : ℕ)
        → e ∈ page_chunks p size (pools c)
        → e ∉ pools c
        → (j : ℕ) × (j < chunk_num size - 1) × (e ≡ p + j * (size + header_size))
    place size e i out =
        elim (chunk_place (chunk_num size - 1) p (size + header_size) e (pools c) i) [
          | inr found ↦ found
          | inl old ↦ let clash : true ≡ false = sym old ∙ out in cc
        ]
