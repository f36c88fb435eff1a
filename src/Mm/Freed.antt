-- ===== src/Mm/Freed.antt =====
-- `_free` of src/mm.c: what a freed block becomes.
use nycu_osc.Prelude.{
  ℕ, zero, suc, ◌+◌, ◌-◌, ◌*◌, ◌/◌, ◌≤◌, ◌<◌, ◌≡◌, ◌↔◌, ◌⊎◌, inl, inr, refl, sym, ◌∙◌, true, false,
  none, some, ◌==◌, ltb, leb, if◌then◌else◌, arith, Bool-cases, Option-cases, ==_iff, some_inj,
  ◌||◌,
}
use mathlib.Core.Path.{subst}
use nycu_osc.Prelude.Int.{pos, ◌==ℤ◌, ==ℤ_iff}
use nycu_osc.Prelude.Store.{◌∈◌, mem_ne}
use nycu_osc.Mm.Types.{Mm, max_order, page_num, page_size, set_idx}
use nycu_osc.Mm.Order.{get_buddy}
use nycu_osc.Mm.FreeList.{add_to_free_list, rm_from_free_list}
use nycu_osc.Mm.Blocks.{
  FreeLists, Clear, InBlock, Covered, IsAligned, lt-add-pow, push, drop_block, Covered-push,
  Clear-not_mem,
}
use nycu_osc.Mm.Inv.{
  Lists, IsValid, Held, Info, InList, SameInfo, SameInfo-trans, Lists-frame, Lists-push,
  add-SameInfo, linked-push,
}
use nycu_osc.Mm.Alloc.{mark}
use nycu_osc.Mm.Split.{mark-SameLinks, mark-SameInfo, mark_self}
use nycu_osc.Mm.Buddy.{Halves, get_buddy-Halves}
use nycu_osc.Mm.Merge.{merge-order, merge-Held, merge-pages}
use nycu_osc.Mm.Free.{give_back, merge, free_loop, free_order, is_linked, page_free}

module _ (m : Mm) (free : FreeLists) (c o : ℕ) (h : o < max_order) (v : Held m free c o) where
  abbrev m₁ : Mm
  m₁ = set_idx c c m

  abbrev m₂ : Mm
  m₂ = add_to_free_list (some c) (pos o) m₁

  abbrev m₃ : Mm
  m₃ = mark c o (some c) m₂

  m₁-SameInfo : (x : ℕ) → (x == c) ≡ false → SameInfo m m₁ x
  m₁-SameInfo x ne = record { idx = ground arith; order = ground arith; entry = ground arith }

  after-SameInfo : (x : ℕ) → (x == c) ≡ false → SameInfo m₁ m₃ x
  after-SameInfo x ne = SameInfo-trans (add-SameInfo m₁ c o x) (mark-SameInfo c o (some c) m₂ x ne)

  own-Info : Info m₃ c o
  own-Info =
      let (i, ord, e) = mark_self c o (some c) m₂ in
      record { idx = i ∙ (add-SameInfo m₁ c o c).idx ∙ ground arith; order = ord; entry = e }

  base : Lists m₃ (push o c free)
  base =
      Lists-push m₁ m₃ free o c h
        (Lists-frame m m₁ free
          (record { prev = λ a. ground arith; next = λ a. ground arith; head = λ n. refl })
          (λ o' a h' i.
            m₁-SameInfo a (mem_ne a c (free o') i (Clear-not_mem free c o o' v.clear h')))
          v.base)
        v.clear (mark-SameLinks c o (some c) m₂) after-SameInfo own-Info

  linked :
      (x e : ℕ) → (m₃.page_list x).entry_in_list ≡ some e → (e ≡ x) × InList m₃ (push o c free) x
  linked x e at = elim (Bool-cases (x == c)) [
    | inl same ↦
        let x≡c = (==_iff x c).0 same in
        rw x≡c
          (some_inj (sym (rw x≡c at at) ∙ own-Info.entry), (o, h, own-Info.order, ground arith))
    | inr ne ↦
        let s = SameInfo-trans (m₁-SameInfo x ne) (after-SameInfo x ne) in
        linked-push m m₃ free o c x e s (v.linked x e ne (sym s.entry ∙ at))
  ]

  -- The block goes back to the list of its order.
  pub give_back-IsValid : IsValid (give_back c o m) (push o c free)
  unfolding give_back
  give_back-IsValid = record { base = base; linked = linked }

-- What becomes of the block of order `o` at `c`: its pages go back to the free lists, or the
-- merging has reached the largest order, and the merged block of order 13 is in no list.
pub data Freed (free : FreeLists) (c o : ℕ) (m' : Mm) : Type 0 where
  returned :
      (free' : FreeLists)
      → IsValid m' free'
      → ((p : ℕ) → Covered free' p ↔ (Covered free p ⊎ InBlock c o p))
      → Freed free c o m'
  lost :
      (free' : FreeLists) (b : ℕ)
      → Held m' free' b 13
      → ((p : ℕ) → (Covered free' p ⊎ InBlock b 13 p) ↔ (Covered free p ⊎ InBlock c o p))
      → Freed free c o m'

Freed-map :
    {free free' : FreeLists} {c c' o o' : ℕ} {m' : Mm}
    → ((p : ℕ) → (Covered free' p ⊎ InBlock c' o' p) ↔ (Covered free p ⊎ InBlock c o p))
    → Freed free' c' o' m'
    → Freed free c o m'
Freed-map e (returned f v w) =
    returned f v (λ p. (λ x. (e p).0 ((w p).0 x), λ y. (w p).1 ((e p).1 y)))
Freed-map e (lost f b v w) = lost f b v (λ p. (λ x. (e p).0 ((w p).0 x), λ y. (w p).1 ((e p).1 y)))

-- The smaller index and the bigger one are the block and its buddy, in order.
buddy_sides :
    (c o : ℕ)
    → IsAligned c o
    → let b = get_buddy c o in
      let s = if ltb c b then c else b in
      let g = if ltb b c then c else b in Halves s g o × (((s ≡ c) × (g ≡ b)) ⊎ ((s ≡ b) × (g ≡ c)))
buddy_sides c o a = elim (get_buddy-Halves c o a) [
  | inl x ↦
      let lt : ltb c (get_buddy c o) ≡ true = ground (arith, x.step, lt-add-pow c o) in
      let ge : ltb (get_buddy c o) c ≡ false = ground (arith, x.step) in
      rw (lt, ge) (x, inl (refl, refl))
  | inr x ↦
      let lt : ltb (get_buddy c o) c ≡ true =
        ground (arith, x.step, lt-add-pow (get_buddy c o) o) in
      let ge : ltb c (get_buddy c o) ≡ false = ground (arith, x.step) in
      rw (lt, ge) (x, inr (refl, refl))
]

buddy_ne : (c o : ℕ) → IsAligned c o → (get_buddy c o == c) ≡ false
buddy_ne c o a = elim (get_buddy-Halves c o a) [
  | inl x ↦ ground (arith, x.step, lt-add-pow c o)
  | inr x ↦ ground (arith, x.step, lt-add-pow (get_buddy c o) o)
]

-- A buddy with an entry and the same order is in the list of that order.
buddy_found :
    (m : Mm) (free : FreeLists) (c o : ℕ)
    → Held m free c o
    → (m.page_list c).order ≡ pos o
    → (en : ℕ) → (m.page_list (get_buddy c o)).entry_in_list ≡ some en
    → ((m.page_list (get_buddy c o)).order ==ℤ (m.page_list c).order) ≡ true
    → (en ≡ get_buddy c o) × (get_buddy c o ∈ free o)
buddy_found m free c o v own en at same =
    let (here, (o', h, ord, i)) = v.linked (get_buddy c o) en (buddy_ne c o v.clear.aligned) at in
    let e : pos o' ≡ pos o = sym ord ∙ (==ℤ_iff _ _).0 same ∙ own in
    let e' : o' ≡ o = cc in (here, subst (λ n. get_buddy c o ∈ free n) e' i)

free_loop-Freed :
    (k : ℕ) (m : Mm) (free : FreeLists) (c o : ℕ)
    → o + k ≡ 13
    → Held m free c o
    → (m.page_list c).order ≡ pos o
    → Freed free c o (free_loop k c o m)
unfolding free_loop
free_loop-Freed zero m free c o e v own = lost free c (subst (Held m free c) (omega arith) v) (λ p.
    subst (λ n. (Covered free p ⊎ InBlock c n p) ↔ (Covered free p ⊎ InBlock c o p)) {x = o}
      {y = 13} (omega arith) ((λ x. x), (λ x. x)))
free_loop-Freed (suc k) m free c o e v own =
    elim (Option-cases (m.page_list (get_buddy c o)).entry_in_list) [
      | inl free_buddy ↦ rw (free_buddy, free_loop) back
      | inr (en, at) ↦
          elim (Bool-cases ((m.page_list (get_buddy c o)).order ==ℤ (m.page_list c).order)) [
            | inl same ↦
                rw (at, same, free_loop)
                  (let found = buddy_found m free c o v own en at same in
                    subst (λ n. Freed free c o (free_loop k smaller (o + 1) (merged n)))
                      (sym found.0)
                      (joined found.1 (
                        free_loop-Freed k (merged (get_buddy c o)) free₁ smaller (o + 1)
                          (omega arith) (ready found.1).0 (ready found.1).1)))
            | inr differ ↦ rw (at, differ, free_loop) back
          ]
    ]
  where
    smaller : ℕ
    smaller = if ltb c (get_buddy c o) then c else get_buddy c o

    bigger : ℕ
    bigger = if ltb (get_buddy c o) c then c else get_buddy c o

    merged : ℕ → Mm
    merged n = merge smaller bigger (o + 1) (rm_from_free_list (some n) (pos o) m)

    free₁ : FreeLists
    free₁ = drop_block o (get_buddy c o) free

    ready :
        get_buddy c o ∈ free o
        → Held (merged (get_buddy c o)) free₁ smaller (o + 1)
          × (((merged (get_buddy c o)).page_list smaller).order ≡ pos (o + 1))
    ready i =
        let (halves, which) = buddy_sides c o v.clear.aligned in
        let ne : (smaller == bigger) ≡ false = ground (arith, halves.step, lt-add-pow smaller o) in
        (
          subst (Held (merged (get_buddy c o)) free₁ smaller) (omega arith)
              (merge-Held m free c (get_buddy c o) smaller bigger o (omega arith) v i halves which),
          merge-order smaller bigger (o + 1) (rm_from_free_list (some (get_buddy c o)) (pos o) m)
              ne,
        )

    joined : {r : Mm} → get_buddy c o ∈ free o → Freed free₁ smaller (o + 1) r → Freed free c o r
    joined i =
        let (halves, which) = buddy_sides c o v.clear.aligned in
        Freed-map (
          subst
            (λ n.
              (p : ℕ) → (Covered free₁ p ⊎ InBlock smaller n p) ↔ (Covered free p ⊎ InBlock c o p))
            {x = suc o} {y = o + 1} (omega arith)
            (merge-pages m free c (get_buddy c o) smaller bigger o (omega arith) v i halves which))

    back : Freed free c o (give_back c o m)
    back =
        returned (push o c free) (give_back-IsValid m free c o (omega arith) v)
          (λ p. Covered-push free o c p (omega arith))

page_free_pos :
    (ptr : ℕ) (m : Mm)
    → 0 < ptr
    → page_free ptr m ≡ (
        if leb page_num (ptr / page_size) || is_linked (m.page_list (ptr / page_size)).entry_in_list
        then some m
        else free_order (ptr / page_size) (m.page_list (ptr / page_size)).order m)
unfolding page_free
page_free_pos zero m h = absurd (omega arith)
page_free_pos (suc ptr) m h = refl

-- An allocated page that is not page 0 passes the guards.
page_free_reaches :
    (m : Mm) (c o : ℕ)
    → (m.page_list c).order ≡ pos o
    → (m.page_list c).entry_in_list ≡ none
    → c < page_num
    → 0 < c
    → page_free (c * page_size) m ≡ some (free_loop (max_order - 1 - o) c o m)
unfolding free_order
page_free_reaches m c o own unlinked h nonzero =
    let at : c * page_size / page_size ≡ c = omega arith in
    let inside : leb page_num c ≡ false = ground arith in
    page_free_pos (c * page_size) m (omega arith) ∙ rw (at, inside, unlinked, own) refl

-- In a state with the invariant, `_free` of the address of a block's first page, which is not
-- page 0, where the block is aligned, overlaps no free block, and its first page says its order
-- and is in no list: either the invariant is kept and the pages of the block become free, or the
-- merging reaches the largest order and the merged block is in no free list; no other page
-- changes.
pub page_free_lem :
    (m : Mm) (free : FreeLists) (c o : ℕ)
    → IsValid m free
    → Clear free c o
    → (m.page_list c).order ≡ pos o
    → (m.page_list c).entry_in_list ≡ none
    → o ≤ 13
    → 0 < c
    → (m' : Mm) × (page_free (c * page_size) m ≡ some m') × Freed free c o m'
page_free_lem m free c o v clear own unlinked h nonzero = (
  free_loop (max_order - 1 - o) c o m,
  reaches,
  free_loop-Freed (max_order - 1 - o) m free c o (omega arith) held own,
)
  where
    reaches : page_free (c * page_size) m ≡ some (free_loop (max_order - 1 - o) c o m)
    reaches =
        page_free_reaches m c o own unlinked (omega (arith, lt-add-pow c o, clear.inside)) nonzero

    held : Held m free c o
    held = record { base = v.base; linked = λ a e ne at. v.linked a e at; clear = clear }

-- `_free` of the address of a page from 1 on that says the largest order and is in no list
-- changes nothing: the block does not come back.
pub page_free_largest :
    (m : Mm) (c : ℕ)
    → (m.page_list c).order ≡ pos 13
    → (m.page_list c).entry_in_list ≡ none
    → c < page_num
    → 0 < c
    → page_free (c * page_size) m ≡ some m
unfolding free_loop
page_free_largest m c own unlinked h nonzero = page_free_reaches m c 13 own unlinked h nonzero
