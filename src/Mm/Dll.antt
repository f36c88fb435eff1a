-- ===== src/Mm/Dll.antt =====
-- What a free list of src/mm.c holds: from the head the `next` pointers lead through distinct
-- entries to NULL, and each `prev` points to the entry before.
use nycu_osc.Prelude.{
  ℕ, ◌≡◌, refl, sym, ◌∙◌, true, false, Option, none, some, List, [], ◌∷◌, ◌==◌, if◌then◌else◌,
  arith, Bool-cases, inl, inr,
}
use mathlib.Core.Path.{subst}
use nycu_osc.Prelude.Store.{◌∈◌, ◌∉◌, erase, not-mem-erase}
use nycu_osc.Mm.Types.{Mm, PageInfo}
use nycu_osc.Mm.FreeList.{points_to}

abbrev pub Dll : (ℕ → PageInfo) → Option ℕ → Option ℕ → List ℕ → Type 0
Dll pages prev cur [] = cur ≡ none
Dll pages prev cur (x ∷ xs) =
    (cur ≡ some x) × ((pages x).prev ≡ prev) × (x ∉ xs) × Dll pages (some x) (pages x).next xs

-- the free list of order `o` holds `xs`
abbrev pub IsFreeList : Mm → ℕ → List ℕ → Type 0
IsFreeList m o xs = Dll m.page_list none (m.free_list o) xs

-- A list survives any change that spares the links of its entries.
pub Dll-frame :
    (p q : ℕ → PageInfo) (prev cur cur' : Option ℕ) (xs : List ℕ)
    → cur' ≡ cur
    → ((a : ℕ) → a ∈ xs → ((q a).prev ≡ (p a).prev) × ((q a).next ≡ (p a).next))
    → Dll p prev cur xs
    → Dll q prev cur' xs
Dll-frame p q prev cur cur' [] e same d = e ∙ d
Dll-frame p q prev cur cur' (x ∷ xs) e same d =
    let here = same x (ground arith) in
    (
      e ∙ d.0,
      here.0 ∙ d.1,
      d.2,
      Dll-frame p q (some x) (p x).next (q x).next xs here.1 (λ a i. same a (ground arith)) d.3,
    )

-- the links from an entry, as its neighbours hold them
module _ (p : ℕ → PageInfo) (e x : ℕ) where
  pub prev-not :
      (prev cur : Option ℕ) (xs : List ℕ)
      → Dll p prev cur xs
      → e ∈ xs
      → x ∉ xs
      → points_to prev x ≡ false
      → points_to (p e).prev x ≡ false
  prev-not prev cur [] d i out ne = cc
  prev-not prev cur (y ∷ ys) d i out ne = elim (Bool-cases (e == y)) [
    | inl hit ↦ ground (arith, d.1)
    | inr miss ↦ prev-not (some y) (p y).next ys d.3 (ground arith) (ground arith) (ground arith)
  ]

  pub head-not :
      (prev cur : Option ℕ) (xs : List ℕ) → Dll p prev cur xs → x ∉ xs → points_to cur x ≡ false
  head-not prev cur [] d out = rw d
  head-not prev cur (y ∷ ys) d out = rw d.0 (ground arith)

  pub next-not :
      (prev cur : Option ℕ) (xs : List ℕ)
      → Dll p prev cur xs
      → e ∈ xs
      → x ∉ xs
      → points_to (p e).next x ≡ false
  next-not prev cur [] d i out = cc
  next-not prev cur (y ∷ ys) d i out = elim (Bool-cases (e == y)) [
    | inl hit ↦ ground (arith, head-not (some y) (p y).next ys d.3)
    | inr miss ↦ next-not (some y) (p y).next ys d.3 (ground arith) (ground arith)
  ]

  -- The entry before is the one whose `next` points to `e`.
  pub prev-link :
      (cur : Option ℕ) (xs : List ℕ)
      → Dll p (some x) cur xs
      → e ∈ xs
      → x ∉ xs
      → points_to (p e).prev x ≡ points_to cur e
  prev-link cur [] d i out = cc
  prev-link cur (y ∷ ys) d i out = elim (Bool-cases (e == y)) [
    | inl hit ↦ ground (arith, d.0, d.1)
    | inr miss ↦ ground (arith, d.0, prev-not (some y) (p y).next ys d.3)
  ]

module _ (p : ℕ → PageInfo) (e : ℕ) where
  pub prev-ne_self :
      (prev cur : Option ℕ) (xs : List ℕ)
      → Dll p prev cur xs
      → e ∈ xs
      → points_to prev e ≡ false
      → points_to (p e).prev e ≡ false
  prev-ne_self prev cur [] d i ne = cc
  prev-ne_self prev cur (y ∷ ys) d i ne = elim (Bool-cases (e == y)) [
    | inl hit ↦ ground (arith, d.1)
    | inr miss ↦ prev-ne_self (some y) (p y).next ys d.3 (ground arith) (ground arith)
  ]

  pub next-ne_self :
      (prev cur : Option ℕ) (xs : List ℕ)
      → Dll p prev cur xs
      → e ∈ xs
      → points_to (p e).next e ≡ false
  next-ne_self prev cur [] d i = cc
  next-ne_self prev cur (y ∷ ys) d i = elim (Bool-cases (e == y)) [
    | inl hit ↦ ground (arith, head-not p e e (some y) (p y).next ys d.3)
    | inr miss ↦ next-ne_self (some y) (p y).next ys d.3 (ground arith)
  ]

-- `q` is `p` with the neighbours of `e` linked to one another
abbrev pub Unlinked : (p q : ℕ → PageInfo) → ℕ → Type 0
Unlinked p q e =
    (a : ℕ)
    → (a == e) ≡ false
    → ((q a).next ≡ (if points_to (p e).prev a then (p e).next else (p a).next))
      × ((q a).prev ≡ (if points_to (p e).next a then (p e).prev else (p a).prev))

module _ (p q : ℕ → PageInfo) (e : ℕ) (u : Unlinked p q e) where
  Dll-erase_head :
      (prev cur : Option ℕ) (x : ℕ) (xs : List ℕ)
      → (e == x) ≡ true
      → Dll p prev cur (x ∷ xs)
      → ((a : ℕ) → a ∈ x ∷ xs → points_to prev a ≡ false)
      → Dll q prev (p e).next xs
  Dll-erase_head prev cur x [] hit d out = ground arith
  Dll-erase_head prev cur x (z ∷ zs) hit d out = (
    ground arith,
    ground (arith, u z),
    d.3.2,
    Dll-frame p q (some z) (p z).next (q z).next zs (ground (arith, u z, out z))
        (λ a i. ground (arith, u a, out a)) d.3.3,
  )

  relinked :
      (x : ℕ) (xs : List ℕ)
      → Dll p (some x) (p x).next xs
      → e ∈ xs
      → x ∉ xs
      → (e == x) ≡ false
      → (if points_to (p x).next e then (p e).next else (p x).next) ≡ (q x).next
  relinked x xs d i out miss =
      rw (← prev-link p e x (p x).next xs d i out) (sym (u x (ground arith)).0)

  -- The list that is left.
  pub Dll-erase :
      (prev cur : Option ℕ) (xs : List ℕ)
      → Dll p prev cur xs
      → ((a : ℕ) → a ∈ xs → points_to prev a ≡ false)
      → e ∈ xs
      → Dll q prev (if points_to cur e then (p e).next else cur) (erase e xs)
  Dll-erase prev cur [] d out i = cc
  Dll-erase prev cur (x ∷ xs) d out i = elim (Bool-cases (e == x)) [
    | inl hit ↦
        let at : points_to cur e ≡ true = rw d.0 (ground arith) in
        rw (hit, at) (Dll-erase_head prev cur x xs hit d out)
    | inr miss ↦
        let at : points_to cur e ≡ false = rw d.0 (ground arith) in
        rw (miss, at)
          (
            d.0,
            ground (arith, u x, next-not p e x (some x) (p x).next xs d.3),
            ground (arith, not-mem-erase x e xs),
            subst (λ c. Dll q (some x) c (erase e xs)) (relinked x xs d.3 (ground arith) d.2 miss)
                (Dll-erase (some x) (p x).next xs d.3 (λ a j. ground arith) (ground arith)),
          )
  ]

-- The entries are distinct.
pub not-mem-erase_self :
    (p : ℕ → PageInfo) (e : ℕ) (prev cur : Option ℕ) (xs : List ℕ)
    → Dll p prev cur xs
    → e ∉ erase e xs
not-mem-erase_self p e prev cur [] d = refl
not-mem-erase_self p e prev cur (x ∷ xs) d =
    ground (arith, not-mem-erase_self p e (some x) (p x).next xs d.3)

pub head-mem :
    (p : ℕ → PageInfo) (b : ℕ) (prev cur : Option ℕ) (xs : List ℕ)
    → Dll p prev cur xs
    → cur ≡ some b
    → b ∈ xs
head-mem p b prev cur [] d e = cc
head-mem p b prev cur (x ∷ xs) d e = ground (arith, d.0)
