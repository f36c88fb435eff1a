-- ===== src/Prelude/Store.antt =====
-- Stores indexed by numbers (arrays, heaps, tables) as functions, and membership in lists of
-- addresses.
use Prim.Native.Nat.{ℕ}
use mathlib.Core.Path.{◌≡◌, refl}
use mathlib.Core.Bool.{Bool, true, false, ◌||◌}
use mathlib.Core.List.{List, [], ◌∷◌, ◌++◌}
use native.Mathlib.Omega.{arith}
use nycu_osc.Prelude.Tests.{◌==◌, if◌then◌else◌}

-- the store with the value at `p` replaced
abbrev pub update {ℓ} : {A : Type ℓ} → (ℕ → A) → ℕ → A → ℕ → A
update f p v q = if q == p then v else f q

abbrev pub has : ℕ → List ℕ → Bool
has a [] = false
has a (x ∷ xs) = (a == x) || has a xs

infix 40 ◌∈◌ ◌∉◌
abbrev pub ◌∈◌ : ℕ → List ℕ → Type 0
a ∈ xs = has a xs ≡ true

abbrev pub ◌∉◌ : ℕ → List ℕ → Type 0
a ∉ xs = has a xs ≡ false

-- the list without the first `a`
abbrev pub erase : ℕ → List ℕ → List ℕ
erase a [] = []
erase a (x ∷ xs) = if a == x then xs else x ∷ erase a xs

pub has-append : (a : ℕ) (xs ys : List ℕ) → has a (xs ++ ys) ≡ (has a xs || has a ys)
has-append a [] ys = refl
has-append a (x ∷ xs) ys = ground (arith, has-append a xs ys)

pub not-mem-erase : (b a : ℕ) (xs : List ℕ) → b ∉ xs → b ∉ erase a xs
not-mem-erase b a [] h = refl
not-mem-erase b a (x ∷ xs) h = ground (arith, not-mem-erase b a xs)

pub ne_of_mem : (a b : ℕ) (xs : List ℕ) → a ∉ xs → b ∈ xs → (a == b) ≡ false
ne_of_mem a b [] h i = cc
ne_of_mem a b (x ∷ xs) h i = ground (arith, ne_of_mem a b xs)

pub mem_ne : (a b : ℕ) (xs : List ℕ) → a ∈ xs → b ∉ xs → (a == b) ≡ false
mem_ne a b [] i h = cc
mem_ne a b (x ∷ xs) i h = ground (arith, mem_ne a b xs)

pub mem_of_mem-erase : (b a : ℕ) (xs : List ℕ) → b ∈ erase a xs → b ∈ xs
mem_of_mem-erase b a [] h = h
mem_of_mem-erase b a (x ∷ xs) h = ground (arith, mem_of_mem-erase b a xs)

pub mem-erase_ne : (b a : ℕ) (xs : List ℕ) → (b == a) ≡ false → b ∈ xs → b ∈ erase a xs
mem-erase_ne b a [] ne h = h
mem-erase_ne b a (x ∷ xs) ne h = ground (arith, mem-erase_ne b a xs)

pub update_self {ℓ} : {A : Type ℓ} → (f : ℕ → A) (p : ℕ) (v : A) → update f p v p ≡ v
update_self f p v = let e : (p == p) ≡ true = ground arith in rw e refl

pub update_ne {ℓ} :
    {A : Type ℓ} → (f : ℕ → A) (p q : ℕ) (v : A) → (q == p) ≡ false → update f p v q ≡ f q
update_ne f p q v e = rw e refl
