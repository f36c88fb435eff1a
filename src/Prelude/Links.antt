-- ===== src/Prelude/Links.antt =====
-- Singly linked lists in a store of `next` pointers, as lists.
use Prim.Native.Nat.{ℕ}
use mathlib.Core.Path.{◌≡◌, refl, sym, ap₂, ◌∙◌, subst}
use mathlib.Core.Bool.{false}
use mathlib.Core.Option.{Option, none, some}
use mathlib.Core.List.{List, [], ◌∷◌}
use native.Mathlib.Omega.{arith}
use nycu_osc.Prelude.Tests.{◌==◌, some_inj}
use nycu_osc.Prelude.Store.{update, ◌∉◌}

-- the store of `next` pointers
abbrev pub Links : Type 0
Links = ℕ → Option ℕ

-- from `head` the links lead through the distinct entries `xs` to NULL
abbrev pub IsQueue : Links → Option ℕ → List ℕ → Type 0
IsQueue next head [] = head ≡ none
IsQueue next head (x ∷ xs) = (head ≡ some x) × (x ∉ xs) × IsQueue next (next x) xs

-- A write to the link of another entry leaves the list.
pub IsQueue-frame :
    (next : Links) (head v : Option ℕ) (xs : List ℕ) (t : ℕ)
    → t ∉ xs
    → IsQueue next head xs
    → IsQueue (update next t v) head xs
IsQueue-frame next head v [] t out q = q
IsQueue-frame next head v (x ∷ xs) t out (at, own, q) =
    let ne : (x == t) ≡ false = ground arith in
    (at, own, rw ne (IsQueue-frame next (next x) v xs t (ground arith) q))

-- There is at most one list behind a head.
pub IsQueue-unique :
    (next : Links) (head : Option ℕ) (xs ys : List ℕ)
    → IsQueue next head xs
    → IsQueue next head ys
    → xs ≡ ys
IsQueue-unique next head [] [] p q = refl
IsQueue-unique next head [] (y ∷ ys) p q = let c = sym p ∙ q.0 in cc
IsQueue-unique next head (x ∷ xs) [] p q = let c = sym p.0 ∙ q in cc
IsQueue-unique next head (x ∷ xs) (y ∷ ys) (at, own, p) (at', own', q) =
    let e : x ≡ y = some_inj (sym at ∙ at') in
    let q' = subst (λ z. IsQueue next (next z) ys) (sym e) q in
    ap₂ (λ (a : ℕ) (l : List ℕ). a ∷ l) e (IsQueue-unique next (next x) xs ys p q')
