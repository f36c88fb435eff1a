-- ===== src/Mm/Insert.antt =====
-- `add_to_free_list` of src/mm.c against the lists of entries.
use nycu_osc.Prelude.{ℕ, ◌<◌, ◌≡◌, sym, false, Option, none, some, List, [], ◌∷◌, ◌==◌, arith}
use mathlib.Core.Path.{subst}
use nycu_osc.Prelude.Int.{pos}
use nycu_osc.Prelude.Store.{◌∈◌, ◌∉◌}
use nycu_osc.Mm.Types.{Mm, max_order}
use nycu_osc.Mm.FreeList.{points_to, push_front, add_to_free_list}
use nycu_osc.Mm.Dll.{Dll, IsFreeList, Dll-frame, head-not}

add_in_range :
    (m : Mm) (e o : ℕ)
    → o < max_order
    → add_to_free_list (some e) (pos o) m ≡ push_front e o (m.free_list o) m
unfolding add_to_free_list
add_in_range m e o h = ground arith

push_front-cons :
    (m : Mm) (e o : ℕ) (cur : Option ℕ) (xs : List ℕ)
    → e ∉ xs
    → Dll m.page_list none cur xs
    → IsFreeList (push_front e o cur m) o (e ∷ xs)
unfolding push_front
push_front-cons m e o cur [] out d = rw d (ground arith)
push_front-cons m e o cur (x ∷ xs) out d =
    subst (λ c. IsFreeList (push_front e o c m) o (e ∷ x ∷ xs)) (sym d.0)
      (
        ground arith,
        ground arith,
        out,
        (
          ground arith,
          ground arith,
          d.2,
          Dll-frame m.page_list (push_front e o (some x) m).page_list (some x) (m.page_list x).next
              _ xs (ground arith) (λ a i. ground arith) d.3,
        ),
      )

-- `add_to_free_list` puts a new entry in front of the list.
pub add-front :
    (m : Mm) (e o : ℕ) (xs : List ℕ)
    → o < max_order
    → e ∉ xs
    → IsFreeList m o xs
    → IsFreeList (add_to_free_list (some e) (pos o) m) o (e ∷ xs)
add-front m e o xs h out d =
    subst (λ m'. IsFreeList m' o (e ∷ xs)) (sym (add_in_range m e o h))
      (push_front-cons m e o (m.free_list o) xs out d)

-- The links of the other entries stay, but for the `prev` of the head.
push_front-frame :
    (m : Mm) (e o o' : ℕ) (cur : Option ℕ) (ys : List ℕ)
    → (o' == o) ≡ false
    → e ∉ ys
    → ((a : ℕ) → a ∈ ys → points_to cur a ≡ false)
    → IsFreeList m o' ys
    → IsFreeList (push_front e o cur m) o' ys
unfolding push_front
push_front-frame m e o o' none ys ne out apart d =
    Dll-frame m.page_list (push_front e o none m).page_list none (m.free_list o') _ ys
      (ground arith) (λ a i. ground arith) d
push_front-frame m e o o' (some h) ys ne out apart d =
    Dll-frame m.page_list (push_front e o (some h) m).page_list none (m.free_list o') _ ys
      (ground arith) (λ a i. ground (arith, apart a)) d

-- A list that shares no entry with the list that grows stays as it is.
pub add-frame :
    (m : Mm) (e o o' : ℕ) (xs ys : List ℕ)
    → o < max_order
    → (o' == o) ≡ false
    → e ∉ ys
    → ((a : ℕ) → a ∈ ys → a ∉ xs)
    → IsFreeList m o xs
    → IsFreeList m o' ys
    → IsFreeList (add_to_free_list (some e) (pos o) m) o' ys
add-frame m e o o' xs ys h ne out apart d d' =
    subst (λ m'. IsFreeList m' o' ys) (sym (add_in_range m e o h))
      (push_front-frame m e o o' (m.free_list o) ys ne out
        (λ a i. head-not m.page_list e a none (m.free_list o) xs d (apart a i)) d')
