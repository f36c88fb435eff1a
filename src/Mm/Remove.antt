-- ===== src/Mm/Remove.antt =====
-- `rm_from_free_list` of src/mm.c against the lists of entries.
use nycu_osc.Prelude.{
  ℕ, ◌<◌, ◌≡◌, sym, true, false, none, some, List, [], ◌∷◌, ◌==◌, arith, if◌then◌else◌, refl,
}
use mathlib.Core.Path.{subst}
use nycu_osc.Prelude.Int.{pos}
use nycu_osc.Prelude.Store.{◌∈◌, ◌∉◌, erase, ne_of_mem}
use nycu_osc.Mm.Types.{Mm, max_order}
use nycu_osc.Mm.FreeList.{points_to, rm_from_free_list}
use nycu_osc.Mm.Dll.{
  Dll, IsFreeList, Unlinked, Dll-frame, Dll-erase, prev-not, next-not, prev-ne_self, next-ne_self,
}

-- the state after the removal
pub record Removed (m m' : Mm) (o e : ℕ) : Type 0 where
  pub links : Unlinked m.page_list m'.page_list e
  pub head :
      m'.free_list o ≡ (if points_to (m.free_list o) e then (m.page_list e).next else m.free_list o)
  pub others : (o' : ℕ) → (o' == o) ≡ false → m'.free_list o' ≡ m.free_list o'

front-prev :
    (m : Mm) (e o : ℕ) (xs : List ℕ)
    → IsFreeList m o xs
    → e ∈ xs
    → points_to (m.free_list o) e ≡ true
    → (m.page_list e).prev ≡ none
front-prev m e o [] d i at = cc
front-prev m e o (x ∷ xs) d i at = ground arith

unlink-Removed :
    (m : Mm) (e o : ℕ)
    → o < max_order
    → points_to (m.page_list e).prev e ≡ false
    → points_to (m.page_list e).next e ≡ false
    → (points_to (m.free_list o) e ≡ true → (m.page_list e).prev ≡ none)
    → Removed m (rm_from_free_list (some e) (pos o) m) o e
unfolding rm_from_free_list
unlink-Removed m e o h np nn front = record {
  links = λ a ne. (ground arith, ground arith);
  head = ground arith;
  others = λ o' ne. ground arith;
}

pub rm-Removed :
    (m : Mm) (e o : ℕ) (xs : List ℕ)
    → o < max_order
    → IsFreeList m o xs
    → e ∈ xs
    → Removed m (rm_from_free_list (some e) (pos o) m) o e
rm-Removed m e o xs h d i =
    unlink-Removed m e o h (prev-ne_self m.page_list e none (m.free_list o) xs d i refl)
      (next-ne_self m.page_list e none (m.free_list o) xs d i) (front-prev m e o xs d i)

-- `rm_from_free_list` takes the entry out of its list.
pub rm-erase :
    (m : Mm) (e o : ℕ) (xs : List ℕ)
    → o < max_order
    → IsFreeList m o xs
    → e ∈ xs
    → IsFreeList (rm_from_free_list (some e) (pos o) m) o (erase e xs)
rm-erase m e o xs h d i =
    let m' = rm_from_free_list (some e) (pos o) m in
    let r = rm-Removed m e o xs h d i in
    subst (λ c. Dll m'.page_list none c (erase e xs)) (sym r.head)
      (Dll-erase m.page_list m'.page_list e r.links none (m.free_list o) xs d (λ a j. refl) i)

-- An entry outside the list keeps its links.
pub spared :
    (m m' : Mm) (o e a : ℕ) (xs : List ℕ)
    → Removed m m' o e
    → IsFreeList m o xs
    → e ∈ xs
    → a ∉ xs
    → ((m'.page_list a).prev ≡ (m.page_list a).prev)
      × ((m'.page_list a).next ≡ (m.page_list a).next)
spared m m' o e a xs r d i out = ground (
  arith,
  r.links a (ne_of_mem a e xs out i),
  prev-not m.page_list e a none (m.free_list o) xs d i out refl,
  next-not m.page_list e a none (m.free_list o) xs d i out,
)

-- A list that shares no entry with the list that shrinks stays as it is.
pub rm-frame :
    (m : Mm) (e o o' : ℕ) (xs ys : List ℕ)
    → o < max_order
    → (o' == o) ≡ false
    → ((a : ℕ) → a ∈ ys → a ∉ xs)
    → IsFreeList m o xs
    → e ∈ xs
    → IsFreeList m o' ys
    → IsFreeList (rm_from_free_list (some e) (pos o) m) o' ys
rm-frame m e o o' xs ys h ne apart d i d' =
    let m' = rm_from_free_list (some e) (pos o) m in
    let r = rm-Removed m e o xs h d i in
    Dll-frame m.page_list m'.page_list none (m.free_list o') _ ys (r.others o' ne)
      (λ a j. spared m m' o e a xs r d i (apart a j)) d'
