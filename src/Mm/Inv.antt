-- ===== src/Mm/Inv.antt =====
-- The invariant of the page allocator of src/mm.c: the free lists hold the blocks of an abstract
-- state, and each page that heads a free block says so.
use nycu_osc.Prelude.{
  ℕ, ◌<◌, ◌≡◌, sym, ◌∙◌, false, none, some, ◌==◌, arith, Bool-cases, inl, inr, ==_iff, refl, ◌⊎◌,
}
use mathlib.Core.Path.{subst}
use native.Mathlib.Nat.{le_refl}
use nycu_osc.Prelude.Int.{pos}
use nycu_osc.Prelude.Store.{has, ◌∈◌, ◌∉◌, mem_of_mem-erase, mem_ne}
use nycu_osc.Mm.Types.{Mm, max_order}
use nycu_osc.Mm.FreeList.{add_to_free_list, rm_from_free_list}
use nycu_osc.Mm.Dll.{IsFreeList, Dll-frame}
use nycu_osc.Mm.Insert.{add-front, add-frame}
use nycu_osc.Mm.Remove.{rm-erase, rm-frame}
use nycu_osc.Mm.Blocks.{
  FreeLists, Blocks, Clear, push, drop_block, mem-push, mem-push_old, Blocks-push, Blocks-drop,
  lt-add-pow, Clear-not_mem,
}

-- what the page that heads a free block of order `o` says
pub record Info (m : Mm) (a o : ℕ) : Type 0 where
  pub idx : (m.page_list a).idx ≡ a
  pub order : (m.page_list a).order ≡ pos o
  pub entry : (m.page_list a).entry_in_list ≡ some a

pub record Lists (m : Mm) (free : FreeLists) : Type 0 where
  pub lists : (o : ℕ) → o < max_order → IsFreeList m o (free o)
  pub info : (o a : ℕ) → o < max_order → a ∈ free o → Info m a o
  pub blocks : Blocks free

-- page `a` heads a free block of its order
abbrev pub InList : Mm → FreeLists → ℕ → Type 0
InList m free a = (o : ℕ) × (o < max_order) × ((m.page_list a).order ≡ pos o) × (a ∈ free o)

pub record IsValid (m : Mm) (free : FreeLists) : Type 0 where
  pub base : Lists m free
  pub linked : (a e : ℕ) → (m.page_list a).entry_in_list ≡ some e → (e ≡ a) × InList m free a

-- The state in the middle of an operation: the block of order `k` at `b` is in no list, and the
-- entry of its first page may be stale.
pub record Held (m : Mm) (free : FreeLists) (b k : ℕ) : Type 0 where
  pub base : Lists m free
  pub linked :
      (a e : ℕ)
      → (a == b) ≡ false
      → (m.page_list a).entry_in_list ≡ some e
      → (e ≡ a) × InList m free a
  pub clear : Clear free b k

-- A page in two lists is in one list.
list_unique :
    (free : FreeLists) (o o' a : ℕ)
    → Blocks free
    → o < max_order
    → o' < max_order
    → (o' == o) ≡ false
    → a ∈ free o'
    → a ∉ free o
list_unique free o o' a w h h' ne i = elim (Bool-cases (has a (free o))) [
  | inl j ↦
      let e =
        w.disjoint o' o a a a h' h i j (le_refl a, lt-add-pow a o') (le_refl a, lt-add-pow a o) in
      ground arith
  | inr out ↦ out
]

-- what two states agree on at page `a`
pub record SameInfo (m m' : Mm) (a : ℕ) : Type 0 where
  pub idx : (m'.page_list a).idx ≡ (m.page_list a).idx
  pub order : (m'.page_list a).order ≡ (m.page_list a).order
  pub entry : (m'.page_list a).entry_in_list ≡ (m.page_list a).entry_in_list

pub SameInfo-trans :
    {m m' m'' : Mm} {a : ℕ} → SameInfo m m' a → SameInfo m' m'' a → SameInfo m m'' a
SameInfo-trans s t = record {
  idx = t.idx ∙ s.idx;
  order = t.order ∙ s.order;
  entry = t.entry ∙ s.entry;
}

pub record SameLinks (m m' : Mm) : Type 0 where
  pub prev : (a : ℕ) → (m'.page_list a).prev ≡ (m.page_list a).prev
  pub next : (a : ℕ) → (m'.page_list a).next ≡ (m.page_list a).next
  pub head : (o : ℕ) → m'.free_list o ≡ m.free_list o

pub Info-same : {m m' : Mm} {a o : ℕ} → SameInfo m m' a → Info m a o → Info m' a o
Info-same s i = record { idx = s.idx ∙ i.idx; order = s.order ∙ i.order; entry = s.entry ∙ i.entry }

module _ (m m' : Mm) (free : FreeLists) where
  pub lists-frame :
      SameLinks m m'
      → ((o : ℕ) → o < max_order → IsFreeList m o (free o))
      → (o : ℕ) → o < max_order
      → IsFreeList m' o (free o)
  lists-frame s l o h =
      Dll-frame m.page_list m'.page_list none (m.free_list o) (m'.free_list o) (free o) (s.head o)
        (λ a i. (s.prev a, s.next a)) (l o h)

  -- A change that spares the links, and the pages in the lists.
  pub Lists-frame :
      SameLinks m m'
      → ((o a : ℕ) → o < max_order → a ∈ free o → SameInfo m m' a)
      → Lists m free
      → Lists m' free
  Lists-frame s same l = record {
    lists = lists-frame s l.lists;
    info = λ o a h i. Info-same (same o a h i) (l.info o a h i);
    blocks = l.blocks;
  }

pub rm-SameInfo : (m : Mm) (e o a : ℕ) → SameInfo m (rm_from_free_list (some e) (pos o) m) a
unfolding rm_from_free_list
rm-SameInfo m e o a = record { idx = ground arith; order = ground arith; entry = ground arith }

pub add-SameInfo : (m : Mm) (e o a : ℕ) → SameInfo m (add_to_free_list (some e) (pos o) m) a
unfolding add_to_free_list
add-SameInfo m e o a = record { idx = ground arith; order = ground arith; entry = ground arith }

module _ (m : Mm) (free : FreeLists) (o a : ℕ) (h : o < max_order) where
  -- `rm_from_free_list` of a block drops it from the abstract state.
  pub Lists-drop :
      Lists m free → a ∈ free o → Lists (rm_from_free_list (some a) (pos o) m) (drop_block o a free)
  Lists-drop l i = record {
    lists = lists;
    info = λ o' b h' j. Info-same (rm-SameInfo m a o b) (l.info o' b h' (kept o' b j));
    blocks = Blocks-drop free o a l.blocks;
  }
    where
      lists :
          (o' : ℕ)
          → o' < max_order
          → IsFreeList (rm_from_free_list (some a) (pos o) m) o' (drop_block o a free o')
      lists o' h' = elim (Bool-cases (o' == o)) [
        | inl same ↦
            subst (λ n. IsFreeList (rm_from_free_list (some a) (pos o) m) n (drop_block o a free n))
              (sym ((==_iff o' o).0 same))
              (rw ((==_iff o o).1 refl) (rm-erase m a o (free o) h (l.lists o h) i))
        | inr ne ↦ rw ne (
            rm-frame m a o o' (free o) (free o') h ne
              (λ b j. list_unique free o o' b l.blocks h h' ne j) (l.lists o h) i (l.lists o' h'))
      ]

      kept : (o' b : ℕ) → b ∈ drop_block o a free o' → b ∈ free o'
      kept o' b j = ground (arith, mem_of_mem-erase b a (free o))

  -- `add_to_free_list` of a page in no list pushes it on the abstract state.
  pub Lists-push' :
      Lists m free
      → Clear free a o
      → (o' : ℕ) → o' < max_order
      → IsFreeList (add_to_free_list (some a) (pos o) m) o' (push o a free o')
  Lists-push' l c o' h' = elim (Bool-cases (o' == o)) [
    | inl same ↦
        subst (λ n. IsFreeList (add_to_free_list (some a) (pos o) m) n (push o a free n))
          (sym ((==_iff o' o).0 same))
          (rw ((==_iff o o).1 refl)
            (add-front m a o (free o) h (Clear-not_mem free a o o c h) (l.lists o h)))
    | inr ne ↦ rw ne (
        add-frame m a o o' (free o) (free o') h ne (Clear-not_mem free a o o' c h')
          (λ b j. list_unique free o o' b l.blocks h h' ne j) (l.lists o h) (l.lists o' h'))
  ]

-- A page is added, and its fields are set.
pub Lists-push :
    (m m' : Mm) (free : FreeLists) (o a : ℕ)
    → o < max_order
    → Lists m free
    → Clear free a o
    → SameLinks (add_to_free_list (some a) (pos o) m) m'
    → ((b : ℕ) → (b == a) ≡ false → SameInfo m m' b)
    → Info m' a o
    → Lists m' (push o a free)
Lists-push m m' free o a h l c links same i = record {
  lists =
      lists-frame (add_to_free_list (some a) (pos o) m) m' (push o a free) links
        (Lists-push' m free o a h l c);
  info = λ o' b h' j. info o' b h' (mem-push free o a o' b j);
  blocks = Blocks-push free o a l.blocks c;
}
  where
    info : (o' b : ℕ) → o' < max_order → ((o' ≡ o) × (b ≡ a)) ⊎ (b ∈ free o') → Info m' b o'
    info o' b h' (inl (e, f)) = rw (e, f) i
    info o' b h' (inr j) =
        Info-same (same b (mem_ne b a (free o') j (Clear-not_mem free a o o' c h')))
          (l.info o' b h' j)

-- An entry that says where it is stays linked when its page is spared and lists only grow.
pub linked-push :
    (m m' : Mm) (free : FreeLists) (o a x e : ℕ)
    → SameInfo m m' x
    → (e ≡ x) × InList m free x
    → (e ≡ x) × InList m' (push o a free) x
linked-push m m' free o a x e s (at, (o', h, ord, i)) =
    (at, (o', h, s.order ∙ ord, mem-push_old free o a o' x i))
