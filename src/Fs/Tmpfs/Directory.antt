-- ===== src/Fs/Tmpfs/Directory.antt =====
-- A directory of src/fs_tmpfs.c as a map from names to vnodes.
use nycu_osc.Prelude.{
  ℕ, ◌<◌, ◌≡◌, ◌≢◌, refl, sym, ap, ◌∙◌, Bool, true, false, Option, none, some, List, [], ◌∷◌, ◌++◌,
  ◌==◌, leb, if◌then◌else◌, arith, inl, inr, Bool-cases,
}
use nycu_osc.Prelude.Int.{pos, ◌==ℤ◌, ==ℤ_iff}
use nycu_osc.Prelude.Store.{update, ◌∈◌}
use nycu_osc.CString.{Text, cstr, strcmp, strlen}
use nycu_osc.CString.Strcmp.{strcmp_zero_iff}
use nycu_osc.CString.Memory.{Mem}
use nycu_osc.Fs.{
  NodeType, tmpfs_node_file, tmpfs_node_directory, Node, Fs, max_file_name, max_children,
  enoent_vfs,
}
use nycu_osc.Fs.Tmpfs.{
  create_internal_node, child_name, find_child, is_directory, found, tmpfs_lookup, Allocs,
  create_child, create_checked, create_or_mkdir, count, add_child, fresh_vnode, fresh_node,
}

-- A directory `dir` with node `i`: its children and their nodes are not at the addresses that
-- `alloc` returns.
pub record IsFresh (s : Fs) (dir i n v : ℕ) : Type 0 where
  pub directory : (s.vnodes dir).internal ≡ some i
  pub is_dir : is_directory (s.nodes i).node_type ≡ true
  pub node_ne : (i == n) ≡ false
  pub vnode_ne : (dir == v) ≡ false
  pub child_ne : (c : ℕ) → c ∈ (s.nodes i).children → (c == v) ≡ false
  pub child_node :
      (c j : ℕ) → c ∈ (s.nodes i).children → (s.vnodes c).internal ≡ some j → (j == n) ≡ false

-- the first result, or `v` where there is none and the test holds
abbrev pub or_new : Option ℕ → Bool → ℕ → Option ℕ
or_new (some c) b v = some c
or_new none b v = if b then some v else none

-- A search in a list with one more child.
find_child-append :
    (s : Fs) (name : Text) (xs : List ℕ) (v : ℕ)
    → find_child s name (xs ++ (v ∷ []))
      ≡ or_new (find_child s name xs) (strcmp (child_name s v) name ==ℤ pos 0) v
unfolding find_child
find_child-append s name [] v = refl
find_child-append s name (x ∷ xs) v = elim (Bool-cases (strcmp (child_name s x) name ==ℤ pos 0)) [
  | inl same ↦ rw same refl
  | inr other ↦ rw other (find_child-append s name xs v)
]

-- A search only reads the names of the children.
find_child-frame :
    (s s' : Fs) (name : Text) (xs : List ℕ)
    → ((c : ℕ) → c ∈ xs → child_name s' c ≡ child_name s c)
    → find_child s' name xs ≡ find_child s name xs
unfolding find_child
find_child-frame s s' name [] same = refl
find_child-frame s s' name (x ∷ xs) same =
    let first = same x (let e : (x == x) ≡ true = ground arith in rw e refl) in
    let rest = find_child-frame s s' name xs (λ c h. same c (rw h (ground arith))) in
    rw (first, rest) refl

-- the state behind a creation of `name` with the vnode `v` and the node `n`
abbrev pub created : ℕ → ℕ → ℕ → ℕ → Node → Fs → Fs
created dir i n v node s =
    let s₁ = record s { nodes = update s.nodes n node } in
    add_child i v (record s₁ { vnodes = update s₁.vnodes v (fresh_vnode s₁ dir n) })

name-created :
    (s : Fs) (dir i n v j : ℕ) (node : Node)
    → (i == n) ≡ false
    → (j == n) ≡ false
    → ((created dir i n v node s).nodes j).name ≡ (s.nodes j).name
name-created s dir i n v j node ne h = elim (Bool-cases (j == i)) [
  | inl same ↦ let e : j ≡ i = ground arith in rw (same, ne, e) refl
  | inr other ↦ rw (other, h) refl
]

name-created_new :
    (s : Fs) (dir i n v : ℕ) (node : Node)
    → (i == n) ≡ false
    → ((created dir i n v node s).nodes n).name ≡ node.name
name-created_new s dir i n v node ne =
    let e : (n == i) ≡ false = ground arith in
    let self : (n == n) ≡ true = ground arith in rw (e, self) refl

-- the name behind the vnode's `internal`
child_name_of :
    (s : Fs) (c j : ℕ) → (s.vnodes c).internal ≡ some j → child_name s c ≡ (s.nodes j).name
unfolding child_name
child_name_of s c j at = rw (at, child_name) refl

child_name-none : (s : Fs) (c : ℕ) → (s.vnodes c).internal ≡ none → child_name s c ≡ []
unfolding child_name
child_name-none s c at = rw (at, child_name) refl

child_name-created :
    (s : Fs) (dir i n v c : ℕ) (node : Node)
    → IsFresh s dir i n v
    → c ∈ (s.nodes i).children
    → child_name (created dir i n v node s) c ≡ child_name s c
child_name-created s dir i n v c node own h = go (s.vnodes c).internal refl
  where
    s' : Fs
    s' = created dir i n v node s

    kept : (s'.vnodes c).internal ≡ (s.vnodes c).internal
    kept = rw (own.child_ne c h) refl

    go : (o : Option ℕ) → (s.vnodes c).internal ≡ o → child_name s' c ≡ child_name s c
    go none at = child_name-none s' c (kept ∙ at) ∙ sym (child_name-none s c at)
    go (some j) at =
        child_name_of s' c j (kept ∙ at)
        ∙ name-created s dir i n v j node own.node_ne (own.child_node c j h at)
        ∙ sym (child_name_of s c j at)

child_name-new :
    (s : Fs) (dir i n v : ℕ) (node : Node)
    → IsFresh s dir i n v
    → child_name (created dir i n v node s) v ≡ node.name
child_name-new s dir i n v node own =
    let self : (v == v) ≡ true = ground arith in
    child_name_of (created dir i n v node s) v n (rw self refl)
    ∙ name-created_new s dir i n v node own.node_ne

-- the search among the children behind a creation
find_child-created :
    (s : Fs) (dir i n v : ℕ) (node : Node) (name : Text)
    → IsFresh s dir i n v
    → let s' = created dir i n v node s in
      find_child s' name ((s.nodes i).children ++ (v ∷ []))
      ≡ or_new (find_child s name (s.nodes i).children) (strcmp node.name name ==ℤ pos 0) v
find_child-created s dir i n v node name own =
    let s' = created dir i n v node s in
    find_child-append s' name (s.nodes i).children v
    ∙ rw
        (
          find_child-frame s s' name (s.nodes i).children
              (λ c h. child_name-created s dir i n v c node own h),
          child_name-new s dir i n v node own,
        )
        refl

-- the node that a creation makes
abbrev pub new_node : Text → NodeType → ℕ → Mem → Node
new_node name tmpfs_node_file i buffer = record (fresh_node name tmpfs_node_file (some i)) {
  contents = some buffer;
  capacity = 4096;
}
new_node name tmpfs_node_directory i buffer = fresh_node name tmpfs_node_directory (some i)

lookup-found :
    (s : Fs) (dir i : ℕ) (name : Text)
    → (s.vnodes dir).internal ≡ some i
    → is_directory (s.nodes i).node_type ≡ true
    → tmpfs_lookup (some dir) (some name) s ≡ found (find_child s name (s.nodes i).children)
unfolding tmpfs_lookup
lookup-found s dir i name at is_dir = rw (at, tmpfs_lookup, is_dir) refl

-- the node of the directory behind a creation
created_dir :
    (s : Fs) (dir i n v : ℕ) (node : Node)
    → (i == n) ≡ false
    → (created dir i n v node s).nodes i
      ≡ record (s.nodes i) { children = (s.nodes i).children ++ (v ∷ []) }
created_dir s dir i n v node ne = let self : (i == i) ≡ true = ground arith in rw (self, ne) refl

lookup-created :
    (s : Fs) (dir i n v : ℕ) (node : Node) (name : Text)
    → IsFresh s dir i n v
    → tmpfs_lookup (some dir) (some name) (created dir i n v node s)
      ≡ found (or_new (find_child s name (s.nodes i).children) (strcmp node.name name ==ℤ pos 0) v)
lookup-created s dir i n v node name own =
    let s' = created dir i n v node s in
    let at : (s'.vnodes dir).internal ≡ some i = rw own.vnode_ne own.directory in
    let d = created_dir s dir i n v node own.node_ne in
    lookup-found s' dir i name at (ap (λ (x : Node). is_directory x.node_type) d ∙ own.is_dir)
    ∙ ap (λ (x : Node). found (find_child s' name x.children)) d
    ∙ ap found (find_child-created s dir i n v node name own)

create_child-created :
    (s : Fs) (dir i n v : ℕ) (buffer : Mem) (name : Text) (type : NodeType)
    → let allocs : Allocs = record { node = some n; buffer = some buffer; vnode = some v } in
      create_child allocs dir i name type s
      ≡ (pos 0, some v, created dir i n v (new_node name type i buffer) s)
unfolding create_child create_internal_node
create_child-created s dir i n v buffer name tmpfs_node_file = refl
create_child-created s dir i n v buffer name tmpfs_node_directory = refl

create_or_mkdir-create_child :
    (s : Fs) (dir i : ℕ) (allocs : Allocs) (name : Text) (type : NodeType)
    → (s.vnodes dir).internal ≡ some i
    → is_directory (s.nodes i).node_type ≡ true
    → (0 < strlen name) × (strlen name < max_file_name)
    → find_child s name (s.nodes i).children ≡ none
    → count (s.nodes i).children < max_children
    → create_or_mkdir allocs (some dir) (some name) type s ≡ create_child allocs dir i name type s
unfolding create_or_mkdir create_checked
create_or_mkdir-create_child s dir i allocs name type at is_dir (lo, hi) absent room =
    let some_name : (strlen name == 0) ≡ false = ground arith in
    let short : leb max_file_name (strlen name) ≡ false = ground arith in
    let free : leb max_children (count (s.nodes i).children) ≡ false = ground arith in
    rw (at, create_or_mkdir, some_name, is_dir, short, absent, create_checked, free) refl

not_found : (o : Option ℕ) → (found o).0 ≡ enoent_vfs → o ≡ none
not_found none h = refl
not_found (some c) h = cc

new_node-name :
    (name : Text) (type : NodeType) (i : ℕ) (buffer : Mem)
    → (new_node name type i buffer).name ≡ cstr name
new_node-name name tmpfs_node_file i buffer = refl
new_node-name name tmpfs_node_directory i buffer = refl

cstr_idem : (s : Text) → cstr (cstr s) ≡ cstr s
cstr_idem [] = refl
cstr_idem (c ∷ cs) = elim (Bool-cases (c == 0)) [
  | inl stop ↦ rw stop refl
  | inr go ↦ rw go (rw go (ap (λ t. c ∷ t) (cstr_idem cs)))
]

or_new-false : (o : Option ℕ) (v : ℕ) → or_new o false v ≡ o
or_new-false none v = refl
or_new-false (some c) v = refl

-- A creation in a directory, where the name is not empty, shorter than 64 bytes and not there yet,
-- fewer than 16 children are there and `alloc` serves all calls with fresh addresses, returns the
-- new vnode; a lookup finds it under the name, and finds under any other name what it found before.
pub create_or_mkdir_lem :
    (s : Fs) (dir i n v : ℕ) (buffer : Mem) (name : Text) (type : NodeType)
    → IsFresh s dir i n v
    → (0 < strlen name) × (strlen name < max_file_name)
    → (tmpfs_lookup (some dir) (some name) s).0 ≡ enoent_vfs
    → count (s.nodes i).children < max_children
    → let allocs : Allocs = record { node = some n; buffer = some buffer; vnode = some v } in
      let r = create_or_mkdir allocs (some dir) (some name) type s in
      (r.0 ≡ pos 0)
      × (r.1 ≡ some v)
      × (tmpfs_lookup (some dir) (some name) r.2 ≡ (pos 0, some v))
      × ((other : Text)
          → cstr other ≢ cstr name
          → tmpfs_lookup (some dir) (some other) r.2 ≡ tmpfs_lookup (some dir) (some other) s)
create_or_mkdir_lem s dir i n v buffer name type own len absent room =
    let node = new_node name type i buffer in
    let allocs : Allocs = record { node = some n; buffer = some buffer; vnode = some v } in
    let absent' =
      not_found _
        (ap (λ r. r.0) (sym (lookup-found s dir i name own.directory own.is_dir)) ∙ absent) in
    let e =
      create_or_mkdir-create_child s dir i allocs name type own.directory own.is_dir len absent'
        room
      ∙ create_child-created s dir i n v buffer name type in
    let own_name : (strcmp node.name name ==ℤ pos 0) ≡ true = (==ℤ_iff _ _).1 (
      (strcmp_zero_iff node.name name).1
        (ap cstr (new_node-name name type i buffer) ∙ cstr_idem name)) in
    rw e (
      refl,
      refl,
      lookup-created s dir i n v node name own ∙ rw (absent', own_name) refl,
      λ other ne.
          let differs : (strcmp node.name other ==ℤ pos 0) ≡ false =
            elim (Bool-cases (strcmp node.name other ==ℤ pos 0)) [
              | inr f ↦ f
              | inl t ↦ absurd (
                  ne (
                    sym (
                      sym (cstr_idem name)
                      ∙ ap cstr (sym (new_node-name name type i buffer))
                      ∙ (strcmp_zero_iff node.name other).0 ((==ℤ_iff _ _).0 t))))
            ] in
          lookup-created s dir i n v node other own
          ∙ ap found (
              ap (λ b. or_new (find_child s other (s.nodes i).children) b v) differs
              ∙ or_new-false _ v)
          ∙ sym (lookup-found s dir i other own.directory own.is_dir),
    )
