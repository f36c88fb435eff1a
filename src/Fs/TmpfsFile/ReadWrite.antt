-- ===== src/Fs/TmpfsFile/ReadWrite.antt =====
-- Reading back what was written to a file of src/fs_tmpfs.c.
use nycu_osc.Prelude.{
  ℕ, zero, suc, ◌+◌, ◌-◌, ◌*◌, ◌%◌, ◌^◌, ◌≤◌, ◌<◌, ◌≡◌, refl, ap, ◌∙◌, true, false, ◌&&◌, Option,
  none, some, ◌==◌, ltb, leb, max, if◌then◌else◌, arith, ◌⊎◌, inl, inr, Bool-cases,
}
use native.Mathlib.Nat.{pow-suc}
use nycu_osc.Prelude.Store.{update_self, update_ne}
use nycu_osc.CString.Memory.{Mem, copy, copy_lem}
use nycu_osc.Fs.{Node, Fs, set_node, set_file}
use nycu_osc.Fs.Long.{u64_mod, to_int_lem}
use nycu_osc.Prelude.Int.{pos}
use nycu_osc.Fs.Tmpfs.{is_directory}
use nycu_osc.Fs.TmpfsFile.{
  node_of, grow, new_capacity_for, reserve, store, write_node, tmpfs_write, move_contents,
}

-- Doubling reaches the required capacity, and never goes below the capacity it starts from.
pub grow_lem :
    (f c required : ℕ)
    → required ≤ c * 2 ^ f
    → required < 2 ^ 63
    → (required ≤ grow f c required) × (c ≤ grow f c required)
unfolding grow
grow_lem zero c required h small = (omega arith, omega arith)
grow_lem (suc f) c required h small = elim (Bool-cases (ltb c required)) [
  | inl less ↦
      let e : c * 2 % u64_mod ≡ c * 2 = ground arith in
      let ih =
        grow_lem f (c * 2) required (omega (arith, ap (λ (t : ℕ). c * t) (pow-suc 2 f))) small in
      rw (less, e) (ih.0, omega (arith, ih.1))
  | inr enough ↦ rw enough (ground arith, omega arith)
]

-- Below 2^31 the doubled capacity is still an `unsigned int`.
grow_below : (f c required : ℕ) → c < 2 ^ 32 → required < 2 ^ 31 → grow f c required < 2 ^ 32
unfolding grow
grow_below zero c required h small = h
grow_below (suc f) c required h small = elim (Bool-cases (ltb c required)) [
  | inl less ↦
      let e : c * 2 % u64_mod ≡ c * 2 = ground arith in
      rw (less, e) (grow_below f (c * 2) required (ground arith) small)
  | inr enough ↦ rw enough h
]

-- the handle `f` is open on the file with node `i`, whose buffer holds its contents
pub record IsOpen (s : Fs) (f i : ℕ) : Type 0 where
  pub node : node_of s (some f) ≡ some i
  pub is_file : is_directory (s.nodes i).node_type ≡ false
  pub buffered : (data_of : Mem) × ((s.nodes i).contents ≡ some data_of)
  pub room : (s.nodes i).size ≤ (s.nodes i).capacity
  pub capacity_pos : 0 < (s.nodes i).capacity
  pub capacity_fits : (s.nodes i).capacity < 2 ^ 32

-- the byte at `a` of the contents
abbrev pub byte : Option Mem → ℕ → ℕ
byte none a = 0
byte (some bytes) a = bytes a

new_capacity_for_lem :
    (node : Node) (required : ℕ)
    → 0 < node.capacity
    → node.capacity < 2 ^ 32
    → required < 2 ^ 31
    → let c = new_capacity_for node required in (required ≤ c) × (node.capacity ≤ c) × (c < 2 ^ 32)
unfolding new_capacity_for
new_capacity_for_lem node required some_cap fits small =
    let e : ltb 0 node.capacity ≡ true = ground arith in
    let (enough, more) = grow_lem 64 node.capacity required (omega arith) (omega arith) in
    rw e (enough, more, grow_below 64 node.capacity required fits small)

move_contents-copy :
    (node : Node) (bytes new_data : Mem) (a : ℕ)
    → node.contents ≡ some bytes
    → a < node.size
    → node.size < 2 ^ 32
    → move_contents node new_data a ≡ bytes a
move_contents-copy node bytes new_data a at h fits =
    let whole : node.size % 2 ^ 32 ≡ node.size = omega arith in
    rw (at, whole) (copy_lem 0 0 node.size new_data bytes a ∙ ground arith)

ltb_of_ltb : (a b c : ℕ) → ltb a b ≡ true → b ≤ c → ltb a c ≡ true
ltb_of_ltb a b c h k = ground arith

-- what `reserve` returns where `alloc` serves it
reserve_lem :
    (new_data : Mem) (required : ℕ) (node : Node) (bytes : Mem)
    → node.contents ≡ some bytes
    → 0 < node.capacity
    → node.size ≤ node.capacity
    → node.capacity < 2 ^ 32
    → required < 2 ^ 31
    → (node' : Node) × (reserve (some new_data) required node ≡ some node')
      × (node'.size ≡ node.size)
      × (node'.node_type ≡ node.node_type)
      × ((bytes' : Mem) × (node'.contents ≡ some bytes')
          × ((a : ℕ) → a < node.size → bytes' a ≡ bytes a))
      × (required ≤ node'.capacity)
      × (node.capacity ≤ node'.capacity)
      × (node'.capacity < 2 ^ 32)
unfolding reserve new_capacity_for
reserve_lem new_data required node bytes at some_cap room fits small =
    elim (Bool-cases (ltb node.capacity required)) [
      | inr enough ↦
          rw enough
            (node, refl, refl, refl, (bytes, at, λ a h. refl), ground arith, omega arith, fits)
      | inl less ↦
          let (enough, more, below) = new_capacity_for_lem node required some_cap fits small in
          let grows : ltb node.capacity (new_capacity_for node required) ≡ true =
            ltb_of_ltb node.capacity required (new_capacity_for node required) less enough in
          rw (less, grows)
            (
              record node {
                contents = some (move_contents node new_data);
                capacity = new_capacity_for node required;
              },
              refl,
              refl,
              refl,
              (
                move_contents node new_data,
                refl,
                λ a h. move_contents-copy node bytes new_data a at h (omega arith),
              ),
              enough,
              more,
              below,
            )
    ]

-- the state after a write of `len` bytes: the node's bytes are the old ones with those of `buf`
-- from the position on, the size covers them, and nothing but the handle and its node changes
pub record Written (s : Fs) (buf : Mem) (len f i : ℕ) (s' : Fs) : Type 0 where
  pub opened : IsOpen s' f i
  pub position : (s'.files f).f_pos ≡ (s.files f).f_pos + len
  pub ops : (s'.files f).f_ops ≡ (s.files f).f_ops
  pub size : (s'.nodes i).size ≡ max (s.nodes i).size ((s.files f).f_pos + len)
  pub new : (k : ℕ) → k < len → byte (s'.nodes i).contents ((s.files f).f_pos + k) ≡ buf k
  pub old :
      (a : ℕ)
      → a < (s.nodes i).size
      → (a < (s.files f).f_pos) ⊎ ((s.files f).f_pos + len ≤ a)
      → byte (s'.nodes i).contents a ≡ byte (s.nodes i).contents a
  pub others :
      ((g : ℕ) → (g == f) ≡ false → s'.files g ≡ s.files g)
      × ((j : ℕ) → (j == i) ≡ false → s'.nodes j ≡ s.nodes j)

-- the node after the copy
abbrev stored : Mem → ℕ → ℕ → Mem → Node → Node
stored buf len p bytes node = record node {
  contents = some (copy p bytes 0 buf len);
  size = if ltb node.size (p + len) then p + len else node.size;
}

abbrev after_write : Mem → ℕ → ℕ → ℕ → Mem → Node → Fs → Fs
after_write buf len f i bytes node s =
    set_file f (record (s.files f) { f_pos = (s.files f).f_pos + len })
      (set_node i (stored buf len (s.files f).f_pos bytes node) s)

store_lem :
    (s : Fs) (buf bytes : Mem) (len f i : ℕ) (node : Node)
    → node.contents ≡ some bytes
    → (s.files f).f_pos + len < 2 ^ 31
    → store buf len f i node s ≡ some (pos len, after_write buf len f i bytes node s)
unfolding store
store_lem s buf bytes len f i node at fits =
    let wrap : ((s.files f).f_pos + len) % u64_mod ≡ (s.files f).f_pos + len = omega arith in
    let whole : len % 2 ^ 32 ≡ len = omega arith in
    rw (at, wrap, whole, to_int_lem len (omega arith), store) refl

tmpfs_write-store :
    (s : Fs) (new_data buf : Mem) (len f i : ℕ) (node : Node)
    → IsOpen s f i
    → 0 < len
    → (s.files f).f_pos + len < 2 ^ 31
    → reserve (some new_data) ((s.files f).f_pos + len) (s.nodes i) ≡ some node
    → tmpfs_write (some new_data) (some f) (some buf) len s ≡ store buf len f i node s
unfolding tmpfs_write write_node
tmpfs_write-store s new_data buf len f i node own some_len fits at =
    let wrap : ((s.files f).f_pos + len) % u64_mod ≡ (s.files f).f_pos + len = omega arith in
    let some_bytes : (len == 0) ≡ false = ground arith in
    rw (own.node, some_bytes, tmpfs_write, own.is_file, wrap, at, write_node) refl

stored_room :
    (len p : ℕ) (old node : Node)
    → p + len ≤ node.capacity
    → old.capacity ≤ node.capacity
    → old.size ≤ old.capacity
    → (if ltb old.size (p + len) then p + len else old.size) ≤ node.capacity
stored_room len p old node h k room = ground arith

outside :
    (p len a x y : ℕ) → (a < p) ⊎ (p + len ≤ a) → (if leb p a && ltb a (p + len) then x else y) ≡ y
outside p len a x y (inl before) = ground arith
outside p len a x y (inr behind) = ground arith

after_write-Written :
    (s : Fs) (buf bytes bytes' : Mem) (len f i : ℕ) (node : Node)
    → IsOpen s f i
    → (s.nodes i).contents ≡ some bytes
    → node.contents ≡ some bytes'
    → node.size ≡ (s.nodes i).size
    → node.node_type ≡ (s.nodes i).node_type
    → ((a : ℕ) → a < (s.nodes i).size → bytes' a ≡ bytes a)
    → (s.files f).f_pos + len ≤ node.capacity
    → (s.nodes i).capacity ≤ node.capacity
    → node.capacity < 2 ^ 32
    → Written s buf len f i (after_write buf len f i bytes' node s)
after_write-Written s buf bytes bytes' len f i node own at at' size type same enough more fits =
    let p : ℕ = (s.files f).f_pos in
    let ef = update_self s.files f (record (s.files f) { f_pos = p + len }) in
    let en = update_self s.nodes i (stored buf len p bytes' node) in
    record {
      opened = record {
        node = rw ef own.node;
        is_file = rw (en, type) own.is_file;
        buffered = (copy p bytes' 0 buf len, rw en refl);
        room = rw (en, size) (stored_room len p (s.nodes i) node enough more own.room);
        capacity_pos = rw en (omega (arith, more, own.capacity_pos));
        capacity_fits = rw en fits;
      };
      position = rw ef refl;
      ops = rw ef refl;
      size = rw (en, size) (ground arith);
      new = λ k h. rw en (copy_lem p 0 len bytes' buf (p + k) ∙ ground arith);
      old = λ a h out.
          rw (en, at)
            (copy_lem p 0 len bytes' buf a
              ∙ outside p len a (buf (0 + (a - p))) (bytes' a) out
              ∙ same a h);
      others = (λ g ne. update_ne s.files f g _ ne, λ j ne. update_ne s.nodes i j _ ne);
    }

-- A write of at least one byte to an open file, where `alloc` serves it and the position stays
-- below 2^31, returns the length as it was given, moves the position behind the bytes, extends the size to
-- there, and changes those bytes and no other of the file.
pub tmpfs_write_lem :
    (s : Fs) (new_data buf : Mem) (len f i : ℕ)
    → IsOpen s f i
    → 0 < len
    → (s.files f).f_pos + len < 2 ^ 31
    → (s' : Fs) × (tmpfs_write (some new_data) (some f) (some buf) len s ≡ some (pos len, s'))
      × Written s buf len f i s'
tmpfs_write_lem s new_data buf len f i own some_len fits =
    let (bytes, at) = own.buffered in
    let (node, ok, size, type, (bytes', at', same), enough, more, below) =
      reserve_lem new_data ((s.files f).f_pos + len) (s.nodes i) bytes at own.capacity_pos own.room
        own.capacity_fits fits in
    (
      after_write buf len f i bytes' node s,
      tmpfs_write-store s new_data buf len f i node own some_len fits ok
          ∙ store_lem s buf bytes' len f i node at' fits,
      after_write-Written s buf bytes bytes' len f i node own at at' size type same enough more
          below,
    )
