-- ===== src/Cpio/Walk.antt =====
-- The walks of src/cpio.c over an archive, against the list of its files.
use nycu_osc.Prelude.{
  ℕ, zero, suc, ◌+◌, ◌≡◌, refl, ap, sym, ◌∙◌, inl, inr, true, false, Option, none, some, List, [],
  ◌∷◌, ◌++◌, if◌then◌else◌, length, Bool-cases,
}
use nycu_osc.CString.{Text}
use nycu_osc.CString.Memory.{Mem}
use nycu_osc.Uart.{puts}
use nycu_osc.Cpio.{
  After, text_at, trailer, equal, is_header, filename, filesize, file_addr, next_header, Found,
  find_file, list_name, cpio_list, cat_found, cpio_cat, size_found, cpio_get_file_size,
}

-- the files that a walk meets: a name as it stands in the archive, and the bytes
pub record Entry : Type 0 where
  pub name : Text
  pub bytes : Text

-- from the address `h` on the walk meets the headers of these files, with the trailer behind them
abbrev pub IsWalked : After → Mem → ℕ → List Entry → Type 0
IsWalked after mem h [] = (is_header after mem h ≡ true) × (equal (filename mem h) trailer ≡ true)
IsWalked after mem h (e ∷ es) =
    (is_header after mem h ≡ true)
    × (equal (filename mem h) trailer ≡ false)
    × (filename mem h ≡ e.name)
    × (text_at (filesize mem h) (file_addr mem h) mem ≡ e.bytes)
    × IsWalked after mem (next_header mem h) es

-- the bytes of the first file with the name
abbrev pub contents_of : Text → List Entry → Option Text
contents_of target [] = none
contents_of target (e ∷ es) =
    let rest = contents_of target es in if equal e.name target then some e.bytes else rest

-- the names, each on a line
abbrev pub listing : List Entry → List ℕ
listing [] = []
listing (e ∷ es) = puts e.name ++ (b'\r' ∷ b'\n' ∷ []) ++ listing es

abbrev pub size_or_zero : Option Text → ℕ
size_or_zero none = 0
size_or_zero (some t) = length t

length-text_at : (n p : ℕ) (mem : Mem) → length (text_at n p mem) ≡ n
length-text_at zero p mem = refl
length-text_at (suc n) p mem = ap suc (length-text_at n (p + 1) mem)

-- how a search ends, by the files
abbrev pub Ends : Mem → Option Text → Option Found → Type 0
Ends mem t none = false ≡ true
Ends mem t (some r) = (cat_found mem r ≡ t) × (size_found mem r ≡ size_or_zero t)

find_file-Ends :
    (after : After) (mem : Mem) (target : Text) (es : List Entry) (h : ℕ)
    → IsWalked after mem h es
    → Ends mem (contents_of target es) (find_file (suc (length es)) after mem target h)
unfolding find_file cat_found size_found
find_file-Ends after mem target [] h (head, last) = rw (head, last) (refl, refl)
find_file-Ends after mem target (e ∷ es) h (head, more, name, bytes, rest) =
    elim (Bool-cases (equal e.name target)) [
      | inl hit ↦
          let size =
            ap length (sym bytes) ∙ length-text_at (filesize mem h) (file_addr mem h) mem in
          rw (head, more, name, hit) (ap some bytes, sym size)
      | inr miss ↦
          rw (head, more, name, miss) (find_file-Ends after mem target es (next_header mem h) rest)
    ]

-- the result of a search, and the two functions that read it
cat_of_Ends :
    (mem : Mem) (t : Option Text) (r : Option Found)
    → Ends mem t r
    → (elim r [ none ↦ none | some x ↦ some (cat_found mem x) ] ≡ some t)
      × (elim r [ none ↦ none | some x ↦ some (size_found mem x) ] ≡ some (size_or_zero t))
cat_of_Ends mem t none h = cc
cat_of_Ends mem t (some x) (c, z) = (ap some c, ap some z)

cpio_list-listing :
    (after : After) (mem : Mem) (es : List Entry) (h : ℕ)
    → IsWalked after mem h es
    → cpio_list (suc (length es)) after mem h ≡ some (listing es)
unfolding cpio_list
cpio_list-listing after mem [] h (head, last) = rw (head, last) refl
cpio_list-listing after mem (e ∷ es) h (head, more, name, bytes, rest) =
    rw (head, more, name)
      (ap (list_name e.name) (cpio_list-listing after mem es (next_header mem h) rest))

-- Where the walk meets the headers of some files from the address on, and the walks have one round more than there
-- are files: `cpio_cat` sends the bytes of the first file with the name, or finds none;
-- `cpio_get_file_size` returns their number, or 0; `cpio_list` sends the names in their order.
pub walk_lem :
    (after : After) (mem : Mem) (target : Text) (es : List Entry) (h : ℕ)
    → IsWalked after mem h es
    → let t = contents_of target es in
      let f = suc (length es) in
      (cpio_cat f after mem target h ≡ some t)
      × (cpio_get_file_size f after mem target h ≡ some (size_or_zero t))
      × (cpio_list f after mem h ≡ some (listing es))
unfolding cpio_cat cpio_get_file_size
walk_lem after mem target es h archive =
    let (c, z) =
      cat_of_Ends mem (contents_of target es) (find_file (suc (length es)) after mem target h)
        (find_file-Ends after mem target es h archive) in
    (c, z, cpio_list-listing after mem es h archive)
