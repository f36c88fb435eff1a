-- ===== src/Cpio/Archive.antt =====
-- The walks of src/cpio.c over an archive in memory, against the files that were written to it.
use nycu_osc.Prelude.{
  ℕ, suc, ◌+◌, ◌-◌, ◌%◌, ◌^◌, ◌≡◌, refl, ap, sym, ◌∙◌, Bool, true, Option, none, some, List, [],
  ◌∷◌, ◌++◌, if◌then◌else◌, length, length-append, arith, length-replicate,
}
use mathlib.Core.Path.{subst, ap₂}
use nycu_osc.Prelude.Store.{◌∉◌}
use nycu_osc.Prelude.Int.{pos, ◌==ℤ◌}
use nycu_osc.CString.{Text, cstr, strcmp}
use nycu_osc.CString.Strcmp.{strcmp_zero_iff}
use nycu_osc.CString.Memory.{Mem}
use nycu_osc.Utils.{hex_to_uint, align}
use nycu_osc.Uart.{puts}
use nycu_osc.Cpio.{
  After, text_at, magic, trailer, equal, is_header, namesize, filename, filesize, file_addr,
  next_header, cpio_cat, cpio_get_file_size, cpio_list,
}
use nycu_osc.Cpio.Walk.{Entry, IsWalked, contents_of, listing, size_or_zero, walk_lem}
use nycu_osc.Cpio.Newc.{
  Written, field, pad, ended, entry_before, archive, IsWritten, end_name, same_text, AllWritten,
  Holds, holds_front, holds_behind, hex_to_uint-field, align-pad, equal-ended, puts-ended,
}

-- the test on the magic number, where the bytes behind the two arrays agree
is_header-magic :
    (after : After) (mem : Mem) (h : ℕ)
    → cstr after.magic ≡ cstr after.header_magic
    → text_at 6 h mem ≡ magic
    → is_header after mem h ≡ true
unfolding is_header
is_header-magic after mem h same at =
    let e : cstr (magic ++ after.magic) ≡ cstr (magic ++ after.header_magic) =
      ap (λ (t : Text). magic ++ t) same in
    ap (λ (t : Text). strcmp (magic ++ after.magic) (t ++ after.header_magic) ==ℤ pos 0) at
    ∙ ap (λ z. z ==ℤ pos 0)
        ((strcmp_zero_iff (magic ++ after.magic) (magic ++ after.header_magic)).1 e)

-- what the walk meets in the place of a file
abbrev met : Written → Entry
met e = record { name = ended e.name; bytes = e.bytes }

abbrev all_met : List Written → List Entry
all_met [] = []
all_met (e ∷ es) = met e ∷ all_met es

-- what the header of a file in front of other bytes gives the walk
record Headed (after : After) (mem : Mem) (h : ℕ) (e : Written) (rest : Text) : Type 0 where
  magic : is_header after mem h ≡ true
  name : filename mem h ≡ ended e.name
  bytes : text_at (filesize mem h) (file_addr mem h) mem ≡ e.bytes
  next : Holds mem (next_header mem h) rest

length-ended : (s : Text) → length (ended s) ≡ length s + 1
length-ended s = length-append s (0 ∷ [])

module _ (mem : Mem) (h : ℕ) (e : Written) (rest : Text) where
  -- the bytes behind the name, and behind the check sum
  abbrev behind_name : Text
  behind_name = pad (110 + (length e.name + 1)) ++ (e.bytes ++ (pad (length e.bytes) ++ rest))

  abbrev behind_check : Text
  behind_check = ended e.name ++ behind_name

  -- the fields that the kernel reads, and the bytes behind the header
  entry_before-fields :
      IsWritten e
      → Holds mem h (entry_before e rest)
      → (text_at 6 h mem ≡ magic)
        × (text_at 8 (h + 54) mem ≡ field (length e.bytes))
        × (text_at 8 (h + 94) mem ≡ field (length e.name + 1))
        × Holds mem (h + 110) behind_check
  entry_before-fields w at =
      let size = field (length e.bytes) in
      let named = field (length e.name + 1) in
      let behind_devices = named ++ (e.check ++ behind_check) in
      let behind_ids = size ++ (e.devices ++ behind_devices) in
      let at₆ = holds_behind mem h (h + 6) magic (e.ids ++ behind_ids) at refl in
      let at₅₄ = holds_behind mem (h + 6) (h + 54) e.ids behind_ids at₆ (omega (arith, w.ids)) in
      let at₆₂ =
        holds_behind mem (h + 54) (h + 62) size (e.devices ++ behind_devices) at₅₄ (omega arith) in
      let at₉₄ =
        holds_behind mem (h + 62) (h + 94) e.devices behind_devices at₆₂
          (omega (arith, w.devices)) in
      let at₁₀₂ =
        holds_behind mem (h + 94) (h + 102) named (e.check ++ behind_check) at₉₄ (omega arith) in
      (
        holds_front mem h 6 magic (e.ids ++ behind_ids) at refl,
        holds_front mem (h + 54) 8 size (e.devices ++ behind_devices) at₅₄ refl,
        holds_front mem (h + 94) 8 named (e.check ++ behind_check) at₉₄ refl,
        holds_behind mem (h + 102) (h + 110) e.check behind_check at₁₀₂ (omega (arith, w.check)),
      )

  -- where the bytes of the file and the next entry begin
  abbrev bytes_start : ℕ
  bytes_start = h + (110 + (length e.name + 1)) + length (pad (110 + (length e.name + 1)))

  abbrev next_start : ℕ
  next_start = bytes_start + length e.bytes + length (pad (length e.bytes))

  behind_check-contents :
      Holds mem (h + 110) behind_check
      → (text_at (length e.name + 1) (h + 110) mem ≡ ended e.name)
        × (text_at (length e.bytes) bytes_start mem ≡ e.bytes)
        × Holds mem next_start rest
  behind_check-contents at =
      let named = length e.name + 1 in
      let end = length-ended e.name in
      let q = h + (110 + named) in
      let bytes_pad = e.bytes ++ (pad (length e.bytes) ++ rest) in
      let at_pad =
        holds_behind mem (h + 110) q (ended e.name) behind_name at (omega (arith, end)) in
      let at_bytes = holds_behind mem q bytes_start (pad (110 + named)) bytes_pad at_pad refl in
      let at_end =
        holds_behind mem bytes_start (bytes_start + length e.bytes) e.bytes
          (pad (length e.bytes) ++ rest) at_bytes refl in
      (
        holds_front mem (h + 110) named (ended e.name) behind_name at end,
        holds_front mem bytes_start (length e.bytes) e.bytes (pad (length e.bytes) ++ rest) at_bytes
            refl,
        holds_behind mem (bytes_start + length e.bytes) next_start (pad (length e.bytes)) rest
            at_end refl,
      )

  entry_before-Headed :
      (after : After)
      → cstr after.magic ≡ cstr after.header_magic
      → IsWritten e
      → Holds mem h (entry_before e rest)
      → Headed after mem h e rest
  unfolding namesize filesize filename file_addr next_header
  entry_before-Headed after same w at =
      let named = length e.name + 1 in
      let short = w.short in
      let fits = w.size in
      let (first, size, name, behind) = entry_before-fields w at in
      let (name_text, bytes_text, at_rest) = behind_check-contents behind in
      let size_field : filesize mem h ≡ length e.bytes =
        ap hex_to_uint size ∙ hex_to_uint-field (length e.bytes) (omega (arith, fits)) in
      let name_field : namesize mem h ≡ named =
        ap hex_to_uint name ∙ hex_to_uint-field named (omega (arith, short)) in
      let name_pad = align-pad (110 + named) (omega (arith, short)) in
      let size_pad = align-pad (length e.bytes) (omega (arith, fits)) in
      let less = length-replicate {A = ℕ} ((4 - (110 + named) % 4) % 4) 0 in
      let addr : file_addr mem h ≡ bytes_start =
        ap (λ (n : ℕ). h + align (110 + n) 4) name_field ∙ omega (arith, name_pad) in
      let next : next_header mem h ≡ next_start =
        ap₂ (λ (n k : ℕ). h + 110 + (align (110 + n) 4 + 2 ^ 32 - 110) % 2 ^ 32 + align k 4)
          name_field size_field
        ∙ omega (arith, name_pad, size_pad, short, less) in
      record {
        magic = is_header-magic after mem h same first;
        name = ap (λ (n : ℕ). text_at n (h + 110) mem) name_field ∙ name_text;
        bytes = ap₂ (λ (n p : ℕ). text_at n p mem) size_field addr ∙ bytes_text;
        next = subst (λ (t : ℕ). Holds mem t rest) (sym next) at_rest;
      }

archive-IsWalked :
    (after : After) (mem : Mem) (last : Written) (es : List Written) (h : ℕ)
    → cstr after.magic ≡ cstr after.header_magic
    → IsWritten last
    → same_text last.name end_name ≡ true
    → AllWritten es
    → Holds mem h (archive last es)
    → IsWalked after mem h (all_met es)
archive-IsWalked after mem last [] h same w end all at =
    let head = entry_before-Headed mem h last [] after same w at in
    (
      head.magic,
      ap (λ (t : Text). equal t trailer) head.name
          ∙ equal-ended last.name trailer w.name refl
          ∙ end,
    )
archive-IsWalked after mem last (e ∷ es) h same w end (we, other, all) at =
    let head = entry_before-Headed mem h e (archive last es) after same we at in
    (
      head.magic,
      ap (λ (t : Text). equal t trailer) head.name
          ∙ equal-ended e.name trailer we.name refl
          ∙ other,
      head.name,
      head.bytes,
      archive-IsWalked after mem last es (next_header mem h) same w end all head.next,
    )

-- the bytes of the first file with the name, and the names on their lines
abbrev pub bytes_of : Text → List Written → Option Text
bytes_of target [] = none
bytes_of target (e ∷ es) =
    let rest = bytes_of target es in if same_text e.name target then some e.bytes else rest

abbrev pub lines : List Written → List ℕ
lines [] = []
lines (e ∷ es) = puts e.name ++ (b'\r' ∷ b'\n' ∷ []) ++ lines es

contents_of-bytes_of :
    (target : Text) (es : List Written)
    → 0 ∉ target
    → AllWritten es
    → contents_of target (all_met es) ≡ bytes_of target es
contents_of-bytes_of target [] h all = refl
contents_of-bytes_of target (e ∷ es) h (w, other, all) =
    ap₂ (λ (b : Bool) (o : Option Text). if b then some e.bytes else o)
      (equal-ended e.name target w.name h) (contents_of-bytes_of target es h all)

listing-lines : (es : List Written) → listing (all_met es) ≡ lines es
listing-lines [] = refl
listing-lines (e ∷ es) =
    ap₂ (λ (a b : List ℕ). a ++ (b'\r' ∷ b'\n' ∷ []) ++ b) (puts-ended e.name) (listing-lines es)

length-all_met : (es : List Written) → length (all_met es) ≡ length es
length-all_met [] = refl
length-all_met (e ∷ es) = ap suc (length-all_met es)

-- Where memory holds, from an address on, the archive of some files that ends with the entry
-- `TRAILER!!!`, the fields of every entry have their widths, every name is without a NUL and shorter
-- than 256 bytes, only the last is that of the end, the file sizes are below 2^32 - 3, the bytes
-- behind the two magic numbers agree, the name that is asked for has no NUL, and the walks have one
-- round more than there are files: `cpio_cat` sends the bytes of the first file with the name, or
-- finds none; `cpio_get_file_size` returns their number, or 0; `cpio_list` sends the names in their
-- order.
pub cpio_walk_lem :
    (after : After) (mem : Mem) (target : Text) (last : Written) (es : List Written) (h : ℕ)
    → cstr after.magic ≡ cstr after.header_magic
    → IsWritten last
    → same_text last.name end_name ≡ true
    → AllWritten es
    → 0 ∉ target
    → Holds mem h (archive last es)
    → let t = bytes_of target es in
      let f = suc (length es) in
      (cpio_cat f after mem target h ≡ some t)
      × (cpio_get_file_size f after mem target h ≡ some (size_or_zero t))
      × (cpio_list f after mem h ≡ some (lines es))
cpio_walk_lem after mem target last es h same w end all named at =
    let walked = archive-IsWalked after mem last es h same w end all at in
    let (cat, size, list) = walk_lem after mem target (all_met es) h walked in
    let bytes = contents_of-bytes_of target es named all in
    let rounds = ap suc (sym (length-all_met es)) in
    (
      ap (λ (f : ℕ). cpio_cat f after mem target h) rounds ∙ cat ∙ ap some bytes,
      ap (λ (f : ℕ). cpio_get_file_size f after mem target h) rounds
          ∙ size
          ∙ ap (λ (t : Option Text). some (size_or_zero t)) bytes,
      ap (λ (f : ℕ). cpio_list f after mem h) rounds ∙ list ∙ ap some (listing-lines es),
    )
