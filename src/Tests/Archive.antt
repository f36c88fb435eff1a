-- ===== src/Tests/Archive.antt =====
-- An archive with the file `a` in memory, for src/cpio.c, and a command line for src/shell.c.
use nycu_osc.Prelude.{
  ℕ, zero, suc, ◌∙◌, ◌<◌, true, false, arith, ◌+◌, ◌≡◌, refl, some, List, [], ◌∷◌, ◌==◌,
  if◌then◌else◌,
}
use nycu_osc.CString.{Text}
use nycu_osc.CString.Memory.{Mem}
use nycu_osc.Uart.{puts}
use nycu_osc.Cpio.{After, trailer, cpio_cat, cpio_get_file_size, cpio_list}
use nycu_osc.Cpio.Newc.{Written, IsWritten, Holds, archive}
use nycu_osc.Cpio.Archive.{cpio_walk_lem}

-- the memory with a text at an address
abbrev with_text : Text → ℕ → Mem → Mem
with_text [] p mem = mem
with_text (c ∷ cs) p mem = with_text cs (p + 1) (λ a. if a == p then c else mem a)

-- eight digits 0
abbrev none_of : ℕ → Text
none_of zero = []
none_of (suc n) = b'0' ∷ none_of n

abbrev file : Text → Text → Written
file name bytes = record {
  ids = none_of 48;
  devices = none_of 32;
  check = none_of 8;
  name = name;
  bytes = bytes;
}

abbrev files : List Written
files = file (b'a' ∷ []) (b'h' ∷ b'i' ∷ []) ∷ []

abbrev disk : Mem
disk = with_text (archive (file trailer []) files) 0 (λ a. 0)

abbrev nothing_after : After
nothing_after = record { magic = []; header_magic = [] }

file-IsWritten : IsWritten (file (b'a' ∷ []) (b'h' ∷ b'i' ∷ []))
file-IsWritten = record {
  ids = refl;
  devices = refl;
  check = refl;
  name = refl;
  short = omega arith;
  size = omega arith;
}

last-IsWritten : IsWritten (file trailer [])
last-IsWritten = record {
  ids = refl;
  devices = refl;
  check = refl;
  name = refl;
  short = omega arith;
  size = omega arith;
}

-- The text that is put into memory is there.
with_text-below : (cs : Text) (p a : ℕ) (mem : Mem) → a < p → with_text cs p mem a ≡ mem a
with_text-below [] p a mem h = refl
with_text-below (c ∷ cs) p a mem h =
    let other : (a == p) ≡ false = ground arith in
    with_text-below cs (p + 1) a (λ b. if b == p then c else mem b) (omega arith) ∙ rw other refl

with_text-Holds : (cs : Text) (p : ℕ) (mem : Mem) → Holds (with_text cs p mem) p cs
with_text-Holds [] p mem = tt
with_text-Holds (c ∷ cs) p mem =
    let own : (p == p) ≡ true = ground arith in
    (
      with_text-below cs (p + 1) p (λ b. if b == p then c else mem b) (omega arith) ∙ rw own refl,
      with_text-Holds cs (p + 1) (λ b. if b == p then c else mem b),
    )

cpio_walk_lem_example :
    (cpio_cat 2 nothing_after disk (b'a' ∷ []) 0 ≡ some (some (b'h' ∷ b'i' ∷ [])))
    × (cpio_get_file_size 2 nothing_after disk (b'a' ∷ []) 0 ≡ some 2)
    × (cpio_list 2 nothing_after disk 0 ≡ some (b'a' ∷ b'\r' ∷ b'\n' ∷ []))
unfolding puts
cpio_walk_lem_example =
    cpio_walk_lem nothing_after disk (b'a' ∷ []) (file trailer []) files 0 refl last-IsWritten refl
      (file-IsWritten, refl, tt) refl (with_text-Holds (archive (file trailer []) files) 0 (λ a. 0))
