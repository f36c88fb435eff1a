-- ===== src/Cpio.antt =====
-- The reader of the initial ram disk, src/cpio.c: walks over the headers of a `newc` archive in
-- memory. The arrays `magic` and `header_magic` have no NUL; `after` holds what lies behind each of
-- them. A walk is in a number of rounds; it is `none` where these run out.
pub mod Walk
pub mod Newc
pub mod Archive
use nycu_osc.Prelude.{
  ℕ, zero, suc, ◌+◌, ◌-◌, ◌%◌, ◌^◌, Bool, true, false, Option, none, some, List, [], ◌∷◌, ◌++◌,
  ◌==◌, if◌then◌else◌,
}
use nycu_osc.Prelude.Int.{ℤ, pos, ◌==ℤ◌}
use nycu_osc.CString.{Text, strcmp}
use nycu_osc.CString.Memory.{Mem, copy}
use nycu_osc.Utils.{hex_to_uint, align}
use nycu_osc.Uart.{puts}

-- `sizeof(struct cpio_newc_header)`
abbrev pub header_size : ℕ
header_size = 110

-- the `n` bytes at an address
abbrev pub text_at : ℕ → ℕ → Mem → Text
text_at zero p mem = []
text_at (suc n) p mem = mem p ∷ text_at n (p + 1) mem

pub record After : Type 0 where
  pub magic : Text
  pub header_magic : Text

-- `"070701"`
abbrev pub magic : Text
magic = b'0' ∷ b'7' ∷ b'0' ∷ b'7' ∷ b'0' ∷ b'1' ∷ []

-- `"TRAILER!!!"`
abbrev pub trailer : Text
trailer = b'T' ∷ b'R' ∷ b'A' ∷ b'I' ∷ b'L' ∷ b'E' ∷ b'R' ∷ b'!' ∷ b'!' ∷ b'!' ∷ []

abbrev pub equal : Text → Text → Bool
equal s t = strcmp s t ==ℤ pos 0

-- the test on the header's magic number
unfoldable pub is_header : After → Mem → ℕ → Bool
is_header after mem header =
    equal (magic ++ after.magic) (text_at 6 header mem ++ after.header_magic)

-- the fields `c_namesize` and `c_filesize`
unfoldable pub namesize : Mem → ℕ → ℕ
namesize mem header = hex_to_uint (text_at 8 (header + 94) mem)

unfoldable pub filesize : Mem → ℕ → ℕ
filesize mem header = hex_to_uint (text_at 8 (header + 54) mem)

-- `filename`, up to the bytes that were copied, behind which a NUL is read; the array has 256 bytes, and
-- what a longer name overwrites is not described
unfoldable pub filename : Mem → ℕ → Text
unfolding namesize
filename mem header = text_at (namesize mem header) (header + header_size) mem

-- the address of the file's bytes
unfoldable pub file_addr : Mem → ℕ → ℕ
unfolding namesize
file_addr mem header = header + align (header_size + namesize mem header) 4

-- the jump to the next header; the sizes are `unsigned int`
unfoldable pub next_header : Mem → ℕ → ℕ
unfolding namesize filesize
next_header mem header =
    let name = (align (header_size + namesize mem header) 4 + 2 ^ 32 - header_size) % 2 ^ 32 in
    header + header_size + name + align (filesize mem header) 4

-- how a search for a file ends
pub data Found : Type 0 where
  found_at : ℕ → Found
  no_such_file : Found
  bad_header : Found

-- the search that `cpio_cat`, `cpio_get_exec` and `cpio_get_file_size` share, from a header on
unfoldable pub find_file : ℕ → After → Mem → Text → ℕ → Option Found
unfolding is_header filename next_header
find_file zero after mem target header = none
find_file (suc f) after mem target header =
    let rest = find_file f after mem target (next_header mem header) in
    if is_header after mem header
    then if equal (filename mem header) trailer
      then some no_such_file
      else if equal (filename mem header) target
      then some (found_at header)
      else rest
    else some bad_header

-- a name on a line, before what the later rounds send
abbrev pub list_name : Text → Option (List ℕ) → Option (List ℕ)
list_name name none = none
list_name name (some sent) = some (puts name ++ (b'\r' ∷ b'\n' ∷ []) ++ sent)

-- `cpio_list`: the names that it sends
unfoldable pub cpio_list : ℕ → After → Mem → ℕ → Option (List ℕ)
unfolding is_header filename next_header
cpio_list zero after mem header = none
cpio_list (suc f) after mem header =
    let rest = cpio_list f after mem (next_header mem header) in
    if is_header after mem header
    then if equal (filename mem header) trailer
      then some []
      else list_name (filename mem header) rest
    else some []

-- `cpio_cat`: the bytes of the file that it sends before the line end, `none` without a file; its
-- messages are left out
unfoldable pub cat_found : Mem → Found → Option Text
unfolding filesize file_addr
cat_found mem (found_at header) = some (text_at (filesize mem header) (file_addr mem header) mem)
cat_found mem no_such_file = none
cat_found mem bad_header = none

unfoldable pub cpio_cat : ℕ → After → Mem → Text → ℕ → Option (Option Text)
unfolding find_file cat_found
cpio_cat f after mem target cpio_addr = elim (find_file f after mem target cpio_addr) [
  | none ↦ none
  | some r ↦ some (cat_found mem r)
]

-- `cpio_get_exec`: the address it returns and the memory; without a file it ends with no `return`
unfoldable pub exec_found : Mem → Option ℕ → Found → Option ℕ × Mem
unfolding filesize file_addr
exec_found mem none (found_at header) = (some (file_addr mem header), mem)
exec_found mem (some exec_addr) (found_at header) = (
  some (file_addr mem header),
  copy exec_addr mem (file_addr mem header) mem (filesize mem header),
)
exec_found mem exec_addr no_such_file = (none, mem)
exec_found mem exec_addr bad_header = (none, mem)

unfoldable pub cpio_get_exec : ℕ → After → Mem → Text → Option ℕ → ℕ → Option (Option ℕ × Mem)
unfolding find_file exec_found
cpio_get_exec f after mem target exec_addr cpio_addr =
    elim (find_file f after mem target cpio_addr) [
      | none ↦ none
      | some r ↦ some (exec_found mem exec_addr r)
    ]

-- `cpio_get_file_size`
unfoldable pub size_found : Mem → Found → ℕ
unfolding filesize
size_found mem (found_at header) = filesize mem header
size_found mem no_such_file = 0
size_found mem bad_header = 0

unfoldable pub cpio_get_file_size : ℕ → After → Mem → Text → ℕ → Option ℕ
unfolding find_file size_found
cpio_get_file_size f after mem target cpio_addr = elim (find_file f after mem target cpio_addr) [
  | none ↦ none
  | some r ↦ some (size_found mem r)
]
