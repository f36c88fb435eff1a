-- ===== src/CString.antt =====
-- The string functions of src/string.c. A `char *` to a string is the list of its bytes; the end
-- of the list reads as NUL, and a byte 0 before it ends the string too.
pub mod Strcmp
pub mod Memory
use nycu_osc.Prelude.{
  ℕ, zero, suc, ◌+◌, ◌-◌, Bool, true, ◌&&◌, not, Option, none, some, List, [], ◌∷◌, ◌==◌,
  if◌then◌else◌,
}
use nycu_osc.Prelude.Int.{ℤ, pos, sub_ℕ}

abbrev pub Text : Type 0
Text = List ℕ

-- the bytes before the first NUL
abbrev pub cstr : Text → Text
cstr [] = []
cstr (c ∷ cs) = if c == 0 then [] else c ∷ cstr cs

-- `char` is unsigned on this target.
unfoldable pub strcmp : Text → Text → ℤ
strcmp [] [] = pos 0
strcmp [] (d ∷ ds) = sub_ℕ 0 d
strcmp (c ∷ cs) [] = sub_ℕ c 0
strcmp (c ∷ cs) (d ∷ ds) =
    if not (c == 0) && (not (d == 0) && c == d) then strcmp cs ds else sub_ℕ c d

-- the loop of `strlen`
strlen_from : ℕ → Text → ℕ
strlen_from len [] = len
strlen_from len (c ∷ cs) = if c == 0 then len else strlen_from (len + 1) cs

unfoldable pub strlen : Text → ℕ
unfolding strlen_from
strlen s = strlen_from 0 s

-- `dup[i] = s[i]` for `i < len`
copy_bytes : ℕ → Text → Text
copy_bytes zero s = []
copy_bytes (suc n) [] = 0 ∷ copy_bytes n []
copy_bytes (suc n) (c ∷ cs) = c ∷ copy_bytes n cs

-- `got` says whether `alloc` returned memory.
unfoldable pub strdup : Bool → Text → Option Text
unfolding copy_bytes
strdup got s = if got then some (copy_bytes (strlen s) s) else none

-- the scan of `strtok`: the token, and the text that the static pointer is left at
unfoldable pub scan_token : ℕ → Text → Text × Text
scan_token delim [] = ([], [])
scan_token delim (c ∷ cs) =
    let (t, r) = scan_token delim cs in
    if c == delim then ([], cs) else if c == 0 then ([], c ∷ cs) else (c ∷ t, r)

-- whether a pointer is NULL or at a NUL
abbrev pub at_end : Option Text → Bool
at_end none = true
at_end (some []) = true
at_end (some (c ∷ cs)) = c == 0

abbrev pub text_or_nil : Option Text → Text
text_or_nil none = []
text_or_nil (some s) = s

-- `strtok` with its static pointer: the token, and the pointer after the call
unfoldable pub strtok : Option Text → ℕ → Option Text → Option Text × Option Text
strtok str delim p =
    let p' : Option Text = elim str [ none ↦ p | some s ↦ some s ] in
    if at_end p'
    then (none, p')
    else (let (t, r) = scan_token delim (text_or_nil p') in (some t, some r))
