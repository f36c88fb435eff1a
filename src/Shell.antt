-- ===== src/Shell.antt =====
-- The command line of src/shell.c: `parse_cmd` over `strtok`.
pub mod Words
pub mod Commands
use nycu_osc.Prelude.{
  ℕ, zero, suc, ◌+◌, ◌≡◌, ◌≤◌, ◌<◌, refl, Bool, true, false, Option, none, some, List, [], ◌∷◌,
  ◌++◌, ◌==◌, leb, if◌then◌else◌, length, arith,
}
use nycu_osc.CString.{Text, strtok}

abbrev pub max_args : ℕ
max_args = 8

-- `struct Command`: `argc` is the length of `args`
pub record Command : Type 0 where
  pub name : Option Text
  pub args : List Text

abbrev pub snoc : List Text → Text → List Text
snoc ts t = ts ++ (t ∷ [])

-- the loop of `parse_cmd` with the pointer of `strtok`, in a number of rounds: the code and the arguments
unfoldable pub parse_loop : ℕ → List Text → Option Text → ℕ × List Text
parse_loop zero args p = (0, args)
parse_loop (suc f) args p =
    let (arg, p') = strtok none b' ' p in
    elim arg [
      | none ↦ (0, args)
      | some a ↦
          let more = parse_loop f (snoc args a) p' in
          if leb max_args (length args) then (2, args) else more
    ]

-- `parse_cmd`: the code and the command, which stays `cmd` where the text is NULL; `p` is the pointer
-- that `strtok` kept. Nine rounds are enough, since the tenth word ends the loop.
unfoldable pub parse_cmd : Option Text → Option Text → Command → ℕ × Command
unfolding parse_loop
parse_cmd none p cmd = (1, cmd)
parse_cmd (some str) p cmd =
    let (name, p₁) = strtok (some str) b' ' p in
    let (code, args) = parse_loop 9 [] p₁ in (code, record { name = name; args = args })
