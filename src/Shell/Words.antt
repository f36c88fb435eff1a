-- ===== src/Shell/Words.antt =====
-- The words that `parse_cmd` of src/shell.c finds in a command line.
use nycu_osc.Prelude.{
  ℕ, zero, suc, ◌+◌, ◌-◌, ◌≤◌, ◌<◌, ◌≡◌, refl, ap, ◌∙◌, inl, inr, true, false, Option, none, some,
  List, [], ◌∷◌, ◌++◌, ◌==◌, leb, if◌then◌else◌, length, length-append, arith, Bool-cases,
}
use nycu_osc.Prelude.Store.{◌∉◌}
use nycu_osc.CString.{Text, scan_token, at_end, strtok}
use nycu_osc.Shell.{max_args, Command, snoc, parse_loop, parse_cmd}

-- a text that is not empty and has neither a space nor a NUL
abbrev pub IsWord : Text → Type 0
IsWord [] = false ≡ true
IsWord (c ∷ cs) = (b' ' ∉ (c ∷ cs)) × (0 ∉ (c ∷ cs))

abbrev pub AllWords : List Text → Type 0
AllWords [] = true ≡ true
AllWords (w ∷ ws) = IsWord w × AllWords ws

-- the words with a space between them
abbrev pub line_of : List Text → Text
line_of [] = []
line_of (w ∷ []) = w
line_of (w ∷ v ∷ ws) = w ++ (b' ' ∷ line_of (v ∷ ws))

-- the first words of a list
abbrev pub first : ℕ → List Text → List Text
first zero ws = []
first (suc n) [] = []
first (suc n) (w ∷ ws) = w ∷ first n ws

scan_token-word : (w r : Text) → b' ' ∉ w → 0 ∉ w → scan_token b' ' (w ++ (b' ' ∷ r)) ≡ (w, r)
unfolding scan_token
scan_token-word [] r h z = refl
scan_token-word (c ∷ w) r h z =
    let space : (c == b' ') ≡ false = ground (arith, h) in
    let nul : (c == 0) ≡ false = ground (arith, z) in
    let ih = scan_token-word w r (ground (arith, h)) (ground (arith, z)) in rw (space, nul, ih) refl

scan_token-last : (w : Text) → b' ' ∉ w → 0 ∉ w → scan_token b' ' w ≡ (w, [])
unfolding scan_token
scan_token-last [] h z = refl
scan_token-last (c ∷ w) h z =
    let space : (c == b' ') ≡ false = ground (arith, h) in
    let nul : (c == 0) ≡ false = ground (arith, z) in
    let ih = scan_token-last w (ground (arith, h)) (ground (arith, z)) in rw (space, nul, ih) refl

scan_token-line_of :
    (w : Text) (ws : List Text)
    → IsWord w
    → (at_end (some (line_of (w ∷ ws))) ≡ false)
      × (scan_token b' ' (line_of (w ∷ ws)) ≡ (w, line_of ws))
scan_token-line_of [] ws h = cc
scan_token-line_of (c ∷ w) [] (h, z) = (ground (arith, z), scan_token-last (c ∷ w) h z)
scan_token-line_of (c ∷ w) (v ∷ ws) (h, z) =
    (ground (arith, z), scan_token-word (c ∷ w) (line_of (v ∷ ws)) h z)

-- A call of `strtok` on a line takes its first word.
strtok-line_of :
    (w : Text) (ws : List Text)
    → IsWord w
    → strtok none b' ' (some (line_of (w ∷ ws))) ≡ (some w, some (line_of ws))
unfolding strtok
strtok-line_of w ws h = let (more, scan) = scan_token-line_of w ws h in rw (more, scan) refl

strtok_end : strtok none b' ' (some []) ≡ (none, some [])
unfolding strtok
strtok_end = refl

append_nil : (ts : List Text) → ts ++ [] ≡ ts
append_nil [] = refl
append_nil (t ∷ ts) = ap (λ r. t ∷ r) (append_nil ts)

append_assoc : (ts us vs : List Text) → (ts ++ us) ++ vs ≡ ts ++ (us ++ vs)
append_assoc [] us vs = refl
append_assoc (t ∷ ts) us vs = ap (λ r. t ∷ r) (append_assoc ts us vs)

-- the code by the number of arguments
abbrev pub code_of : ℕ → ℕ
code_of n = if leb n max_args then 0 else 2

-- A text that is passed is where `strtok` goes on.
strtok_first : (t : Text) (p : Option Text) → strtok (some t) b' ' p ≡ strtok none b' ' (some t)
unfolding strtok
strtok_first t p = refl

-- the command that `parse_cmd` fills, from its two steps
abbrev pub filled : Option Text → ℕ × List Text → ℕ × Command
filled name (code, args) = (code, record { name = name; args = args })

parse_cmd_steps :
    (t : Text) (p : Option Text) (cmd : Command) (name : Text) (p₁ : Option Text)
    → strtok (some t) b' ' p ≡ (some name, p₁)
    → parse_cmd (some t) p cmd ≡ filled (some name) (parse_loop 9 [] p₁)
unfolding parse_cmd
parse_cmd_steps t p cmd name p₁ e = ap (λ r. filled r.0 (parse_loop 9 [] r.1)) e

parse_loop_word :
    (f : ℕ) (args : List Text) (p p' : Option Text) (w : Text)
    → strtok none b' ' p ≡ (some w, p')
    → parse_loop (suc f) args p
      ≡ (if leb max_args (length args) then (2, args) else parse_loop f (snoc args w) p')
unfolding parse_loop
parse_loop_word f args p p' w e =
    rw (e, parse_loop)
      (ap (λ q. if leb max_args (length args) then (2, args) else parse_loop f (snoc args w) q)
        (ap (λ r. r.1) e))

parse_loop-line_of :
    (f : ℕ) (args vs : List Text)
    → f + length args ≡ 9
    → length args ≤ 8
    → AllWords vs
    → parse_loop f args (some (line_of vs))
      ≡ (code_of (length args + length vs), args ++ first (8 - length args) vs)
unfolding parse_loop
parse_loop-line_of zero args vs e h words = absurd (omega (arith, e, h))
parse_loop-line_of (suc f) args [] e h words =
    let fits : leb (length args + 0) max_args ≡ true = ground (arith, h) in
    let none_left : first (8 - length args) [] ≡ [] = first_nil (8 - length args) in
    rw (parse_loop, strtok_end, fits, none_left, append_nil args) refl
  where
    first_nil : (n : ℕ) → first n [] ≡ []
    first_nil zero = refl
    first_nil (suc n) = refl
parse_loop-line_of (suc f) args (v ∷ vs) e h (word, words) =
    elim (Bool-cases (leb max_args (length args))) [
      | inl full ↦
          let n : length args ≡ 8 = ground (arith, full, h) in
          let code : leb (length args + suc (length vs)) max_args ≡ false = ground (arith, n) in
          let room : 8 - length args ≡ 0 = omega (arith, n) in
          parse_loop_word f args (some (line_of (v ∷ vs))) (some (line_of vs)) v
            (strtok-line_of v vs word)
          ∙ rw (full, code, room, append_nil args) refl
      | inr open_place ↦
          let n : length args < 8 = ground (arith, open_place) in
          let l : length (snoc args v) ≡ length args + 1 = length-append args (v ∷ []) in
          let room : 8 - length args ≡ suc (8 - length (snoc args v)) = omega (arith, n, l) in
          let ih =
            parse_loop-line_of f (snoc args v) vs (omega (arith, e, l)) (omega (arith, n, l))
              words in
          let same : length (snoc args v) + length vs ≡ length args + suc (length vs) =
            omega (arith, l) in
          parse_loop_word f args (some (line_of (v ∷ vs))) (some (line_of vs)) v
            (strtok-line_of v vs word)
          ∙ rw (open_place, room)
              (ih
                ∙ rw same (
                    ap (λ r. (code_of (length args + suc (length vs)), r))
                      (append_assoc args (v ∷ []) (first (8 - length (snoc args v)) vs))))
    ]

-- Where a line is words with a space between them, and `strtok` last stood anywhere: `parse_cmd` finds
-- the first word as the name and the first eight of the others as arguments, with code 0 if there
-- are at most eight and 2 if there are more.
pub parse_cmd_lem :
    (name : Text) (ws : List Text) (p : Option Text) (cmd : Command)
    → AllWords (name ∷ ws)
    → parse_cmd (some (line_of (name ∷ ws))) p cmd
      ≡ (code_of (length ws), record { name = some name; args = first max_args ws })
parse_cmd_lem name ws p cmd (word, words) =
    let taken = strtok_first (line_of (name ∷ ws)) p ∙ strtok-line_of name ws word in
    let args = parse_loop-line_of 9 [] ws refl (omega arith) words in
    let count : 0 + length ws ≡ length ws = omega arith in
    parse_cmd_steps (line_of (name ∷ ws)) p cmd name (some (line_of ws)) taken
    ∙ ap (filled (some name)) (args ∙ ap (λ n. (code_of n, first max_args ws)) count)
