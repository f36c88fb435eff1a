-- ===== src/Shell/Commands.antt =====
-- One round of `shell` of src/shell.c: a command line, and what is done for it.
use nycu_osc.Prelude.{
  ℕ, ◌≤◌, ◌<◌, ◌≡◌, refl, ap, ◌∙◌, Bool, true, false, Option, none, some, List, [], ◌∷◌, ◌==◌, ltb,
  leb, if◌then◌else◌, length, get_elem?, arith, zero, suc, Bool-cases, inl, inr,
}
use nycu_osc.Prelude.Int.{pos, negsuc}
use nycu_osc.CString.{Text, strcmp}
use nycu_osc.Utils.{atoi}
use nycu_osc.Shell.{Command, max_args, parse_cmd}
use nycu_osc.Shell.Words.{AllWords, line_of, first, code_of, parse_cmd_lem}

abbrev pub max_cmd_length : ℕ
max_cmd_length = 64

-- What `shell` calls for a command. An argument is `none` where the command line has none and the
-- entry of the array is what an earlier command left; `reads_null` is a command with no name at all.
pub data Action : Type 0 where
  command_is_null : Action
  too_many_arguments : Action
  reads_null : Action
  cmd_help_msg : Action
  hello : Action
  cmd_mbox : Action
  cpio_cat : Option Text → Action
  cpio_list : Action
  exec : Option Text → Action
  test_uart_async : Action
  test_alloc : Action
  timeout_usage : Action
  set_timeout : Text → ℕ → Action
  mem_alloc : Action
  reset : ℕ → Action
  not_found : Text → Action

-- `strcmp (cmd_name, …) == 0`
abbrev pub same_text : Text → Text → Bool
same_text s t = elim (strcmp s t) [ pos n ↦ n == 0 | negsuc n ↦ false ]

-- `setTimeout`; the seconds are the bits of an `int`
unfoldable pub timeout_action : List Text → Action
timeout_action [] = timeout_usage
timeout_action (msg ∷ []) = timeout_usage
timeout_action (msg ∷ sec ∷ []) = set_timeout msg (atoi sec)
timeout_action (msg ∷ sec ∷ a ∷ args) = timeout_usage

-- the names of the commands
abbrev pub help_name : Text
help_name = b'h' ∷ b'e' ∷ b'l' ∷ b'p' ∷ []

abbrev pub hello_name : Text
hello_name = b'h' ∷ b'e' ∷ b'l' ∷ b'l' ∷ b'o' ∷ []

abbrev pub mailbox_name : Text
mailbox_name = b'm' ∷ b'a' ∷ b'i' ∷ b'l' ∷ b'b' ∷ b'o' ∷ b'x' ∷ []

abbrev pub cat_name : Text
cat_name = b'c' ∷ b'a' ∷ b't' ∷ []

abbrev pub ls_name : Text
ls_name = b'l' ∷ b's' ∷ []

abbrev pub exec_name : Text
exec_name = b'e' ∷ b'x' ∷ b'e' ∷ b'c' ∷ []

abbrev pub test_async_name : Text
test_async_name = b't' ∷ b'e' ∷ b's' ∷ b't' ∷ b'_' ∷ b'a' ∷ b's' ∷ b'y' ∷ b'n' ∷ b'c' ∷ []

abbrev pub test_alloc_name : Text
test_alloc_name = b't' ∷ b'e' ∷ b's' ∷ b't' ∷ b'_' ∷ b'a' ∷ b'l' ∷ b'l' ∷ b'o' ∷ b'c' ∷ []

abbrev pub timeout_name : Text
timeout_name = b's' ∷ b'e' ∷ b't' ∷ b'T' ∷ b'i' ∷ b'm' ∷ b'e' ∷ b'o' ∷ b'u' ∷ b't' ∷ []

abbrev pub mem_alloc_name : Text
mem_alloc_name = b'm' ∷ b'e' ∷ b'm' ∷ b'A' ∷ b'l' ∷ b'l' ∷ b'o' ∷ b'c' ∷ []

abbrev pub reboot_name : Text
reboot_name = b'r' ∷ b'e' ∷ b'b' ∷ b'o' ∷ b'o' ∷ b't' ∷ []

-- the chain of comparisons
unfoldable pub command_action : Text → List Text → Action
unfolding timeout_action
command_action name args =
    if same_text name help_name
    then cmd_help_msg
    else if same_text name hello_name
    then hello
    else if same_text name mailbox_name
    then cmd_mbox
    else if same_text name cat_name
    then cpio_cat (get_elem? args 0)
    else if same_text name ls_name
    then cpio_list
    else if same_text name exec_name
    then exec (get_elem? args 0)
    else if same_text name test_async_name
    then test_uart_async
    else if same_text name test_alloc_name
    then test_alloc
    else if same_text name timeout_name
    then timeout_action args
    else if same_text name mem_alloc_name
    then mem_alloc
    else if same_text name reboot_name
    then reset 100
    else not_found name

-- by what `parse_cmd` returns
unfoldable pub parsed_action : ℕ × Command → Action
unfolding command_action
parsed_action (code, cmd) =
    if code == 1
    then command_is_null
    else if code == 2
    then too_many_arguments
    else elim cmd.name [ none ↦ reads_null | some name ↦ command_action name cmd.args ]

-- One round of `shell` with the line that `uart_gets` reads: the action, and the command as it is left;
-- `none` where the line does not fit into `raw_cmd`, which `uart_gets` then writes past.
unfoldable pub shell_round : Text → Option Text → Command → Option (Action × Command)
unfolding parsed_action
shell_round line p cmd =
    let parsed = parse_cmd (some line) p cmd in
    if ltb (length line) max_cmd_length then some (parsed_action parsed, parsed.1) else none

first_all : (n : ℕ) (ws : List Text) → length ws ≤ n → first n ws ≡ ws
first_all zero [] h = refl
first_all zero (w ∷ ws) h = absurd (omega (arith, h))
first_all (suc n) [] h = refl
first_all (suc n) (w ∷ ws) h = ap (λ r. w ∷ r) (first_all n ws (omega arith))

parsed_action-code_of :
    (name : Text) (ws : List Text)
    → parsed_action (code_of (length ws), record { name = some name; args = first max_args ws })
      ≡ (if leb (length ws) max_args then command_action name ws else too_many_arguments)
unfolding parsed_action
parsed_action-code_of name ws = elim (Bool-cases (leb (length ws) max_args)) [
  | inl few ↦
      let all = first_all max_args ws (ground (arith, few)) in rw few (ap (command_action name) all)
  | inr many ↦ rw many refl
]

-- Where a line is words with a space between them, of fewer than 64 bytes in all: the first word
-- decides what `shell` does, with the others as arguments if there are at most eight, and nothing is
-- run if there are more.
pub shell_round_lem :
    (name : Text) (ws : List Text) (p : Option Text) (cmd : Command)
    → AllWords (name ∷ ws)
    → length (line_of (name ∷ ws)) < max_cmd_length
    → shell_round (line_of (name ∷ ws)) p cmd
      ≡ some (
        if leb (length ws) max_args then command_action name ws else too_many_arguments,
        record { name = some name; args = first max_args ws },
      )
unfolding shell_round
shell_round_lem name ws p cmd words fits =
    let fit : ltb (length (line_of (name ∷ ws))) max_cmd_length ≡ true = ground (arith, fits) in
    rw fit (
      ap (λ (r : ℕ × Command). some (parsed_action r, r.1)) (parse_cmd_lem name ws p cmd words)
      ∙ ap (λ (a : Action). some (a, record { name = some name; args = first max_args ws }))
          (parsed_action-code_of name ws))
