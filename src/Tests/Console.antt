-- ===== src/Tests/Console.antt =====
-- The mailbox of src/mailbox.c and the shell of src/shell.c.
use nycu_osc.Prelude.{true}
use nycu_osc.Prelude.Store.{update}
use nycu_osc.Mailbox.{answering, request_failed, request_succeed}
use nycu_osc.Prelude.{
  ◌+◌, ◌/◌, ◌%◌, ◌^◌, ◌≡◌, refl, false, not, none, some, [], ◌∷◌, ◌==◌, leb, if◌then◌else◌, length,
  arith,
}
use nycu_osc.CString.{Text}
use nycu_osc.Prelude.Store.{update}
use nycu_osc.Mailbox.{Words, Device, mailbox_call, mailbox_call_lem}
use nycu_osc.Shell.{Command, max_args, parse_cmd}
use nycu_osc.Shell.Words.{line_of, first}
use nycu_osc.Shell.Commands.{
  set_timeout, timeout_name, command_action, too_many_arguments, shell_round, shell_round_lem,
  reads_null,
}

-- a device that is ready at once, gives the word back and sets bit 31 of word 1
abbrev echoing : Device
echoing w m = (w, update m 1 (2 ^ 31))

abbrev no_words : Words
no_words i = 0

mailbox_call_lem_example :
    let r = echoing (4096 + 8) no_words in
    (mailbox_call echoing (0 ∷ 0 ∷ []) 4096 8 no_words
      ≡ some (if 4096 + 8 == r.0 then not (r.1 1 / 2 ^ 31 % 2 == 0) else false, r.1))
    × (mailbox_call (answering request_failed) (0 ∷ 0 ∷ []) 4096 8 no_words
        ≡ some (true, update no_words 1 request_failed))
    × (mailbox_call (answering request_succeed) (0 ∷ 0 ∷ []) 4096 8 no_words
        ≡ some (true, update no_words 1 request_succeed))
mailbox_call_lem_example =
    mailbox_call_lem echoing (0 ∷ 0 ∷ []) 4096 8 no_words (omega arith) (omega arith) (omega arith)
      (refl, refl)

abbrev no_command : Command
no_command = record { name = none; args = [] }

abbrev hi : Text
hi = b'h' ∷ b'i' ∷ []

-- an empty line is a command without a name, whose comparison reads at the address 0
shell_empty : shell_round [] none no_command ≡ some (reads_null, no_command)
unfolding shell_round parse_cmd nycu_osc.CString.strtok
shell_empty = refl

-- "setTimeout hi 5"
shell_timeout : command_action timeout_name (hi ∷ (b'5' ∷ []) ∷ []) ≡ set_timeout hi 5
unfolding command_action nycu_osc.CString.strcmp nycu_osc.Utils.atoi nycu_osc.Utils.atoi_loop
shell_timeout = refl

shell_round_lem_example :
    shell_round (line_of (timeout_name ∷ hi ∷ (b'5' ∷ []) ∷ [])) none no_command
    ≡ some (
      if leb (length (hi ∷ (b'5' ∷ []) ∷ [])) max_args
          then command_action timeout_name (hi ∷ (b'5' ∷ []) ∷ [])
          else too_many_arguments,
      record { name = some timeout_name; args = first max_args (hi ∷ (b'5' ∷ []) ∷ []) },
    )
shell_round_lem_example =
    shell_round_lem timeout_name (hi ∷ (b'5' ∷ []) ∷ []) none no_command
      ((refl, refl), ((refl, refl), ((refl, refl), refl))) (omega arith)
