-- ===== src/Signal.antt =====
-- The pending signals of src/signal.c, up to the switch into a handler of the program.
pub mod Mask
pub mod Deliver
use Prim.Native.Nat.{bit_and}
use nycu_osc.Prelude.{
  ℕ, zero, suc, ◌+◌, ◌-◌, ◌^◌, Bool, ◌||◌, not, List, [], ◌∷◌, ◌++◌, ◌==◌, leb, if◌then◌else◌,
}

abbrev pub sig_num : ℕ
sig_num = 32

-- The signals of a task: the mask, the handlers by their addresses with 0 for NULL, those that a
-- default handler has come back for, and whether the ready queue is empty, where `_exit` comes back.
-- The two defaults are addresses of the kernel.
pub record Signals : Type 0 where
  pub pending_sig : ℕ
  pub sig_handlers : ℕ → ℕ
  pub default_handler : ℕ
  pub default_sigkill_handler : ℕ
  pub ran : List ℕ
  pub none_ready : Bool

-- how the handling of a signal goes on: back in the kernel, by the end of the task, or in a handler
pub data Handled : Type 0 where
  handled : Signals → Handled
  exited : Signals → Handled
  in_handler : ℕ → Signals → Handled

-- `handle_signal`
unfoldable pub handle_signal : ℕ → Signals → Handled
handle_signal sig s =
    let handler = s.sig_handlers sig in
    if leb sig_num sig || handler == 0
    then handled s
    else if handler == s.default_handler
    then handled (record s { ran = s.ran ++ (sig ∷ []) })
    else if handler == s.default_sigkill_handler
    then if s.none_ready then handled (record s { ran = s.ran ++ (sig ∷ []) }) else exited s
    else in_handler handler s

-- `task->pending_sig & (1 << sig)`
abbrev pub is_pending : ℕ → ℕ → Bool
is_pending sig mask = not (bit_and mask (2 ^ sig) == 0)

-- `task->pending_sig &= ~(1 << sig)`
abbrev pub clear_pending : ℕ → Signals → Signals
clear_pending sig s = record s { pending_sig = bit_and s.pending_sig (2 ^ 32 - 1 - 2 ^ sig) }

-- one round of the loop
unfoldable pub check_signal : ℕ → Signals → Handled
unfolding handle_signal
check_signal sig s =
    if is_pending sig s.pending_sig then handle_signal sig (clear_pending sig s) else handled s

-- the loop over the signals from `sig` on, by the rounds left
unfoldable pub check_signals : ℕ → ℕ → Signals → Handled
unfolding check_signal
check_signals zero sig s = handled s
check_signals (suc n) sig s = elim (check_signal sig s) [
  | handled s₁ ↦ check_signals n (sig + 1) s₁
  | exited s₁ ↦ exited s₁
  | in_handler handler s₁ ↦ in_handler handler s₁
]

-- `check_pending_signals`
unfoldable pub check_pending_signals : Signals → Handled
unfolding check_signals
check_pending_signals s = if s.pending_sig == 0 then handled s else check_signals sig_num 0 s
