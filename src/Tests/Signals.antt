-- ===== src/Tests/Signals.antt =====
-- Pending signals of src/signal.c.
use nycu_osc.Prelude.{true, false}
use nycu_osc.Prelude.{◌≡◌, refl, [], ◌∷◌, ◌==◌, if◌then◌else◌, arith}
use nycu_osc.Signal.{Signals, handled, check_pending_signals, sig_num}
use nycu_osc.Signal.Deliver.{deliver, check_pending_signals_lem}
use nycu_osc.Signal.Mask.{signals_from}

-- signals 1, 3 and 9 are pending; 9 ends the task
abbrev three_signals : Signals
three_signals = record {
  pending_sig = 522;
  sig_handlers = λ sig. if sig == 9 then 200 else 100;
  default_handler = 100;
  default_sigkill_handler = 200;
  ran = [];
  none_ready = false;
}

check_three :
    check_pending_signals (record three_signals { pending_sig = 10 })
    ≡ handled (record three_signals { pending_sig = 0; ran = 1 ∷ 3 ∷ [] })
unfolding check_pending_signals
check_three = refl

-- With no ready task the default of signal 3 comes back, and 9 is handled too.
check_kill_alone :
    check_pending_signals (record three_signals {
      sig_handlers = λ sig. if sig == 3 then 200 else 100;
      none_ready = true;
    })
    ≡ handled (record three_signals {
      sig_handlers = λ sig. if sig == 3 then 200 else 100;
      none_ready = true;
      pending_sig = 0;
      ran = 1 ∷ 3 ∷ 9 ∷ [];
    })
unfolding check_pending_signals
check_kill_alone = refl

check_pending_signals_lem_example :
    check_pending_signals three_signals ≡ deliver (signals_from sig_num 0 522) three_signals
check_pending_signals_lem_example = check_pending_signals_lem three_signals (omega arith)
