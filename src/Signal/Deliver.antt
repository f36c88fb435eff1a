-- ===== src/Signal/Deliver.antt =====
-- The order in which `check_pending_signals` of src/signal.c handles the signals of a mask.
use native.Mathlib.Nat.{pow-suc}
use nycu_osc.Prelude.{
  ℕ, zero, suc, ◌+◌, ◌*◌, ◌/◌, ◌%◌, ◌^◌, ◌<◌, ◌≡◌, refl, sym, ap, ◌∙◌, Bool, true, false, List, [],
  ◌∷◌, ◌==◌, if◌then◌else◌, arith, Bool-cases, inl, inr,
}
use mathlib.Core.Path.{subst}
use nycu_osc.Signal.Mask.{
  signals_from, mask_of, two_pow_next, even_shift, odd_shift, mask_of-signals_from, is_pending-low,
  clear_pending-low,
}
use nycu_osc.Signal.{
  sig_num, Signals, Handled, handled, exited, in_handler, handle_signal, is_pending, clear_pending,
  check_signal, check_signals, check_pending_signals,
}

-- The signals one after the other, each with those behind it still pending, until one does not
-- come back.
abbrev pub deliver : List ℕ → Signals → Handled
deliver [] s = handled s
deliver (sig ∷ rest) s = elim (handle_signal sig (record s { pending_sig = mask_of rest })) [
  | handled s₁ ↦ deliver rest s₁
  | exited s₁ ↦ exited s₁
  | in_handler handler s₁ ↦ in_handler handler s₁
]

-- how the loop goes on behind the handling of a signal
and_then : (Signals → Handled) → Handled → Handled
and_then next (handled s) = next s
and_then next (exited s) = exited s
and_then next (in_handler handler s) = in_handler handler s

and_then_same :
    (f g : Signals → Handled) (h : Handled)
    → ((s : Signals) → h ≡ handled s → f s ≡ g s)
    → and_then f h ≡ and_then g h
unfolding and_then
and_then_same f g (handled s) e = e s refl
and_then_same f g (exited s) e = refl
and_then_same f g (in_handler handler s) e = refl

-- whatever comes back has the same signals pending
abbrev mask_after : ℕ → Handled → ℕ
mask_after d (handled s) = s.pending_sig
mask_after d (exited s) = d
mask_after d (in_handler handler s) = d

handle_signal-mask_after :
    (sig : ℕ) (s : Signals) → mask_after s.pending_sig (handle_signal sig s) ≡ s.pending_sig
unfolding handle_signal
handle_signal-mask_after sig s = ground arith

check_signals-and_then :
    (n sig : ℕ) (s : Signals)
    → check_signals (suc n) sig s ≡ and_then (check_signals n (sig + 1)) (check_signal sig s)
unfolding check_signals and_then check_signal
check_signals-and_then n sig s = refl

deliver-and_then :
    (sig : ℕ) (rest : List ℕ) (s : Signals)
    → deliver (sig ∷ rest) s
      ≡ and_then (deliver rest) (handle_signal sig (record s { pending_sig = mask_of rest }))
unfolding and_then
deliver-and_then sig rest s = refl

-- what is left of the mask in front of the bit of `sig`
abbrev Left : ℕ → ℕ → Signals → Type 0
Left sig q s = (s.pending_sig ≡ q * 2 ^ sig) × (q * 2 ^ sig < 2 ^ 32)

check_signal_low :
    (sig q : ℕ) (s : Signals)
    → Left sig q s
    → sig < 32
    → check_signal sig s ≡ (
        if q % 2 == 0
        then handled s
        else handle_signal sig (record s { pending_sig = q / 2 * 2 ^ (sig + 1) }))
unfolding check_signal
check_signal_low sig q s (e, h) k =
    ap (λ (m : ℕ). if is_pending sig m then handle_signal sig (clear_pending sig s) else handled s)
      e
    ∙ ap (λ (b : Bool). if b then handle_signal sig (clear_pending sig s) else handled s)
        (is_pending-low sig q)
    ∙ (elim (Bool-cases (q % 2 == 0)) [
      | inl z ↦ rw z refl
      | inr o ↦ rw o (ap (handle_signal sig) (clear_pending-low sig q s e h k o))
    ])

module _ (sig q : ℕ) where
  even-Left : (s : Signals) → (q % 2 == 0) ≡ true → Left sig q s → Left (sig + 1) (q / 2) s
  even-Left s z (e, h) =
      let same : q / 2 * 2 ^ (sig + 1) ≡ q * 2 ^ sig =
        ap (λ (t : ℕ). q / 2 * t) (two_pow_next sig) ∙ even_shift q (2 ^ sig) z in
      (e ∙ sym same, omega (arith, same, h))

  odd-Left :
      (s : Signals)
      → (q % 2 == 0) ≡ false
      → q * 2 ^ sig < 2 ^ 32
      → s.pending_sig ≡ q / 2 * 2 ^ (sig + 1)
      → Left (sig + 1) (q / 2) s
  odd-Left s o h e =
      let less = ap (λ (t : ℕ). 2 ^ sig + q / 2 * t) (two_pow_next sig) ∙ odd_shift q (2 ^ sig) o in
      (e, omega (arith, less, h))

check_signals-deliver :
    (n sig q : ℕ) (s : Signals)
    → Left sig q s
    → q < 2 ^ n
    → sig + n ≡ 32
    → check_signals n sig s ≡ deliver (signals_from n sig q) s
unfolding check_signals and_then
check_signals-deliver zero sig q s left h k = refl
check_signals-deliver (suc n) sig q s left h k =
    let less : q / 2 < 2 ^ n = omega (arith, pow-suc 2 n) in
    let next = sig + 1 in
    let rest = signals_from n next (q / 2) in
    let cleared = record s { pending_sig = q / 2 * 2 ^ next } in
    check_signals-and_then n sig s
    ∙ ap (and_then (check_signals n next)) (check_signal_low sig q s left (omega arith))
    ∙ (elim (Bool-cases (q % 2 == 0)) [
      | inl z ↦
          rw z
            (check_signals-deliver n next (q / 2) s (even-Left sig q s z left) less (omega arith))
      | inr o ↦ rw o (
          and_then_same (check_signals n next) (deliver rest) (handle_signal sig cleared) (λ s₁ e.
            check_signals-deliver n next (q / 2) s₁
              (odd-Left sig q s₁ o left.1
                (ap (mask_after (q / 2 * 2 ^ next)) (sym e) ∙ handle_signal-mask_after sig cleared))
              less (omega arith))
          ∙ ap
              (λ (m : ℕ).
                and_then (deliver rest) (handle_signal sig (record s { pending_sig = m })))
              (sym (mask_of-signals_from n next (q / 2) less))
          ∙ sym (deliver-and_then sig rest s))
    ])

signals_from-zero : (n sig : ℕ) → signals_from n sig 0 ≡ []
signals_from-zero zero sig = refl
signals_from-zero (suc n) sig = signals_from-zero n (sig + 1)

check_all :
    (n m : ℕ) (s : Signals)
    → n ≡ 32
    → s.pending_sig ≡ m
    → m < 2 ^ n
    → (if m == 0 then handled s else check_signals n 0 s) ≡ deliver (signals_from n 0 m) s
check_all n m s e at h = elim (Bool-cases (m == 0)) [
  | inl z ↦
      let zero_mask : m ≡ 0 = ground arith in
      rw z (sym (ap (λ l. deliver l s) (ap (signals_from n 0) zero_mask ∙ signals_from-zero n 0)))
  | inr o ↦
      let low : m * 2 ^ 0 ≡ m = omega arith in
      rw o (
        check_signals-deliver n 0 m s
          (at ∙ sym low, subst (λ (t : ℕ). t < 2 ^ 32) (sym low) (subst (λ (t : ℕ). m < 2 ^ t) e h))
          h (omega arith))
]

-- Where the mask has 32 bits, `check_pending_signals` handles the signals of its bits one after the
-- other, each once and in ascending order, with those behind it still pending. It stops at the first
-- one that ends the task, where `_exit` does not come back for want of a ready task, or that goes to
-- a handler of the program.
pub check_pending_signals_lem :
    (s : Signals)
    → s.pending_sig < 2 ^ 32
    → check_pending_signals s ≡ deliver (signals_from sig_num 0 s.pending_sig) s
unfolding check_pending_signals
check_pending_signals_lem s h = check_all sig_num s.pending_sig s refl refl h
