-- ===== src/Timer/Handled.antt =====
-- The core timer interrupt of src/timer.c with the callbacks of that file.
use nycu_osc.Prelude.{
  ℕ, ◌+◌, ◌*◌, ◌/◌, ◌%◌, ◌^◌, ◌≤◌, ◌<◌, ◌≡◌, refl, sym, ap, ◌∙◌, Bool, true, false, Option, none,
  some, List, [], ◌∷◌, ◌==◌, ltb, leb, if◌then◌else◌, arith, Bool-cases, inl, inr,
}
use mathlib.Core.Path.{subst}
use nycu_osc.CString.{Text, cstr, strlen}
use nycu_osc.Timer.{
  TimerEntry, Timers, u64_mod, timer_msg_size, start_timer, first, insert_after, insert_timer,
  set_timer, add_timer, keep_schedule, reset_value, expire_loop, rearm, run_schedule,
  core_timer_handler,
}
use nycu_osc.Timer.Sorted.{
  IsSorted, Starts, due, calls, count, insert_timer-IsSorted, expire_loop_lem,
}
use nycu_osc.Timer.Callbacks.{Addresses, made, run_callback, print_uptime}

due-insert_after :
    (now : ℕ) (t : TimerEntry) (l : List TimerEntry)
    → now < t.expiration
    → due now (insert_after t l) ≡ due now l
unfolding insert_after
due-insert_after now t [] h =
    let later : leb t.expiration now ≡ false = ground arith in rw later refl
due-insert_after now t (x ∷ rest) h =
    let later : leb t.expiration now ≡ false = ground arith in
    let ih = due-insert_after now t rest h in
    elim (Bool-cases (ltb x.expiration t.expiration)) [
      | inl before ↦ rw (before, ih) refl
      | inr behind ↦ rw (behind, later) refl
    ]

due-insert_timer :
    (now : ℕ) (t : TimerEntry) (l : List TimerEntry)
    → now < t.expiration
    → due now (insert_timer t l).0 ≡ due now l
unfolding insert_timer
due-insert_timer now t [] h =
    let later : leb t.expiration now ≡ false = ground arith in rw later refl
due-insert_timer now t (x ∷ rest) h =
    let later : leb t.expiration now ≡ false = ground arith in
    elim (Bool-cases (leb t.expiration x.expiration)) [
      | inl front ↦ rw (front, later) refl
      | inr behind ↦ rw (behind, due-insert_after now t rest h) refl
    ]

-- `set_timer` writes the hardware timer only
set_timer_keeps :
    (now : ℕ) (s : Timers)
    → ((set_timer now s).timer_list ≡ s.timer_list) × ((set_timer now s).ran ≡ s.ran)
unfolding set_timer
set_timer_keeps now s = go (first s.timer_list)
  where
    go :
        (o : Option ℕ)
        → let r : Timers = elim o [
          | none ↦ s
          | some e ↦ record s { timer_value = some (reset_value e now) }
        ] in
          (r.timer_list ≡ s.timer_list) × (r.ran ≡ s.ran)
    go none = (refl, refl)
    go (some e) = (refl, refl)

maybe_set_keeps :
    (now : ℕ) (s : Timers) (b : Bool)
    → let s' = if b then set_timer now s else s in (s'.timer_list ≡ s.timer_list) × (s'.ran ≡ s.ran)
maybe_set_keeps now s true = set_timer_keeps now s
maybe_set_keeps now s false = (refl, refl)

-- A timer that is started expires later.
add_timer-Starts :
    (got : Option ℕ) (now clock tick callback : ℕ) (msg : Text) (s : Timers)
    → strlen msg < 64
    → now ≤ clock
    → 0 < tick
    → clock + tick < u64_mod
    → IsSorted s.timer_list
    → let s' = add_timer got clock callback msg tick s in
      IsSorted s'.timer_list × (due now s'.timer_list ≡ due now s.timer_list) × (s'.ran ≡ s.ran)
unfolding add_timer start_timer
add_timer-Starts none now clock tick callback msg s short h k fits sorted = (sorted, refl, refl)
add_timer-Starts (some address) now clock tick callback msg s short h k fits sorted =
    let room : ltb (strlen msg) timer_msg_size ≡ true = ground arith in
    let t : TimerEntry = record {
      address = address;
      prev = none;
      callback = callback;
      msg = cstr msg;
      expiration = (clock + tick) % u64_mod;
    } in
    let l = (insert_timer t s.timer_list).0 in
    let inserted = record s { timer_list = l; irq = false } in
    let later : now < (clock + tick) % u64_mod = omega arith in
    let (list, ran) = maybe_set_keeps clock inserted (insert_timer t s.timer_list).1 in
    rw room (
      subst IsSorted (sym list) (insert_timer-IsSorted t s.timer_list sorted),
      ap (due now) list ∙ due-insert_timer now t s.timer_list later,
      ran,
    )

-- The callbacks of the file start timers in the future.
run_callback-Starts :
    (got : ℕ → Option ℕ) (now freq : ℕ) (ticks : ℕ → ℕ) (a : Addresses)
    → strlen a.at_null < 64
    → 2 ^ 8 ≤ freq
    → ((n : ℕ) → (now ≤ ticks n) × (ticks n + 2 * freq < u64_mod))
    → Starts now (run_callback got ticks freq a)
unfolding run_callback keep_schedule print_uptime
run_callback-Starts got now freq ticks a short k clock c msg s sorted =
    let n = made s.ran in
    let later = ticks (2 * n + 1) in
    let (h, fits) = clock (2 * n + 1) in
    elim (Bool-cases (c == a.keep_schedule)) [
      | inl keep ↦ rw keep (
          add_timer-Starts (got n) now later (freq / 2 ^ 8) a.keep_schedule a.at_null s short h
            (omega arith) (omega arith) sorted)
      | inr other ↦ elim (Bool-cases (c == a.print_uptime)) [
        | inl uptime ↦
            let e : 2 * freq % u64_mod ≡ 2 * freq = omega arith in
            rw (other, uptime)
              (add_timer-Starts (got n) now later (2 * freq % u64_mod) a.print_uptime a.at_null s
                short h (omega (arith, e)) (omega (arith, e)) sorted)
        | inr rest ↦ rw (other, rest) (sorted, refl, refl)
      ]
    ]

rearm_keeps :
    (now : ℕ) (r : Timers × Bool)
    → ((rearm now r).timer_list ≡ r.0.timer_list) × ((rearm now r).ran ≡ r.0.ran)
unfolding rearm
rearm_keeps now (s, removed) = go s.timer_list removed
  where
    go :
        (l : List TimerEntry) (removed : Bool)
        → let r : Timers = elim l [
          | [] ↦ s
          | t ∷ rest ↦ if removed then record (set_timer now s) { irq = true } else s
        ] in
          (r.timer_list ≡ s.timer_list) × (r.ran ≡ s.ran)
    go [] removed = (refl, refl)
    go (t ∷ rest) true = set_timer_keeps now s
    go (t ∷ rest) false = (refl, refl)

run_schedule_keeps :
    (s : Timers)
    → ((run_schedule s).timer_list ≡ s.timer_list)
      × ((run_schedule s).ran ≡ s.ran)
      × ((run_schedule s).need_schedule ≡ false)
unfolding run_schedule
run_schedule_keeps s = go s.need_schedule refl
  where
    go :
        (b : Bool)
        → s.need_schedule ≡ b
        → let r : Timers =
            if b then record s { need_schedule = false; scheduled = s.scheduled + 1 } else s in
          (r.timer_list ≡ s.timer_list) × (r.ran ≡ s.ran) × (r.need_schedule ≡ false)
    go true e = (refl, refl, refl)
    go false e = (refl, refl, e)

-- Where the list is sorted, no reading of the tick by a callback is before that of the handler, the
-- frequency is 256 or more, twice the frequency after each reading the clock does not wrap, the text
-- at address 0 is shorter than 64 bytes, and there is a round for every expired timer:
-- `core_timer_handler` with the callbacks of the file calls back for the expired timers in the order
-- of the list, whatever `alloc` returns to each, leaves a sorted list in which no timer has expired,
-- and leaves no request for a schedule.
pub core_timer_handler_lem :
    (f now freq : ℕ) (ticks : ℕ → ℕ) (got : ℕ → Option ℕ) (a : Addresses) (s : Timers)
    → IsSorted s.timer_list
    → strlen a.at_null < 64
    → 2 ^ 8 ≤ freq
    → ((n : ℕ) → (now ≤ ticks n) × (ticks n + 2 * freq < u64_mod))
    → count (due now s.timer_list) ≤ f
    → let s' = core_timer_handler f (run_callback got ticks freq a) now s in
      IsSorted s'.timer_list
      × (due now s'.timer_list ≡ [])
      × (s'.ran ≡ calls (due now s.timer_list) s.ran)
      × (s'.need_schedule ≡ false)
unfolding core_timer_handler
core_timer_handler_lem f now freq ticks got a s sorted short k clock n =
    let call = run_callback got ticks freq a in
    let s₀ = record s { irq = false } in
    let looped = expire_loop f call now false s₀ in
    let (sorted₁, none_due, ran) =
      expire_loop_lem f now call s₀ sorted (run_callback-Starts got now freq ticks a short k clock)
        n in
    let (list₁, ran₁) = rearm_keeps now looped in
    let (list₂, ran₂, request) = run_schedule_keeps (rearm now looped) in
    let list = list₂ ∙ list₁ in
    (subst IsSorted (sym list) sorted₁, ap (due now) list ∙ none_due, ran₂ ∙ ran₁ ∙ ran, request)
