-- ===== src/Tests/Clock.antt =====
-- The timers of src/timer.c.
use nycu_osc.Prelude.{
  ℕ, ◌≡◌, true, false, Option, none, some, ◌==◌, if◌then◌else◌, List, [], ◌∷◌, arith,
}
use nycu_osc.CString.{strlen}
use nycu_osc.Timer.Callbacks.{Addresses, run_callback}
use nycu_osc.Timer.Handled.{core_timer_handler_lem}
use nycu_osc.Timer.{core_timer_handler, TimerEntry, Timers, add_timer, Callback}
use nycu_osc.Timer.Sorted.{IsSorted, PlacedAfter, SetFor, due, calls, add_timer_lem}

abbrev timer_at : ℕ → TimerEntry
timer_at e = record { address = e; prev = none; callback = 7; msg = []; expiration = e }

-- timers at 100, 200 and 300
abbrev three : Timers
three = record {
  timer_list = timer_at 100 ∷ timer_at 200 ∷ timer_at 300 ∷ [];
  need_schedule = false;
  irq = true;
  timer_value = some 50;
  ran = [];
  scheduled = 0;
  overrun = false;
}

three-IsSorted : IsSorted three.timer_list
three-IsSorted = ((omega arith, (omega arith, tt)), ((omega arith, tt), (tt, tt)))

add_timer_lem_example :
    let s' = add_timer (some 900) 60 9 [] 150 three in
    IsSorted s'.timer_list
    × (s'.irq ≡ true)
    × (s'.overrun ≡ false)
    × ((pre : List TimerEntry) × PlacedAfter
          (record { address = 900; prev = none; callback = 9; msg = []; expiration = 210 })
          pre
          three.timer_list
          s'.timer_list
        × SetFor pre 150 three.timer_value s'.timer_value)
unfolding strlen
add_timer_lem_example =
    add_timer_lem three 900 60 9 150 [] three-IsSorted (omega arith) (omega arith)

-- callbacks that touch no timer
abbrev quiet : Callback
quiet c msg s = s

abbrev addresses : Addresses
addresses = record { keep_schedule = 7; print_uptime = 8; at_null = [] }

-- The timers at 100 and 200 ask for a schedule, each at its own tick; the first starts another, and
-- the second gets no memory.
core_timer_handler_lem_example :
    let ticks : ℕ → ℕ = λ n. if n == 3 then 260 else 270 in
    let got : ℕ → Option ℕ = λ n. if n == 1 then some 900 else none in
    let s' = core_timer_handler 5 (run_callback got ticks 512 addresses) 250 three in
    IsSorted s'.timer_list
    × (due 250 s'.timer_list ≡ [])
    × (s'.ran ≡ calls (due 250 three.timer_list) three.ran)
    × (s'.need_schedule ≡ false)
unfolding strlen
core_timer_handler_lem_example =
    core_timer_handler_lem 5 250 512 (λ n. if n == 3 then 260 else 270)
      (λ n. if n == 1 then some 900 else none) addresses three three-IsSorted (omega arith)
      (omega arith) (λ n. (ground arith, ground arith)) (omega arith)
