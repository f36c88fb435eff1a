-- ===== src/Timer.antt =====
-- The list of timers and the core timer interrupt, src/timer.c.
pub mod Sorted
pub mod Callbacks
pub mod Handled
use nycu_osc.Prelude.{
  ℕ, zero, suc, ◌+◌, ◌-◌, ◌*◌, ◌/◌, ◌%◌, ◌^◌, Bool, true, false, ◌&&◌, Option, none, some, List, [],
  ◌∷◌, ◌++◌, ◌==◌, ltb, leb, if◌then◌else◌,
}
use nycu_osc.CString.{Text, cstr, strlen}

abbrev pub u64_mod : ℕ
u64_mod = 2 ^ 64

abbrev pub timer_msg_size : ℕ
timer_msg_size = 64

-- `struct Timer` at an address; `next` is its place in the list
pub record TimerEntry : Type 0 where
  pub address : ℕ
  pub prev : Option ℕ
  pub callback : ℕ
  pub msg : Text
  pub expiration : ℕ

-- `timer_head` with the list behind it, `need_schedule`, whether the interrupt is enabled, and the
-- last value that `set_timer_irq` wrote; `ran` holds the callbacks made, last one first, and
-- `scheduled` counts the calls of `schedule`. Where `overrun` holds, a message was longer than its
-- field, and what became of the memory behind it is not described.
pub record Timers : Type 0 where
  pub timer_list : List TimerEntry
  pub need_schedule : Bool
  pub irq : Bool
  pub timer_value : Option ℕ
  pub ran : List (ℕ × Text)
  pub scheduled : ℕ
  pub overrun : Bool

-- a timer behind another one: the last line of the insertion makes its `prev` the timer itself, and
-- the timer behind it keeps its own
abbrev pub linked : TimerEntry → TimerEntry
linked t = record t { prev = some t.address }

-- `prev` of the first timer
abbrev pub point_back : Option ℕ → List TimerEntry → List TimerEntry
point_back prev [] = []
point_back prev (t ∷ rest) = record t { prev = prev } ∷ rest

-- the walk behind an entry that expires before the new one: `while (curr->next != NULL && …)`
unfoldable pub insert_after : TimerEntry → List TimerEntry → List TimerEntry
insert_after t [] = linked t ∷ []
insert_after t (next ∷ rest) =
    if ltb next.expiration t.expiration then next ∷ insert_after t rest else linked t ∷ next ∷ rest

-- the new list, and whether the new timer is its head
unfoldable pub insert_timer : TimerEntry → List TimerEntry → List TimerEntry × Bool
unfolding insert_after
insert_timer t [] = (record t { prev = none } ∷ [], true)
insert_timer t (head ∷ rest) =
    if leb t.expiration head.expiration
    then (record t { prev = none } ∷ point_back (some t.address) (head ∷ rest), true)
    else (head ∷ insert_after t rest, false)

-- `set_timer_irq (expiration - curr_tick)` on 64 bits
unfoldable pub reset_value : ℕ → ℕ → ℕ
reset_value expiration curr_tick = (expiration + u64_mod - curr_tick) % u64_mod

-- the expiration of the first timer
abbrev pub first : List TimerEntry → Option ℕ
first [] = none
first (t ∷ rest) = some t.expiration

-- `set_timer_irq (timer_head->expiration - curr_tick)`
unfoldable pub set_timer : ℕ → Timers → Timers
unfolding reset_value
set_timer curr_tick s = elim (first s.timer_list) [
  | none ↦ s
  | some e ↦ record s { timer_value = some (reset_value e curr_tick) }
]

-- the insertion of a timer, and the reset
unfoldable pub start_timer : ℕ → TimerEntry → Timers → Timers
unfolding insert_timer set_timer
start_timer curr_tick t s =
    let (timers, reset) = insert_timer t s.timer_list in
    let inserted = record s { timer_list = timers; irq = false } in
    let set = if reset then set_timer curr_tick inserted else inserted in record set { irq = true }

-- `add_timer`: `allocated` is the address that `alloc` returns, `curr_tick` what `get_tick` reads
unfoldable pub add_timer : Option ℕ → ℕ → ℕ → Text → ℕ → Timers → Timers
unfolding start_timer
add_timer none curr_tick callback msg tick s = s
add_timer (some address) curr_tick callback msg tick s =
    if ltb (strlen msg) timer_msg_size
    then start_timer curr_tick
        (record {
          address = address;
          prev = none;
          callback = callback;
          msg = cstr msg;
          expiration = (curr_tick + tick) % u64_mod;
        })
        s
    else record s { overrun = true }

-- What a callback does to the timers and to `need_schedule`: `callback` and `msg` of the timer it
-- is called for, and the state without that timer.
abbrev pub Callback : Type 0
Callback = ℕ → Text → Timers → Timers

-- one round of the loop: the head leaves the list and its callback runs
unfoldable pub expire_head : Callback → TimerEntry → List TimerEntry → Timers → Timers
expire_head call t rest s =
    call t.callback t.msg
      (record s { timer_list = point_back none rest; ran = (t.callback, t.msg) ∷ s.ran })

-- the loop of `core_timer_handler`, with the number of rounds that it may take, and `removed`
unfoldable pub expire_loop : ℕ → Callback → ℕ → Bool → Timers → Timers × Bool
unfolding expire_head
expire_loop zero call curr_tick removed s = (s, removed)
expire_loop (suc f) call curr_tick removed s = elim s.timer_list [
  | [] ↦ (s, removed)
  | t ∷ rest ↦
      let more = expire_loop f call curr_tick true (expire_head call t rest s) in
      if leb t.expiration curr_tick then more else (s, removed)
]

-- Reset the timer
unfoldable pub rearm : ℕ → Timers × Bool → Timers
unfolding set_timer
rearm curr_tick (s, removed) = elim s.timer_list [
  | [] ↦ s
  | t ∷ rest ↦ if removed then record (set_timer curr_tick s) { irq = true } else s
]

-- `if (need_schedule)`
unfoldable pub run_schedule : Timers → Timers
run_schedule s =
    if s.need_schedule then record s { need_schedule = false; scheduled = s.scheduled + 1 } else s

-- `core_timer_handler`
unfoldable pub core_timer_handler : ℕ → Callback → ℕ → Timers → Timers
unfolding expire_loop rearm run_schedule
core_timer_handler f call curr_tick s =
    run_schedule (rearm curr_tick (expire_loop f call curr_tick false (record s { irq = false })))

-- `keep_schedule`, with the frequency that `get_freq` reads, the address of the function itself, and
-- the text at address 0, which `NULL` stands for
unfoldable pub keep_schedule : Option ℕ → ℕ → ℕ → ℕ → Text → Timers → Timers
unfolding add_timer
keep_schedule allocated curr_tick freq self at_null s =
    record (add_timer allocated curr_tick self at_null (freq / 2 ^ 8) s) { need_schedule = true }

-- `set_timeout`
unfoldable pub set_timeout : Option ℕ → ℕ → ℕ → ℕ → Text → ℕ → Timers → Timers
unfolding add_timer
set_timeout allocated curr_tick freq print_msg msg sec s =
    add_timer allocated curr_tick print_msg msg (sec * freq % u64_mod) s
