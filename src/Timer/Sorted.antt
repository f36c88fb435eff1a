-- ===== src/Timer/Sorted.antt =====
-- The order of the timers of src/timer.c, and what the interrupt leaves of them.
use nycu_osc.Prelude.{
  ℕ, zero, suc, ◌+◌, ◌%◌, ◌≤◌, ◌<◌, ◌≡◌, refl, ap, ◌∙◌, Bool, true, false, Option, none, some, List,
  [], ◌∷◌, ◌++◌, ltb, leb, if◌then◌else◌, arith, inl, inr, Bool-cases,
}
use mathlib.Core.Path.{ap₂}
use nycu_osc.CString.{Text, cstr, strlen}
use nycu_osc.Timer.{
  TimerEntry, Timers, u64_mod, timer_msg_size, linked, point_back, start_timer, insert_after,
  insert_timer, add_timer, set_timer, reset_value, Callback, expire_head, expire_loop,
}

-- no timer of the list expires before `e`
abbrev pub Above : ℕ → List TimerEntry → Type 0
Above e [] = Unit
Above e (t ∷ rest) = (e ≤ t.expiration) × Above e rest

abbrev pub IsSorted : List TimerEntry → Type 0
IsSorted [] = Unit
IsSorted (t ∷ rest) = Above t.expiration rest × IsSorted rest

Above-trans : (d e : ℕ) (l : List TimerEntry) → d ≤ e → Above e l → Above d l
Above-trans d e [] h a = tt
Above-trans d e (t ∷ rest) h (le, a) = (omega arith, Above-trans d e rest h a)

Above-insert_after :
    (e : ℕ) (t : TimerEntry) (l : List TimerEntry)
    → e ≤ t.expiration
    → Above e l
    → Above e (insert_after t l)
unfolding insert_after
Above-insert_after e t [] h a = (h, tt)
Above-insert_after e t (x ∷ rest) h (le, a) = elim (Bool-cases (ltb x.expiration t.expiration)) [
  | inl before ↦ rw before (le, Above-insert_after e t rest h a)
  | inr behind ↦ rw behind (h, (le, a))
]

insert_after-IsSorted :
    (t : TimerEntry) (l : List TimerEntry) → IsSorted l → IsSorted (insert_after t l)
unfolding insert_after
insert_after-IsSorted t [] h = (tt, tt)
insert_after-IsSorted t (x ∷ rest) (a, h) = elim (Bool-cases (ltb x.expiration t.expiration)) [
  | inl before ↦
      rw before
        (Above-insert_after x.expiration t rest (ground arith) a, insert_after-IsSorted t rest h)
  | inr behind ↦
      rw behind
        ((ground arith, Above-trans t.expiration x.expiration rest (ground arith) a), (a, h))
]

pub insert_timer-IsSorted :
    (t : TimerEntry) (l : List TimerEntry) → IsSorted l → IsSorted (insert_timer t l).0
unfolding insert_timer
insert_timer-IsSorted t [] h = (tt, tt)
insert_timer-IsSorted t (x ∷ rest) (a, h) = elim (Bool-cases (leb t.expiration x.expiration)) [
  | inl first ↦
      rw first ((ground arith, Above-trans t.expiration x.expiration rest (ground arith) a), (a, h))
  | inr behind ↦
      rw behind
        (Above-insert_after x.expiration t rest (ground arith) a, insert_after-IsSorted t rest h)
]

-- The timer between two parts of the list: in front, the next one points back to it; behind another
-- timer, it points back to itself, and the next one keeps its `prev`.
abbrev pub between : TimerEntry → List TimerEntry → List TimerEntry → List TimerEntry
between t [] post = record t { prev = none } ∷ point_back (some t.address) post
between t (x ∷ pre) post = (x ∷ pre) ++ (linked t ∷ post)

-- the list `l'` is `l` with `t` put behind `pre`
abbrev pub PlacedAfter : TimerEntry → List TimerEntry → List TimerEntry → List TimerEntry → Type 0
PlacedAfter t pre l l' = (post : List TimerEntry) × (l ≡ pre ++ post) × (l' ≡ between t pre post)

insert_after-linked :
    (t : TimerEntry) (l : List TimerEntry)
    → (pre : List TimerEntry) × (post : List TimerEntry) × (l ≡ pre ++ post)
      × (insert_after t l ≡ pre ++ (linked t ∷ post))
unfolding insert_after
insert_after-linked t [] = ([], [], refl, refl)
insert_after-linked t (x ∷ rest) = elim (Bool-cases (ltb x.expiration t.expiration)) [
  | inl before ↦
      let (pre, post, old, new) = insert_after-linked t rest in
      rw before (x ∷ pre, post, ap (λ r. x ∷ r) old, ap (λ r. x ∷ r) new)
  | inr behind ↦ rw behind ([], x ∷ rest, refl, refl)
]

-- the value of the timer, where the new timer stands behind the timers `pre`
abbrev pub SetFor : List TimerEntry → ℕ → Option ℕ → Option ℕ → Type 0
SetFor [] value v v' = v' ≡ some value
SetFor (x ∷ pre) value v v' = v' ≡ v

abbrev is_nil : List TimerEntry → Bool
is_nil [] = true
is_nil (x ∷ l) = false

-- where `insert_timer` puts the timer, and what `add_timer` writes for it
insert_timer-PlacedAfter :
    (t : TimerEntry) (l : List TimerEntry)
    → (pre : List TimerEntry) × PlacedAfter t pre l (insert_timer t l).0
      × ((insert_timer t l).1 ≡ is_nil pre)
unfolding insert_timer
insert_timer-PlacedAfter t [] = ([], ([], refl, refl), refl)
insert_timer-PlacedAfter t (x ∷ rest) = elim (Bool-cases (leb t.expiration x.expiration)) [
  | inl front ↦ rw front ([], (x ∷ rest, refl, refl), refl)
  | inr behind ↦
      let (pre, post, old, new) = insert_after-linked t rest in
      rw behind (x ∷ pre, (post, ap (λ r. x ∷ r) old, ap (λ r. x ∷ r) new), refl)
]

set_timer-SetFor :
    (s : Timers) (t : TimerEntry) (pre post l : List TimerEntry) (now tick : ℕ)
    → t.expiration ≡ now + tick
    → now + tick < u64_mod
    → l ≡ between t pre post
    → let inserted = record s { timer_list = l; irq = false } in
      let set = if is_nil pre then set_timer now inserted else inserted in
      SetFor pre tick s.timer_value set.timer_value
      × (set.timer_list ≡ l)
      × (set.overrun ≡ s.overrun)
unfolding set_timer reset_value
set_timer-SetFor s t [] post l now tick e fits at = rw (at, e) (ap some (omega arith), refl, refl)
set_timer-SetFor s t (x ∷ pre) post l now tick e fits at = (refl, refl, refl)

-- Where memory is left at an address, the message is shorter than its field of 64 bytes, and the
-- clock does not wrap, `add_timer` puts the timer into the sorted list so that the list stays sorted
-- and the others keep their order, turns the interrupt on, and sets the hardware timer to the ticks
-- asked for where the new timer is the first and only there. Then the next timer points back to
-- the new one; behind another timer, the new one points back to itself, and the next one still to
-- the timer before.
pub add_timer_lem :
    (s : Timers) (address now callback tick : ℕ) (msg : Text)
    → IsSorted s.timer_list
    → strlen msg < 64
    → now + tick < u64_mod
    → let s' = add_timer (some address) now callback msg tick s in
      let t : TimerEntry = record {
        address = address;
        prev = none;
        callback = callback;
        msg = cstr msg;
        expiration = now + tick;
      } in
      IsSorted s'.timer_list
      × (s'.irq ≡ true)
      × (s'.overrun ≡ s.overrun)
      × ((pre : List TimerEntry) × PlacedAfter t pre s.timer_list s'.timer_list
          × SetFor pre tick s.timer_value s'.timer_value)
unfolding add_timer start_timer
add_timer_lem s address now callback tick msg h short fits =
    let t : TimerEntry = record {
      address = address;
      prev = none;
      callback = callback;
      msg = cstr msg;
      expiration = now + tick;
    } in
    let same : (now + tick) % u64_mod ≡ now + tick = omega arith in
    let room : ltb (strlen msg) timer_msg_size ≡ true = ground arith in
    let (pre, (post, old, new), flag) = insert_timer-PlacedAfter t s.timer_list in
    let (set, kept, whole) =
      set_timer-SetFor s t pre post (insert_timer t s.timer_list).0 now tick refl fits new in
    rw (room, same, flag, kept, whole)
      (insert_timer-IsSorted t s.timer_list h, refl, refl, (pre, (post, old, new), set))

-- the callbacks of the timers that have expired, with their messages
abbrev pub due : ℕ → List TimerEntry → List (ℕ × Text)
due now [] = []
due now (t ∷ rest) =
    if leb t.expiration now then (t.callback, t.msg) ∷ due now rest else due now rest

due-Above : (now e : ℕ) (l : List TimerEntry) → now < e → Above e l → due now l ≡ []
due-Above now e [] h a = refl
due-Above now e (t ∷ rest) h (le, a) =
    let later : leb t.expiration now ≡ false = ground arith in rw later (due-Above now e rest h a)

-- callbacks that were made, the last one first, before `ran`
abbrev pub calls : List (ℕ × Text) → List (ℕ × Text) → List (ℕ × Text)
calls [] ran = ran
calls (c ∷ rest) ran = calls rest (c ∷ ran)

-- A callback that may start timers, but none that has expired at `now`, and keeps the list sorted.
abbrev pub Starts : ℕ → Callback → Type 0
Starts now call =
    (c : ℕ) (msg : Text) (s : Timers)
    → IsSorted s.timer_list
    → IsSorted (call c msg s).timer_list
      × (due now (call c msg s).timer_list ≡ due now s.timer_list)
      × ((call c msg s).ran ≡ s.ran)

abbrev pub count : List (ℕ × Text) → ℕ
count [] = 0
count (t ∷ rest) = suc (count rest)

count_nil : (l : List (ℕ × Text)) → count l ≤ 0 → l ≡ []
count_nil [] h = refl
count_nil (x ∷ l) h = absurd (omega (arith, h))

-- The next timer has no timer before it once the head is gone.
point_back_keeps :
    (prev : Option ℕ) (now : ℕ) (l : List TimerEntry)
    → IsSorted l
    → IsSorted (point_back prev l) × (due now (point_back prev l) ≡ due now l)
point_back_keeps prev now [] h = (tt, refl)
point_back_keeps prev now (t ∷ rest) h = (h, refl)

-- what the loop leaves of the state `s`, whose list is `l`
abbrev Expired : ℕ → Timers → List TimerEntry → Timers → Type 0
Expired now s l s' =
    IsSorted s'.timer_list × (due now s'.timer_list ≡ []) × (s'.ran ≡ calls (due now l) s.ran)

expire_loop_on :
    (f now : ℕ) (call : Callback) (removed : Bool) (s : Timers) (l : List TimerEntry)
    → s.timer_list ≡ l
    → IsSorted l
    → Starts now call
    → count (due now l) ≤ f
    → Expired now s l (expire_loop f call now removed s).0
unfolding expire_loop expire_head
expire_loop_on zero now call removed s l at h k n =
    let e = count_nil (due now l) n in rw at (h, e, rw e refl)
expire_loop_on (suc f) now call removed s [] at h k n = rw at (tt, refl, refl)
expire_loop_on (suc f) now call removed s (t ∷ rest) at (a, h) k n =
    elim (Bool-cases (leb t.expiration now)) [
      | inl over ↦
          let s₁ : Timers = record s {
            timer_list = point_back none rest;
            ran = (t.callback, t.msg) ∷ s.ran;
          } in
          let (unlinked, due_same) = point_back_keeps none now rest h in
          let (sorted, same₁, ran) = k t.callback t.msg s₁ unlinked in
          let same = same₁ ∙ due_same in
          let fits : count (due now rest) ≤ f = omega (arith, rw over at n) in
          let ih =
            expire_loop_on f now call true (call t.callback t.msg s₁)
              (call t.callback t.msg s₁).timer_list refl sorted k (rw same fits) in
          rw (at, over) (ih.0, ih.1, ih.2 ∙ ap₂ calls same ran)
      | inr later ↦
          let e = due-Above now t.expiration rest (ground arith) a in
          let none_due : due now (t ∷ rest) ≡ [] = rw later e in
          rw (at, later) ((a, h), none_due, rw e refl)
    ]

-- With a round for every expired timer of a sorted list, and callbacks that start none which has
-- already expired, the loop of the handler calls back for the expired timers in the order of the
-- list, and leaves a sorted list in which no timer has expired.
pub expire_loop_lem :
    (f now : ℕ) (call : Callback) (s : Timers)
    → IsSorted s.timer_list
    → Starts now call
    → count (due now s.timer_list) ≤ f
    → let s' = (expire_loop f call now false s).0 in
      IsSorted s'.timer_list
      × (due now s'.timer_list ≡ [])
      × (s'.ran ≡ calls (due now s.timer_list) s.ran)
expire_loop_lem f now call s h k n = expire_loop_on f now call false s s.timer_list refl h k n
