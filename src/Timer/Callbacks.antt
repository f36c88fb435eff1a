-- ===== src/Timer/Callbacks.antt =====
-- The callbacks of src/timer.c, its set-up and its printing.
use nycu_osc.Prelude.{
  ℕ, suc, ◌+◌, Option, ◌*◌, ◌/◌, ◌%◌, ◌^◌, true, List, [], ◌∷◌, ◌++◌, ◌==◌, if◌then◌else◌,
}
use nycu_osc.CString.{Text}
use nycu_osc.Uart.{puts, hex}
use nycu_osc.Timer.{TimerEntry, Timers, Callback, u64_mod, add_timer, keep_schedule}

-- the addresses of the callbacks, and the text at address 0, which `NULL` stands for
pub record Addresses : Type 0 where
  pub keep_schedule : ℕ
  pub print_uptime : ℕ
  pub at_null : Text

-- "Timer expired: ", " at time: ", " sec.\r\n" and "Uptime: "
abbrev pub expired_text : Text
expired_text =
    b'T' ∷ b'i' ∷ b'm' ∷ b'e' ∷ b'r' ∷ b' ' ∷ b'e' ∷ b'x' ∷ b'p' ∷ b'i' ∷ b'r' ∷ b'e' ∷ b'd' ∷ b':'
    ∷ b' ' ∷ []

abbrev pub at_time_text : Text
at_time_text = b' ' ∷ b'a' ∷ b't' ∷ b' ' ∷ b't' ∷ b'i' ∷ b'm' ∷ b'e' ∷ b':' ∷ b' ' ∷ []

abbrev pub sec_text : Text
sec_text = b' ' ∷ b's' ∷ b'e' ∷ b'c' ∷ b'.' ∷ b'\r' ∷ b'\n' ∷ []

abbrev pub uptime_text : Text
uptime_text = b'U' ∷ b'p' ∷ b't' ∷ b'i' ∷ b'm' ∷ b'e' ∷ b':' ∷ b' ' ∷ []

-- `get_time`
unfoldable pub get_time : ℕ → ℕ → ℕ
get_time curr_tick freq = curr_tick / freq

-- what `print_msg` sends; `uart_hex` takes 32 bits
unfoldable pub print_msg : ℕ → ℕ → Text → List ℕ
print_msg curr_tick freq msg =
    puts expired_text
    ++ (puts msg ++ (puts at_time_text ++ (hex (curr_tick / freq % 2 ^ 32) ++ puts sec_text)))

-- what `print_uptime` sends, and the timers with its next call; `later` is what `add_timer` reads
unfoldable pub print_uptime : Option ℕ → ℕ → ℕ → ℕ → Addresses → Timers → List ℕ × Timers
unfolding add_timer
print_uptime allocated curr_tick later freq a s = (
  puts uptime_text ++ (hex (curr_tick / freq % 2 ^ 32) ++ puts sec_text),
  add_timer allocated later a.print_uptime a.at_null (2 * freq % u64_mod) s,
)

-- `timer_init`
unfoldable pub timer_init : Option ℕ → ℕ → ℕ → Addresses → Timers → Timers
unfolding add_timer
timer_init allocated curr_tick freq a s =
    add_timer allocated curr_tick a.keep_schedule a.at_null (freq / 2 ^ 5) (record s { irq = true })

-- "Timer list:\r\n", "Expiration: " and ", Message: "
abbrev pub list_text : Text
list_text =
    b'T' ∷ b'i' ∷ b'm' ∷ b'e' ∷ b'r' ∷ b' ' ∷ b'l' ∷ b'i' ∷ b's' ∷ b't' ∷ b':' ∷ b'\r' ∷ b'\n' ∷ []

abbrev pub expiration_text : Text
expiration_text =
    b'E' ∷ b'x' ∷ b'p' ∷ b'i' ∷ b'r' ∷ b'a' ∷ b't' ∷ b'i' ∷ b'o' ∷ b'n' ∷ b':' ∷ b' ' ∷ []

abbrev pub message_text : Text
message_text = b',' ∷ b' ' ∷ b'M' ∷ b'e' ∷ b's' ∷ b's' ∷ b'a' ∷ b'g' ∷ b'e' ∷ b':' ∷ b' ' ∷ []

-- the loop of `print_timer_list`
unfoldable pub print_timers : List TimerEntry → List ℕ
print_timers [] = []
print_timers (t ∷ rest) =
    puts expiration_text
    ++ (hex (t.expiration % 2 ^ 32)
        ++ (puts message_text ++ (puts t.msg ++ (b'\r' ∷ b'\n' ∷ print_timers rest))))

-- `print_timer_list`
unfoldable pub print_timer_list : Timers → List ℕ
unfolding print_timers
print_timer_list s = puts list_text ++ print_timers s.timer_list

-- the number of callbacks made
abbrev pub made : List (ℕ × Text) → ℕ
made [] = 0
made (c ∷ ran) = suc (made ran)

-- The callbacks of this file: `allocated` and `ticks` are what the calls of `alloc` and the readings of
-- the tick give, two readings for each callback. `print_msg` and any other leave the timers.
unfoldable pub run_callback : (ℕ → Option ℕ) → (ℕ → ℕ) → ℕ → Addresses → Callback
unfolding print_uptime keep_schedule
run_callback allocated ticks freq a callback msg s =
    let n = made s.ran in
    if callback == a.keep_schedule
    then keep_schedule (allocated n) (ticks (2 * n + 1)) freq a.keep_schedule a.at_null s
    else if callback == a.print_uptime
    then (print_uptime (allocated n) (ticks (2 * n)) (ticks (2 * n + 1)) freq a s).1
    else s
