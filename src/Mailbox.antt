-- ===== src/Mailbox.antt =====
-- The mailbox of src/mailbox.c, and the two requests that `cmd_mbox` of src/shell.c makes. The device is
-- an argument: the words of the message behind its work, and what it answers.
use Prim.Native.Nat.{bit_and, bit_or}
use native.Mathlib.Nat.{mod-eq_of_lt}
use nycu_osc.Prelude.{
  ℕ, ◌+◌, ◌-◌, ◌*◌, ◌/◌, ◌%◌, ◌^◌, ◌<◌, ◌≡◌, refl, ap, ◌∙◌, Bool, true, false, not, Option, none,
  some, List, [], ◌∷◌, ◌==◌, if◌then◌else◌, arith,
}
use mathlib.Core.Path.{ap₂}
use nycu_osc.Prelude.Bits.{bit_and-mask, bit_and-shift, bit_or-fields, bit_and-two_pow_is_zero}
use nycu_osc.Prelude.Store.{update}
use nycu_osc.Uart.Setup.{while_set}

-- an array of words
abbrev pub Words : Type 0
Words = ℕ → ℕ

-- the mailbox device: a word that is written to it, the address of the array and its words
abbrev pub Device : Type 0
Device = ℕ → Words → ℕ × Words

abbrev pub mailbox_empty : ℕ
mailbox_empty = 0x40000000

abbrev pub mailbox_full : ℕ
mailbox_full = 0x80000000

abbrev pub request_succeed : ℕ
request_succeed = 0x80000000

abbrev pub request_failed : ℕ
request_failed = 0x80000001

-- the word for an array and a channel, on 32 bits
unfoldable pub message : ℕ → ℕ → ℕ
message mbox channel = bit_or (bit_and (mbox % 2 ^ 32) (2 ^ 32 - 1 - 0xF)) (bit_and channel 0xF)

-- behind the answer `res`: whether the request succeeded
unfoldable pub answered : ℕ → ℕ → Words → Bool
answered msg res mbox = if msg == res then not (bit_and (mbox 1) request_succeed == 0) else false

-- `mailbox_call`: the result and the words; `statuses` is what the reads of the status register give,
-- and the result is `none` where they run out
unfoldable pub mailbox_call : Device → List ℕ → ℕ → ℕ → Words → Option (Bool × Words)
unfolding message answered
mailbox_call device statuses address channel mbox = elim (while_set mailbox_full statuses) [
  | none ↦ none
  | some rest ↦
      let msg = message address channel in
      let (res, mbox₁) = device msg mbox in
      elim (while_set mailbox_empty rest) [
        | none ↦ none
        | some left ↦ some (answered msg res mbox₁, mbox₁)
      ]
]

-- the words of a list, from the place `i` on
abbrev pub put_words : ℕ → List ℕ → Words → Words
put_words i [] m = m
put_words i (w ∷ ws) m = put_words (i + 1) ws (update m i w)

-- the requests of `cmd_mbox`
unfoldable pub revision_request : Words → Words
revision_request m = put_words 0 (7 * 4 ∷ 0 ∷ 0x00010002 ∷ 4 ∷ 0 ∷ 0 ∷ 0 ∷ []) m

unfoldable pub memory_request : Words → Words
memory_request m = put_words 0 (8 * 4 ∷ 0 ∷ 0x00010005 ∷ 8 ∷ 0 ∷ 0 ∷ 0 ∷ 0 ∷ []) m

-- `cmd_mbox`: what it prints of the board revision, and of the base and the size of the memory, with
-- the call as an argument
unfoldable pub cmd_mbox : (Words → Bool × Words) → Words → Option ℕ × Option (ℕ × ℕ)
unfolding revision_request memory_request
cmd_mbox call m =
    let (found, m₁) = call (revision_request m) in
    let (found₂, m₂) = call (memory_request m₁) in
    (if found then some (m₁ 5) else none, if found₂ then some (m₂ 5, m₂ 6) else none)

-- For an array at a multiple of 16 below 2^32 and a channel below 16, the word is their sum: the device
-- reads the channel in the low four bits and the address in the others.
message_sum :
    (address channel : ℕ)
    → address < 2 ^ 32
    → address % 16 ≡ 0
    → channel < 16
    → message address channel ≡ address + channel
unfolding message
message_sum address channel h low k =
    let small : address % 2 ^ 32 ≡ address = mod-eq_of_lt h in
    let high : bit_and address (2 ^ 32 - 1 - 0xF) ≡ address / 2 ^ 4 * 2 ^ 4 =
      bit_and-shift 4 address (2 ^ 28 - 1)
      ∙ ap (λ (t : ℕ). t * 2 ^ 4)
          (bit_and-mask 28 (address / 2 ^ 4) ∙ mod-eq_of_lt (omega arith)) in
    let tag : bit_and channel 0xF ≡ channel = bit_and-mask 4 channel ∙ mod-eq_of_lt k in
    ap₂ bit_or (ap (λ (t : ℕ). bit_and t (2 ^ 32 - 1 - 0xF)) small ∙ high) tag
    ∙ bit_or-fields 4 (address / 2 ^ 4) channel k
    ∙ omega arith

-- the statuses of a device that is not full, and then not empty
abbrev pub IsReady : List ℕ → Type 0
IsReady [] = false ≡ true
IsReady (s ∷ []) = false ≡ true
IsReady (s ∷ t ∷ rest) = (bit_and s mailbox_full ≡ 0) × (bit_and t mailbox_empty ≡ 0)

while_set_stop :
    (mask status : ℕ) (rest : List ℕ)
    → bit_and status mask ≡ 0
    → while_set mask (status ∷ rest) ≡ some rest
unfolding while_set
while_set_stop mask status rest e = rw e refl

-- the end of `mailbox_call`, by what the device answers
abbrev answer : ℕ → ℕ × Words → Option (Bool × Words)
answer msg r = some (answered msg r.0 r.1, r.1)

-- the result by what the device answers
mailbox_call_answer :
    (device : Device) (statuses : List ℕ) (address channel : ℕ) (mbox : Words)
    → address < 2 ^ 32
    → address % 16 ≡ 0
    → channel < 16
    → IsReady statuses
    → let r = device (address + channel) mbox in
      mailbox_call device statuses address channel mbox
      ≡ some (if address + channel == r.0 then not (r.1 1 / 2 ^ 31 % 2 == 0) else false, r.1)
unfolding mailbox_call answered
mailbox_call_answer device [] address channel mbox h low k ready = cc
mailbox_call_answer device (s ∷ []) address channel mbox h low k ready = cc
mailbox_call_answer device (s ∷ t ∷ rest) address channel mbox h low k (full, empty) =
    let after : Option (List ℕ) → Option (Bool × Words) = λ o. elim o [
      | none ↦ none
      | some left ↦ answer (message address channel) (device (message address channel) mbox)
    ] in
    ap
      (λ (o : Option (List ℕ)). elim o as (λ x. Option (Bool × Words)) [
        | none ↦ none
        | some rest₁ ↦ after (while_set mailbox_empty rest₁)
      ])
      (while_set_stop mailbox_full s (t ∷ rest) full)
    ∙ ap after (while_set_stop mailbox_empty t rest empty)
    ∙ ap (λ (m : ℕ). answer m (device m mbox)) (message_sum address channel h low k)
    ∙ (let r = device (address + channel) mbox in
        ap (λ (b : Bool). some (if address + channel == r.0 then not b else false, r.1))
          (bit_and-two_pow_is_zero 31 (r.1 1)))

-- a device that answers with the same word, and `code` in word 1
abbrev pub answering : ℕ → Device
answering code msg m = (msg, update m 1 code)

mailbox_call-answering :
    (code : ℕ) (statuses : List ℕ) (address channel : ℕ) (mbox : Words)
    → address < 2 ^ 32
    → address % 16 ≡ 0
    → channel < 16
    → IsReady statuses
    → (code / 2 ^ 31 % 2 == 0) ≡ false
    → mailbox_call (answering code) statuses address channel mbox ≡ some (true, update mbox 1 code)
mailbox_call-answering code statuses address channel mbox h low k ready bit =
    let same : (address + channel == address + channel) ≡ true = ground arith in
    mailbox_call_answer (answering code) statuses address channel mbox h low k ready
    ∙ rw (same, bit) refl

-- For an array at a multiple of 16 below 2^32, a channel below 16 and a device that is ready:
-- `mailbox_call` gives the device the sum of the address and the channel, and returns 1 exactly if
-- the device answers with the same word and sets bit 31 of word 1. So it returns 1 for an answer
-- of `REQUEST_FAILED`, as for one of `REQUEST_SUCCEED`.
pub mailbox_call_lem :
    (device : Device) (statuses : List ℕ) (address channel : ℕ) (mbox : Words)
    → address < 2 ^ 32
    → address % 16 ≡ 0
    → channel < 16
    → IsReady statuses
    → let r = device (address + channel) mbox in
      (mailbox_call device statuses address channel mbox
        ≡ some (if address + channel == r.0 then not (r.1 1 / 2 ^ 31 % 2 == 0) else false, r.1))
      × (mailbox_call (answering request_failed) statuses address channel mbox
          ≡ some (true, update mbox 1 request_failed))
      × (mailbox_call (answering request_succeed) statuses address channel mbox
          ≡ some (true, update mbox 1 request_succeed))
mailbox_call_lem device statuses address channel mbox h low k ready = (
  mailbox_call_answer device statuses address channel mbox h low k ready,
  mailbox_call-answering request_failed statuses address channel mbox h low k ready refl,
  mailbox_call-answering request_succeed statuses address channel mbox h low k ready refl,
)
