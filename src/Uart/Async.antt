-- ===== src/Uart/Async.antt =====
-- The interrupt driven path of src/uart.c against a queue for each direction.
use nycu_osc.Prelude.{
  ℕ, ◌<◌, ◌≡◌, ◌≢◌, refl, ◌∙◌, true, false, Option, none, some, List, [], ◌∷◌, ◌++◌, ◌==◌,
  if◌then◌else◌, arith, inl, inr, Bool-cases,
}
use mathlib.Core.List.{append_assoc}
use nycu_osc.Prelude.Store.{update}
use nycu_osc.Uart.{
  Uart, buffer_size, next, irq_rx_handler, irq_tx_handler, async_getc, async_putc, tx_store,
  disable_rx_irq, disable_tx_irq, enable_tx_irq,
}
use nycu_osc.Uart.Ring.{contents, used, contents-store, contents-take}

-- all four indices are in the arrays
abbrev pub IsValid : Uart → Type 0
IsValid u =
    (u.rx_head < buffer_size)
    × (u.rx_tail < buffer_size)
    × (u.tx_head < buffer_size)
    × (u.tx_tail < buffer_size)

-- the bytes received and not yet read, oldest first
abbrev pub received : Uart → List ℕ
received u = contents u.rx_buffer u.rx_head u.rx_tail

-- the bytes not yet sent, oldest first
abbrev pub pending : Uart → List ℕ
pending u = contents u.tx_buffer u.tx_head u.tx_tail

-- With all indices in the arrays: the receive interrupt puts the byte behind the bytes received,
-- or turns itself off where the ring is full; the transmit ring stays.
pub irq_rx_handler_lem :
    (u : Uart) (io : ℕ)
    → IsValid u
    → let u' = irq_rx_handler io u in
      IsValid u'
      × (pending u' ≡ pending u)
      × (if used u.rx_head u.rx_tail == 4095
          then (received u' ≡ received u) × (u'.rx_irq ≡ false)
          else (received u' ≡ received u ++ (io ∷ [])))
unfolding irq_rx_handler disable_rx_irq
irq_rx_handler_lem u io (rh, rt, th, tl) = elim (Bool-cases (next u.rx_head == u.rx_tail)) [
  | inl full ↦
      let n : (used u.rx_head u.rx_tail == 4095) ≡ true = ground arith in
      rw (full, n) ((rh, rt, th, tl), refl, (refl, refl))
  | inr room ↦
      let n : (used u.rx_head u.rx_tail == 4095) ≡ false = ground arith in
      rw (room, n)
        (
          (omega arith, rt, th, tl),
          refl,
          contents-store u.rx_buffer u.rx_head u.rx_tail io rh rt room,
        )
]

-- what the transmit interrupt does to the bytes `q` that are pending
abbrev pub Sends : List ℕ → Uart → Uart → Type 0
Sends [] u u' = (pending u' ≡ []) × (u'.sent ≡ u.sent) × (u'.tx_irq ≡ false)
Sends (c ∷ cs) u u' = (pending u' ≡ cs) × (u'.sent ≡ c ∷ u.sent)

-- what a read does where the bytes `q` are received
abbrev pub Reads : List ℕ → Option ℕ × Uart → Type 0
Reads [] r = (r.0 ≡ none) × (received r.1 ≡ []) × (r.1.rx_irq ≡ true)
Reads (c ∷ cs) r = (r.0 ≡ some c) × (received r.1 ≡ cs)

-- With all indices in the arrays: the transmit interrupt sends the oldest byte that is pending
-- and takes it from the ring, or turns itself off where none is; the receive ring stays.
pub irq_tx_handler_lem :
    (u : Uart)
    → IsValid u
    → let u' = irq_tx_handler u in IsValid u' × (received u' ≡ received u) × Sends (pending u) u u'
unfolding irq_tx_handler disable_tx_irq
irq_tx_handler_lem u (rh, rt, th, tl) = elim (Bool-cases (u.tx_head == u.tx_tail)) [
  | inl empty ↦
      let n : used u.tx_head u.tx_tail ≡ 0 = ground arith in
      rw (empty, n) ((rh, rt, th, tl), refl, (rw n refl, refl, refl))
  | inr more ↦
      let e = contents-take u.tx_buffer u.tx_head u.tx_tail th tl more in
      rw (more, e) ((rh, rt, th, omega arith), refl, (refl, refl))
]

-- With all indices in the arrays, `uart_async_getc` takes the oldest byte received, or returns
-- nothing and turns the receive interrupt on where there is none; what is pending to be sent
-- stays.
pub async_getc_lem :
    (u : Uart)
    → IsValid u
    → let r = async_getc u in IsValid r.1 × (pending r.1 ≡ pending u) × Reads (received u) r
unfolding async_getc
async_getc_lem u (rh, rt, th, tl) = elim (Bool-cases (u.rx_head == u.rx_tail)) [
  | inl empty ↦
      let n : used u.rx_head u.rx_tail ≡ 0 = ground arith in
      rw (empty, n) ((rh, rt, th, tl), refl, (refl, rw n refl, refl))
  | inr more ↦
      let e = contents-take u.rx_buffer u.rx_head u.rx_tail rh rt more in
      rw (more, e) ((rh, omega arith, th, tl), refl, (refl, refl))
]

-- what `uart_async_putc` puts into the ring for a character
abbrev pub wire : ℕ → List ℕ
wire ch = if ch == b'\r' then b'\r' ∷ b'\n' ∷ [] else ch ∷ []

-- With all indices in the arrays: with two free slots or more, `uart_async_putc` succeeds, queues
-- the character behind what is pending, a carriage return with a line feed behind it, and turns
-- the transmit interrupt on; with none, it returns 0 and queues nothing.
pub async_putc_lem :
    (u : Uart) (ch : ℕ)
    → IsValid u
    → let r = async_putc ch u in
      (r.1.tx_irq ≡ true)
      × (received r.1 ≡ received u)
      × (used u.tx_head u.tx_tail ≡ 4095 → (r.0 ≡ false) × IsValid r.1 × (pending r.1 ≡ pending u))
      × (used u.tx_head u.tx_tail < 4094
          → (r.0 ≡ true) × IsValid r.1 × (pending r.1 ≡ pending u ++ wire ch))
unfolding async_putc enable_tx_irq tx_store
async_putc_lem u ch (rh, rt, th, tl) = elim (Bool-cases (next u.tx_head == u.tx_tail)) [
  | inl full ↦ rw full (
    refl,
    refl,
    λ h. (refl, (rh, rt, th, tl), refl),
    λ h. absurd (omega (arith, h, let e : next u.tx_head ≡ u.tx_tail = ground arith in e)),
  )
  | inr room ↦ elim (Bool-cases (ch == b'\r')) [
    | inl cr ↦
        let one = contents-store u.tx_buffer u.tx_head u.tx_tail b'\r' th tl room in
        rw (room, cr)
          (
            refl,
            refl,
            λ h. absurd (let ne : used u.tx_head u.tx_tail ≢ 4095 = ground arith in ne h),
            λ h.
                let room₂ : (next (next u.tx_head) == u.tx_tail) ≡ false = ground arith in
                (
                  refl,
                  (rh, rt, omega arith, tl),
                  contents-store (update u.tx_buffer u.tx_head b'\r') (next u.tx_head) u.tx_tail
                        b'\n' (omega arith) tl room₂
                      ∙ rw one (append_assoc (pending u) (b'\r' ∷ []) (b'\n' ∷ [])),
                ),
          )
    | inr other ↦
        rw (room, other)
          (
            refl,
            refl,
            λ h. absurd (let ne : used u.tx_head u.tx_tail ≢ 4095 = ground arith in ne h),
            λ h. (
              refl,
              (rh, rt, omega arith, tl),
              contents-store u.tx_buffer u.tx_head u.tx_tail ch th tl room,
            ),
          )
  ]
]

-- With all indices in the arrays: with exactly one free slot a carriage return makes the ring
-- look empty: `uart_async_putc` returns 1 and everything that was pending is gone.
pub async_putc_loses :
    (u : Uart)
    → IsValid u
    → used u.tx_head u.tx_tail ≡ 4094
    → ((async_putc b'\r' u).0 ≡ true) × (pending (async_putc b'\r' u).1 ≡ [])
unfolding async_putc enable_tx_irq tx_store
async_putc_loses u (rh, rt, th, tl) h =
    let room : (next u.tx_head == u.tx_tail) ≡ false = ground arith in
    let n : used (next (next u.tx_head)) u.tx_tail ≡ 0 = omega arith in rw room (refl, rw n refl)
