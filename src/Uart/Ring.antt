-- ===== src/Uart/Ring.antt =====
-- The ring buffers of src/uart.c as queues: the bytes from the tail to the head.
use nycu_osc.Prelude.{
  ℕ, zero, suc, ◌+◌, ◌-◌, ◌%◌, ◌≤◌, ◌<◌, ◌≡◌, refl, ap, ◌∙◌, false, List, [], ◌∷◌, ◌++◌, ◌==◌,
  arith,
}
use mathlib.Core.Path.{ap₂}
use nycu_osc.Prelude.Store.{update}
use nycu_osc.Uart.{buffer_size, next}

-- the `n` bytes from index `t` on
abbrev pub window : (ℕ → ℕ) → ℕ → ℕ → List ℕ
window buf t zero = []
window buf t (suc n) = buf t ∷ window buf (next t) n

-- the number of bytes between tail and head
abbrev pub used : ℕ → ℕ → ℕ
used head tail = (head + buffer_size - tail) % buffer_size

abbrev pub contents : (ℕ → ℕ) → ℕ → ℕ → List ℕ
contents buf head tail = window buf tail (used head tail)

-- A write outside the window leaves it.
window-update_out :
    (buf : ℕ → ℕ) (t n i v : ℕ)
    → t < buffer_size
    → i < buffer_size
    → n ≤ (i + buffer_size - t) % buffer_size
    → window (update buf i v) t n ≡ window buf t n
window-update_out buf t zero i v h k l = refl
window-update_out buf t (suc n) i v h k l =
    let ne : (t == i) ≡ false = ground arith in
    ap₂ ◌∷◌ (ground arith) (window-update_out buf (next t) n i v (omega arith) k (omega arith))

window-snoc :
    (buf : ℕ → ℕ) (t n : ℕ)
    → t < buffer_size
    → window buf t (suc n) ≡ window buf t n ++ (buf ((t + n) % buffer_size) ∷ [])
window-snoc buf t zero h = ap₂ ◌∷◌ (ap buf (omega arith)) refl
window-snoc buf t (suc n) h =
    ap (λ r. buf t ∷ r)
      (window-snoc buf (next t) n (omega arith)
        ∙ ap (λ i. window buf (next t) n ++ (buf i ∷ [])) (omega arith))

-- A byte stored at the head of a ring that is not full is the last of the queue.
pub contents-store :
    (buf : ℕ → ℕ) (head tail v : ℕ)
    → head < buffer_size
    → tail < buffer_size
    → (next head == tail) ≡ false
    → contents (update buf head v) (next head) tail ≡ contents buf head tail ++ (v ∷ [])
contents-store buf head tail v h k room =
    let e : used (next head) tail ≡ suc (used head tail) = ground arith in
    let at : (tail + used head tail) % buffer_size ≡ head = omega arith in
    ap (window (update buf head v) tail) e
    ∙ window-snoc (update buf head v) tail (used head tail) k
    ∙ ap₂ (λ a b. a ++ (b ∷ []))
        (window-update_out buf tail (used head tail) head v k h (omega arith))
        (ap (update buf head v) at ∙ ground arith)

-- The byte at the tail of a ring that is not empty is the first of the queue.
pub contents-take :
    (buf : ℕ → ℕ) (head tail : ℕ)
    → head < buffer_size
    → tail < buffer_size
    → (head == tail) ≡ false
    → contents buf head tail ≡ buf tail ∷ contents buf head (next tail)
contents-take buf head tail h k some_left =
    ap (window buf tail) (let e : used head tail ≡ suc (used head (next tail)) = ground arith in e)
