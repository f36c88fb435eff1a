-- ===== src/Loader/Received.antt =====
-- The boot loader at the other end of send_kernel.py.
use Prim.Native.Nat.{bit_or, bit_and}
use native.Mathlib.Nat.{mod-eq_of_lt}
use nycu_osc.Prelude.{
  ℕ, ◌+◌, ◌-◌, ◌*◌, ◌/◌, ◌%◌, ◌^◌, ◌<◌, ◌≡◌, refl, sym, ap, ◌∙◌, Bool, true, Option, none, some,
  List, [], ◌∷◌, ◌++◌, ◌==◌, if◌then◌else◌, length, arith,
}
use nycu_osc.Prelude.Bits.{bit_and-mask, bit_or-fields, bit_or_comm}
use nycu_osc.Prelude.Store.{update, update_self, update_ne}
use nycu_osc.CString.Memory.{Mem}
use nycu_osc.Uart.Input.{put_text}
use nycu_osc.Loader.{
  Loaded, checksum_failed, jumped, kernel_addr, read_magic, read_word, receive, sum_from, verify,
  load_image, load_words, load_kernel, pack, checksum, send,
}

add_field :
    (k word c : ℕ)
    → word < 2 ^ k
    → c * 2 ^ k < 2 ^ 32
    → bit_or word (c * 2 ^ k % 2 ^ 32) ≡ word + c * 2 ^ k
add_field k word c hw hc =
    ap (bit_or word) (mod-eq_of_lt hc)
    ∙ bit_or_comm word (c * 2 ^ k)
    ∙ bit_or-fields k c word hw
    ∙ omega arith

-- The loop puts the number together again.
read_word-pack :
    (n : ℕ) (line : List ℕ) → n < 2 ^ 32 → read_word 4 0 0 (pack n ++ line) ≡ some (n, line)
unfolding read_word
read_word-pack n line h =
    let b₀ = n % 256 in
    let b₁ = n / 2 ^ 8 % 256 in
    let b₂ = n / 2 ^ 16 % 256 in
    let b₃ = n / 2 ^ 24 % 256 in
    let e₀ = add_field 0 0 b₀ (omega arith) (omega arith) in
    let e₁ =
      ap (λ (t : ℕ). bit_or t (b₁ * 2 ^ 8 % 2 ^ 32)) e₀
      ∙ add_field 8 (0 + b₀ * 2 ^ 0) b₁ (omega arith) (omega arith) in
    let e₂ =
      ap (λ (t : ℕ). bit_or t (b₂ * 2 ^ 16 % 2 ^ 32)) e₁
      ∙ add_field 16 (0 + b₀ * 2 ^ 0 + b₁ * 2 ^ 8) b₂ (omega arith) (omega arith) in
    let e₃ =
      ap (λ (t : ℕ). bit_or t (b₃ * 2 ^ 24 % 2 ^ 32)) e₂
      ∙ add_field 24 (0 + b₀ * 2 ^ 0 + b₁ * 2 ^ 8 + b₂ * 2 ^ 16) b₃ (omega arith) (omega arith) in
    ap (λ (t : ℕ). some (t, line)) (e₃ ∙ omega arith)

receive-append :
    (bytes line : List ℕ) (p : ℕ) (m : Mem)
    → receive (length bytes) p (bytes ++ line) m ≡ some (put_text bytes p m, line)
unfolding receive
receive-append [] line p m = refl
receive-append (c ∷ bytes) line p m = receive-append bytes line (p + 1) (update m p c)

-- the bytes in front of a text stay
put_text_front : (bytes : List ℕ) (p q : ℕ) (m : Mem) → q < p → put_text bytes p m q ≡ m q
put_text_front [] p q m h = refl
put_text_front (c ∷ bytes) p q m h =
    put_text_front bytes (p + 1) q (update m p c) (omega arith)
    ∙ update_ne m p q c (ground (arith, h))

sum_from-put_text :
    (bytes : List ℕ) (p sum : ℕ) (m : Mem)
    → sum_from (length bytes) p sum (put_text bytes p m) ≡ checksum sum bytes
unfolding sum_from checksum
sum_from-put_text [] p sum m = refl
sum_from-put_text (c ∷ bytes) p sum m =
    let first = put_text_front bytes (p + 1) p (update m p c) (omega arith) ∙ update_self m p c in
    ap (λ (t : ℕ). sum_from (length bytes) (p + 1) ((sum + t) % 2 ^ 32) (put_text (c ∷ bytes) p m))
      first
    ∙ sum_from-put_text bytes (p + 1) ((sum + c) % 2 ^ 32) (update m p c)
    ∙ ap (λ (t : ℕ). checksum t bytes) (sym (bit_and-mask 32 (sum + c)))

load_words_eq :
    (line l₁ l₂ : List ℕ) (size chk : ℕ) (m : Mem)
    → read_word 4 0 0 line ≡ some (size, l₁)
    → read_word 4 0 0 l₁ ≡ some (chk, l₂)
    → load_words line m ≡ load_image size chk l₂ m
unfolding load_words
load_words_eq line l₁ l₂ size chk m e₁ e₂ =
    ap
      (λ (o : Option (ℕ × List ℕ)). elim o as (λ x. Option Loaded) [
        | none ↦ none
        | some (kernel_size, line₁) ↦ elim (read_word 4 0 0 line₁) as (λ x. Option Loaded) [
          | none ↦ none
          | some (chksum, line₂) ↦ load_image kernel_size chksum line₂ m
        ]
      ])
      e₁
    ∙ ap
        (λ (o : Option (ℕ × List ℕ)). elim o as (λ x. Option Loaded) [
          | none ↦ none
          | some (chksum, line₂) ↦ load_image size chksum line₂ m
        ])
        e₂

load_image_eq :
    (size chk : ℕ) (line l₁ : List ℕ) (m m₁ : Mem)
    → receive size kernel_addr line m ≡ some (m₁, l₁)
    → load_image size chk line m ≡ some (verify size chk m₁ l₁)
unfolding load_image
load_image_eq size chk line l₁ m m₁ e =
    ap
      (λ (o : Option (Mem × List ℕ)). elim o as (λ x. Option Loaded) [
        | none ↦ none
        | some (m₂, left) ↦ some (verify size chk m₂ left)
      ])
      e

-- with a valid header
load_kernel_header :
    (kernel more : List ℕ) (sum : ℕ) (m : Mem)
    → length kernel < 2 ^ 32
    → sum < 2 ^ 32
    → load_kernel (pack 0x544F4F42 ++ (pack (length kernel) ++ (pack sum ++ (kernel ++ more)))) m
      ≡ some (verify (length kernel) sum (put_text kernel kernel_addr m) more)
unfolding load_kernel read_magic
load_kernel_header kernel more sum m h hs =
    load_words_eq (pack (length kernel) ++ (pack sum ++ (kernel ++ more)))
      (pack sum ++ (kernel ++ more)) (kernel ++ more) (length kernel) sum m
      (read_word-pack (length kernel) (pack sum ++ (kernel ++ more)) h)
      (read_word-pack sum (kernel ++ more) hs)
    ∙ load_image_eq (length kernel) sum (kernel ++ more) more m (put_text kernel kernel_addr m)
        (receive-append kernel more kernel_addr m)

-- how the loader ends, by the sum of the bytes
abbrev pub ending : List ℕ → ℕ → Mem → List ℕ → Loaded
ending kernel sum m more =
    if checksum 0 kernel == sum
    then jumped (put_text kernel kernel_addr m) more
    else checksum_failed (put_text kernel kernel_addr m) more

-- Where the line delivers the magic, the length of a kernel, a checksum and the bytes of the kernel,
-- fewer than 2^31, and the checksum on 32 bits: `load_kernel` puts the bytes one after the other from
-- 0x80000 on, changes no other byte of the memory, takes no more from the line, and jumps into the
-- kernel if the checksum is the one of send_kernel.py; it returns if not.
pub load_kernel_lem :
    (kernel more : List ℕ) (sum : ℕ) (m : Mem)
    → length kernel < 2 ^ 31
    → sum < 2 ^ 32
    → load_kernel (pack 0x544F4F42 ++ (pack (length kernel) ++ (pack sum ++ (kernel ++ more)))) m
      ≡ some (ending kernel sum m more)
unfolding verify
load_kernel_lem kernel more sum m h hs =
    load_kernel_header kernel more sum m (omega arith) hs
    ∙ ap
        (λ (t : ℕ). some (
          if t == sum
          then jumped (put_text kernel kernel_addr m) more
          else checksum_failed (put_text kernel kernel_addr m) more))
        (sum_from-put_text kernel kernel_addr 0 m)

checksum_small : (kernel : List ℕ) (sum : ℕ) → sum < 2 ^ 32 → checksum sum kernel < 2 ^ 32
unfolding checksum
checksum_small [] sum h = h
checksum_small (c ∷ kernel) sum h =
    checksum_small kernel (bit_and (sum + c) (2 ^ 32 - 1))
      (omega (arith, bit_and-mask 32 (sum + c)))

append_assoc : (xs ys zs : List ℕ) → (xs ++ ys) ++ zs ≡ xs ++ (ys ++ zs)
append_assoc [] ys zs = refl
append_assoc (x ∷ xs) ys zs = ap (λ r. x ∷ r) (append_assoc xs ys zs)

-- What send_kernel.py writes for a kernel of fewer than 2^31 bytes, `load_kernel` takes off the line
-- and loads, and jumps into it.
pub load_kernel-send :
    (kernel more : List ℕ) (m : Mem)
    → length kernel < 2 ^ 31
    → load_kernel (send kernel ++ more) m ≡ some (jumped (put_text kernel kernel_addr m) more)
unfolding send
load_kernel-send kernel more m h =
    let sum = checksum 0 kernel in
    let same : (sum == sum) ≡ true = ground arith in
    load_kernel_lem kernel more sum m h (checksum_small kernel 0 (omega arith))
    ∙ ap
        (λ (b : Bool). some (
          if b
          then jumped (put_text kernel kernel_addr m) more
          else checksum_failed (put_text kernel kernel_addr m) more))
        same
