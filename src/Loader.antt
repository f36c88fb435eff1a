-- ===== src/Loader.antt =====
-- The boot loader, src/load.c and src/uart.c below bootloader, which takes a kernel from the serial
-- line, and the script send_kernel.py at the other end. What the line will deliver is a list of
-- bytes; where the loader waits for more than that, its result is `none`.
pub mod Received
use Prim.Native.Nat.{bit_or, bit_and}
use nycu_osc.Prelude.{
  ℕ, zero, suc, ◌+◌, ◌-◌, ◌*◌, ◌/◌, ◌%◌, ◌^◌, Bool, Option, none, some, List, [], ◌∷◌, ◌++◌, ◌==◌,
  leb, if◌then◌else◌, length,
}
use nycu_osc.Prelude.Store.{update}
use nycu_osc.CString.Memory.{Mem}
use nycu_osc.CString.{Text}

abbrev pub kernel_addr : ℕ
kernel_addr = 0x80000

-- "BOOT"
abbrev pub magic : List ℕ
magic = b'B' ∷ b'O' ∷ b'O' ∷ b'T' ∷ []

-- How the loader ends, with the memory and what is left on the line: it returns where the image is not
-- valid or the checksum fails, and jumps into the kernel otherwise.
pub data Loaded : Type 0 where
  invalid_image : List ℕ → Loaded
  checksum_failed : Mem → List ℕ → Loaded
  jumped : Mem → List ℕ → Loaded

-- what the loop over the header finds: `none` where the line ends, and whether the bytes are the magic
unfoldable pub read_magic : List ℕ → List ℕ → Option (Bool × List ℕ)
read_magic [] line = some (Bool.true, line)
read_magic (m ∷ ms) [] = none
read_magic (m ∷ ms) (c ∷ line) =
    let rest = read_magic ms line in if c == m then rest else some (Bool.false, line)

-- the loop over the bytes of a number, the next `n` from the byte `i` on, on 32 bits
unfoldable pub read_word : ℕ → ℕ → ℕ → List ℕ → Option (ℕ × List ℕ)
read_word zero i word line = some (word, line)
read_word (suc n) i word [] = none
read_word (suc n) i word (c ∷ line) =
    read_word n (i + 1) (bit_or word (c * 2 ^ (i * 8) % 2 ^ 32)) line

-- the loop over the bytes of the kernel
unfoldable pub receive : ℕ → ℕ → List ℕ → Mem → Option (Mem × List ℕ)
receive zero p line m = some (m, line)
receive (suc n) p [] m = none
receive (suc n) p (c ∷ line) m = receive n (p + 1) line (update m p c)

-- the loop of the checksum
unfoldable pub sum_from : ℕ → ℕ → ℕ → Mem → ℕ
sum_from zero p sum m = sum
sum_from (suc n) p sum m = sum_from n (p + 1) ((sum + m p) % 2 ^ 32) m

-- behind the kernel
unfoldable pub verify : ℕ → ℕ → Mem → List ℕ → Loaded
unfolding sum_from
verify kernel_size chksum m line =
    if sum_from kernel_size kernel_addr 0 m == chksum then jumped m line else checksum_failed m line

-- behind the header
unfoldable pub load_image : ℕ → ℕ → List ℕ → Mem → Option Loaded
unfolding receive verify
load_image kernel_size chksum line m = elim (receive kernel_size kernel_addr line m) [
  | none ↦ none
  | some (m₁, left) ↦ some (verify kernel_size chksum m₁ left)
]

-- behind the magic
unfoldable pub load_words : List ℕ → Mem → Option Loaded
unfolding read_word load_image
load_words line m = elim (read_word 4 0 0 line) [
  | none ↦ none
  | some (kernel_size, line₁) ↦ elim (read_word 4 0 0 line₁) [
    | none ↦ none
    | some (chksum, line₂) ↦ load_image kernel_size chksum line₂ m
  ]
]

-- `load_kernel`
unfoldable pub load_kernel : List ℕ → Mem → Option Loaded
unfolding read_magic load_words
load_kernel line m = elim (read_magic magic line) [
  | none ↦ none
  | some (valid, left) ↦ if valid then load_words left m else some (invalid_image left)
]

-- `struct.pack ('<I', …)`
abbrev pub pack : ℕ → List ℕ
pack n = n % 256 ∷ n / 2 ^ 8 % 256 ∷ n / 2 ^ 16 % 256 ∷ n / 2 ^ 24 % 256 ∷ []

-- the loop over the checksum in send_kernel.py
unfoldable pub checksum : ℕ → List ℕ → ℕ
checksum sum [] = sum
checksum sum (byte ∷ data_left) = checksum (bit_and (sum + byte) 0xffffffff) data_left

-- what send_kernel.py writes: the header and the kernel
unfoldable pub send : List ℕ → List ℕ
unfolding checksum
send kernel = pack 0x544F4F42 ++ (pack (length kernel) ++ (pack (checksum 0 kernel) ++ kernel))

-- `uart_dec`: the digits of the number from `divisor` down; `count` rounds
unfoldable pub dec_digits : ℕ → ℕ → ℕ → Text
dec_digits zero n divisor = []
dec_digits (suc count) n divisor =
    (n / divisor + b'0') % 256 ∷ dec_digits count (n % divisor) (divisor / 10)

-- the loop of `uart_dec` that counts: the digits and the divisor on 32 bits, in a number of rounds
unfoldable pub count_digits : ℕ → ℕ → ℕ × ℕ → ℕ × ℕ
count_digits zero n (count, divisor) = (count, divisor)
count_digits (suc f) n (count, divisor) =
    let rest = count_digits f (n / 10) (count + 1, divisor * 10 % 2 ^ 32) in
    if n == 0 then (count, divisor) else rest

-- `uart_dec`; ten rounds do for 32 bits
unfoldable pub dec : ℕ → Text
unfolding dec_digits count_digits
dec d = let (count, divisor) = count_digits 10 d (0, 1) in dec_digits count d (divisor / 10)
