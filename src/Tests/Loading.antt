-- ===== src/Tests/Loading.antt =====
-- The boot loader takes a kernel of three bytes.
use nycu_osc.Prelude.{ℕ, ◌≡◌, refl, some, List, [], ◌∷◌, ◌++◌, arith}
use nycu_osc.CString.Memory.{Mem}
use nycu_osc.Uart.Input.{put_text}
use nycu_osc.Loader.{jumped, invalid_image, kernel_addr, load_kernel, pack, send, dec}
use nycu_osc.Loader.Received.{ending, load_kernel_lem, load_kernel-send}

abbrev three_bytes : List ℕ
three_bytes = 10 ∷ 200 ∷ 77 ∷ []

abbrev zeros : Mem
zeros a = 0

send_three :
    send three_bytes
    ≡ b'B' ∷ b'O' ∷ b'O' ∷ b'T' ∷ 3 ∷ 0 ∷ 0 ∷ 0 ∷ 31 ∷ 1 ∷ 0 ∷ 0 ∷ 10 ∷ 200 ∷ 77 ∷ []
unfolding send
send_three = refl

-- another magic is refused at its first byte that differs
load_other : load_kernel (b'B' ∷ b'A' ∷ b'O' ∷ []) zeros ≡ some (invalid_image (b'O' ∷ []))
unfolding load_kernel
load_other = refl

-- `uart_dec` prints nothing for 0, and characters that are no digits from ten digits on
dec_few : dec 9075 ≡ b'9' ∷ b'0' ∷ b'7' ∷ b'5' ∷ []
unfolding dec
dec_few = refl

dec_zero : dec 0 ≡ []
unfolding dec
dec_zero = refl

load_kernel_lem_example :
    load_kernel (pack 0x544F4F42 ++ (pack 3 ++ (pack 288 ++ (three_bytes ++ (b'x' ∷ []))))) zeros
    ≡ some (ending three_bytes 288 zeros (b'x' ∷ []))
load_kernel_lem_example =
    load_kernel_lem three_bytes (b'x' ∷ []) 288 zeros (omega arith) (omega arith)

load_kernel-send_example :
    load_kernel (send three_bytes ++ []) zeros
    ≡ some (jumped (put_text three_bytes kernel_addr zeros) [])
load_kernel-send_example = load_kernel-send three_bytes [] zeros (omega arith)
