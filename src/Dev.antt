-- ===== src/Dev.antt =====
-- The device files, src/dev_uart.c and src/dev_framebuffer.c: their operations on an open file.
-- What `alloc` returns for a handle is an argument. `free` does not change the handle's fields.
use nycu_osc.Prelude.{◌^◌}
use nycu_osc.Prelude.{
  ℕ, zero, suc, ◌+◌, ◌%◌, Bool, Option, none, some, List, [], ◌∷◌, ◌++◌, ◌==◌, if◌then◌else◌, ◌&&◌,
  not,
}
use nycu_osc.Prelude.Int.{ℤ, pos, negsuc, is_neg}
use nycu_osc.Prelude.Store.{update}
use Prim.Native.Nat.{bit_and}
use nycu_osc.CString.Memory.{Mem, copy}
use nycu_osc.Fs.{Ops, dev_uart_ops, dev_framebuffer_ops, Fs, set_file, enomem_vfs, einval_vfs}
use nycu_osc.Fs.Long.{u64_mod, to_int, to_long, of_long}
use nycu_osc.Uart.Input.{getc}

-- the fields that `open` sets, with the device's table of operations; `flags` stays what it is
abbrev pub open_handle : Ops → ℕ → ℕ → Fs → Fs
open_handle ops f v s =
    set_file f (record (s.files f) { vnode = some v; f_pos = 0; f_ops = some ops }) s

-- `dev_uart_open`: the code, `*target` and the state
unfoldable pub dev_uart_open : Option ℕ → Option ℕ → Fs → ℤ × Option ℕ × Fs
dev_uart_open handle none s = (einval_vfs, none, s)
dev_uart_open none (some v) s = (enomem_vfs, none, s)
dev_uart_open (some f) (some v) s = (pos 0, some f, open_handle dev_uart_ops f v s)

unfoldable pub dev_uart_close : Option ℕ → ℤ
dev_uart_close none = einval_vfs
dev_uart_close (some f) = pos 0

-- the position of a file moves by `n`
abbrev pub advance : ℕ → ℕ → Fs → Fs
advance f n s = set_file f (record (s.files f) { f_pos = ((s.files f).f_pos + n) % u64_mod }) s

-- the bytes of a buffer from a place on
abbrev pub bytes_from : ℕ → ℕ → Mem → List ℕ
bytes_from zero p buf = []
bytes_from (suc n) p buf = buf p ∷ bytes_from n (p + 1) buf

-- `dev_uart_write`: the code, the bytes sent, and the state
unfoldable pub dev_uart_write : Option ℕ → Option Mem → ℕ → Fs → ℤ × List ℕ × Fs
dev_uart_write none buf len s = (einval_vfs, [], s)
dev_uart_write (some f) none len s = (einval_vfs, [], s)
dev_uart_write (some f) (some buf) len s =
    if len == 0 then (einval_vfs, [], s) else (to_int len, bytes_from len 0 buf, advance f len s)

-- the loop of `dev_uart_read` from the place `i` on: the bytes read, the buffer and the line; `none`
-- where it waits for ever
unfoldable pub uart_read_loop : ℕ → ℕ → Mem → List ℕ → Option (ℕ × Mem × List ℕ)
unfolding getc
uart_read_loop zero i buf line = some (i, buf, line)
uart_read_loop (suc n) i buf line = elim (getc line) [
  | none ↦ none
  | some (ch, left) ↦
      let more = uart_read_loop n (i + 1) (update buf i ch) left in
      if ch == 0 then some (i, buf, left) else more
]

-- `dev_uart_read`: the code, the buffer, the line and the state
unfoldable pub dev_uart_read :
    Option ℕ → Option Mem → ℕ → List ℕ → Fs → Option (ℤ × Option Mem × List ℕ × Fs)
unfolding uart_read_loop
dev_uart_read none buf len line s = some (einval_vfs, buf, line, s)
dev_uart_read (some f) none len line s = some (einval_vfs, none, line, s)
dev_uart_read (some f) (some buf) len line s =
    if len == 0
    then some (einval_vfs, some buf, line, s)
    else elim (uart_read_loop len 0 buf line) [
      | none ↦ none
      | some (bytes_read, m, left) ↦ some (to_int bytes_read, some m, left, advance f bytes_read s)
    ]

-- the `switch` on `whence`: the bits of `new_pos`, `none` for any other value
abbrev pub device_pos : ℕ → ℤ → ℕ → Option ℕ
device_pos f_pos offset whence =
    if whence == 0
    then some (of_long offset)
    else if whence == 1
    then some ((f_pos + of_long offset) % u64_mod)
    else if whence == 2
    then some f_pos
    else none

-- the end of the two seeks
abbrev pub seek_to : ℕ → Option ℕ → Fs → ℤ × Fs
seek_to f none s = (einval_vfs, s)
seek_to f (some p) s =
    if is_neg (to_long p)
    then (einval_vfs, s)
    else (to_long p, set_file f (record (s.files f) { f_pos = p }) s)

unfoldable pub dev_uart_lseek64 : Option ℕ → ℤ → ℕ → Fs → ℤ × Fs
dev_uart_lseek64 none offset whence s = (einval_vfs, s)
dev_uart_lseek64 (some f) offset whence s = seek_to f (device_pos (s.files f).f_pos offset whence) s

unfoldable pub dev_framebuffer_open : Option ℕ → Option ℕ → Fs → ℤ × Option ℕ × Fs
dev_framebuffer_open handle none s = (einval_vfs, none, s)
dev_framebuffer_open none (some v) s = (enomem_vfs, none, s)
dev_framebuffer_open (some f) (some v) s = (pos 0, some f, open_handle dev_framebuffer_ops f v s)

unfoldable pub dev_framebuffer_close : Option ℕ → ℤ
dev_framebuffer_close none = einval_vfs
dev_framebuffer_close (some f) = pos 0

-- what the driver of the frame buffer keeps: `lfb` is the memory behind the pointer
pub record Framebuffer : Type 0 where
  pub width : ℕ
  pub height : ℕ
  pub pitch : ℕ
  pub isrgb : ℕ
  pub lfb_addr : ℕ
  pub lfb : Mem

-- `dev_framebuffer_write`, with no bound on the position
unfoldable pub dev_framebuffer_write :
    Option ℕ → Option Mem → ℕ → Framebuffer → Fs → ℤ × Framebuffer × Fs
dev_framebuffer_write none buf len b s = (einval_vfs, b, s)
dev_framebuffer_write (some f) none len b s = (einval_vfs, b, s)
dev_framebuffer_write (some f) (some buf) len b s = if len == 0 then (einval_vfs, b, s) else (
  to_int len,
  record b { lfb = copy (s.files f).f_pos b.lfb 0 buf (len % 2 ^ 32) },
  advance f len s,
)

unfoldable pub dev_framebuffer_read : ℤ
dev_framebuffer_read = negsuc 0

unfoldable pub dev_framebuffer_lseek64 : Option ℕ → ℤ → ℕ → Fs → ℤ × Fs
dev_framebuffer_lseek64 none offset whence s = (einval_vfs, s)
dev_framebuffer_lseek64 (some f) offset whence s =
    seek_to f (device_pos (s.files f).f_pos offset whence) s

-- the words of the request, from the first one on
abbrev pub request : List ℕ
request =
    (140 ∷ 0 ∷ [])
    ++ (0x48003 ∷ 8 ∷ 8 ∷ 1024 ∷ 768 ∷ [])
    ++ (0x48004 ∷ 8 ∷ 8 ∷ 1024 ∷ 768 ∷ [])
    ++ (0x48009 ∷ 8 ∷ 8 ∷ 0 ∷ 0 ∷ [])
    ++ (0x48005 ∷ 4 ∷ 4 ∷ 32 ∷ [])
    ++ (0x48006 ∷ 4 ∷ 4 ∷ 1 ∷ [])
    ++ (0x40001 ∷ 8 ∷ 8 ∷ 4096 ∷ 0 ∷ [])
    ++ (0x40008 ∷ 4 ∷ 4 ∷ 0 ∷ 0 ∷ [])

-- the array with the words of a list from `i` on, over what the stack holds
abbrev pub fill : List ℕ → ℕ → (ℕ → ℕ) → (ℕ → ℕ)
fill [] i m = m
fill (w ∷ ws) i m = fill ws (i + 1) (update m i w)

-- the driver's fields from the answer
abbrev pub configure : (ℕ → ℕ) → Framebuffer → Framebuffer
configure mbox b = record b {
  width = mbox 5;
  height = mbox 6;
  pitch = mbox 33;
  isrgb = mbox 24;
  lfb_addr = bit_and (mbox 28) 0x3FFFFFFF;
}

-- `struct framebuffer_info`
pub record FramebufferInfo : Type 0 where
  pub width : ℕ
  pub height : ℕ
  pub pitch : ℕ
  pub isrgb : ℕ

-- `dev_framebuffer_ioctl` on an `info` that is not NULL: `call` is `mailbox_call`, with the array
-- behind it, and `stack` what the array holds before
unfoldable pub dev_framebuffer_ioctl :
    ((ℕ → ℕ) → Bool × (ℕ → ℕ)) → (ℕ → ℕ) → Framebuffer → FramebufferInfo × Framebuffer
dev_framebuffer_ioctl call stack b =
    let (ok, mbox) = call (fill request 0 stack) in
    let b₁ = if ok && (mbox 20 == 32 && not (mbox 28 == 0)) then configure mbox b else b in
    (record { width = b₁.width; height = b₁.height; pitch = b₁.pitch; isrgb = b₁.isrgb }, b₁)
