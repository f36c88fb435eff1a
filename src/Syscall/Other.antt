-- ===== src/Syscall/Other.antt =====
-- The system calls of src/syscall.c to the mailbox and the frame buffer, and the checks of `sys_exec`.
use nycu_osc.Prelude.{
  ℕ, ◌+◌, ◌*◌, ◌%◌, ◌^◌, Bool, ◌||◌, Option, none, some, ◌==◌, ltb, if◌then◌else◌,
}
use nycu_osc.Prelude.Int.{pos}
use nycu_osc.CString.{Text}
use nycu_osc.CString.Memory.{Mem}
use nycu_osc.Fs.{einval_vfs}
use nycu_osc.Dev.{Framebuffer, FramebufferInfo, dev_framebuffer_ioctl}
use nycu_osc.Syscall.{Calls, return, path_of}

-- the `unsigned int` at an address, and the memory with one
abbrev pub get_word : Mem → ℕ → ℕ
get_word mem p = mem p + mem (p + 1) * 2 ^ 8 + mem (p + 2) * 2 ^ 16 + mem (p + 3) * 2 ^ 24

-- `sys_mbox_call`: `call` is `mailbox_call`, with what it returns and the memory behind it
unfoldable pub sys_mbox_call : {D : Type 0} → (ℕ → ℕ → Mem → ℕ × Mem) → Calls D → Calls D
sys_mbox_call call s =
    let channel = s.x 0 % 2 ^ 8 in
    if s.x 1 == 0 || ltb 16 channel
    then s
    else (let (ret, m) = call (s.x 1) channel s.mem in
        let s₁ = record s { mem = m } in
        if ret == 0 then s₁ else return (pos (get_word m (s.x 1 + 4))) s₁)

-- `sys_exec`: `exec` is `_exec` of the program's name
unfoldable pub sys_exec :
    {D : Type 0} → (Text → Calls D → Option (Calls D)) → Calls D → Option (Calls D)
sys_exec exec s = elim (path_of (s.x 0) s) [ none ↦ some s | some name ↦ exec name s ]

-- `sys_ioctl`: `store` writes the four fields to the address that the program gave
unfoldable pub sys_ioctl :
    {D : Type 0}
    → ((ℕ → ℕ) → Bool × (ℕ → ℕ))
    → (ℕ → ℕ)
    → (FramebufferInfo → ℕ → Mem → Mem)
    → Framebuffer
    → Calls D
    → Framebuffer × Calls D
unfolding dev_framebuffer_ioctl
sys_ioctl call stack store b s =
    if s.x 2 == 0
    then (b, return einval_vfs s)
    else (let (info, b₁) = dev_framebuffer_ioctl call stack b in
        (b₁, return (pos 0) (record s { mem = store info (s.x 2) s.mem })))
