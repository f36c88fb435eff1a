-- ===== src/Syscall/Fork/Copies.antt =====
-- The copies that `sys_fork` makes, byte by byte.
use nycu_osc.Prelude.{ℕ, ◌+◌, ◌^◌, ◌≤◌, ◌<◌, ◌≡◌, inl, inr, sym, ap, ◌∙◌, arith}
use mathlib.Core.Path.{subst}
use nycu_osc.CString.Memory.{Mem, memcpy}
use nycu_osc.Sched.Create.{Thread, thread_stack_size}
use nycu_osc.Syscall.Fork.{
  put_long, get_long, moved, u64_mod, frame_size, sp_el0_offset, copy_frames,
}
use nycu_osc.Syscall.Fork.Frames.{
  IsOutside, AreApart, memcpy_outside, memcpy_inside, put_long_outside, get_long-put_long,
  get_long_same,
}

apart_part : (n p q i j k : ℕ) → AreApart n p q → i < n → j + k ≤ n → IsOutside (p + i) (q + j) k
apart_part n p q i j k (inl h) hi hk = inl (omega arith)
apart_part n p q i j k (inr h) hi hk = inr (omega arith)

apart_block : (n p q i : ℕ) → AreApart n p q → i < n → IsOutside (p + i) q n
apart_block n p q i (inl h) hi = inl (omega arith)
apart_block n p q i (inr h) hi = inr (omega arith)

apart_parts : (n p q j k : ℕ) → AreApart n p q → j + k ≤ n → AreApart k (p + j) (q + j)
apart_parts n p q j k (inl h) hk = inl (omega arith)
apart_parts n p q j k (inr h) hk = inr (omega arith)

swap : (n p q : ℕ) → AreApart n p q → AreApart n q p
swap n p q (inl h) = inr h
swap n p q (inr h) = inl h

-- The four stacks share nothing and lie in the lower half of the memory, and the parent's frame is
-- `off` bytes into its kernel stack.
pub record Layout (p : Thread) (kernel_stack user_stack off : ℕ) : Type 0 where
  pub users : AreApart thread_stack_size user_stack p.user_stack
  pub kernels : AreApart thread_stack_size kernel_stack p.kernel_stack
  pub user_kernel : AreApart thread_stack_size user_stack kernel_stack
  pub user_parent : AreApart thread_stack_size user_stack p.kernel_stack
  pub fits : off + frame_size ≤ thread_stack_size
  pub low : (kernel_stack < 2 ^ 63) × (p.kernel_stack < 2 ^ 63)

module _ (p : Thread) (ks us off id : ℕ) (m : Mem) (l : Layout p ks us off) where
  abbrev frame : ℕ
  frame = p.kernel_stack + off

  abbrev child_frame : ℕ
  child_frame = ks + off

  abbrev m₁ : Mem
  m₁ = memcpy us p.user_stack thread_stack_size m

  abbrev m₂ : Mem
  m₂ = memcpy ks p.kernel_stack thread_stack_size m₁

  abbrev m₃ : Mem
  m₃ = memcpy child_frame frame frame_size m₂

  abbrev m₄ : Mem
  m₄ = put_long child_frame 0 m₃

  abbrev sp : ℕ
  sp = moved us (get_long (frame + sp_el0_offset) m₄) p.user_stack

  abbrev m₅ : Mem
  m₅ = put_long (child_frame + sp_el0_offset) sp m₄

  abbrev m₆ : Mem
  m₆ = put_long frame id m₅

  moved-frame : moved ks frame p.kernel_stack ≡ child_frame
  moved-frame = let (a, b) = l.low in let f = l.fits in omega (arith, a, b, f)

  pub copied : put_long frame id (copy_frames p ks us frame m) ≡ m₆
  unfolding copy_frames
  copied =
      ap
        (λ (c : ℕ).
          let n₃ = memcpy c frame frame_size m₂ in
          let n₄ = put_long c 0 n₃ in
          put_long frame id (
            put_long (c + sp_el0_offset)
              (moved us (get_long (frame + sp_el0_offset) n₄) p.user_stack) n₄))
        moved-frame

  -- the bytes of the user stack
  pub user_bytes : (i : ℕ) → i < thread_stack_size → m₆ (us + i) ≡ m (p.user_stack + i)
  user_bytes i h =
      let fits = l.fits in
      let e : child_frame + sp_el0_offset ≡ ks + (off + sp_el0_offset) = omega arith in
      put_long_outside frame id (us + i) m₅
        (apart_part thread_stack_size us p.kernel_stack i off 8 l.user_parent h (omega arith))
      ∙ put_long_outside (child_frame + sp_el0_offset) sp (us + i) m₄ (
          subst (λ (t : ℕ). IsOutside (us + i) t 8) (sym e)
            (apart_part thread_stack_size us ks i (off + sp_el0_offset) 8 l.user_kernel h
              (omega arith)))
      ∙ put_long_outside child_frame 0 (us + i) m₃
          (apart_part thread_stack_size us ks i off 8 l.user_kernel h (omega arith))
      ∙ memcpy_outside child_frame frame frame_size (us + i) m₂
          (apart_parts thread_stack_size ks p.kernel_stack off frame_size l.kernels fits)
          (apart_part thread_stack_size us ks i off frame_size l.user_kernel h fits)
      ∙ memcpy_outside ks p.kernel_stack thread_stack_size (us + i) m₁ l.kernels
          (apart_block thread_stack_size us ks i l.user_kernel h)
      ∙ memcpy_inside us p.user_stack thread_stack_size i m l.users h

  -- the parent's frame behind the copies of the stacks
  parent_bytes : (j : ℕ) → j < frame_size → m₂ (frame + j) ≡ m (frame + j)
  parent_bytes j h =
      let fits = l.fits in
      let e : frame + j ≡ p.kernel_stack + (off + j) = omega arith in
      let in_stack : off + j < thread_stack_size = omega arith in
      memcpy_outside ks p.kernel_stack thread_stack_size (frame + j) m₁ l.kernels (
        subst (λ (t : ℕ). IsOutside t ks thread_stack_size) (sym e)
          (apart_block thread_stack_size p.kernel_stack ks (off + j)
            (swap thread_stack_size ks p.kernel_stack l.kernels) in_stack))
      ∙ memcpy_outside us p.user_stack thread_stack_size (frame + j) m l.users (
          subst (λ (t : ℕ). IsOutside t us thread_stack_size) (sym e)
            (apart_block thread_stack_size p.kernel_stack us (off + j)
              (swap thread_stack_size us p.kernel_stack l.user_parent) in_stack))

  frame_copy : (j : ℕ) → j < frame_size → m₃ (child_frame + j) ≡ m (frame + j)
  frame_copy j h =
      memcpy_inside child_frame frame frame_size j m₂
        (apart_parts thread_stack_size ks p.kernel_stack off frame_size l.kernels l.fits) h
      ∙ parent_bytes j h

  -- the last write is to the parent's frame
  child_keeps : (j : ℕ) → j < frame_size → m₆ (child_frame + j) ≡ m₅ (child_frame + j)
  child_keeps j h =
      let fits = l.fits in
      let e : child_frame + j ≡ ks + (off + j) = omega arith in
      put_long_outside frame id (child_frame + j) m₅ (
        subst (λ (t : ℕ). IsOutside t frame 8) (sym e)
          (apart_part thread_stack_size ks p.kernel_stack (off + j) off 8 l.kernels (omega arith)
            (omega arith)))

  -- the bytes of the frame but `x0` and `sp_el0`
  pub frame_bytes :
      (j : ℕ)
      → j < frame_size
      → 8 ≤ j
      → IsOutside j sp_el0_offset 8
      → m₆ (child_frame + j) ≡ m (frame + j)
  frame_bytes j h low out =
      child_keeps j h
      ∙ put_long_outside (child_frame + sp_el0_offset) sp (child_frame + j) m₄ (shift out)
      ∙ put_long_outside child_frame 0 (child_frame + j) m₃ (inr (omega arith))
      ∙ frame_copy j h
    where
      shift :
          IsOutside j sp_el0_offset 8 → IsOutside (child_frame + j) (child_frame + sp_el0_offset) 8
      shift (inl k) = inl (omega arith)
      shift (inr k) = inr (omega arith)

  pub child_x0 : get_long child_frame m₆ ≡ 0
  child_x0 =
      get_long_same child_frame child_frame m₆ m₄ (λ i h.
        child_keeps i (omega arith)
        ∙ put_long_outside (child_frame + sp_el0_offset) sp (child_frame + i) m₄
            (inl (omega arith)))
      ∙ get_long-put_long child_frame 0 m₃ (omega arith)

  parent_keeps : (j : ℕ) → j < frame_size → m₄ (frame + j) ≡ m (frame + j)
  parent_keeps j h =
      let fits = l.fits in
      let e : frame + j ≡ p.kernel_stack + (off + j) = omega arith in
      let other = swap thread_stack_size ks p.kernel_stack l.kernels in
      put_long_outside child_frame 0 (frame + j) m₃ (
        subst (λ (t : ℕ). IsOutside t child_frame 8) (sym e)
          (apart_part thread_stack_size p.kernel_stack ks (off + j) off 8 other (omega arith)
            (omega arith)))
      ∙ memcpy_outside child_frame frame frame_size (frame + j) m₂
          (apart_parts thread_stack_size ks p.kernel_stack off frame_size l.kernels fits)
          (subst (λ (t : ℕ). IsOutside t child_frame frame_size) (sym e)
            (apart_part thread_stack_size p.kernel_stack ks (off + j) off frame_size other
              (omega arith) fits))
      ∙ parent_bytes j h

  parent_sp : get_long (frame + sp_el0_offset) m₄ ≡ get_long (frame + sp_el0_offset) m
  parent_sp = get_long_same (frame + sp_el0_offset) (frame + sp_el0_offset) m₄ m (λ i h.
      let e : frame + (sp_el0_offset + i) ≡ frame + sp_el0_offset + i = omega arith in
      subst (λ (t : ℕ). m₄ t ≡ m t) e (parent_keeps (sp_el0_offset + i) (omega arith)))

  pub child_sp :
      get_long (child_frame + sp_el0_offset) m₆
      ≡ moved us (get_long (frame + sp_el0_offset) m) p.user_stack
  child_sp =
      get_long_same (child_frame + sp_el0_offset) (child_frame + sp_el0_offset) m₆ m₅ (λ i h.
        let e : child_frame + (sp_el0_offset + i) ≡ child_frame + sp_el0_offset + i = omega arith in
        subst (λ (t : ℕ). m₆ t ≡ m₅ t) e (child_keeps (sp_el0_offset + i) (omega arith)))
      ∙ get_long-put_long (child_frame + sp_el0_offset) sp m₄ (omega arith)
      ∙ ap (λ (t : ℕ). moved us t p.user_stack) parent_sp

  pub parent_x0 : id < u64_mod → get_long frame m₆ ≡ id
  parent_x0 h = get_long-put_long frame id m₅ h
