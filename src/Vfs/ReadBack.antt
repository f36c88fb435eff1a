-- ===== src/Vfs/ReadBack.antt =====
-- A write and a read through the calls of src/fs_vfs.c, on a file of the tmpfs.
use nycu_osc.Prelude.{
  ℕ, ◌+◌, ◌^◌, ◌<◌, ◌≡◌, sym, ap, ◌∙◌, false, Option, none, some, ◌==◌, arith, some_inj,
}
use nycu_osc.Prelude.Int.{ℤ, pos}
use nycu_osc.Prelude.Store.{update_self}
use mathlib.Core.Path.{subst}
use nycu_osc.CString.Memory.{Mem}
use nycu_osc.Fs.{Ops, tmpfs_ops, Fs, File}
use nycu_osc.Fs.Long.{to_int, of_long, to_int_lem, of_long_lem}
use nycu_osc.Fs.TmpfsFile.{tmpfs_write, tmpfs_read, tmpfs_lseek64}
use nycu_osc.Fs.TmpfsFile.ReadWrite.{IsOpen, Written, tmpfs_write_lem}
use nycu_osc.Fs.TmpfsFile.ReadBack.{read_back, seek_set}
use nycu_osc.Vfs.{enosys_vfs}
use nycu_osc.Vfs.Files.{op_of, vfs_write, vfs_read, vfs_lseek64}
use nycu_osc.Vfs.Kernel.{
  Kernel, next_allocs, took, with_code, wrote, read_bytes, some_buffer, kernel_write, kernel_read,
  kernel_lseek64, kernel_driver,
}

-- a file of the tmpfs
abbrev pub IsTmpfsFile : Fs → ℕ → Type 0
IsTmpfsFile fs f = (fs.files f).f_ops ≡ some tmpfs_ops

module _ (s : Kernel) (f len : ℕ) (buf : Mem) (h : IsTmpfsFile s.fs f) where
  vfs_write_tmpfs :
      0 < len
      → vfs_write kernel_driver (some f) (some buf) len s
        ≡ wrote (tmpfs_write (next_allocs s).buffer (some f) (some buf) len s.fs) s
  unfolding vfs_write kernel_write
  vfs_write_tmpfs some_len =
      let e : (len == 0) ≡ false = ground arith in
      rw e (
        ap
          (λ (o : Option Ops). elim (op_of o kernel_write) as (λ x. Option (ℤ × Kernel)) [
            | none ↦ some (enosys_vfs, s)
            | some write ↦ write f buf len s
          ])
          h)

  vfs_read_tmpfs :
      0 < len
      → vfs_read kernel_driver (some f) (some buf) len s
        ≡ read_bytes (some_buffer (tmpfs_read (some f) buf len s.fs)) s
  unfolding vfs_read kernel_read
  vfs_read_tmpfs some_len =
      let e : (len == 0) ≡ false = ground arith in
      rw e (
        ap
          (λ (o : Option Ops).
            elim (op_of o kernel_read) as (λ x. Option (ℤ × Option Mem × Kernel)) [
              | none ↦ some (enosys_vfs, some buf, s)
              | some read ↦ read f (some buf) len s
            ])
          h)

vfs_lseek64_tmpfs :
    (s : Kernel) (f : ℕ) (offset : ℤ) (whence : ℕ)
    → IsTmpfsFile s.fs f
    → vfs_lseek64 kernel_driver (some f) offset whence s ≡ (
        let r = with_code (tmpfs_lseek64 (some f) offset whence s.fs) s in
        (to_int (of_long r.0), r.1))
unfolding vfs_lseek64 kernel_lseek64
vfs_lseek64_tmpfs s f offset whence h =
    ap
      (λ (o : Option Ops). elim (op_of o kernel_lseek64) as (λ x. ℤ × Kernel) [
        | none ↦ (enosys_vfs, s)
        | some lseek64 ↦ let (ret, s') = lseek64 f offset whence s in (to_int (of_long ret), s')
      ])
      h

-- A write of the tmpfs and the seek back leave the table of operations.
write_seek-IsTmpfsFile :
    (s : Fs) (new_data buf : Mem) (len f i : ℕ) (s₁ : Fs)
    → IsOpen s f i
    → 0 < len
    → (s.files f).f_pos + len < 2 ^ 31
    → IsTmpfsFile s f
    → tmpfs_write (some new_data) (some f) (some buf) len s ≡ some (pos len, s₁)
    → IsTmpfsFile s₁ f × IsTmpfsFile (tmpfs_lseek64 (some f) (pos (s.files f).f_pos) 0 s₁).1 f
write_seek-IsTmpfsFile s new_data buf len f i s₁ own some_len fits h e =
    let p = (s.files f).f_pos in
    let (s₂, e₂, written) = tmpfs_write_lem s new_data buf len f i own some_len (omega arith) in
    let same : s₂ ≡ s₁ = ap (λ (r : ℤ × Fs). r.1) (some_inj (sym e₂ ∙ e)) in
    let w : Written s buf len f i s₁ = subst (Written s buf len f i) same written in
    let sought = seek_set s₁ f i p w.opened (omega arith) in
    (
      w.ops ∙ h,
      subst (λ t. IsTmpfsFile t f) (sym (ap (λ (r : ℤ × Fs). r.1) sought))
          (ap File.f_ops (update_self s₁.files f (record (s₁.files f) { f_pos = p })) ∙ w.ops ∙ h),
    )

-- What is written through `vfs_write` to an open file of the tmpfs, at a position below 2^31 and where
-- `alloc` serves the operation, is what `vfs_read` of the same length returns behind `vfs_lseek64`
-- back to that position, with the operations of the kernel's file systems and devices.
pub vfs_read_back :
    (s : Kernel) (new_data buf out : Mem) (len f i : ℕ)
    → IsOpen s.fs f i
    → IsTmpfsFile s.fs f
    → (next_allocs s).buffer ≡ some new_data
    → 0 < len
    → (s.fs.files f).f_pos + len < 2 ^ 31
    → let p = (s.fs.files f).f_pos in
      (s₁ : Kernel) × (out' : Mem) × (s₂ : Kernel) × (vfs_write kernel_driver
          (some f)
          (some buf)
          len
          s
        ≡ some (pos len, s₁))
      × ((vfs_lseek64 kernel_driver (some f) (pos p) 0 s₁).0 ≡ pos p)
      × (vfs_read kernel_driver
            (some f)
            (some out)
            len
            (vfs_lseek64 kernel_driver (some f) (pos p) 0 s₁).1
          ≡ some (pos len, some out', s₂))
      × ((k : ℕ) → k < len → out' k ≡ buf k)
vfs_read_back s new_data buf out len f i own h memory some_len fits =
    let p = (s.fs.files f).f_pos in
    let (fs₁, out', fs₂, e₁, e₂, e₃, same) =
      read_back s.fs new_data buf out len f i own some_len fits in
    let (h₁, h₂) = write_seek-IsTmpfsFile s.fs new_data buf len f i fs₁ own some_len fits h e₁ in
    let s₁ = took fs₁ s in
    let sought = vfs_lseek64_tmpfs s₁ f (pos p) 0 h₁ in
    let s₃ = record s₁ { fs = (tmpfs_lseek64 (some f) (pos p) 0 fs₁).1 } in
    (
      s₁,
      out',
      record s₃ { fs = fs₂ },
      vfs_write_tmpfs s f len buf h some_len
          ∙ ap (λ o. wrote (tmpfs_write o (some f) (some buf) len s.fs) s) memory
          ∙ ap (λ (r : Option (ℤ × Fs)). wrote r s) e₁,
      ap (λ (r : ℤ × Kernel). r.0) sought
          ∙ ap (λ (z : ℤ). to_int (of_long z)) e₂
          ∙ ap to_int (of_long_lem p (omega arith))
          ∙ to_int_lem p (omega arith),
      ap (λ (r : ℤ × Kernel). vfs_read kernel_driver (some f) (some out) len r.1) sought
          ∙ vfs_read_tmpfs s₃ f len out h₂ some_len
          ∙ ap (λ (r : Option (ℤ × Mem × Fs)). read_bytes (some_buffer r) s₃) e₃,
      same,
    )
