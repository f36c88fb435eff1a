-- ===== src/Fs/TmpfsFile/ReadBack.antt =====
-- Reading and seeking in a file of src/fs_tmpfs.c.
use nycu_osc.Prelude.{
  ℕ, ◌+◌, ◌-◌, ◌%◌, ◌^◌, ◌≤◌, ◌<◌, ◌≡◌, refl, ap, ◌∙◌, true, false, Option, some, ◌==◌, leb, min,
  arith, inl, inr, Bool-cases,
}
use nycu_osc.Prelude.Int.{ℤ, pos}
use nycu_osc.Prelude.Store.{update_self}
use nycu_osc.CString.Memory.{Mem, copy, copy_lem}
use nycu_osc.Fs.{File, Fs, set_file}
use nycu_osc.Fs.Long.{u64_mod, to_int, to_int_lem, to_long_lem, of_long_lem}
use nycu_osc.Fs.TmpfsFile.{tmpfs_write, read_node, tmpfs_read, tmpfs_lseek64, readable}
use nycu_osc.Fs.TmpfsFile.ReadWrite.{IsOpen, byte, tmpfs_write_lem}

-- the number of bytes between the position and the end of the file, at most `len`
abbrev pub left : Fs → ℕ → ℕ → ℕ → ℕ
left s f i len = min len ((s.nodes i).size - (s.files f).f_pos)

abbrev pub moved : Fs → ℕ → ℕ → Fs
moved s f p = set_file f (record (s.files f) { f_pos = p }) s

-- `out` with the `n` bytes from `p` on of the contents in front
pub record Filled (contents : Option Mem) (p n : ℕ) (out out' : Mem) : Type 0 where
  pub front : (k : ℕ) → k < n → out' k ≡ byte contents (p + k)
  pub back : (k : ℕ) → n ≤ k → out' k ≡ out k

copy-Filled : (bytes out : Mem) (p n : ℕ) → Filled (some bytes) p n out (copy 0 out p bytes n)
copy-Filled bytes out p n = record {
  front = λ k h. copy_lem 0 p n out bytes k ∙ ground arith;
  back = λ k h. copy_lem 0 p n out bytes k ∙ ground arith;
}

tmpfs_read-eof :
    (s : Fs) (out : Mem) (len f i : ℕ)
    → IsOpen s f i
    → 0 < len
    → leb (s.nodes i).size (s.files f).f_pos ≡ true
    → tmpfs_read (some f) out len s ≡ some (to_int 0, out, s)
unfolding tmpfs_read read_node to_int
tmpfs_read-eof s out len f i own some_len eof =
    let some_bytes : (len == 0) ≡ false = ground arith in
    rw (own.node, some_bytes, tmpfs_read, own.is_file, eof, read_node) refl

tmpfs_read-data :
    (s : Fs) (out bytes : Mem) (len n f i : ℕ)
    → IsOpen s f i
    → 0 < len
    → leb (s.nodes i).size (s.files f).f_pos ≡ false
    → (s.nodes i).contents ≡ some bytes
    → readable (s.files f).f_pos len (s.nodes i).size ≡ n
    → ((s.files f).f_pos + n) % u64_mod ≡ (s.files f).f_pos + n
    → n % 2 ^ 32 ≡ n
    → tmpfs_read (some f) out len s
      ≡ some (to_int n, copy 0 out (s.files f).f_pos bytes n, moved s f ((s.files f).f_pos + n))
unfolding tmpfs_read read_node
tmpfs_read-data s out bytes len n f i own some_len more at n_eq e whole =
    let some_bytes : (len == 0) ≡ false = ground arith in
    rw (own.node, some_bytes, tmpfs_read, own.is_file, more, at, n_eq, e, whole, read_node) refl

-- A read of at least one byte from an open file returns the number of bytes between the position
-- and the end of the file, at most the length asked for, copies those bytes to the front of the
-- caller's buffer and nothing else, and moves the position behind them.
pub tmpfs_read_lem :
    (s : Fs) (out : Mem) (len f i : ℕ)
    → IsOpen s f i
    → 0 < len
    → (s.files f).f_pos + len < 2 ^ 31
    → let n = left s f i len in
      let p = (s.files f).f_pos in
      (out' : Mem) × (s' : Fs) × (tmpfs_read (some f) out len s ≡ some (to_int n, out', s'))
      × Filled (s.nodes i).contents p n out out'
      × ((s'.files f).f_pos ≡ p + n)
      × (s'.nodes ≡ s.nodes)
unfolding copy
tmpfs_read_lem s out len f i own some_len fits =
    let p : ℕ = (s.files f).f_pos in
    let (bytes, at) = own.buffered in
    elim (Bool-cases (leb (s.nodes i).size p)) [
      | inl eof ↦
          let none_left : left s f i len ≡ 0 = ground arith in
          rw none_left (
            out,
            s,
            tmpfs_read-eof s out len f i own some_len eof,
            rw at (copy-Filled bytes out p 0),
            omega arith,
            refl,
          )
      | inr more ↦
          let n_eq : readable p len (s.nodes i).size ≡ left s f i len = ground arith in
          let e : (p + left s f i len) % u64_mod ≡ p + left s f i len = omega arith in
          (
            copy 0 out p bytes (left s f i len),
            moved s f (p + left s f i len),
            tmpfs_read-data s out bytes len (left s f i len) f i own some_len more at n_eq e
                (omega arith),
            rw at (copy-Filled bytes out p (left s f i len)),
            ap File.f_pos
                (update_self s.files f (record (s.files f) { f_pos = p + left s f i len })),
            refl,
          )
    ]

-- `lseek64` with `SEEK_SET` puts the position of an open file where it is told, below 2^63.
pub seek_set :
    (s : Fs) (f i p : ℕ)
    → IsOpen s f i
    → p < 2 ^ 63
    → tmpfs_lseek64 (some f) (pos p) 0 s ≡ (pos p, moved s f p)
unfolding tmpfs_lseek64
seek_set s f i p own h =
    let e = of_long_lem p h in
    let l = to_long_lem p h in rw (own.node, own.is_file, tmpfs_lseek64, e, l) refl

moved-IsOpen : (s : Fs) (f i p : ℕ) → IsOpen s f i → IsOpen (moved s f p) f i
moved-IsOpen s f i p own = record {
  node = rw (update_self s.files f (record (s.files f) { f_pos = p })) own.node;
  is_file = own.is_file;
  buffered = own.buffered;
  room = own.room;
  capacity_pos = own.capacity_pos;
  capacity_fits = own.capacity_fits;
}

-- What is written to an open file, at a position below 2^31 and where `alloc` serves it, is what
-- a read of the same length returns after a seek back to that position.
pub read_back :
    (s : Fs) (new_data buf out : Mem) (len f i : ℕ)
    → IsOpen s f i
    → 0 < len
    → (s.files f).f_pos + len < 2 ^ 31
    → let p = (s.files f).f_pos in
      (s₁ : Fs) × (out' : Mem) × (s₂ : Fs) × (tmpfs_write (some new_data) (some f) (some buf) len s
        ≡ some (pos len, s₁))
      × ((tmpfs_lseek64 (some f) (pos p) 0 s₁).0 ≡ pos p)
      × (tmpfs_read (some f) out len (tmpfs_lseek64 (some f) (pos p) 0 s₁).1
          ≡ some (pos len, out', s₂))
      × ((k : ℕ) → k < len → out' k ≡ buf k)
read_back s new_data buf out len f i own some_len fits =
    let p : ℕ = (s.files f).f_pos in
    let (s₁, wrote, w) = tmpfs_write_lem s new_data buf len f i own some_len (omega arith) in
    let seek = seek_set s₁ f i p w.opened (omega arith) in
    let back : ((moved s₁ f p).files f).f_pos ≡ p =
      ap File.f_pos (update_self s₁.files f (record (s₁.files f) { f_pos = p })) in
    let (out', s₂, read, filled, at, same) =
      tmpfs_read_lem (moved s₁ f p) out len f i (moved-IsOpen s₁ f i p w.opened) some_len
        (omega (arith, back)) in
    let n : left (moved s₁ f p) f i len ≡ len = ground (arith, back, w.size) in
    let int = to_int_lem len (omega arith) in
    (
      s₁,
      out',
      s₂,
      wrote,
      ap (λ r. r.0) seek,
      rw seek (read ∙ ap (λ (c : ℤ). some (c, out', s₂)) (ap to_int n ∙ int)),
      λ k h.
          filled.front k (omega (arith, n))
          ∙ ap (λ (q : ℕ). byte (s₁.nodes i).contents (q + k)) back
          ∙ w.new k h,
    )
