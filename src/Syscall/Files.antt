-- ===== src/Syscall/Files.antt =====
-- The system calls on files in src/syscall.c: descriptors, and the working directory.
use nycu_osc.Prelude.{
  ℕ, zero, suc, ◌+◌, ◌%◌, ◌^◌, ◌≤◌, ◌<◌, ◌≡◌, refl, ap, sym, ◌∙◌, inl, inr, Bool, true, false,
  Option, none, some, ◌==◌, if◌then◌else◌, leb, arith, ==_iff, ◌≢◌, Bool-cases, Option-cases,
  some_inj,
}
use nycu_osc.Prelude.Int.{ℤ, pos, negsuc, ◌==ℤ◌}
use nycu_osc.CString.{Text}
use nycu_osc.Vfs.{is_absolute, einterr_vfs, vfs_lookup}
use nycu_osc.Vfs.System.{System, Driver, view}
use nycu_osc.Vfs.Open.{vfs_open}
use nycu_osc.Fs.Long.{of_long, of_long_lem}
use nycu_osc.Syscall.{thread_max_fd, Calls, Heap, return, fd_of, path_of}
use nycu_osc.Syscall.FileCalls.{
  free_fd, set_fd, negate, store_fd, open_fd, sys_open, sys_close, sys_write, sys_read, sys_lseek64,
  sys_chdir,
}

-- the first descriptor that is not in use, in the places from `i` on
pub record IsFirst (table : ℕ → Option ℕ) (i n fd : ℕ) : Type 0 where
  pub low : i ≤ fd
  pub high : fd < i + n
  pub vacant : table fd ≡ none
  pub used : (k : ℕ) → i ≤ k → k < fd → table k ≢ none

free_fd-IsFirst :
    (n i fd : ℕ) (table : ℕ → Option ℕ) → free_fd n i table ≡ some fd → IsFirst table i n fd
unfolding free_fd
free_fd-IsFirst zero i fd table h = cc
free_fd-IsFirst (suc n) i fd table h = elim (Option-cases (table i)) [
  | inl free ↦
      let here : some i ≡ some fd = rw (free, free_fd) at h in
      let e : i ≡ fd = some_inj here in
      record {
        low = omega (arith, e);
        high = omega (arith, e);
        vacant = rw (sym e) free;
        used = λ k a b t. absurd (omega (arith, e, a, b));
      }
  | inr (f, taken) ↦
      let later : free_fd n (i + 1) table ≡ some fd = rw (taken, free_fd) at h in
      let r = free_fd-IsFirst n (i + 1) fd table later in
      record {
        low = let l = r.low in omega (arith, l);
        high = let l = r.high in omega (arith, l);
        vacant = r.vacant;
        used = λ k a b t. elim (Bool-cases (k == i)) [
          | inl same ↦
              let clash : none ≡ some f = sym t ∙ (ap table ((==_iff k i).0 same) ∙ taken) in cc
          | inr other ↦ r.used k (ground (arith, other, a)) b t
        ];
      }
]

-- The state behind a call of `sys_open` that chose the descriptor `fd`, by what `vfs_open` gives: the
-- handle is in the table, no other descriptor changes, and on success `x0` is the descriptor.
abbrev pub Opens :
    {D : Type 0} → ℕ → ℕ → Calls D → Option (ℤ × Option ℕ × System D) → Option (Calls D) → Type 0
Opens curr fd s none r = r ≡ none
Opens {D} curr fd s (some (ret, target, sys)) r =
    (s' : Calls D) × (r ≡ some s')
    × (s'.sys ≡ sys)
    × (s'.fd_table curr fd ≡ target)
    × ((k : ℕ) → (k == fd) ≡ false → s'.fd_table curr k ≡ s.fd_table curr k)
    × ((ret ==ℤ pos 0) ≡ true → s'.x 0 ≡ fd)

store_fd-Opens :
    {D : Type 0} (curr fd : ℕ) (s : Calls D) (r : Option (ℤ × Option ℕ × System D))
    → fd < 2 ^ 63
    → Opens curr fd s r (store_fd curr fd r s)
unfolding store_fd
store_fd-Opens curr fd s none h = refl
store_fd-Opens curr fd s (some (ret, target, sys)) h =
    let self : (curr == curr) ≡ true = ground arith in
    let own : (fd == fd) ≡ true = ground arith in
    (
      return (if ret ==ℤ pos 0 then pos fd else negate ret)
          (set_fd curr fd target (record s { sys = sys })),
      refl,
      refl,
      rw (self, own) refl,
      λ k ne. rw (self, ne) refl,
      λ ok. rw ok (of_long_lem fd h),
    )

-- The search finds a descriptor where one of its places is free.
free_fd-finds :
    (n i k : ℕ) (table : ℕ → Option ℕ)
    → i ≤ k
    → k < i + n
    → table k ≡ none
    → (fd : ℕ) × (free_fd n i table ≡ some fd)
unfolding free_fd
free_fd-finds zero i k table low high h = absurd (omega (arith, low, high))
free_fd-finds (suc n) i k table low high h = elim (Option-cases (table i)) [
  | inl free ↦ (i, rw (free, free_fd) refl)
  | inr (f, taken) ↦ elim (Bool-cases (k == i)) [
    | inl same ↦ let clash : none ≡ some f = sym h ∙ (ap table ((==_iff k i).0 same) ∙ taken) in cc
    | inr other ↦
        let (fd, e) =
          free_fd-finds n (i + 1) k table (ground (arith, other, low)) (omega arith) h in
        (fd, rw (taken, free_fd) e)
  ]
]

-- Where the path is neither NULL nor empty, and some descriptor `k` below 16 is not in use:
-- `sys_open` takes the first one that is free, and gives `vfs_open` its place. With the result of
-- `vfs_open` the handle is in that place, no other descriptor of the task changes, and `x0` is the
-- descriptor if the code is 0; it leaves C only if `vfs_open` does.
pub sys_open_lem :
    {D : Type 0} (h : Heap) (d : Driver D) (curr k : ℕ) (path : Text) (s : Calls D)
    → path_of (s.x 0) s ≡ some path
    → k < 16
    → s.fd_table curr k ≡ none
    → (fd : ℕ) × (fd ≤ k)
      × (s.fd_table curr fd ≡ none)
      × ((j : ℕ) → j < fd → s.fd_table curr j ≢ none)
      × Opens curr fd s
          (vfs_open h.copied h.handle d (some path) (s.x 1 % 2 ^ 32) s.sys)
          (sys_open h d curr s)
unfolding sys_open open_fd
sys_open_lem h d curr k path s named below vacant =
    let (fd, chosen) =
      free_fd-finds thread_max_fd 0 k (s.fd_table curr) (omega arith) (omega arith) vacant in
    let first = free_fd-IsFirst thread_max_fd 0 fd (s.fd_table curr) chosen in
    let high = first.high in
    (
      fd,
      elim (Bool-cases (leb fd k)) [
        | inl le ↦ ground arith
        | inr gt ↦ absurd (first.used k (omega arith) (ground arith) vacant)
      ],
      first.vacant,
      λ j less. first.used j (omega arith) less,
      rw (named, sys_open, chosen)
          (store_fd-Opens curr fd s
            (vfs_open h.copied h.handle d (some path) (s.x 1 % 2 ^ 32) s.sys)
            (omega (arith, high))),
    )

-- the working directory behind a path that is relative
lookup_cleared :
    {D : Type 0} (copied : Bool) (d : Driver D) (path : Text) (sys : System D)
    → is_absolute path ≡ false
    → sys.cwd ≡ none
    → copied ≡ true
    → vfs_lookup copied (some path) (view d sys) ≡ (einterr_vfs, none)
unfolding vfs_lookup
lookup_cleared copied d path sys relative cleared got = rw (got, relative, cleared) refl

-- Where the path is neither NULL nor empty, does not begin with a slash, and is copied: `sys_chdir`
-- fails with `EINTERR_VFS`, and leaves the task without a working directory.
pub sys_chdir_relative :
    {D : Type 0} (h : Heap) (d : Driver D) (path : Text) (s : Calls D)
    → path_of (s.x 0) s ≡ some path
    → is_absolute path ≡ false
    → h.copied 0 ≡ true
    → let s' = sys_chdir h d s in (s'.x 0 ≡ of_long einterr_vfs) × (s'.sys.cwd ≡ none)
unfolding sys_chdir
sys_chdir_relative h d path s named relative got =
    let e = lookup_cleared (h.copied 0) d path (record s.sys { cwd = none }) relative refl got in
    rw (named, sys_chdir, e) (refl, refl)

-- A descriptor that is out of range, below 0 or from 16 on: `sys_close`, `sys_write`, `sys_read` and
-- `sys_lseek64` return -1 and change nothing else.
pub bad_fd_lem :
    {D : Type 0} (d : Driver D) (curr : ℕ) (s : Calls D)
    → fd_of (s.x 0) ≡ none
    → let refused = return (negsuc 0) s in
      (sys_close d curr s ≡ refused)
      × (sys_write d curr s ≡ some refused)
      × (sys_read d curr s ≡ some refused)
      × (sys_lseek64 d curr s ≡ refused)
unfolding sys_close sys_write sys_read sys_lseek64
bad_fd_lem d curr s out =
    rw (out, sys_close, sys_write, sys_read, sys_lseek64) (refl, refl, refl, refl)
