-- ===== src/CString/Strcmp.antt =====
-- `strcmp`, `strlen` and `strdup` of src/string.c against the bytes before the first NUL.
use nycu_osc.Prelude.{
  ℕ, ◌+◌, ◌≡◌, ◌↔◌, refl, some, true, [], ◌∷◌, ◌==◌, arith, length, ap, Bool-cases, inl, inr,
}
use nycu_osc.Prelude.Int.{pos}
use nycu_osc.CString.{Text, cstr, strcmp, strlen, strlen_from, strdup, copy_bytes}

strcmp_refl : (s t : Text) → cstr s ≡ cstr t → strcmp s t ≡ pos 0
unfolding strcmp
strcmp_refl [] [] e = refl
strcmp_refl [] (d ∷ ds) e = ground arith
strcmp_refl (c ∷ cs) [] e = ground arith
strcmp_refl (c ∷ cs) (d ∷ ds) e = ground (arith, strcmp_refl cs ds)

eq_of_strcmp : (s t : Text) → strcmp s t ≡ pos 0 → cstr s ≡ cstr t
unfolding strcmp
eq_of_strcmp [] [] e = refl
eq_of_strcmp [] (d ∷ ds) e = ground arith
eq_of_strcmp (c ∷ cs) [] e = ground arith
eq_of_strcmp (c ∷ cs) (d ∷ ds) e = ground (arith, eq_of_strcmp cs ds)

-- `strcmp` returns 0 exactly on two strings with the same bytes before the first NUL.
pub strcmp_zero_iff : (s t : Text) → (strcmp s t ≡ pos 0) ↔ (cstr s ≡ cstr t)
strcmp_zero_iff s t = (eq_of_strcmp s t, strcmp_refl s t)

strlen_from-cstr : (n : ℕ) (s : Text) → strlen_from n s ≡ n + length (cstr s)
unfolding strlen_from
strlen_from-cstr n [] = omega arith
strlen_from-cstr n (c ∷ cs) = ground (arith, strlen_from-cstr (n + 1) cs)

pub strlen-cstr : (s : Text) → strlen s ≡ length (cstr s)
unfolding strlen
strlen-cstr s = omega (arith, strlen_from-cstr 0 s)

copy_bytes-cstr : (s : Text) → copy_bytes (length (cstr s)) s ≡ cstr s
unfolding copy_bytes
copy_bytes-cstr [] = refl
copy_bytes-cstr (c ∷ cs) = elim (Bool-cases (c == 0)) [
  | inl stop ↦ rw stop
  | inr go ↦ rw go (ap (λ t. c ∷ t) (copy_bytes-cstr cs))
]

-- Where memory is given, `strdup` returns the bytes before the first NUL.
pub strdup-cstr : (s : Text) → strdup true s ≡ some (cstr s)
unfolding strdup
strdup-cstr s = rw (strlen-cstr s, copy_bytes-cstr s)
