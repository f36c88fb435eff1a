-- ===== src/Vfs/Lookup.antt =====
-- `vfs_lookup` of src/fs_vfs.c, its special cases included, as one walk.
use nycu_osc.Prelude.{
  ℕ, ◌≡◌, refl, sym, ap, ◌∙◌, true, none, some, [], ◌∷◌, ◌==◌, if◌then◌else◌, arith, length, Option,
  inl, inr, Bool-cases, some_inj,
}
use native.Mathlib.Nat.{le_refl}
use nycu_osc.Prelude.Int.{pos, ◌==ℤ◌, ==ℤ_iff}
use nycu_osc.CString.{Text, cstr, strcmp, strlen}
use nycu_osc.CString.Strcmp.{strcmp_zero_iff, strlen-cstr}
use nycu_osc.Vfs.{Vfs, standing, step, result, is_absolute, lookup_from, vfs_lookup}
use nycu_osc.Vfs.Components.{components, cut, keep, follow, walk-follow}

-- Names stop at the first NUL.
cut-cstr : (p : Text) → cut (cstr p) ≡ cut p
cut-cstr [] = refl
cut-cstr (c ∷ cs) = elim (Bool-cases (c == 0)) [
  | inl stop ↦ rw stop refl
  | inr go ↦ rw go (rw (go, cut-cstr cs) refl)
]

components_of_cstr : (p q : Text) → cstr p ≡ cstr q → components p ≡ components q
components_of_cstr p q e =
    let f : cut p ≡ cut q = sym (cut-cstr p) ∙ ap cut e ∙ cut-cstr q in ap (λ r. keep r.0 r.1) f

-- the texts that `strcmp` tests for
same_text : (p q : Text) → (strcmp p q ==ℤ pos 0) ≡ true → cstr p ≡ cstr q
same_text p q h = (strcmp_zero_iff p q).0 ((==ℤ_iff (strcmp p q) (pos 0)).0 h)

slash_is_absolute : (p : Text) → cstr p ≡ b'/' ∷ [] → is_absolute p ≡ true
slash_is_absolute [] e = cc
slash_is_absolute (c ∷ cs) e = ground arith

cstr_nil : (p : Text) → length (cstr p) ≡ 0 → cstr p ≡ []
cstr_nil p h = nil (cstr p) h
  where
    nil : (t : Text) → length t ≡ 0 → t ≡ []
    nil [] e = refl
    nil (x ∷ t) e = absurd (omega (arith, e))

step_dot : (s : Vfs) (v : ℕ) (target : Option ℕ) → step s (b'.' ∷ []) v target ≡ standing v target
unfolding step strcmp
step_dot s v target = refl

-- the vnode that a lookup begins at
abbrev pub start : Vfs → Text → Option ℕ
start s p = if is_absolute p then some s.root else s.cwd

lookup_from-follow :
    (s : Vfs) (p : Text) (v : ℕ)
    → start s p ≡ some v
    → lookup_from s p v ≡ result (follow s (components p) (standing v none))
unfolding lookup_from
lookup_from-follow s p v at = elim (Bool-cases (strcmp p (b'/' ∷ []) ==ℤ pos 0)) [
  | inl slash ↦
      let e = same_text p (b'/' ∷ []) slash in
      let root : some s.root ≡ some v = rw (slash_is_absolute p e) at at in
      rw (slash, components_of_cstr p (b'/' ∷ []) e, some_inj root) refl
  | inr other ↦ elim (Bool-cases (strlen p == 0)) [
    | inl empty ↦
        let n : strlen p ≡ 0 = ground arith in
        let e = cstr_nil p (sym (strlen-cstr p) ∙ n) in
        rw (other, empty, components_of_cstr p [] e) refl
    | inr some_name ↦ elim (Bool-cases (strcmp p (b'.' ∷ []) ==ℤ pos 0)) [
      | inl dot ↦
          let e = same_text p (b'.' ∷ []) dot in
          rw (other, some_name, dot, components_of_cstr p (b'.' ∷ []) e, step_dot s v none) refl
      | inr name ↦
          rw (other, some_name, name)
            (ap result (walk-follow (length p) s p (standing v none) (le_refl (length p))))
    ]
  ]
]

-- Where `strdup` gets memory, and the working directory is set for a path that does not begin with
-- a slash, `vfs_lookup` is the walk along the names in the path, from the root or from the working
-- directory: the special cases of the code agree with it.
pub vfs_lookup_lem :
    (s : Vfs) (p : Text) (v : ℕ)
    → start s p ≡ some v
    → vfs_lookup true (some p) s ≡ result (follow s (components p) (standing v none))
unfolding vfs_lookup
vfs_lookup_lem s p v at = elim (Bool-cases (is_absolute p)) [
  | inl absolute ↦
      let root : some s.root ≡ some v = rw absolute at at in
      rw absolute (ap (lookup_from s p) (some_inj root) ∙ lookup_from-follow s p v at)
  | inr relative ↦
      let cwd : s.cwd ≡ some v = rw relative at at in
      rw (relative, cwd) (lookup_from-follow s p v at)
]
