-- ===== src/Vfs/Components.antt =====
-- Path lookup of src/fs_vfs.c as a walk over the list of the names in the path.
use nycu_osc.Prelude.{
  ℕ, zero, suc, ◌≤◌, ◌<◌, ◌≡◌, refl, sym, ap, ◌∙◌, true, false, none, some, List, [], ◌∷◌, ◌==◌,
  if◌then◌else◌, arith, length, Option, inl, inr, Bool-cases,
}
use nycu_osc.CString.{Text}
use nycu_osc.Vfs.{
  Vfs, skip_slashes, scan_component, is_empty, get_next_component, Walk, standing, failed, step,
  walk,
}

-- a word in front of words, where it is not empty
abbrev pub keep : Text → List Text → List Text
keep [] ws = ws
keep (c ∷ cs) ws = (c ∷ cs) ∷ ws

-- the word in front, and the words behind its slash, up to the end of the path
abbrev pub cut : Text → Text × List Text
cut [] = ([], [])
cut (c ∷ cs) =
    if c == 0
    then ([], [])
    else if c == b'/'
    then ([], keep (cut cs).0 (cut cs).1)
    else (c ∷ (cut cs).0, (cut cs).1)

-- the words between the slashes of a path
abbrev pub components : Text → List Text
components path = keep (cut path).0 (cut path).1

-- the walk along a list of names
abbrev pub follow : Vfs → List Text → Walk → Walk
follow s [] w = w
follow s (name ∷ names) (failed code target) = failed code target
follow s (name ∷ names) (standing v target) = follow s names (step s name v target)

follow_failed :
    (s : Vfs) (names : List Text) (code : _) (target : Option ℕ)
    → follow s names (failed code target) ≡ failed code target
follow_failed s [] code target = refl
follow_failed s (name ∷ names) code target = refl

skip_slashes-components : (p : Text) → components p ≡ components (skip_slashes p)
unfolding skip_slashes
skip_slashes-components [] = refl
skip_slashes-components (c ∷ cs) = elim (Bool-cases (c == b'/')) [
  | inl slash ↦
      let e : (c == 0) ≡ false = ground arith in rw (slash, e) (skip_slashes-components cs)
  | inr other ↦ let e : skip_slashes (c ∷ cs) ≡ c ∷ cs = rw other refl in ap components (sym e)
]

skip_slashes-length : (p : Text) → length (skip_slashes p) ≤ length p
unfolding skip_slashes
skip_slashes-length [] = omega arith
skip_slashes-length (c ∷ cs) = elim (Bool-cases (c == b'/')) [
  | inl slash ↦ rw slash (omega (arith, skip_slashes-length cs))
  | inr other ↦ rw other (omega arith)
]

-- What is left behind the slashes begins with a byte of a name, where it is not the end.
skip_slashes_head :
    (p : Text)
    → is_empty (skip_slashes p) ≡ false
    → (c : ℕ) × (cs : Text) × (skip_slashes p ≡ c ∷ cs) × ((c == 0) ≡ false) × ((c == b'/') ≡ false)
unfolding skip_slashes
skip_slashes_head [] h = cc
skip_slashes_head (d ∷ ds) h = elim (Bool-cases (d == b'/')) [
  | inl slash ↦ rw slash (skip_slashes_head ds (rw slash at h))
  | inr other ↦ rw other (d, ds, refl, rw other at h, other)
]

scan_component-cut : (p : Text) → cut p ≡ ((scan_component p).0, components (scan_component p).1)
unfolding scan_component
scan_component-cut [] = refl
scan_component-cut (c ∷ cs) = elim (Bool-cases (c == 0)) [
  | inl stop ↦ rw (stop, stop) refl
  | inr go ↦ elim (Bool-cases (c == b'/')) [
    | inl slash ↦ rw (go, slash) refl
    | inr other ↦ rw (go, other, scan_component-cut cs) refl
  ]
]

scan_component-length : (p : Text) → length (scan_component p).1 ≤ length p
unfolding scan_component
scan_component-length [] = omega arith
scan_component-length (c ∷ cs) = elim (Bool-cases (c == 0)) [
  | inl stop ↦ rw stop (omega arith)
  | inr go ↦ elim (Bool-cases (c == b'/')) [
    | inl slash ↦ rw (go, slash) (omega arith)
    | inr other ↦ rw (go, other) (omega (arith, scan_component-length cs))
  ]
]

components_empty : (p : Text) → is_empty p ≡ true → components p ≡ []
components_empty [] h = refl
components_empty (c ∷ cs) h = rw h refl

components_none : (p : Text) → is_empty (skip_slashes p) ≡ true → components p ≡ []
components_none p h = skip_slashes-components p ∙ components_empty (skip_slashes p) h

scan_first :
    (c : ℕ) (cs : Text)
    → (c == 0) ≡ false
    → (c == b'/') ≡ false
    → let r = scan_component (c ∷ cs) in
      (components (c ∷ cs) ≡ r.0 ∷ components r.1) × (length r.1 ≤ length cs)
unfolding scan_component
scan_first c cs go other =
    rw (go, other) (rw (scan_component-cut cs) refl, scan_component-length cs)

components_some :
    (p : Text)
    → is_empty (skip_slashes p) ≡ false
    → let r = scan_component (skip_slashes p) in
      (components p ≡ r.0 ∷ components r.1) × (length r.1 < length p)
components_some p h =
    let (c, cs, e, go, other) = skip_slashes_head p h in
    let (first, shorter) = scan_first c cs go other in
    let n : length cs < length p = omega (arith, skip_slashes-length p, ap length e) in
    (skip_slashes-components p ∙ rw e first, rw e (omega (arith, shorter, n)))

next_none : (p : Text) → is_empty (skip_slashes p) ≡ true → get_next_component p ≡ none
unfolding get_next_component
next_none p h = rw h refl

next_some :
    (p : Text)
    → is_empty (skip_slashes p) ≡ false
    → get_next_component p ≡ some (scan_component (skip_slashes p))
unfolding get_next_component
next_some p h = rw h refl

-- With as many rounds as the path has bytes, the loop of `vfs_lookup` is the walk along the names
-- between the slashes of the path: empty names do not count, and it stops at the first error.
pub walk-follow :
    (f : ℕ) (s : Vfs) (path : Text) (w : Walk)
    → length path ≤ f
    → walk f s path w ≡ follow s (components path) w
unfolding walk
walk-follow zero s [] w h = refl
walk-follow zero s (c ∷ cs) w h = absurd (omega (arith, h))
walk-follow (suc f) s path (failed code target) h =
    sym (follow_failed s (components path) code target)
walk-follow (suc f) s path (standing v target) h =
    elim (Bool-cases (is_empty (skip_slashes path))) [
      | inl stop ↦ rw (next_none path stop, walk, components_none path stop) refl
      | inr more ↦
          let (e, shorter) = components_some path more in
          let r = scan_component (skip_slashes path) in
          rw (next_some path more, walk, e)
            (walk-follow f s r.1 (step s r.0 v target) (omega arith))
    ]
