-- ===== src/Cpio/Newc.antt =====
-- The `newc` archives that src/cpio.c reads, as a program writes them.
use nycu_osc.Prelude.{
  ℕ, zero, suc, ◌+◌, ◌-◌, ◌/◌, ◌%◌, ◌^◌, ◌<◌, ◌≡◌, refl, ap, sym, ◌∙◌, inl, inr, Bool, true, false,
  ◌&&◌, List, [], ◌∷◌, ◌++◌, ◌==◌, leb, if◌then◌else◌, length, arith, Bool-cases, replicate,
  length-replicate,
}
use mathlib.Core.Path.{subst, ap₂}
use nycu_osc.Prelude.Store.{◌∉◌}
use nycu_osc.CString.{Text, strcmp}
use nycu_osc.CString.Memory.{Mem}
use nycu_osc.Utils.{hex_value, hex_loop, hex_to_uint, align, u32_mod}
use nycu_osc.Utils.Align.{align_four}
use nycu_osc.Uart.{puts}
use nycu_osc.Cpio.{text_at, equal}

-- a file of an archive: the fields that the kernel does not read, the name and the bytes
pub record Written : Type 0 where
  pub ids : Text
  pub devices : Text
  pub check : Text
  pub name : Text
  pub bytes : Text

-- a hexadecimal digit, and a field of eight digits
abbrev pub digit : ℕ → ℕ
digit n = if leb n 9 then n + b'0' else n - 10 + b'A'

abbrev pub field : ℕ → Text
field n =
    digit (n / 2 ^ 28 % 16)
    ∷ digit (n / 2 ^ 24 % 16)
    ∷ digit (n / 2 ^ 20 % 16)
    ∷ digit (n / 2 ^ 16 % 16)
    ∷ digit (n / 2 ^ 12 % 16)
    ∷ digit (n / 2 ^ 8 % 16)
    ∷ digit (n / 2 ^ 4 % 16)
    ∷ digit (n % 16)
    ∷ []

-- the NULs behind `n` bytes, up to a multiple of 4
abbrev pub pad : ℕ → Text
pad n = replicate ((4 - n % 4) % 4) 0

-- the name with its NUL
abbrev pub ended : Text → Text
ended name = name ++ (0 ∷ [])

-- a file in front of the bytes `rest`: the fields of the header, the name and the bytes, with padding
abbrev pub entry_before : Written → Text → Text
entry_before e rest =
    (b'0' ∷ b'7' ∷ b'0' ∷ b'7' ∷ b'0' ∷ b'1' ∷ [])
    ++ (e.ids
        ++ (field (length e.bytes)
            ++ (e.devices
                ++ (field (length e.name + 1)
                    ++ (e.check
                        ++ (ended e.name
                            ++ (pad (110 + (length e.name + 1))
                                ++ (e.bytes ++ (pad (length e.bytes) ++ rest)))))))))

-- an archive of files, and the entry at its end
abbrev pub archive : Written → List Written → Text
archive last [] = entry_before last []
archive last (e ∷ es) = entry_before e (archive last es)

-- the fields have their widths: 48 bytes before the size, 32 before the length of the name, and the
-- check sum; the name has no NUL, and fits in an array of 256 bytes with one
pub record IsWritten (e : Written) : Type 0 where
  pub ids : length e.ids ≡ 48
  pub devices : length e.devices ≡ 32
  pub check : length e.check ≡ 8
  pub name : 0 ∉ e.name
  pub short : length e.name < 256
  pub size : length e.bytes < 2 ^ 32 - 3

-- the names are the same
abbrev pub same_text : Text → Text → Bool
same_text [] [] = true
same_text [] (d ∷ t) = false
same_text (c ∷ s) [] = false
same_text (c ∷ s) (d ∷ t) = c == d && same_text s t

-- the name of the entry at the end
abbrev pub end_name : Text
end_name = b'T' ∷ b'R' ∷ b'A' ∷ b'I' ∷ b'L' ∷ b'E' ∷ b'R' ∷ b'!' ∷ b'!' ∷ b'!' ∷ []

-- every file is written so, and none is named as the end is
abbrev pub AllWritten : List Written → Type 0
AllWritten [] = Unit
AllWritten (e ∷ es) = IsWritten e × (same_text e.name end_name ≡ false) × AllWritten es

-- the memory holds the bytes from an address on
abbrev pub Holds : Mem → ℕ → Text → Type 0
Holds mem p [] = Unit
Holds mem p (c ∷ cs) = (mem p ≡ c) × Holds mem (p + 1) cs

pub holds_front :
    (mem : Mem) (p n : ℕ) (a b : Text) → Holds mem p (a ++ b) → length a ≡ n → text_at n p mem ≡ a
holds_front mem p n a b h e = ap (λ (k : ℕ). text_at k p mem) (sym e) ∙ go p a h
  where
    go : (p : ℕ) (a : Text) → Holds mem p (a ++ b) → text_at (length a) p mem ≡ a
    go p [] h = refl
    go p (c ∷ a) (at, h) = ap₂ (λ (x : ℕ) (l : Text). x ∷ l) at (go (p + 1) a h)

pub holds_behind :
    (mem : Mem) (p q : ℕ) (a b : Text) → Holds mem p (a ++ b) → p + length a ≡ q → Holds mem q b
holds_behind mem p q a b h e = subst (λ (t : ℕ). Holds mem t b) e (go p a h)
  where
    go : (p : ℕ) (a : Text) → Holds mem p (a ++ b) → Holds mem (p + length a) b
    go p [] h = subst (λ (t : ℕ). Holds mem t b) (omega arith) h
    go p (c ∷ a) (at, h) = subst (λ (t : ℕ). Holds mem t b) (omega arith) (go (p + 1) a h)

hex_value-digit : (n : ℕ) → n < 16 → hex_value (digit n) ≡ n
unfolding hex_value
hex_value-digit n h = ground arith

nibble : (d : ℕ) → hex_value (digit (d % 16)) ≡ d % 16
nibble d = hex_value-digit (d % 16) (omega arith)

pub hex_to_uint-field : (n : ℕ) → n < u32_mod → hex_to_uint (field n) ≡ n
unfolding hex_to_uint hex_loop
hex_to_uint-field n h = omega (
  arith,
  nibble (n / 2 ^ 28),
  nibble (n / 2 ^ 24),
  nibble (n / 2 ^ 20),
  nibble (n / 2 ^ 16),
  nibble (n / 2 ^ 12),
  nibble (n / 2 ^ 8),
  nibble (n / 2 ^ 4),
  nibble n,
)

pub align-pad : (n : ℕ) → n + 3 < u32_mod → align n 4 ≡ n + length (pad n)
align-pad n h =
    let (low, high, whole) = align_four n h in
    let len = length-replicate {A = ℕ} ((4 - n % 4) % 4) 0 in omega (arith, low, high, whole, len)

pub equal-ended : (s t : Text) → 0 ∉ s → 0 ∉ t → equal (ended s) t ≡ same_text s t
unfolding strcmp
equal-ended [] [] h k = refl
equal-ended [] (zero ∷ t) h k = cc
equal-ended [] (suc d ∷ t) h k = ground arith
equal-ended (zero ∷ s) t h k = cc
equal-ended (suc c ∷ s) [] h k = ground arith
equal-ended (suc c ∷ s) (d ∷ t) h k = ground (arith, equal-ended s t)

pub puts-ended : (s : Text) → puts (ended s) ≡ puts s
unfolding puts
puts-ended [] = refl
puts-ended (c ∷ s) = elim (Bool-cases (c == 0)) [
  | inl nul ↦ rw nul refl
  | inr more ↦ rw (more, puts-ended s) refl
]
