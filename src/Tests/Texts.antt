-- ===== src/Tests/Texts.antt =====
-- The strings, numbers and byte order of src/string.c and src/utils.c.
use nycu_osc.Prelude.{◌≡◌, [], ◌∷◌, arith}
use nycu_osc.Prelude.Int.{pos}
use nycu_osc.CString.{Text}
use nycu_osc.CString.Memory.{Mem}
use nycu_osc.Utils.{atoi, itoa}
use nycu_osc.Utils.Decimal.{atoi-itoa}

abbrev ls : Text
ls = b'l' ∷ b's' ∷ []

abbrev ls_nul : Text
ls_nul = b'l' ∷ b's' ∷ 0 ∷ b'x' ∷ []

-- the memory whose byte at every address is the address
abbrev addresses : Mem
addresses a = a

atoi-itoa_example : atoi (itoa (pos 1205)) ≡ 1205
atoi-itoa_example = atoi-itoa 1205 (omega arith)
