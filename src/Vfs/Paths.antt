-- ===== src/Vfs/Paths.antt =====
-- The last slash of a path, in `vfs_open` and `vfs_mkdir` of src/fs_vfs.c.
use nycu_osc.Prelude.{ℕ, ◌≡◌, refl, Bool, true, [], ◌∷◌, ◌++◌, length}
use nycu_osc.CString.{Text}
use nycu_osc.Vfs.System.{System}
use nycu_osc.Vfs.Open.{behind}

behind-append : (a b : Text) → behind (length a) (a ++ b) ≡ b
behind-append [] b = refl
behind-append (c ∷ a) b = behind-append a b

-- the memory for every copy of a path
abbrev pub all_copied : ℕ → Bool
all_copied n = true
