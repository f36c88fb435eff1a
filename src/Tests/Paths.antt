-- ===== src/Tests/Paths.antt =====
-- Path lookup of src/fs_vfs.c.
use nycu_osc.Prelude.{◌+◌, ◌-◌, ◌≡◌, refl, true, false, none, some, [], ◌∷◌, arith}
use nycu_osc.Prelude.Int.{pos}
use nycu_osc.CString.{Text}
use nycu_osc.Fs.{tmpfs_ops}
use nycu_osc.Vfs.{Vfs, standing, walk, result, vfs_lookup}
use nycu_osc.Vfs.Components.{components, follow, walk-follow}
use nycu_osc.Vfs.Lookup.{vfs_lookup_lem}

-- below every vnode, each name is the next vnode
abbrev chain : Vfs
chain = record {
  root = 0;
  mount_root = λ m. 0;
  vnode = λ v. record {
    mount = none;
    v_ops = tmpfs_ops;
    f_ops = tmpfs_ops;
    internal = some v;
    parent = some (v - 1);
    parent_is_mount = false;
  };
  cwd = some 7;
  lookup = λ v name. some (pos 0, some (v + 1));
}

-- `/a//..`
abbrev slashes : Text
slashes = b'/' ∷ b'a' ∷ b'/' ∷ b'/' ∷ b'.' ∷ b'.' ∷ []

-- `a/b`
abbrev relative : Text
relative = b'a' ∷ b'/' ∷ b'b' ∷ []

vfs_lookup_lem_example :
    vfs_lookup true (some relative) chain
    ≡ result (follow chain (components relative) (standing 7 none))
vfs_lookup_lem_example = vfs_lookup_lem chain relative 7 refl

walk-follow_example :
    walk 6 chain slashes (standing 0 none) ≡ follow chain (components slashes) (standing 0 none)
walk-follow_example = walk-follow 6 chain slashes (standing 0 none) (omega arith)
