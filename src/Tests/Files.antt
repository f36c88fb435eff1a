-- ===== src/Tests/Files.antt =====
-- A directory and a file of src/fs_tmpfs.c.
use nycu_osc.Prelude.{
  ℕ, ◌+◌, ◌<◌, ◌≡◌, ◌≢◌, refl, true, false, none, some, [], ◌∷◌, ◌==◌, if◌then◌else◌, arith,
}
use nycu_osc.Prelude.Int.{pos}
use nycu_osc.CString.{Text, cstr, strlen}
use nycu_osc.CString.Memory.{Mem}
use nycu_osc.Fs.{tmpfs_node_file, tmpfs_node_directory, tmpfs_ops, Node, Fs}
use nycu_osc.Vfs.Files.{vfs_write, vfs_read, vfs_lseek64}
use nycu_osc.Vfs.Kernel.{Kernel, kernel_driver}
use nycu_osc.Vfs.ReadBack.{vfs_read_back}
use nycu_osc.Fs.Tmpfs.{Allocs, create_or_mkdir, tmpfs_lookup}
use nycu_osc.Fs.Tmpfs.Directory.{IsFresh, create_or_mkdir_lem}
use nycu_osc.Fs.TmpfsFile.{tmpfs_write}
use nycu_osc.Fs.TmpfsFile.ReadWrite.{IsOpen, Written, tmpfs_write_lem}

abbrev zeros : Mem
zeros a = 0

abbrev letters : Mem
letters a = b'a' + a

-- the node 0 is a directory without children, every other node a file of five bytes
abbrev node_at : ℕ → Node
node_at i = record {
  name = b'f' ∷ [];
  node_type = if i == 0 then tmpfs_node_directory else tmpfs_node_file;
  parent = none;
  contents = if i == 0 then none else some zeros;
  size = 5;
  capacity = 8;
  children = [];
}

-- vnode `v` stands for node `v`, and every handle is open on vnode 1 at position 3
abbrev small : Fs
small = record {
  nodes = node_at;
  vnodes = λ v. record {
    mount = none;
    v_ops = tmpfs_ops;
    f_ops = tmpfs_ops;
    internal = some v;
    parent = some 0;
    parent_is_mount = false;
  };
  files = λ f. record { vnode = some 1; f_pos = 3; f_ops = some tmpfs_ops; flags = 0 };
}

small-IsOpen : IsOpen small 2 1
small-IsOpen = record {
  node = refl;
  is_file = refl;
  buffered = (zeros, refl);
  room = omega arith;
  capacity_pos = omega arith;
  capacity_fits = omega arith;
}

tmpfs_write_lem_example :
    (s' : Fs) × (tmpfs_write (some zeros) (some 2) (some letters) 20 small ≡ some (pos 20, s'))
    × Written small letters 20 2 1 s'
tmpfs_write_lem_example =
    tmpfs_write_lem small zeros letters 20 2 1 small-IsOpen (omega arith) (omega arith)

small-IsFresh : IsFresh small 0 0 5 6
small-IsFresh = record {
  directory = refl;
  is_dir = refl;
  node_ne = refl;
  vnode_ne = refl;
  child_ne = λ c i. let k : false ≡ true = i in cc;
  child_node = λ c j i at. let k : false ≡ true = i in cc;
}

abbrev etc : Text
etc = b'e' ∷ b't' ∷ b'c' ∷ []

create_or_mkdir_lem_example :
    let allocs : Allocs = record { node = some 5; buffer = some zeros; vnode = some 6 } in
    let r = create_or_mkdir allocs (some 0) (some etc) tmpfs_node_file small in
    (r.0 ≡ pos 0)
    × (r.1 ≡ some 6)
    × (tmpfs_lookup (some 0) (some etc) r.2 ≡ (pos 0, some 6))
    × ((other : Text)
        → cstr other ≢ cstr etc
        → tmpfs_lookup (some 0) (some other) r.2 ≡ tmpfs_lookup (some 0) (some other) small)
unfolding strlen tmpfs_lookup
create_or_mkdir_lem_example =
    create_or_mkdir_lem small 0 0 5 6 zeros etc tmpfs_node_file small-IsFresh
      (omega arith, omega arith) refl (omega arith)

abbrev small_kernel : Kernel
small_kernel = record {
  fs = small;
  root = 0;
  mount_root = λ m. 0;
  cwd = some 0;
  filesystems = [];
  dev = record {
    supply = λ k. record { node = none; buffer = some zeros; vnode = none };
    taken = 0;
    line = [];
    sent = [];
    framebuffer = record { width = 0; height = 0; pitch = 0; isrgb = 0; lfb_addr = 0; lfb = zeros };
  };
}

vfs_read_back_example :
    (s₁ : Kernel) × (out' : Mem) × (s₂ : Kernel) × (vfs_write kernel_driver
        (some 2)
        (some letters)
        20
        small_kernel
      ≡ some (pos 20, s₁))
    × ((vfs_lseek64 kernel_driver (some 2) (pos 3) 0 s₁).0 ≡ pos 3)
    × (vfs_read kernel_driver
          (some 2)
          (some zeros)
          20
          (vfs_lseek64 kernel_driver (some 2) (pos 3) 0 s₁).1
        ≡ some (pos 20, some out', s₂))
    × ((k : ℕ) → k < 20 → out' k ≡ letters k)
vfs_read_back_example =
    vfs_read_back small_kernel zeros letters zeros 20 2 1 small-IsOpen refl refl (omega arith)
      (omega arith)
