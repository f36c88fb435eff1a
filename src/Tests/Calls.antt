-- ===== src/Tests/Calls.antt =====
-- A small file system below the virtual file system of src/fs_vfs.c, and system calls on it.
use nycu_osc.Prelude.{◌≤◌, arith}
use nycu_osc.Prelude.{
  ℕ, ◌<◌, ◌≡◌, ◌≢◌, refl, true, false, Option, none, some, [], ◌∷◌, ◌==◌, if◌then◌else◌,
}
use nycu_osc.Prelude.Int.{ℤ, pos, negsuc}
use nycu_osc.Prelude.Store.{update}
use nycu_osc.CString.{strcmp, strlen}
use nycu_osc.Fs.{tmpfs_node_directory, tmpfs_ops, Node, Fs}
use nycu_osc.Fs.Long.{of_long}
use nycu_osc.Fs.Tmpfs.{written_target, Allocs, tmpfs_lookup, tmpfs_create, tmpfs_mkdir}
use nycu_osc.Fs.TmpfsFile.{tmpfs_open, tmpfs_close}
use nycu_osc.Vfs.{einterr_vfs, enter_mount, is_mounted_on, vfs_lookup}
use nycu_osc.Vfs.System.{System, Driver, view}
use nycu_osc.Vfs.Open.{vfs_open}
use nycu_osc.Vfs.Mount.{find_filesystem, vfs_mount, set_mount}
use nycu_osc.Vfs.Paths.{all_copied}
use nycu_osc.Vfs.Mounted.{CanMount, vfs_mount_lem}
use nycu_osc.Sched.{task_running}
use nycu_osc.Syscall.{Calls, Heap}
use nycu_osc.Syscall.FileCalls.{sys_open, sys_chdir}
use nycu_osc.Syscall.Files.{Opens, sys_open_lem, sys_chdir_relative}

-- node 0 is the root with one child, the directory `d` of node 1
abbrev tree_node : ℕ → Node
tree_node i = record {
  name = if i == 0 then b'/' ∷ [] else b'd' ∷ [];
  node_type = tmpfs_node_directory;
  parent = if i == 0 then none else some 0;
  contents = none;
  size = 0;
  capacity = 0;
  children = if i == 0 then 1 ∷ [] else [];
}

abbrev tree : Fs
tree = record {
  nodes = tree_node;
  vnodes = λ v. record {
    mount = none;
    v_ops = tmpfs_ops;
    f_ops = tmpfs_ops;
    internal = some v;
    parent = if v == 0 then none else some 0;
    parent_is_mount = false;
  };
  files = λ f. record { vnode = none; f_pos = 0; f_ops = none; flags = 0 };
}

abbrev world : System ℕ
world = record {
  fs = tree;
  root = 0;
  mount_root = λ m. 0;
  cwd = some 1;
  filesystems = record { name = b't' ∷ []; fs_kind = tmpfs_ops } ∷ [];
  dev = 0;
}

-- a creation takes node and vnode 5
abbrev allocs : Allocs
allocs = record { node = some 5; buffer = some (λ a. 0); vnode = some 5 }

abbrev with_fs : ℤ × Option ℕ × Fs → System ℕ → ℤ × Option ℕ × System ℕ
with_fs (code, v, fs) s = (code, v, record s { fs = fs })

abbrev without_vnode : ℤ × Option ℕ × Fs → System ℕ → ℤ × System ℕ
without_vnode (code, v, fs) s = (code, record s { fs = fs })

abbrev with_handle : ℤ × Fs → Option ℕ → System ℕ → ℤ × Option ℕ × System ℕ
with_handle (code, fs) handle s = (code, handle, record s { fs = fs })

abbrev close_file : ℕ → System ℕ → ℤ × System ℕ
close_file f s =
    without_vnode ((tmpfs_close (some f) s.fs).0, none, (tmpfs_close (some f) s.fs).1) s

-- a mount whose root is vnode 9
abbrev setup_nine : ℕ → System ℕ → ℤ × System ℕ
setup_nine m s = (pos 0, record s { mount_root = update s.mount_root m 9 })

abbrev driver : Driver ℕ
driver = record {
  lookup = λ ops. some (λ v name s. tmpfs_lookup (some v) (some name) s.fs);
  create = λ ops. some (λ v name s.
      let (code, new, s') = with_fs (tmpfs_create allocs (some v) (some name) s.fs) s in
      (code, written_target v name new s.fs, s'));
  mkdir = λ ops. some (λ v name s. without_vnode (tmpfs_mkdir allocs (some v) (some name) s.fs) s);
  f_open = λ ops v handle s. with_handle (tmpfs_open (some v) handle s.fs) handle s;
  close = λ ops. some close_file;
  write = λ ops. none;
  read = λ ops. none;
  lseek64 = λ ops. none;
  setup_mount = λ ops. some setup_nine;
}

vfs_lookup_absent :
    vfs_lookup true (some (b'/' ∷ b'd' ∷ b'/' ∷ b'f' ∷ [])) (view driver world) ≡ (negsuc 1, none)
unfolding vfs_lookup tmpfs_lookup strcmp strlen
vfs_lookup_absent = refl

target-CanMount :
    CanMount driver
      (b'/' ∷ b'd' ∷ [])
      (b't' ∷ [])
      (record { name = b't' ∷ []; fs_kind = tmpfs_ops })
      1
      world
unfolding vfs_lookup tmpfs_lookup find_filesystem strcmp strlen
target-CanMount = record {
  mkdir = λ v name s. without_vnode (tmpfs_mkdir allocs (some v) (some name) s.fs) s;
  found = refl;
  looked = refl;
  directory = refl;
  bare = refl;
  inner = refl;
}

vfs_mount_lem_example :
    (s' : System ℕ) × (vfs_mount true
        (some 4)
        driver
        (some (b'/' ∷ b'd' ∷ []))
        (some (b't' ∷ []))
        world
      ≡ some (pos 0, s'))
    × (enter_mount (view driver s') 1 ≡ 9)
    × ((s'.fs.vnodes 9).parent ≡ some 1)
    × (is_mounted_on (view driver s') 9 1 ≡ true)
vfs_mount_lem_example =
    vfs_mount_lem driver (b'/' ∷ b'd' ∷ []) (b't' ∷ [])
      (record { name = b't' ∷ []; fs_kind = tmpfs_ops }) setup_nine 1 4 world
      (record (set_mount 1 (some 4) world) { mount_root = update world.mount_root 4 9 })
      target-CanMount refl refl refl refl

-- task 2 runs, with descriptors 0 and 1 in use; the address 8 names the path `/d`, and 9 the path `d`
abbrev calls : Calls ℕ
calls = record {
  x = λ r. if r == 0 then 8 else 0;
  sys = world;
  sched = record {
    ready_queue = none;
    wait_queue = none;
    zombie_queue = none;
    next = λ t. none;
    state = λ t. task_running;
    id = λ t. t;
    current = some 2;
  };
  fd_table = λ t fd. if fd == 0 then some 7 else if fd == 1 then some 8 else none;
  sig_handlers = λ t sig. 0;
  pending_sig = λ t. 0;
  mem = λ a. 0;
  text = λ p. if p == 8 then b'/' ∷ b'd' ∷ [] else b'd' ∷ [];
  line = [];
  sent = [];
}

abbrev heap : Heap
heap = record { copied = all_copied; handle = some 3; new_mount = none; rounds = 4 }

sys_open_lem_example :
    (fd : ℕ) × (fd ≤ 15)
    × (calls.fd_table 2 fd ≡ none)
    × ((j : ℕ) → j < fd → calls.fd_table 2 j ≢ none)
    × Opens 2 fd calls
        (vfs_open all_copied (some 3) driver (some (b'/' ∷ b'd' ∷ [])) 0 world)
        (sys_open heap driver 2 calls)
sys_open_lem_example =
    sys_open_lem heap driver 2 15 (b'/' ∷ b'd' ∷ []) calls refl (omega arith) refl

abbrev relative : Calls ℕ
relative = record calls { x = λ r. 9 }

sys_chdir_relative_example :
    ((sys_chdir heap driver relative).x 0 ≡ of_long einterr_vfs)
    × ((sys_chdir heap driver relative).sys.cwd ≡ none)
sys_chdir_relative_example = sys_chdir_relative heap driver (b'd' ∷ []) relative refl refl refl
