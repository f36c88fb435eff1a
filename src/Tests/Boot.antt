-- ===== src/Tests/Boot.antt =====
-- The start of the file systems in src/fs_vfs.c, and a lookup behind it.
use nycu_osc.Prelude.{ℕ, ◌+◌, ◌≡◌, refl, true, false, Option, none, some, List, []}
use nycu_osc.Prelude.Int.{ℤ, pos, negsuc}
use nycu_osc.Fs.{tmpfs_node_file, tmpfs_ops, dev_uart_ops, Ops}
use nycu_osc.CString.{strlen, strcmp}
use nycu_osc.Fs.Tmpfs.{tmpfs_lookup, tmpfs_create, tmpfs_mkdir, tmpfs_setup_mount}
use nycu_osc.Fs.TmpfsFile.{tmpfs_open, tmpfs_close}
use nycu_osc.Fs.Initramfs.{initramfs_setup_mount}
use nycu_osc.Vfs.{vfs_lookup}
use nycu_osc.Vfs.System.{view}
use nycu_osc.Vfs.Kernel.{
  Kernel, kernel_driver, kernel_setup_mount, kernel_mkdir, kernel_lookup, kernel_create,
  kernel_open, kernel_close,
}
use nycu_osc.Vfs.Boot.{Supply, vfs_init, uart_name}

-- nothing in the stores, and fresh addresses from 10 on
abbrev empty_kernel : Kernel
empty_kernel = record {
  fs = record {
    nodes = λ i. record {
      name = [];
      node_type = tmpfs_node_file;
      parent = none;
      contents = none;
      size = 0;
      capacity = 0;
      children = [];
    };
    vnodes = λ v. record {
      mount = none;
      v_ops = tmpfs_ops;
      f_ops = tmpfs_ops;
      internal = none;
      parent = none;
      parent_is_mount = false;
    };
    files = λ f. record { vnode = none; f_pos = 0; f_ops = none; flags = 0 };
  };
  root = 0;
  mount_root = λ m. 0;
  cwd = none;
  filesystems = [];
  dev = record {
    supply = λ k. record { node = some (k + 10); buffer = some (λ a. 0); vnode = some (k + 10) };
    taken = 0;
    line = [];
    sent = [];
    framebuffer = record {
      width = 0;
      height = 0;
      pitch = 0;
      isrgb = 0;
      lfb_addr = 0;
      lfb = λ a. 0;
    };
  };
}

abbrev supply : Supply
supply = record {
  rootfs = some 1;
  mount = some 2;
  uart = some 3;
  framebuffer = some 4;
  copied = λ n. true;
}

-- the vnode and the file operations behind a path of the kernel that has started
abbrev device_at : List ℕ → Option Kernel → ℤ × Option Ops
device_at path none = (negsuc 0, none)
device_at path (some s) = elim (vfs_lookup true (some path) (view kernel_driver s)).1 [
  | none ↦ ((vfs_lookup true (some path) (view kernel_driver s)).0, none)
  | some v ↦ (pos 0, some (s.fs.vnodes v).f_ops)
]

uart_found :
    device_at uart_name (vfs_init supply kernel_driver (λ v s. some s) empty_kernel)
    ≡ (pos 0, some dev_uart_ops)
unfolding vfs_init kernel_setup_mount strlen strcmp kernel_mkdir tmpfs_setup_mount kernel_lookup
    tmpfs_mkdir tmpfs_lookup initramfs_setup_mount kernel_create tmpfs_create kernel_open tmpfs_open
    kernel_close tmpfs_close
uart_found = refl
