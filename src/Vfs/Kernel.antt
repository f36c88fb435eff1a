-- ===== src/Vfs/Kernel.antt =====
-- The operations of the tmpfs, the initramfs and the devices as one `Driver`: the tables of
-- operations in src/fs_tmpfs.c, src/fs_initramfs.c, src/dev_uart.c and src/dev_framebuffer.c.
use nycu_osc.Prelude.{ℕ, ◌+◌, Option, none, some, List, ◌++◌}
use nycu_osc.Prelude.Int.{ℤ}
use nycu_osc.Prelude.Store.{update}
use nycu_osc.CString.{Text}
use nycu_osc.CString.Memory.{Mem}
use nycu_osc.Fs.{Ops, tmpfs_ops, initramfs_ops, dev_uart_ops, dev_framebuffer_ops, Fs, einval_vfs}
use nycu_osc.Fs.Tmpfs.{
  written_target, Allocs, tmpfs_lookup, tmpfs_create, tmpfs_mkdir, tmpfs_setup_mount,
}
use nycu_osc.Fs.TmpfsFile.{tmpfs_open, tmpfs_close, tmpfs_write, tmpfs_read, tmpfs_lseek64}
use nycu_osc.Fs.Initramfs.{
  initramfs_setup_mount, initramfs_lookup, initramfs_create, initramfs_mkdir, initramfs_open,
  initramfs_close, initramfs_write, initramfs_read, initramfs_lseek64,
}
use nycu_osc.Dev.{
  Framebuffer, dev_uart_open, dev_uart_close, dev_uart_write, dev_uart_read, dev_uart_lseek64,
  dev_framebuffer_open, dev_framebuffer_close, dev_framebuffer_write, dev_framebuffer_read,
  dev_framebuffer_lseek64,
}
use nycu_osc.Vfs.System.{System, Driver}

-- What the devices keep, the bytes that the serial line will deliver and those it was sent, and what
-- the calls of `alloc` return: the k-th operation that may allocate takes `supply k`.
pub record Devices : Type 0 where
  pub supply : ℕ → Allocs
  pub taken : ℕ
  pub line : List ℕ
  pub sent : List ℕ
  pub framebuffer : Framebuffer

abbrev pub Kernel : Type 0
Kernel = System Devices

-- what the next operation takes
abbrev pub next_allocs : Kernel → Allocs
next_allocs s = s.dev.supply s.dev.taken

-- the state with the file systems of an operation that allocates
abbrev pub took : Fs → Kernel → Kernel
took fs s = record s { fs = fs; dev = record s.dev { taken = s.dev.taken + 1 } }

abbrev pub with_vnode : ℤ × Option ℕ × Fs → Kernel → ℤ × Option ℕ × Kernel
with_vnode (code, v, fs) s = (code, v, took fs s)

abbrev pub drop_vnode : ℤ × Option ℕ × Fs → Kernel → ℤ × Kernel
drop_vnode (code, v, fs) s = (code, took fs s)

abbrev pub with_code : ℤ × Fs → Kernel → ℤ × Kernel
with_code (code, fs) s = (code, record s { fs = fs })

abbrev pub with_handle : ℤ × Fs → Option ℕ → Kernel → ℤ × Option ℕ × Kernel
with_handle (code, fs) handle s = (code, handle, record s { fs = fs })

unfoldable pub kernel_lookup : Ops → Option (ℕ → Text → Kernel → ℤ × Option ℕ)
kernel_lookup tmpfs_ops = some (λ v name s. tmpfs_lookup (some v) (some name) s.fs)
kernel_lookup initramfs_ops = some (λ v name s. initramfs_lookup (some v) (some name) s.fs)
kernel_lookup dev_uart_ops = none
kernel_lookup dev_framebuffer_ops = none

unfoldable pub kernel_create : Ops → Option (ℕ → Text → Kernel → ℤ × Option (Option ℕ) × Kernel)
kernel_create tmpfs_ops = some (λ v name s.
    let (code, new, s') = with_vnode (tmpfs_create (next_allocs s) (some v) (some name) s.fs) s in
    (code, written_target v name new s.fs, s'))
kernel_create initramfs_ops = some (λ v name s. (initramfs_create (some v) (some name), none, s))
kernel_create dev_uart_ops = none
kernel_create dev_framebuffer_ops = none

unfoldable pub kernel_mkdir : Ops → Option (ℕ → Text → Kernel → ℤ × Kernel)
kernel_mkdir tmpfs_ops =
    some (λ v name s. drop_vnode (tmpfs_mkdir (next_allocs s) (some v) (some name) s.fs) s)
kernel_mkdir initramfs_ops = some (λ v name s. (initramfs_mkdir (some v) (some name), s))
kernel_mkdir dev_uart_ops = none
kernel_mkdir dev_framebuffer_ops = none

unfoldable pub kernel_open : Ops → ℕ → Option ℕ → Kernel → ℤ × Option ℕ × Kernel
kernel_open tmpfs_ops v handle s = with_handle (tmpfs_open (some v) handle s.fs) handle s
kernel_open initramfs_ops v handle s = with_handle (initramfs_open (some v) handle s.fs) handle s
kernel_open dev_uart_ops v handle s =
    with_vnode (dev_uart_open (next_allocs s).node (some v) s.fs) s
kernel_open dev_framebuffer_ops v handle s =
    with_vnode (dev_framebuffer_open (next_allocs s).node (some v) s.fs) s

unfoldable pub kernel_close : Ops → Option (ℕ → Kernel → ℤ × Kernel)
kernel_close tmpfs_ops = some (λ f s. with_code (tmpfs_close (some f) s.fs) s)
kernel_close initramfs_ops = some (λ f s. with_code (initramfs_close (some f) s.fs) s)
kernel_close dev_uart_ops = some (λ f s. (dev_uart_close (some f), s))
kernel_close dev_framebuffer_ops = some (λ f s. (dev_framebuffer_close (some f), s))

-- the results of the writes, with the state of the kernel
abbrev pub wrote : Option (ℤ × Fs) → Kernel → Option (ℤ × Kernel)
wrote none s = none
wrote (some (code, fs)) s = some (code, took fs s)

abbrev pub sent_bytes : ℤ × List ℕ × Fs → Kernel → ℤ × Kernel
sent_bytes (code, bytes, fs) s =
    (code, record s { fs = fs; dev = record s.dev { sent = s.dev.sent ++ bytes } })

abbrev pub drawn : ℤ × Framebuffer × Fs → Kernel → ℤ × Kernel
drawn (code, b, fs) s = (code, record s { fs = fs; dev = record s.dev { framebuffer = b } })

unfoldable pub kernel_write : Ops → Option (ℕ → Mem → ℕ → Kernel → Option (ℤ × Kernel))
kernel_write tmpfs_ops =
    some (λ f buf len s. wrote (tmpfs_write (next_allocs s).buffer (some f) (some buf) len s.fs) s)
kernel_write initramfs_ops = some (λ f buf len s. some (initramfs_write (some f) (some buf) len, s))
kernel_write dev_uart_ops =
    some (λ f buf len s. some (sent_bytes (dev_uart_write (some f) (some buf) len s.fs) s))
kernel_write dev_framebuffer_ops = some (λ f buf len s.
    some (drawn (dev_framebuffer_write (some f) (some buf) len s.dev.framebuffer s.fs) s))

-- the results of the reads
abbrev pub read_bytes : Option (ℤ × Option Mem × Fs) → Kernel → Option (ℤ × Option Mem × Kernel)
read_bytes none s = none
read_bytes (some (code, buf, fs)) s = some (code, buf, record s { fs = fs })

abbrev pub some_buffer : Option (ℤ × Mem × Fs) → Option (ℤ × Option Mem × Fs)
some_buffer none = none
some_buffer (some (code, buf, fs)) = some (code, some buf, fs)

abbrev pub read_line :
    Option (ℤ × Option Mem × List ℕ × Fs) → Kernel → Option (ℤ × Option Mem × Kernel)
read_line none s = none
read_line (some (code, buf, line, fs)) s =
    some (code, buf, record s { fs = fs; dev = record s.dev { line = line } })

-- `tmpfs_read` of a buffer that may be NULL
abbrev pub tmpfs_read? : ℕ → Option Mem → ℕ → Fs → Option (ℤ × Option Mem × Fs)
tmpfs_read? f none len s = some (einval_vfs, none, s)
tmpfs_read? f (some buf) len s = some_buffer (tmpfs_read (some f) buf len s)

unfoldable pub kernel_read :
    Ops → Option (ℕ → Option Mem → ℕ → Kernel → Option (ℤ × Option Mem × Kernel))
kernel_read tmpfs_ops = some (λ f buf len s. read_bytes (tmpfs_read? f buf len s.fs) s)
kernel_read initramfs_ops =
    some (λ f buf len s. read_bytes (initramfs_read (some f) buf len s.fs) s)
kernel_read dev_uart_ops =
    some (λ f buf len s. read_line (dev_uart_read (some f) buf len s.dev.line s.fs) s)
kernel_read dev_framebuffer_ops = some (λ f buf len s. some (dev_framebuffer_read, buf, s))

unfoldable pub kernel_lseek64 : Ops → Option (ℕ → ℤ → ℕ → Kernel → ℤ × Kernel)
kernel_lseek64 tmpfs_ops = some (λ f o w s. with_code (tmpfs_lseek64 (some f) o w s.fs) s)
kernel_lseek64 initramfs_ops = some (λ f o w s. with_code (initramfs_lseek64 (some f) o w s.fs) s)
kernel_lseek64 dev_uart_ops = some (λ f o w s. with_code (dev_uart_lseek64 (some f) o w s.fs) s)
kernel_lseek64 dev_framebuffer_ops =
    some (λ f o w s. with_code (dev_framebuffer_lseek64 (some f) o w s.fs) s)

-- a mount gets its root
abbrev pub rooted : ℕ → ℤ × Option ℕ × Fs → Kernel → ℤ × Kernel
rooted m (code, none, fs) s = (code, took fs s)
rooted m (code, some r, fs) s = (code, record (took fs s) { mount_root = update s.mount_root m r })

unfoldable pub kernel_setup_mount : Ops → Option (ℕ → Kernel → ℤ × Kernel)
kernel_setup_mount tmpfs_ops =
    some (λ m s. rooted m (tmpfs_setup_mount (next_allocs s).node (next_allocs s).vnode s.fs) s)
kernel_setup_mount initramfs_ops =
    some (λ m s. rooted m (initramfs_setup_mount (next_allocs s).node (next_allocs s).vnode s.fs) s)
kernel_setup_mount dev_uart_ops = none
kernel_setup_mount dev_framebuffer_ops = none

abbrev pub kernel_driver : Driver Devices
kernel_driver = record {
  lookup = kernel_lookup;
  create = kernel_create;
  mkdir = kernel_mkdir;
  f_open = kernel_open;
  close = kernel_close;
  write = kernel_write;
  read = kernel_read;
  lseek64 = kernel_lseek64;
  setup_mount = kernel_setup_mount;
}
