-- ===== src/Fs.antt =====
-- The types of the file systems, src/include/fs_vfs.h and src/include/fs_tmpfs.h: vnodes, file
-- handles and the nodes of the tmpfs, each in a store indexed by its address.
pub mod Long
pub mod Tmpfs
pub mod TmpfsFile
pub mod Initramfs
use nycu_osc.Prelude.{
  ℕ, zero, suc, ◌+◌, ◌-◌, ◌%◌, ◌^◌, Bool, true, false, Option, none, some, List, [], ◌∷◌,
}
use nycu_osc.Prelude.Int.{ℤ, pos, negsuc}
use nycu_osc.Prelude.Store.{update}
use nycu_osc.CString.{Text}
use nycu_osc.CString.Memory.{Mem}

abbrev pub max_file_name : ℕ
max_file_name = 64

abbrev pub max_children : ℕ
max_children = 16

abbrev pub default_file_size : ℕ
default_file_size = 4096

-- No such file or directory, -2
abbrev pub enoent_vfs : ℤ
enoent_vfs = negsuc 1

-- Not enough memory, -3
abbrev pub enomem_vfs : ℤ
enomem_vfs = negsuc 2

-- Invalid argument, -4
abbrev pub einval_vfs : ℤ
einval_vfs = negsuc 3

-- Permission denied, -6
abbrev pub eacces_vfs : ℤ
eacces_vfs = negsuc 5

-- File exists, -7
abbrev pub eexist_vfs : ℤ
eexist_vfs = negsuc 6

pub data NodeType : Type 0 where
  tmpfs_node_file : NodeType
  tmpfs_node_directory : NodeType

-- the tables of operations that a vnode or a file handle can point to
pub data Ops : Type 0 where
  tmpfs_ops : Ops
  initramfs_ops : Ops
  dev_uart_ops : Ops
  dev_framebuffer_ops : Ops

-- `struct tmpfs_node`: `contents` is the buffer `data` that the node owns, `children` the vnodes below
-- `num_children`
pub record Node : Type 0 where
  pub name : Text
  pub node_type : NodeType
  pub parent : Option ℕ
  pub contents : Option Mem
  pub size : ℕ
  pub capacity : ℕ
  pub children : List ℕ

-- `struct vnode`; a null `internal` is `none`
pub record Vnode : Type 0 where
  pub mount : Option ℕ
  pub v_ops : Ops
  pub f_ops : Ops
  pub internal : Option ℕ
  pub parent : Option ℕ
  pub parent_is_mount : Bool

-- `struct file`
pub record File : Type 0 where
  pub vnode : Option ℕ
  pub f_pos : ℕ
  pub f_ops : Option Ops
  pub flags : ℕ

pub record Fs : Type 0 where
  pub nodes : ℕ → Node
  pub vnodes : ℕ → Vnode
  pub files : ℕ → File

abbrev pub set_node : ℕ → Node → Fs → Fs
set_node i n s = record s { nodes = update s.nodes i n }

abbrev pub set_vnode : ℕ → Vnode → Fs → Fs
set_vnode i v s = record s { vnodes = update s.vnodes i v }

abbrev pub set_file : ℕ → File → Fs → Fs
set_file i f s = record s { files = update s.files i f }
