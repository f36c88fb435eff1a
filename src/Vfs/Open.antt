-- ===== src/Vfs/Open.antt =====
-- `vfs_open`, `vfs_mkdir` and `vfs_mknod` of src/fs_vfs.c. What `alloc` returns for the file handle is
-- an argument, and so is whether the n-th copy of a path gets memory; `free` is left out.
use nycu_osc.Prelude.{
  ℕ, zero, suc, ◌/◌, ◌%◌, Bool, Option, none, some, [], ◌∷◌, ◌==◌, if◌then◌else◌,
}
use nycu_osc.Prelude.Int.{ℤ, pos, ◌==ℤ◌}
use nycu_osc.CString.{Text, strlen}
use nycu_osc.Fs.{Ops, enomem_vfs, einval_vfs, eacces_vfs, set_file}
use nycu_osc.Vfs.{einterr_vfs, vfs_lookup}
use nycu_osc.Vfs.System.{System, Driver, view, put_vnode}
use nycu_osc.Vfs.Files.{vfs_close}

abbrev pub o_creat : ℕ
o_creat = 64

-- `flags & O_CREAT`
abbrev pub creates : ℕ → Bool
creates flags = flags / o_creat % 2 == 1

abbrev pub byte_at : Text → ℕ → ℕ
byte_at [] i = 0
byte_at (c ∷ cs) zero = c
byte_at (c ∷ cs) (suc i) = byte_at cs i

-- the bytes below an index, and from an index on
abbrev pub before : ℕ → Text → Text
before zero cs = []
before (suc i) [] = []
before (suc i) (c ∷ cs) = c ∷ before i cs

abbrev pub behind : ℕ → Text → Text
behind zero cs = cs
behind (suc i) [] = []
behind (suc i) (c ∷ cs) = behind i cs

-- the loop for `last_slash_index` from `i - 1` down; `none` for -1
unfoldable pub last_slash : ℕ → Text → Option ℕ
last_slash zero path = none
last_slash (suc i) path =
    let rest = last_slash i path in if byte_at path i == b'/' then some i else rest

-- the name behind the last slash
abbrev pub basename : Option ℕ → Text → Text
basename none path = path
basename (some i) path = behind (suc i) path

-- the parent directory that `vfs_open` creates a file in: the code and the vnode
unfoldable pub open_parent :
    {D : Type 0} → Bool → Driver D → Text → Option ℕ → System D → ℤ × Option ℕ
open_parent copied d path none s = elim s.cwd [
  | none ↦ (pos 0, some s.root)
  | some v ↦ (pos 0, some v)
]
open_parent copied d path (some zero) s = vfs_lookup copied (some (b'/' ∷ [])) (view d s)
open_parent copied d path (some (suc i)) s =
    vfs_lookup copied (some (before (suc i) path)) (view d s)

-- the end of `vfs_open`: the code, `*target` and the state; `none` where the vnode or `*target` is NULL
unfoldable pub open_vnode :
    {D : Type 0} → Driver D → Option ℕ → Option ℕ → ℕ → System D → Option (ℤ × Option ℕ × System D)
open_vnode d none handle flags s = none
open_vnode d (some v) handle flags s =
    let (code, opened, s₁) = d.f_open (s.fs.vnodes v).f_ops v handle s in
    if code ==ℤ pos 0
    then elim opened [
      | none ↦ none
      | some f ↦ some (
        pos 0,
        some f,
        record s₁ { fs = set_file f (record (s₁.fs.files f) { flags = flags }) s₁.fs },
      )
    ]
    else some (code, opened, s₁)

-- what a creation wrote to the variable, or what was in it
abbrev pub written : Option (Option ℕ) → Option ℕ → Option ℕ
written none old = old
written (some v) old = v

-- the creation in `vfs_open`, whose code it drops, with `old` what the lookup left in `vnode`
unfoldable pub create_in :
    {D : Type 0}
    → Driver D
    → Option ℕ
    → Text
    → Option ℕ
    → Option ℕ
    → ℕ
    → System D
    → Option (ℤ × Option ℕ × System D)
unfolding open_vnode
create_in d none name old handle flags s = some (eacces_vfs, none, s)
create_in d (some parent) name old handle flags s = elim (d.create (s.fs.vnodes parent).v_ops) [
  | none ↦ some (eacces_vfs, none, s)
  | some create ↦
      let (code, new, s₁) = create parent name s in open_vnode d (written new old) handle flags s₁
]

-- the creation below the parent that was found, or its code
abbrev pub create_named :
    {D : Type 0}
    → Driver D
    → Text
    → ℤ × Option ℕ
    → Option ℕ
    → Option ℕ
    → ℕ
    → System D
    → Option (ℤ × Option ℕ × System D)
create_named d name (code, parent) old handle flags s =
    if code ==ℤ pos 0 then create_in d parent name old handle flags s else some (code, none, s)

-- the branch of `vfs_open` for a path that is not found
unfoldable pub open_new :
    {D : Type 0}
    → (ℕ → Bool)
    → Driver D
    → Text
    → Option ℕ
    → Option ℕ
    → ℕ
    → System D
    → Option (ℤ × Option ℕ × System D)
unfolding last_slash open_parent create_in
open_new copied d path old handle flags s =
    if copied 1
    then (let slash = last_slash (strlen path) path in
        create_named d (basename slash path) (open_parent (copied 2) d path slash s) old handle
          flags s)
    else some (enomem_vfs, none, s)

-- the part of `vfs_open` behind the lookup of the path
unfoldable pub open_found :
    {D : Type 0}
    → (ℕ → Bool)
    → Option ℕ
    → Driver D
    → Text
    → ℕ
    → ℤ × Option ℕ
    → System D
    → Option (ℤ × Option ℕ × System D)
unfolding open_vnode open_new
open_found copied handle d path flags (code, v) s =
    if code ==ℤ pos 0
    then open_vnode d v handle flags s
    else if creates flags
    then open_new copied d path v handle flags s
    else some (code, none, s)

-- `vfs_open`; its callers pass the address of a pointer for `target`
unfoldable pub vfs_open :
    {D : Type 0}
    → (ℕ → Bool)
    → Option ℕ
    → Driver D
    → Option Text
    → ℕ
    → System D
    → Option (ℤ × Option ℕ × System D)
unfolding open_found
vfs_open copied handle d none flags s = some (einval_vfs, none, s)
vfs_open copied handle d (some path) flags s =
    open_found copied handle d path flags (vfs_lookup (copied 0) (some path) (view d s)) s

-- the parent directory of `vfs_mkdir`
unfoldable pub mkdir_parent :
    {D : Type 0} → Bool → Driver D → Text → Option ℕ → System D → ℤ × Option ℕ
mkdir_parent copied d path none s = elim s.cwd [
  | none ↦ (einterr_vfs, none)
  | some v ↦ (pos 0, some v)
]
mkdir_parent copied d path (some zero) s = vfs_lookup copied (some (b'/' ∷ [])) (view d s)
mkdir_parent copied d path (some (suc i)) s =
    vfs_lookup copied (some (before (suc i) path)) (view d s)

-- the end of `vfs_mkdir`
unfoldable pub mkdir_in : {D : Type 0} → Driver D → Option ℕ → Text → System D → ℤ × System D
mkdir_in d none name s = (eacces_vfs, s)
mkdir_in d (some parent) name s = elim (d.mkdir (s.fs.vnodes parent).v_ops) [
  | none ↦ (eacces_vfs, s)
  | some mkdir ↦ mkdir parent name s
]

-- the test on the name, below the parent that was found, or its code
abbrev pub mkdir_named : {D : Type 0} → Driver D → Text → ℤ × Option ℕ → System D → ℤ × System D
mkdir_named d name (code, parent) s =
    if code ==ℤ pos 0
    then if strlen name == 0 then (einval_vfs, s) else mkdir_in d parent name s
    else (code, s)

unfoldable pub vfs_mkdir :
    {D : Type 0} → (ℕ → Bool) → Driver D → Option Text → System D → ℤ × System D
unfolding last_slash mkdir_parent mkdir_in
vfs_mkdir copied d none s = (einval_vfs, s)
vfs_mkdir copied d (some path) s =
    if copied 0
    then (let slash = last_slash (strlen path) path in
        mkdir_named d (basename slash path) (mkdir_parent (copied 1) d path slash s) s)
    else (enomem_vfs, s)

-- the vnode of the file `dev` gets the device's operations, and the file is closed
unfoldable pub set_device : {D : Type 0} → Driver D → Ops → ℕ → System D → Option (ℤ × System D)
unfolding vfs_close
set_device d f_ops dev s = elim (s.fs.files dev).vnode [
  | none ↦ none
  | some v ↦
      some (vfs_close d (some dev) (put_vnode v (record (s.fs.vnodes v) { f_ops = f_ops }) s))
]

-- `vfs_mknod`
unfoldable pub vfs_mknod :
    {D : Type 0}
    → (ℕ → Bool)
    → Option ℕ
    → Driver D
    → Option Text
    → Ops
    → System D
    → Option (ℤ × System D)
unfolding vfs_open set_device
vfs_mknod copied handle d none f_ops s = some (einval_vfs, s)
vfs_mknod copied handle d (some path) f_ops s =
    elim (vfs_open copied handle d (some path) o_creat s) [
      | none ↦ none
      | some r ↦
          if r.0 ==ℤ pos 0
          then elim r.1 [ none ↦ none | some dev ↦ set_device d f_ops dev r.2 ]
          else some (r.0, r.2)
    ]
