-- ===== src/Devicetree.antt =====
-- The flattened device tree, src/devicetree.c: the header, the walk over the tokens with a callback,
-- and the callback that looks for the initial ram disk. The walk is in a number of rounds and is
-- `none` where these run out.
use nycu_osc.Prelude.{
  ℕ, zero, suc, ◌+◌, ◌*◌, ◌^◌, Bool, false, Option, none, some, [], ◌∷◌, ◌==◌, if◌then◌else◌,
}
use nycu_osc.Prelude.Int.{ℤ, pos, negsuc, ◌==ℤ◌}
use nycu_osc.CString.{Text, strcmp, strlen}
use nycu_osc.CString.Memory.{Mem}
use nycu_osc.Utils.{align, be2le_u32}

-- the `uint32_t` at an address, on a little-endian machine
abbrev pub word : Mem → ℕ → ℕ
word mem p = mem p + mem (p + 1) * 2 ^ 8 + mem (p + 2) * 2 ^ 16 + mem (p + 3) * 2 ^ 24

-- the word of the tree at an address
abbrev pub tree_word : Mem → ℕ → ℕ
tree_word mem p = be2le_u32 (word mem p)

-- the static variables of the file
pub record Fdt : Type 0 where
  pub fdt_base : Option ℕ
  pub structure : Option ℕ
  pub strings : ℕ
  pub total_size : ℕ
  pub strings_size : ℕ
  pub structure_size : ℕ

-- `fdt_init`
unfoldable pub fdt_init : Mem → Option ℕ → Fdt → ℤ × Fdt
fdt_init mem none s = (pos 0, s)
fdt_init mem (some base) s =
    if tree_word mem base == 0xd00dfeed
    then (
      pos 0,
      record {
        fdt_base = some base;
        structure = some (base + tree_word mem (base + 8));
        strings = base + tree_word mem (base + 12);
        total_size = word mem (base + 4);
        strings_size = tree_word mem (base + 32);
        structure_size = tree_word mem (base + 36);
      },
    )
    else (negsuc 0, record s { fdt_base = some base })

pub data Token : Type 0 where
  fdt_begin_node : Token
  fdt_end_node : Token
  fdt_prop : Token
  fdt_nop : Token
  fdt_end : Token
  fdt_invalid : Token

-- the values of `FDT_BEGIN_NODE` to `FDT_END`
abbrev pub token_of : ℕ → Token
token_of w =
    if w == 1
    then fdt_begin_node
    else if w == 2
    then fdt_end_node
    else if w == 3
    then fdt_prop
    else if w == 4
    then fdt_nop
    else if w == 9
    then fdt_end
    else fdt_invalid

-- a callback: the token, the name, the address and the size of the data; whether it fails
abbrev pub Callback : Type 0 → Type 0
Callback S = Token → Option Text → Option ℕ → ℕ → S → Bool × S

-- what a round does: it ends the walk with a code, or goes on, at an address
pub data Round (S : Type 0) : Type 0 where
  ends : ℤ → ℕ → S → Round S
  goes_on : ℕ → S → Round S

-- a round ends where the callback fails
abbrev pub called : {S : Type 0} → ℕ → Bool × S → Round S
called p (failed, s) = if failed then ends (negsuc 0) p s else goes_on p s

-- one round of the loop behind its token, at `p`; `text` is the text at an address
unfoldable pub parse_token :
    {S : Type 0} → Mem → (ℕ → Text) → ℕ → Callback S → Token → ℕ → S → Round S
parse_token mem text strings callback fdt_begin_node p s =
    called (p + align (strlen (text p) + 1) 4) (callback fdt_begin_node (some (text p)) none 0 s)
parse_token mem text strings callback fdt_end_node p s =
    called p (callback fdt_end_node none none 0 s)
parse_token mem text strings callback fdt_prop p s =
    let len = tree_word mem p in
    let name = text (strings + tree_word mem (p + 4)) in
    called (p + 8 + align len 4) (callback fdt_prop (some name) (some (p + 8)) len s)
parse_token mem text strings callback fdt_nop p s = goes_on p s
parse_token mem text strings callback fdt_end p s = ends (pos 0) p s
parse_token mem text strings callback fdt_invalid p s = ends (negsuc 0) p s

-- `fdt_parse_node`, with a callback that is not NULL: the code, `*ptr` and the state
unfoldable pub fdt_parse_node :
    {S : Type 0} → ℕ → Mem → (ℕ → Text) → ℕ → Callback S → ℕ → S → Option (ℤ × ℕ × S)
unfolding parse_token
fdt_parse_node zero mem text strings callback p s = none
fdt_parse_node (suc f) mem text strings callback p s =
    elim (parse_token mem text strings callback (token_of (tree_word mem p)) (p + 4) s) [
      | ends code q s₁ ↦ some (code, q, s₁)
      | goes_on q s₁ ↦ fdt_parse_node f mem text strings callback q s₁
    ]

-- `fdt_traverse`
unfoldable pub fdt_traverse :
    {S : Type 0} → ℕ → Mem → (ℕ → Text) → Callback S → Fdt → S → Option (ℤ × S)
unfolding fdt_parse_node
fdt_traverse f mem text callback t s = elim t.fdt_base [
  | none ↦ some (negsuc 0, s)
  | some base ↦ elim t.structure [
    | none ↦ some (negsuc 0, s)
    | some ptr ↦ elim (fdt_parse_node f mem text t.strings callback ptr s) [
      | none ↦ none
      | some (code, p, s₁) ↦ some (code, s₁)
    ]
  ]
]

-- `"linux,initrd-start"` and `"linux,initrd-end"`
abbrev pub initrd_start : Text
initrd_start =
    b'l' ∷ b'i' ∷ b'n' ∷ b'u' ∷ b'x' ∷ b',' ∷ b'i' ∷ b'n' ∷ b'i' ∷ b't' ∷ b'r' ∷ b'd' ∷ b'-' ∷ b's'
    ∷ b't' ∷ b'a' ∷ b'r' ∷ b't' ∷ []

abbrev pub initrd_end : Text
initrd_end =
    b'l' ∷ b'i' ∷ b'n' ∷ b'u' ∷ b'x' ∷ b',' ∷ b'i' ∷ b'n' ∷ b'i' ∷ b't' ∷ b'r' ∷ b'd' ∷ b'-' ∷ b'e'
    ∷ b'n' ∷ b'd' ∷ []

-- `cpio_addr` and `cpio_end`
pub record Initrd : Type 0 where
  pub cpio_addr : ℕ
  pub cpio_end : ℕ

-- `initramfs_callback`: data that is NULL is read at the address 0, and so is a name
unfoldable pub initramfs_callback : Mem → (ℕ → Text) → Callback Initrd
initramfs_callback mem text type name data_at size s =
    let name_text : Text = elim name [ none ↦ text 0 | some t ↦ t ] in
    let p : ℕ = elim data_at [ none ↦ 0 | some q ↦ q ] in
    if strcmp name_text initrd_start ==ℤ pos 0
    then (false, record s { cpio_addr = tree_word mem p })
    else if strcmp name_text initrd_end ==ℤ pos 0
    then (false, record s { cpio_end = tree_word mem p })
    else (false, s)
