-- ===== src/Mm/Types.antt =====
-- The data of src/mm.c and include/mm.h, and the writes to one field. A `struct PageInfo *`
-- always points into `page_list`: a pointer is the index of its element, and NULL is `none`.
use nycu_osc.Prelude.{ℕ, ◌*◌, ◌/◌, ◌^◌, Option, none, some}
use nycu_osc.Prelude.Int.{ℤ}
use nycu_osc.Prelude.Store.{update}

abbrev pub max_order : ℕ
max_order = 14

abbrev pub page_size : ℕ
page_size = 4096

abbrev pub page_num : ℕ
page_num = 0x3C000000 / page_size

abbrev pub max_block_size : ℕ
max_block_size = 2 ^ 13

abbrev pub max_alloc_size : ℕ
max_alloc_size = page_size * max_block_size

pub record PageInfo : Type 0 where
  pub idx : ℕ
  pub order : ℤ
  pub cache_order : ℤ
  pub entry_in_list : Option ℕ
  pub prev : Option ℕ
  pub next : Option ℕ

-- `free_list` and `page_list`; `memory_start` is 0.
pub record Mm : Type 0 where
  pub free_list : ℕ → Option ℕ
  pub page_list : ℕ → PageInfo

abbrev pub set_page : ℕ → PageInfo → Mm → Mm
set_page p i m = record m { page_list = update m.page_list p i }

-- `free_list[o] = h`
abbrev pub set_head : ℕ → Option ℕ → Mm → Mm
set_head o h m = record m { free_list = update m.free_list o h }

-- `p->prev = v`, and so for the other fields
abbrev pub set_prev : ℕ → Option ℕ → Mm → Mm
set_prev p v m = set_page p (record (m.page_list p) { prev = v }) m

abbrev pub set_next : ℕ → Option ℕ → Mm → Mm
set_next p v m = set_page p (record (m.page_list p) { next = v }) m

abbrev pub set_entry : ℕ → Option ℕ → Mm → Mm
set_entry p v m = set_page p (record (m.page_list p) { entry_in_list = v }) m

abbrev pub set_order : ℕ → ℤ → Mm → Mm
set_order p v m = set_page p (record (m.page_list p) { order = v }) m

abbrev pub set_cache_order : ℕ → ℤ → Mm → Mm
set_cache_order p v m = set_page p (record (m.page_list p) { cache_order = v }) m

abbrev pub set_idx : ℕ → ℕ → Mm → Mm
set_idx p v m = set_page p (record (m.page_list p) { idx = v }) m

-- the writes through a pointer that the code tests for NULL first
abbrev pub set_prev? : Option ℕ → Option ℕ → Mm → Mm
set_prev? none v m = m
set_prev? (some p) v m = set_prev p v m

abbrev pub set_next? : Option ℕ → Option ℕ → Mm → Mm
set_next? none v m = m
set_next? (some p) v m = set_next p v m
