-- ===== src/Mm/Alloc.antt =====
-- `_alloc` of src/mm.c: the search for a free block and its splitting.
use nycu_osc.Prelude.{
  ℕ, zero, suc, ◌+◌, ◌-◌, ◌*◌, ◌^◌, Option, none, some, ◌||◌, ◌==◌, ltb, if◌then◌else◌,
}
use nycu_osc.Prelude.Int.{pos}
use nycu_osc.Mm.Types.{Mm, max_order, page_size, max_alloc_size, set_idx, set_order, set_entry}
use nycu_osc.Mm.Order.{round, get_order}
use nycu_osc.Mm.FreeList.{add_to_free_list, rm_from_free_list}

-- `page_list[n].order = i; page_list[n].entry_in_list = entry`
unfoldable pub mark : ℕ → ℕ → Option ℕ → Mm → Mm
mark n i entry m = set_entry n entry (set_order n (pos i) m)

-- One round of the splitting loop, after `i--`: the upper half goes to the list of order `i`.
unfoldable pub split_step : ℕ → ℕ → Mm → Mm
split_step block i m =
    let new = block + 2 ^ i in
    let m₁ = set_idx new ((m.page_list block).idx + 2 ^ i) m in
    let m₂ = add_to_free_list (some new) (pos i) m₁ in
    let n = (m₂.page_list new).idx in mark n i (some new) m₂

-- `while (i > order)`, by the number of rounds `i - order`
unfoldable pub split_down : ℕ → ℕ → ℕ → Mm → Mm
split_down block order zero m = m
split_down block order (suc k) m = split_down block order k (split_step block (order + k) m)

-- what is done with the block that the search found in the list of order `i`
unfoldable pub take_block : ℕ → ℕ → ℕ → Mm → ℕ × Mm
take_block block i order m =
    let m₁ = split_down block order (i - order) (rm_from_free_list (some block) (pos i) m) in
    let b = (m₁.page_list block).idx in (b * page_size, mark b order none m₁)

-- `for (i = order; i < MAX_ORDER; i++)`, by the rounds left; address 0 is NULL
unfoldable pub find_block : ℕ → ℕ → ℕ → Mm → ℕ × Mm
find_block order i zero m = (0, m)
find_block order i (suc k) m = elim (m.free_list i) [
  | none ↦ find_block order (i + 1) k m
  | some block ↦ take_block block i order m
]

-- `_alloc`
unfoldable pub page_alloc : ℕ → Mm → ℕ × Mm
page_alloc size m =
    let order = get_order (round size) in
    if (size == 0) || ltb max_alloc_size size
    then (0, m)
    else find_block order order (max_order - order) m
