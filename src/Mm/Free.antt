-- ===== src/Mm/Free.antt =====
-- `_free` of src/mm.c: freeing a block and merging it with its buddies.
use nycu_osc.Prelude.{
  ℕ, zero, suc, ◌+◌, ◌-◌, ◌/◌, Option, none, some, ◌||◌, Bool, ltb, leb, if◌then◌else◌, true, false,
}
use nycu_osc.Prelude.Int.{ℤ, pos, negsuc, ◌==ℤ◌}
use nycu_osc.Mm.Types.{Mm, max_order, page_num, page_size, set_idx, set_order, set_entry}
use nycu_osc.Mm.Order.{get_buddy}
use nycu_osc.Mm.FreeList.{add_to_free_list, rm_from_free_list}
use nycu_osc.Mm.Alloc.{mark}

-- the `else` branch of the loop: the block goes back to its list
unfoldable pub give_back : ℕ → ℕ → Mm → Mm
unfolding mark
give_back curr order m =
    mark curr order (some curr) (add_to_free_list (some curr) (pos order) (set_idx curr curr m))

-- the writes of a merge, after the buddy has left its list
unfoldable pub merge : ℕ → ℕ → ℕ → Mm → Mm
merge smaller bigger order m =
    set_entry bigger none (set_order bigger (negsuc 0) (set_order smaller (pos order) m))

-- `while (order < MAX_ORDER - 1)`, by the rounds left; `curr` is `curr_idx`
unfoldable pub free_loop : ℕ → ℕ → ℕ → Mm → Mm
free_loop zero curr order m = m
free_loop (suc k) curr order m =
    let buddy = get_buddy curr order in
    let smaller = if ltb curr buddy then curr else buddy in
    let bigger = if ltb buddy curr then curr else buddy in
    elim (m.page_list buddy).entry_in_list [
      | none ↦ give_back curr order m
      | some entry ↦ elim ((m.page_list buddy).order ==ℤ (m.page_list curr).order) [
        | true ↦
            free_loop k smaller (order + 1)
              (merge smaller bigger (order + 1) (rm_from_free_list (some entry) (pos order) m))
        | false ↦ give_back curr order m
      ]
    ]

-- the loop from the page's order, `none` where `1 << order` has a negative count
unfoldable pub free_order : ℕ → ℤ → Mm → Option Mm
free_order idx (negsuc n) m = none
free_order idx (pos order) m = some (free_loop (max_order - 1 - order) idx order m)

-- whether a pointer field is not NULL
abbrev pub is_linked : Option ℕ → Bool
is_linked none = false
is_linked (some e) = true

-- `_free`; address 0 is NULL
unfoldable pub page_free : ℕ → Mm → Option Mm
page_free zero m = some m
page_free (suc ptr) m =
    let idx = suc ptr / page_size in
    if leb page_num idx || is_linked (m.page_list idx).entry_in_list
    then some m
    else free_order idx (m.page_list idx).order m
