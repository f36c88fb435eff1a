-- ===== src/Mm/FreeList.antt =====
-- The doubly linked free lists of src/mm.c: insertion at the front and removal.
use nycu_osc.Prelude.{ℕ, Bool, false, Option, none, some, ◌==◌, leb, if◌then◌else◌}
use nycu_osc.Prelude.Int.{ℤ, pos, negsuc}
use nycu_osc.Mm.Types.{Mm, max_order, set_head, set_prev, set_next, set_prev?, set_next?}

-- `add_to_free_list` past its guards, by whether the list is empty
unfoldable pub push_front : ℕ → ℕ → Option ℕ → Mm → Mm
push_front e o none m = set_prev e none (set_next e none (set_head o (some e) m))
push_front e o (some h) m =
    set_head o (some e) (set_next e (some h) (set_prev e none (set_prev h (some e) m)))

unfoldable pub add_to_free_list : Option ℕ → ℤ → Mm → Mm
unfolding push_front
add_to_free_list none order m = m
add_to_free_list (some e) (negsuc n) m = m
add_to_free_list (some e) (pos o) m =
    if leb max_order o then m else push_front e o (m.free_list o) m

-- whether a pointer is the given one
abbrev pub points_to : Option ℕ → ℕ → Bool
points_to none e = false
points_to (some p) e = p == e

-- the removal at the front of the list
unfoldable pub unlink_front : ℕ → ℕ → Mm → Mm
unlink_front e o m = let n = (m.page_list e).next in set_prev? n none (set_head o n m)

-- the removal in the middle; `entry->next` is read again after the first write
unfoldable pub unlink_middle : ℕ → Mm → Mm
unlink_middle e m =
    let m' = set_next? (m.page_list e).prev (m.page_list e).next m in
    set_prev? (m'.page_list e).next (m'.page_list e).prev m'

unfoldable pub rm_from_free_list : Option ℕ → ℤ → Mm → Mm
unfolding unlink_front unlink_middle
rm_from_free_list none order m = m
rm_from_free_list (some e) (negsuc n) m = m
rm_from_free_list (some e) (pos o) m =
    if leb max_order o
    then m
    else set_prev e none (
        set_next e none
          (if points_to (m.free_list o) e then unlink_front e o m else unlink_middle e m))
