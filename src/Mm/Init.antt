-- ===== src/Mm/Init.antt =====
-- `mm_init`, `split` and `reserve` of src/mm.c: the first blocks, and pages taken from them.
use Prim.Native.Nat.{bit_and}
use nycu_osc.Prelude.{
  ℕ, zero, suc, ◌+◌, ◌-◌, ◌/◌, ◌^◌, Option, none, some, ◌==◌, ltb, leb, if◌then◌else◌,
}
use nycu_osc.Prelude.Int.{pos, negsuc, ◌==ℤ◌}
use nycu_osc.Mm.Types.{
  Mm, max_order, page_num, page_size, max_block_size, set_idx, set_order, set_entry,
}
use nycu_osc.Mm.Order.{get_buddy}
use nycu_osc.Mm.FreeList.{add_to_free_list, rm_from_free_list}
use nycu_osc.Mm.Free.{is_linked}

-- every byte of `page_list` is 0, and no list has an entry
abbrev pub cleared : Mm
cleared = record {
  free_list = λ o. none;
  page_list = λ p. record {
    idx = 0;
    order = pos 0;
    cache_order = pos 0;
    entry_in_list = none;
    prev = none;
    next = none;
  };
}

-- one round of the loop over the blocks
unfoldable pub init_block : ℕ → Mm → Mm
init_block i m =
    let m₁ = add_to_free_list (some i) (pos (max_order - 1)) (set_idx i i m) in
    set_entry i (some i) (set_order i (pos (max_order - 1)) m₁)

-- the loop over the blocks, by the rounds left
unfoldable pub init_blocks : ℕ → ℕ → Mm → Mm
unfolding init_block
init_blocks zero i m = m
init_blocks (suc n) i m = init_blocks n (i + max_block_size) (init_block i m)

-- `page_list[i].cache_order = -1` for every page
unfoldable pub init_cache_order : Mm → Mm
init_cache_order m = record m {
  page_list = λ p.
      if ltb p page_num then record (m.page_list p) { cache_order = negsuc 0 } else m.page_list p;
}

-- `mm_init`: 30 blocks of `MAX_BLOCK_SIZE` pages make up the memory
unfoldable pub mm_init : Mm
unfolding init_blocks init_cache_order
mm_init = init_cache_order (init_blocks (page_num / max_block_size) 0 cleared)

-- a half of a block goes to the list of order `order`
unfoldable pub put_half : ℕ → ℕ → Mm → Mm
put_half idx order m =
    set_entry idx (some idx)
      (add_to_free_list (some idx) (pos order) (set_order idx (pos order) (set_idx idx idx m)))

-- `split`, `none` where `1 << order` has a negative count
unfoldable pub split : ℕ → ℕ → Mm → Option Mm
unfolding put_half
split idx zero m = none
split idx (suc order) m =
    if leb max_order (suc order)
    then some m
    else some (
        put_half (get_buddy idx order) order (
          put_half idx order
            (set_entry idx none (rm_from_free_list (some idx) (pos (suc order)) m))))

-- the first page of the block of order `order` that page `idx` is in
unfoldable pub block_idx : ℕ → ℕ → ℕ
block_idx idx order = idx - bit_and idx (2 ^ order - 1)

-- `if (page_list[idx].order == order) split(idx, order)`
unfoldable pub split_if : ℕ → ℕ → Mm → Option Mm
unfolding split
split_if idx order m = if (m.page_list idx).order ==ℤ pos order then split idx order m else some m

-- the loop over the orders, from `order` down to 1
unfoldable pub split_chunks : ℕ → ℕ → ℕ → Mm → Option Mm
unfolding block_idx split_if
split_chunks zero start_idx end_idx m = some m
split_chunks (suc o) start_idx end_idx m =
    let start_block = block_idx start_idx (suc o) in
    let end_block = block_idx end_idx (suc o) in
    elim (split_if start_block (suc o) m) [
      | none ↦ none
      | some m₁ ↦
          elim (if start_block == end_block then some m₁ else split_if end_block (suc o) m₁) [
            | none ↦ none
            | some m₂ ↦ split_chunks o start_idx end_idx m₂
          ]
    ]

-- one page of the last loop leaves its list
unfoldable pub take_page : ℕ → Mm → Mm
take_page i m =
    if is_linked (m.page_list i).entry_in_list
    then set_entry i none (rm_from_free_list (some i) (m.page_list i).order m)
    else m

-- the loop over the pages, in a number of rounds; `none` where `1 << order` has a negative count
unfoldable pub take_pages : ℕ → ℕ → ℕ → Mm → Option Mm
unfolding take_page
take_pages zero i end_idx m = some m
take_pages (suc f) i end_idx m =
    if ltb end_idx i then some m else elim ((take_page i m).page_list i).order [
      | pos order ↦ take_pages f (i + 2 ^ order) end_idx (take_page i m)
      | negsuc n ↦ none
    ]

-- `reserve`, for addresses with `start < end`
unfoldable pub reserve : ℕ → ℕ → Mm → Option Mm
unfolding split_chunks take_pages
reserve start end m =
    let start_idx = start / page_size in
    let end_idx = (end - 1) / page_size in
    elim (split_chunks (max_order - 1) start_idx end_idx m) [
      | none ↦ none
      | some m₁ ↦ take_pages (end_idx - start_idx + 1) start_idx end_idx m₁
    ]
