-- ===== src/Buddy/Init.antt =====
-- `buddy_init`: the memory cut into blocks on the free lists of the unmovable zone.
pub mod Cut
pub mod Count
use black_kernel.Base.{
  ℕ, zero, suc, ◌-◌, ◌^◌, bit_and, ◌||◌, not, [], ltb, ◌==◌, if◌then◌else◌, update, add64, sub64,
}
use black_kernel.Buddy.{
  Zone, Buddy, max_order, bitmap_size, zone_unmovable, pages_to_bytes, bytes_to_pages,
  addr_to_page_index, add_block,
}

-- The inner loop: from `order` down to one whose blocks fit and start at the page index.
unfoldable pub choose_order : ℕ → ℕ → ℕ → ℕ
choose_order zero remaining index = 0
choose_order (suc k) remaining index =
    if ltb remaining (2 ^ suc k) || not (bit_and index (2 ^ suc k - 1) == 0)
    then choose_order k remaining index
    else suc k

-- The outer loop. Each round takes a page at least, so the number of pages is enough fuel.
unfoldable pub carve : ℕ → Buddy → ℕ → ℕ → Zone → Zone
unfolding addr_to_page_index pages_to_bytes add_block
carve zero b current_addr remaining zone = zone
carve (suc fuel) b current_addr remaining zone =
    let order = choose_order max_order remaining (addr_to_page_index b current_addr) in
    let rest =
      carve fuel b (add64 current_addr (pages_to_bytes (2 ^ order))) (sub64 remaining (2 ^ order))
        (add_block zone order current_addr) in
    if remaining == 0 then zone else rest

abbrev pub empty_zone : ℕ → Zone
empty_zone memory_start = record {
  free_lists = λ i. [];
  free_counts = λ i. 0;
  total_pages = 0;
  free_pages = 0;
  base_address = memory_start;
  map_size = bitmap_size;
}

-- The state after the loops that clear the bitmap and the zones.
abbrev pub cleared : ℕ → ℕ → Buddy
cleared memory_start memory_size = record {
  zones = λ z. empty_zone memory_start;
  memory_start = memory_start;
  memory_size = memory_size;
  bitmap = λ i. 0;
}

unfoldable pub init : ℕ → ℕ → Buddy
unfolding carve bytes_to_pages
init memory_start memory_size =
    let b = cleared memory_start memory_size in
    let total_pages = bytes_to_pages memory_size in
    let zone = record (empty_zone memory_start) {
      total_pages = total_pages;
      free_pages = total_pages;
    } in
    record b {
      zones = update b.zones zone_unmovable (carve total_pages b memory_start total_pages zone);
    }
