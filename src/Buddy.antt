-- ===== src/Buddy.antt =====
-- The buddy page allocator, kernel/mm/buddy.c and include/mm/buddy.h. A free list is the sequence
-- of the addresses of its blocks, first block first; the functions take the static state (`g_zones`,
-- `g_memory_start`, `g_memory_size`, `g_allocation_bitmap`) and return the new one. Printing and the
-- zone locks are left out: one call is one critical section.
pub mod Measure
pub mod Valid
pub mod Alloc
pub mod Search
pub mod Free
pub mod Bitmap
pub mod Coverage
pub mod Page
pub mod Accounting
pub mod Init
pub mod Reach
pub mod Stats
pub mod Tests
use black_kernel.Base.{
  ℕ, zero, suc, ◌+◌, ◌-◌, ◌*◌, ◌/◌, ◌%◌, ◌^◌, bit_and, bit_or, bit_xor, Bool, true, false, not,
  ◌||◌, List, [], ◌∷◌, ltb, leb, ◌==◌, if◌then◌else◌, update, add64, sub64, mul64,
}

abbrev pub max_order : ℕ
max_order = 10

abbrev pub page_size : ℕ
page_size = 4096

-- `buddy_zone_type_t`: an enum in C, and so any number in a call.
abbrev pub zone_unmovable : ℕ
zone_unmovable = 0

abbrev pub zone_reclaimable : ℕ
zone_reclaimable = 1

abbrev pub zone_movable : ℕ
zone_movable = 2

abbrev pub zone_count : ℕ
zone_count = 3

-- `buddy_zone_t`. `allocation_map` always points to the one bitmap, which stands in `Buddy`.
pub record Zone : Type 0 where
  pub free_lists : ℕ → List ℕ
  pub free_counts : ℕ → ℕ
  pub total_pages : ℕ
  pub free_pages : ℕ
  pub base_address : ℕ
  pub map_size : ℕ

pub record Buddy : Type 0 where
  pub zones : ℕ → Zone
  pub memory_start : ℕ
  pub memory_size : ℕ
  pub bitmap : ℕ → ℕ

-- `sizeof(g_allocation_bitmap)`
abbrev pub bitmap_size : ℕ
bitmap_size = 1024 * 1024

unfoldable pub pages_to_bytes : ℕ → ℕ
pages_to_bytes pages = mul64 pages page_size

unfoldable pub bytes_to_pages : ℕ → ℕ
bytes_to_pages bytes = sub64 (add64 bytes page_size) 1 / page_size

unfoldable pub addr_to_page_index : Buddy → ℕ → ℕ
addr_to_page_index b addr = sub64 addr b.memory_start / page_size

unfoldable pub page_index_to_addr : Buddy → ℕ → ℕ
page_index_to_addr b index = add64 b.memory_start (mul64 index page_size)

-- `byte |= 1 << bit`, on a `uint8_t`
unfoldable pub set_allocation_bit : (ℕ → ℕ) → ℕ → ℕ → ℕ
set_allocation_bit map page_index =
    if ltb (page_index / 8) bitmap_size
    then update map (page_index / 8) (bit_or (map (page_index / 8)) (2 ^ (page_index % 8)) % 256)
    else map

-- `byte &= ~(1 << bit)`: of the complement only the low eight bits can matter.
unfoldable pub clear_allocation_bit : (ℕ → ℕ) → ℕ → ℕ → ℕ
clear_allocation_bit map page_index =
    if ltb (page_index / 8) bitmap_size
    then update map (page_index / 8) (bit_and (map (page_index / 8)) (255 - 2 ^ (page_index % 8)))
    else map

unfoldable pub test_allocation_bit : (ℕ → ℕ) → ℕ → ℕ
test_allocation_bit map page_index =
    if ltb (page_index / 8) bitmap_size
    then bit_and (map (page_index / 8) / 2 ^ (page_index % 8)) 1
    else 0

unfoldable pub get_buddy_address : Buddy → ℕ → ℕ → ℕ
unfolding addr_to_page_index page_index_to_addr
get_buddy_address b addr order =
    page_index_to_addr b (bit_xor (addr_to_page_index b addr) (2 ^ order))

-- `list_add` puts the block in front.
unfoldable pub list_add : List ℕ → ℕ → List ℕ
list_add head block = block ∷ head

-- `list_remove` unlinks the block.
unfoldable pub list_remove : List ℕ → ℕ → List ℕ
list_remove [] block = []
list_remove (a ∷ head) block = if a == block then head else a ∷ list_remove head block

-- The search of a free list for an address.
unfoldable pub has : List ℕ → ℕ → Bool
has [] addr = false
has (a ∷ head) addr = a == addr || has head addr

-- `list_add(&zone->free_lists[order], block); zone->free_counts[order]++;`
unfoldable pub add_block : Zone → ℕ → ℕ → Zone
unfolding list_add
add_block zone order block = record zone {
  free_lists = update zone.free_lists order (list_add (zone.free_lists order) block);
  free_counts = update zone.free_counts order (add64 (zone.free_counts order) 1);
}

-- `list_remove(&zone->free_lists[order], block); zone->free_counts[order]--;`
unfoldable pub take_block : Zone → ℕ → ℕ → Zone
unfolding list_remove
take_block zone order block = record zone {
  free_lists = update zone.free_lists order (list_remove (zone.free_lists order) block);
  free_counts = update zone.free_counts order (sub64 (zone.free_counts order) 1);
}

-- The first order from `current` on with a free block; `max_order + 1 - current` rounds are left.
unfoldable pub find_order : ℕ → (ℕ → List ℕ) → ℕ → ℕ
find_order zero lists current = current
find_order (suc rounds) lists current = elim (lists current) [
  | [] ↦ find_order rounds lists (current + 1)
  | a ∷ head ↦ current
]

-- `while (current_order > order)`: `rounds` is what `current_order` is ahead of `order`. Each round
-- puts the upper half of the block on the list below.
unfoldable pub split : ℕ → ℕ → ℕ → Zone → Zone
unfolding pages_to_bytes add_block
split block order zero zone = zone
split block order (suc rounds) zone =
    split block order rounds
      (add_block zone (order + rounds) (add64 block (pages_to_bytes (2 ^ (order + rounds)))))

-- `zone_type` after the check of `buddy_alloc_pages`
unfoldable pub sanitize : ℕ → ℕ
sanitize zone_type = if leb zone_count zone_type then zone_unmovable else zone_type

-- The part of `buddy_alloc_pages` below the search, on the list that the search has found. The
-- empty list does not occur there.
unfoldable pub alloc_block : Buddy → ℕ → ℕ → ℕ → List ℕ → ℕ × Buddy
unfolding take_block split set_allocation_bit addr_to_page_index
alloc_block b zone_type order current [] = (0, b)
alloc_block b zone_type order current (block ∷ _) =
    let zone = split block order (current - order) (take_block (b.zones zone_type) current block) in
    (
      block,
      record b {
        zones =
            update b.zones zone_type
              (record zone { free_pages = sub64 zone.free_pages (2 ^ order) });
        bitmap = set_allocation_bit b.bitmap (addr_to_page_index b block);
      },
    )

-- The address 0 stands for failure.
unfoldable pub alloc_pages : Buddy → ℕ → ℕ → ℕ × Buddy
unfolding find_order sanitize alloc_block
alloc_pages b order zone_type =
    if ltb max_order order
    then (0, b)
    else (let lists = (b.zones (sanitize zone_type)).free_lists in
        let current = find_order (max_order + 1 - order) lists order in
        if ltb max_order current
        then (0, b)
        else alloc_block b (sanitize zone_type) order current (lists current))

-- Whether an address lies outside `[g_memory_start, g_memory_start + g_memory_size)`.
unfoldable pub out_of_range : Buddy → ℕ → Bool
out_of_range b addr = ltb addr b.memory_start || leb (add64 b.memory_start b.memory_size) addr

-- The merge loop of `buddy_free_pages`; `max_order - order` rounds are left.
unfoldable pub merge : ℕ → Buddy → ℕ → ℕ → Zone → ℕ × ℕ × Zone
unfolding get_buddy_address out_of_range test_allocation_bit addr_to_page_index has take_block
merge zero b addr order zone = (addr, order, zone)
merge (suc rounds) b addr order zone =
    let buddy = get_buddy_address b addr order in
    let merged =
      merge rounds b (if ltb buddy addr then buddy else addr) (order + 1)
        (take_block zone order buddy) in
    if out_of_range b buddy
    then (addr, order, zone)
    else if test_allocation_bit b.bitmap (addr_to_page_index b buddy) == 0
    then (if has (zone.free_lists order) buddy then merged else (addr, order, zone))
    else (addr, order, zone)

-- `buddy_free_pages` behind its checks: the block goes back to the unmovable zone.
unfoldable pub free_block : Buddy → ℕ → ℕ → Buddy
unfolding clear_allocation_bit addr_to_page_index merge add_block
free_block b address order =
    let cleared = record b {
      bitmap = clear_allocation_bit b.bitmap (addr_to_page_index b address);
    } in
    let (addr, current, zone) =
      merge (max_order - order) cleared address order (b.zones zone_unmovable) in
    let grown = add_block zone current addr in
    record cleared {
      zones =
          update b.zones zone_unmovable
            (record grown { free_pages = add64 grown.free_pages (2 ^ order) });
    }

unfoldable pub free_pages : Buddy → ℕ → ℕ → Buddy
unfolding out_of_range free_block
free_pages b address order =
    if ltb max_order order
    then b
    else if address == 0
    then b
    else if out_of_range b address
    then b
    else if not (address % page_size == 0)
    then b
    else free_block b address order
