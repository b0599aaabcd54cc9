-- ===== src/PageCache.antt =====
-- The page cache, kernel/mm/page_cache.c: a hash table of cached file pages and the list that says
-- which page to evict. The entry structures are records by address; each chain of the hash table and
-- the doubly linked `lru` list is the list of the addresses on it, from its head. The lock around each
-- operation makes it one step.
--
-- The table has 1024 chains of 8 bytes, but is given one page of 4096: its second half lies in the page
-- behind, which is not the table's. The chains are kept apart from all other memory here, as they are
-- as long as no one else uses that page; `IsOwned` in PageCache/Owned says so, and PageCache/Overrun
-- what the program does with it.
pub mod Tests
pub mod Lookup
pub mod Valid
pub mod Chains
pub mod Coherent
pub mod Linked
pub mod Owned
pub mod Sound
pub mod Reach
pub mod Removal
pub mod Insertion
pub mod Overrun
use black_kernel.Base.{
  ℕ, zero, suc, ◌+◌, ◌*◌, ◌/◌, ◌%◌, ◌^◌, bit_and, bit_xor, Bool, true, false, not, Option, none,
  some, List, [], ◌∷◌, ltb, leb, ◌==◌, ◌&&◌, ◌||◌, if◌then◌else◌, update, add64, sub64, mul64, ℤ,
  pos, negsuc,
}
use black_kernel.Buddy.{Buddy, alloc_pages, free_pages, list_remove, zone_unmovable, max_order}

pub record Entry : Type 0 where
  pub file_id : ℕ
  pub offset : ℕ
  pub physical_address : ℕ
  pub last_access : ℕ
  pub flags : ℕ

-- `has_table` is `hash_table != NULL`, `table` its address and `hash_table` the chains; `buddy` is the
-- allocator's state, which the cache shares.
pub record PageCache : Type 0 where
  pub has_table : Bool
  pub table : ℕ
  pub hash_table : ℕ → List ℕ
  pub entries : ℕ → Entry
  pub lru : List ℕ
  pub hash_size : ℕ
  pub total_pages : ℕ
  pub max_pages : ℕ
  pub cache_hits : ℕ
  pub cache_misses : ℕ
  pub counter : ℕ
  pub buddy : Buddy

abbrev pub hash_size_mask : ℕ
hash_size_mask = 1023

unfoldable pub hash_function : ℕ → ℕ → ℕ
hash_function file_id offset =
    bit_and (mul64 (bit_xor file_id (offset / 2 ^ 12)) 2654435761) hash_size_mask

-- Whether `block` is the only block of one of the first lists: then its links are null.
unfoldable pub is_alone : ℕ → (ℕ → List ℕ) → ℕ → Bool
is_alone zero lists block = false
is_alone (suc rounds) lists block =
    let rest = is_alone rounds lists block in
    elim (lists rounds) [
      | [] ↦ rest
      | a ∷ others ↦ elim others [ [] ↦ a == block || rest | c ∷ others ↦ rest ]
    ]

-- The address of the page behind the table.
abbrev pub behind : ℕ → ℕ
behind table = table + 4096

-- `memset` clears 8192 bytes from `table` on. In the page behind it that changes nothing where the page
-- begins a free block whose links are null already, of the zone that all memory is in.
unfoldable pub clears_nothing : Buddy → ℕ → Bool
unfolding is_alone
clears_nothing b table = is_alone (max_order + 1) (b.zones zone_unmovable).free_lists (behind table)

-- 1024 is a power of two, so the check of the size passes. None is a clearing that goes over the links
-- of a free block, a page that someone else has or what lies behind the memory: the state after it is
-- not followed.
unfoldable pub init : PageCache → ℕ → Option PageCache
unfolding clears_nothing
init c max_pages =
    let (hash_table_addr, buddy) = alloc_pages c.buddy 0 zone_unmovable in
    let cleared : PageCache = record c {
      hash_size = 1024;
      max_pages = max_pages;
      total_pages = 0;
      cache_hits = 0;
      cache_misses = 0;
      lru = [];
      buddy = buddy;
    } in
    if hash_table_addr == 0
    then some (record cleared { has_table = false })
    else if clears_nothing buddy hash_table_addr
    then some
        (record cleared { has_table = true; table = hash_table_addr; hash_table = λ hash. [] })
    else none

-- The timestamp, and the state with the counter moved on.
unfoldable pub get_timestamp : PageCache → ℕ × PageCache
get_timestamp c = (c.counter, record c { counter = add64 c.counter 1 })

-- `entry->file_id == file_id && entry->offset == offset`
unfoldable pub is_for : Entry → ℕ → ℕ → Bool
is_for e file_id offset = e.file_id == file_id && e.offset == offset

-- The walk along a chain.
unfoldable pub find : (ℕ → Entry) → List ℕ → ℕ → ℕ → Option ℕ
unfolding is_for
find entries [] file_id offset = none
find entries (a ∷ chain) file_id offset =
    if is_for (entries a) file_id offset then some a else find entries chain file_id offset

-- The entry that the operations work on: the search in the chain of the key.
unfoldable pub find_entry : PageCache → ℕ → ℕ → Option ℕ
find_entry c file_id offset =
    find c.entries (c.hash_table (hash_function file_id offset)) file_id offset

unfoldable pub lookup : PageCache → ℕ → ℕ → ℕ × PageCache
unfolding find_entry get_timestamp
lookup c file_id offset =
    if c.has_table
    then elim (find_entry c file_id offset) [
      | none ↦ (0, record c { cache_misses = add64 c.cache_misses 1 })
      | some entry ↦
          let (time, timed) = get_timestamp c in
          (
            (c.entries entry).physical_address,
            record timed {
              entries = update c.entries entry (record (c.entries entry) { last_access = time });
              cache_hits = add64 c.cache_hits 1;
            },
          )
    ]
    else (0, c)

unfoldable pub lru_add_to_head : List ℕ → ℕ → List ℕ
lru_add_to_head lru entry = entry ∷ lru

unfoldable pub lru_remove : List ℕ → ℕ → List ℕ
lru_remove lru entry = list_remove lru entry

-- `lru_tail`, none where it is NULL.
unfoldable pub lru_tail : List ℕ → Option ℕ
lru_tail [] = none
lru_tail (a ∷ []) = some a
lru_tail (a ∷ b ∷ lru) = lru_tail (b ∷ lru)

-- Both removals take an entry out of its chain and out of `lru`, and count it off.
unfoldable pub unlink : PageCache → ℕ → ℕ → PageCache
unfolding lru_remove
unlink c hash entry = record c {
  lru = lru_remove c.lru entry;
  hash_table = update c.hash_table hash (list_remove (c.hash_table hash) entry);
  total_pages = sub64 c.total_pages 1;
}

unfoldable pub evict_lru : PageCache → PageCache
unfolding unlink lru_tail
evict_lru c =
    if c.has_table
    then elim (lru_tail c.lru) [
      | none ↦ c
      | some victim ↦
          let e = c.entries victim in
          record (unlink c (hash_function e.file_id e.offset) victim) {
            buddy = free_pages (free_pages c.buddy e.physical_address 0) victim 0;
          }
    ]
    else c

-- The part of `page_cache_insert` that makes the entry and links it.
unfoldable pub insert_new : PageCache → ℕ → ℕ → ℕ → ℤ × PageCache
unfolding get_timestamp lru_add_to_head
insert_new c file_id offset phys_addr =
    let (entry, buddy) = alloc_pages c.buddy 0 zone_unmovable in
    if entry == 0
    then (negsuc 0, record c { buddy = buddy })
    else (let (time, timed) = get_timestamp c in
        let hash = hash_function file_id offset in
        let e : Entry = record {
          file_id = file_id;
          offset = offset;
          physical_address = phys_addr;
          last_access = time;
          flags = 0;
        } in
        (
          pos 0,
          record timed {
            buddy = buddy;
            entries = update c.entries entry e;
            hash_table = update c.hash_table hash (entry ∷ c.hash_table hash);
            lru = lru_add_to_head c.lru entry;
            total_pages = add64 c.total_pages 1;
          },
        ))

unfoldable pub insert : PageCache → ℕ → ℕ → ℕ → ℤ × PageCache
unfolding find_entry insert_new
insert c file_id offset phys_addr =
    if not c.has_table || phys_addr == 0
    then (negsuc 0, c)
    else elim (find_entry c file_id offset) [
      | some existing ↦ (pos 0, c)
      | none ↦
          if leb c.max_pages c.total_pages
          then insert_new (evict_lru c) file_id offset phys_addr
          else insert_new c file_id offset phys_addr
    ]

unfoldable pub remove : PageCache → ℕ → ℕ → PageCache
unfolding find_entry unlink
remove c file_id offset =
    if c.has_table
    then elim (find_entry c file_id offset) [
      | none ↦ c
      | some entry ↦ record (unlink c (hash_function file_id offset) entry) {
        buddy = free_pages c.buddy entry 0;
      }
    ]
    else c

-- hits, misses and pages
unfoldable pub get_stats : PageCache → ℕ × ℕ × ℕ
get_stats c = if c.has_table then (c.cache_hits, c.cache_misses, c.total_pages) else (0, 0, 0)
