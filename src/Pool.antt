-- ===== src/Pool.antt =====
-- Object pools, kernel/mm/pool.c and include/mm/pool.h. The free list is the list of its chunks'
-- addresses, `regions` that of the regions'; the buddy allocator's state is passed along. A pool's
-- name is left out, and the lock makes each operation one step.
pub mod Tests
pub mod Objects
pub mod Reserved
use black_kernel.Base.{
  ℕ, zero, suc, ◌+◌, ◌-◌, ◌*◌, ◌/◌, ◌%◌, ◌^◌, bit_and, Bool, true, false, not, Option, none, some,
  List, [], ◌∷◌, ltb, leb, ◌==◌, ◌&&◌, ◌||◌, if◌then◌else◌, u64, u32, add64, sub64, mul64, add32,
  sub32,
}
use black_kernel.Buddy.{
  Buddy, alloc_pages, free_pages, max_order, page_size, zone_unmovable, zone_reclaimable,
}

pub record MemoryPool : Type 0 where
  pub object_size : ℕ
  pub initial_count : ℕ
  pub grow_count : ℕ
  pub total_objects : ℕ
  pub free_objects : ℕ
  pub free_list : List ℕ
  pub regions : List ℕ

-- `sizeof(pool_chunk_t)` and `sizeof(pool_region_t)`
abbrev pub min_object_size : ℕ
min_object_size = 8

abbrev pub region_header : ℕ
region_header = 16

unfoldable pub align_up : ℕ → ℕ → ℕ
align_up size alignment = bit_and (sub64 (add64 size alignment) 1) (u64 - alignment)

-- `while (order_pages < pages_needed && order < BUDDY_MAX_ORDER)`, at most `max_order` rounds.
unfoldable pub find_order : ℕ → ℕ → ℕ → ℕ
find_order zero order pages_needed = order
find_order (suc rounds) order pages_needed =
    let larger = find_order rounds (order + 1) pages_needed in
    if ltb (2 ^ order) pages_needed && ltb order max_order then larger else order

-- `for (i...; i < objects_in_region; i++)`: every object goes in front of the free list.
unfoldable pub thread_objects : ℕ → ℕ → ℕ → ℕ → List ℕ → List ℕ
thread_objects zero i objects_start object_size free_list = free_list
thread_objects (suc rounds) i objects_start object_size free_list =
    thread_objects rounds (i + 1) objects_start object_size
      ((objects_start + i * object_size) ∷ free_list)

unfoldable pub pages_needed : MemoryPool → ℕ → ℕ
pages_needed pool count = sub64 (add64 (mul64 count pool.object_size) page_size) 1 / page_size % u32

-- Whether it succeeded, the allocator and the pool.
unfoldable pub grow : Buddy → MemoryPool → ℕ → Bool × Buddy × MemoryPool
grow b pool count =
    let order = find_order max_order 0 (pages_needed pool count) in
    let (region, b1) = alloc_pages b order zone_reclaimable in
    let objects = (2 ^ order * page_size - region_header) / pool.object_size in
    if count == 0 then (false, b, pool) else if region == 0 then (false, b1, pool) else (
      true,
      b1,
      record pool {
        regions = region ∷ pool.regions;
        free_list =
            thread_objects objects 0 (region + region_header) pool.object_size pool.free_list;
        total_objects = add32 pool.total_objects objects;
        free_objects = add32 pool.free_objects objects;
      },
    )

-- The address of the pool structure and the pool, none where `pool_create` returns NULL.
unfoldable pub create : Buddy → Bool → ℕ → ℕ → Option (ℕ × MemoryPool) × Buddy
create b has_name object_size initial_count =
    let (address, b1) = alloc_pages b 0 zone_unmovable in
    let size = if ltb object_size min_object_size then min_object_size else object_size in
    let pool : MemoryPool = record {
      object_size = align_up size 8;
      initial_count = initial_count;
      grow_count = if initial_count / 2 == 0 then 1 else initial_count / 2;
      total_objects = 0;
      free_objects = 0;
      free_list = [];
      regions = [];
    } in
    let (grown, b2, pool') = grow b1 pool initial_count in
    if not has_name || object_size == 0 || initial_count == 0
    then (none, b)
    else if address == 0
    then (none, b1)
    else if grown
    then (some (address, pool'), b2)
    else (none, free_pages b2 address 0)

-- What `pool_alloc` does once there should be an object; none is the read of a null chunk.
unfoldable pub pop : Buddy → MemoryPool → Option (ℕ × Buddy × MemoryPool)
pop b pool = elim pool.free_list [
  | [] ↦ none
  | chunk ∷ next ↦
      some (chunk, b, record pool { free_list = next; free_objects = sub32 pool.free_objects 1 })
]

unfoldable pub alloc : Buddy → MemoryPool → Option (ℕ × Buddy × MemoryPool)
alloc b pool =
    let (grown, b1, pool') = grow b pool pool.grow_count in
    elim pool.free_list [
      | [] ↦ if grown then pop b1 pool' else some (0, b1, pool)
      | chunk ∷ next ↦ pop b pool
    ]

unfoldable pub free : MemoryPool → ℕ → MemoryPool
free pool object = if object == 0 then pool else record pool {
  free_list = object ∷ pool.free_list;
  free_objects = add32 pool.free_objects 1;
}

-- The order that `pool_destroy` guesses: the last `o` whose blocks' alignment the address has.
unfoldable pub guess_order : ℕ → ℕ → ℕ → ℕ → ℕ
guess_order zero o addr order = order
guess_order (suc rounds) o addr order =
    guess_order rounds (o + 1) addr (if bit_and addr (2 ^ o * page_size - 1) == 0 then o else order)

unfoldable pub free_regions : Buddy → List ℕ → Buddy
free_regions b [] = b
free_regions b (region ∷ regions) =
    free_regions (free_pages b region (guess_order (suc max_order) 0 region 0)) regions

-- The pool structure is at `address`; its fields are not used again.
unfoldable pub destroy : Buddy → ℕ → MemoryPool → Buddy
destroy b address pool = free_pages (free_regions b pool.regions) address 0

unfoldable pub get_utilization : MemoryPool → ℕ
get_utilization pool =
    if pool.total_objects == 0
    then 0
    else sub32 pool.total_objects pool.free_objects * 100 % u32 / pool.total_objects
