-- ===== src/Slab.antt =====
-- The slab allocator, kernel/mm/slab.c and include/mm/slab.h. A slab is a page; its header is a record
-- by the page's address, its free list the list of the objects on it. The three lists of a cache hold
-- the addresses of its slabs. The cache's name and the null checks on arguments are left out, and the
-- lock makes each operation one step. None of the results is a crash of the processor.
pub mod Release
pub mod Tests
pub mod Counts
pub mod Reserved
pub mod CpuCaches
pub mod Batches
use black_kernel.Base.{
  ℕ, zero, suc, ◌+◌, ◌-◌, ◌*◌, ◌/◌, ◌%◌, ◌^◌, bit_and, Bool, true, false, not, Option, none, some,
  List, [], ◌∷◌, ltb, leb, ◌==◌, ◌&&◌, ◌||◌, if◌then◌else◌, update, u64, add64, sub64, mul64, add32,
  sub32, ◌>>=◌,
}
use black_kernel.Buddy.{
  Buddy, alloc_pages, free_pages, list_remove, page_size, zone_unmovable, zone_reclaimable,
}

pub record Slab : Type 0 where
  pub free_list : List ℕ
  pub in_use : ℕ
  pub total_objects : ℕ
  pub objects : ℕ

-- `objects` is the address of the array, 0 before it is allocated, and `array` what it holds.
pub record CpuCache : Type 0 where
  pub objects : ℕ
  pub array : ℕ → ℕ
  pub available : ℕ
  pub limit : ℕ

pub record SlabCache : Type 0 where
  pub object_size : ℕ
  pub align : ℕ
  pub objects_per_slab : ℕ
  pub color_next : ℕ
  pub slabs_full : List ℕ
  pub slabs_partial : List ℕ
  pub slabs_free : List ℕ
  pub total_allocations : ℕ
  pub total_frees : ℕ
  pub cache_hits : ℕ
  pub cpu_caches : ℕ → CpuCache

-- What the caches share: the slabs' headers, the page allocator and `g_cache_list`.
pub record Slabs : Type 0 where
  pub slabs : ℕ → Slab
  pub buddy : Buddy
  pub cache_list : List ℕ

abbrev pub cache_line_size : ℕ
cache_line_size = 64

-- `sizeof(slab_t)`
abbrev pub slab_header : ℕ
slab_header = 32

abbrev pub cpu_cache_size : ℕ
cpu_cache_size = 16

abbrev pub max_cpus : ℕ
max_cpus = 8

unfoldable pub init : Slabs → Slabs
init s = record s { cache_list = [] }

unfoldable pub align_up : ℕ → ℕ → ℕ
align_up size alignment = bit_and (sub64 (add64 size alignment) 1) (u64 - alignment)

unfoldable pub objects_per_slab : ℕ → ℕ
objects_per_slab object_size =
    if (page_size - slab_header) / object_size == 0
    then 1
    else (page_size - slab_header) / object_size

-- The address of the cache structure and the cache, none where the result is NULL.
unfoldable pub cache_create : Slabs → Bool → ℕ → ℕ → Option (ℕ × SlabCache) × Slabs
cache_create s has_name size align =
    let align' = if align == 0 then 8 else align in
    let object_size = align_up size align' in
    let (address, buddy) = alloc_pages s.buddy 0 zone_unmovable in
    let cache : SlabCache = record {
      object_size = object_size;
      align = align';
      objects_per_slab = objects_per_slab object_size;
      color_next = 0;
      slabs_full = [];
      slabs_partial = [];
      slabs_free = [];
      total_allocations = 0;
      total_frees = 0;
      cache_hits = 0;
      cpu_caches =
          λ cpu. record { objects = 0; array = λ i. 0; available = 0; limit = cpu_cache_size };
    } in
    if not has_name || size == 0 || ltb page_size size
    then (none, s)
    else if address == 0
    then (none, record s { buddy = buddy })
    else (some (address, cache), record s { buddy = buddy; cache_list = address ∷ s.cache_list })

-- `for (i...; i < objects_per_slab; i++)`: every object goes in front of the free list.
unfoldable pub thread_objects : ℕ → ℕ → ℕ → ℕ → List ℕ → List ℕ
thread_objects zero i objects object_size free_list = free_list
thread_objects (suc rounds) i objects object_size free_list =
    thread_objects rounds (i + 1) objects object_size ((objects + i * object_size) ∷ free_list)

-- What the colour is reduced by.
unfoldable pub color_range : SlabCache → ℕ
color_range cache = sub64 (page_size - slab_header) (mul64 cache.objects_per_slab cache.object_size)

-- The slab, 0 for NULL; none is the division by zero where `color_range` is 0.
unfoldable pub slab_create : Slabs → SlabCache → Option (ℕ × Slabs × SlabCache)
slab_create s cache =
    let (address, buddy) = alloc_pages s.buddy 0 zone_reclaimable in
    let color_offset = mul64 cache.color_next cache_line_size % color_range cache in
    let objects = address + slab_header + color_offset in
    let slab : Slab = record {
      free_list = thread_objects cache.objects_per_slab 0 objects cache.object_size [];
      in_use = 0;
      total_objects = cache.objects_per_slab;
      objects = objects;
    } in
    if address == 0
    then some (0, record s { buddy = buddy }, cache)
    else if color_range cache == 0
    then none
    else some (
      address,
      record s { buddy = buddy; slabs = update s.slabs address slab },
      record cache { color_next = (cache.color_next + 1) % 8 },
    )

-- The first object of the free list, 0 where there is none.
unfoldable pub alloc_from_slab : Slabs → ℕ → ℕ × Slabs
alloc_from_slab s slab = elim ((s.slabs slab).free_list) [
  | [] ↦ (0, s)
  | obj ∷ next ↦ (
    obj,
    record s {
      slabs =
          update s.slabs slab
            (record (s.slabs slab) { free_list = next; in_use = add32 (s.slabs slab).in_use 1 });
    },
  )
]

-- `slab->in_use == slab->total_objects`
unfoldable pub is_full : Slabs → ℕ → Bool
is_full s slab = (s.slabs slab).in_use == (s.slabs slab).total_objects

-- The two lists after the move. The code writes the link of the slab, so it must be on `from` only.
unfoldable pub move_to_list : List ℕ → List ℕ → ℕ → List ℕ × List ℕ
move_to_list from to slab = (list_remove from slab, slab ∷ to)

-- An object from the head of `slabs_partial`, which moves to `slabs_full` with its last object.
unfoldable pub alloc_partial : Slabs → SlabCache → ℕ → ℕ × Slabs × SlabCache
alloc_partial s cache slab =
    let (obj, s1) = alloc_from_slab s slab in
    (
      obj,
      s1,
      if is_full s1 slab
          then (let (partial, full) = move_to_list cache.slabs_partial cache.slabs_full slab in
              record cache { slabs_partial = partial; slabs_full = full })
          else cache,
    )

-- The object of `slab_alloc` that does not come from the processor's cache.
unfoldable pub alloc_slow : Slabs → SlabCache → Option (ℕ × Slabs × SlabCache)
alloc_slow s cache = elim cache.slabs_partial [
  | slab ∷ partial ↦ some (alloc_partial s cache slab)
  | [] ↦ elim cache.slabs_free [
    | slab ∷ next ↦ some (
        alloc_partial s
          (record cache { slabs_free = next; slabs_partial = slab ∷ cache.slabs_partial }) slab)
    | [] ↦ elim (slab_create s cache) [
      | none ↦ none
      | some made ↦
          if made.0 == 0
          then some made
          else some (
              alloc_partial made.1 (record made.2 { slabs_partial = made.0 ∷ made.2.slabs_partial })
                made.0)
    ]
  ]
]

unfoldable pub alloc : Slabs → SlabCache → Option (ℕ × Slabs × SlabCache)
alloc s cache =
    let cpu = cache.cpu_caches 0 in
    let slow : Option (ℕ × Slabs × SlabCache) = elim (alloc_slow s cache) [
      | none ↦ none
      | some r ↦
          if r.0 == 0
          then some r
          else some (r.0, r.1, record r.2 { total_allocations = add64 r.2.total_allocations 1 })
    ] in
    if ltb 0 cpu.available
    then some (
      cpu.array (cpu.available - 1),
      s,
      record cache {
        cpu_caches = update cache.cpu_caches 0 (record cpu { available = cpu.available - 1 });
        cache_hits = add64 cache.cache_hits 1;
        total_allocations = add64 cache.total_allocations 1;
      },
    )
    else slow

-- allocations, frees and hits
unfoldable pub get_stats : SlabCache → ℕ × ℕ × ℕ
get_stats cache = (cache.total_allocations, cache.total_frees, cache.cache_hits)
