-- ===== src/Slab/Release.antt =====
-- What the slab allocator takes back, kernel/mm/slab.c: objects in `slab_free`, whole caches in
-- `slab_cache_destroy`.
use black_kernel.Base.{
  ℕ, zero, suc, ◌+◌, not, Option, none, some, List, [], ◌∷◌, ltb, leb, ◌==◌, ◌&&◌, if◌then◌else◌,
  update, add64, add32, sub32,
}
use black_kernel.Buddy.{Buddy, alloc_pages, free_pages, list_remove, page_size, zone_unmovable}
use black_kernel.Slab.{CpuCache, SlabCache, Slabs, max_cpus, is_full, move_to_list}

unfoldable pub free_slabs : Buddy → List ℕ → Buddy
free_slabs b [] = b
free_slabs b (slab ∷ slabs) = free_slabs (free_pages b slab 0) slabs

unfoldable pub free_arrays : ℕ → ℕ → Buddy → (ℕ → CpuCache) → Buddy
free_arrays zero cpu b cpu_caches = b
free_arrays (suc rounds) cpu b cpu_caches =
    free_arrays rounds (cpu + 1)
      (if (cpu_caches cpu).objects == 0 then b else free_pages b (cpu_caches cpu).objects 0)
      cpu_caches

unfoldable pub cache_destroy : Slabs → ℕ → SlabCache → Slabs
cache_destroy s address cache =
    let b1 = free_slabs s.buddy cache.slabs_full in
    let b2 = free_slabs b1 cache.slabs_partial in
    let b3 = free_slabs b2 cache.slabs_free in
    let b4 = free_arrays max_cpus 0 b3 cache.cpu_caches in
    record s { cache_list = list_remove s.cache_list address; buddy = free_pages b4 address 0 }

-- The slab of the list whose page holds the object.
unfoldable pub find_slab : List ℕ → ℕ → Option ℕ
find_slab [] object = none
find_slab (slab ∷ slabs) object =
    if leb slab object && ltb object (add64 slab page_size)
    then some slab
    else find_slab slabs object

unfoldable pub find_for_object : SlabCache → ℕ → Option ℕ
find_for_object cache object = elim (find_slab cache.slabs_full object) [
  | some slab ↦ some slab
  | none ↦ find_slab cache.slabs_partial object
]

unfoldable pub free_to_slab : Slabs → ℕ → ℕ → Slabs
free_to_slab s slab object = record s {
  slabs = update s.slabs slab (record (s.slabs slab) {
    free_list = object ∷ (s.slabs slab).free_list;
    in_use = sub32 (s.slabs slab).in_use 1;
  });
}

-- The object goes to its slab, and the slab to the list that it now belongs on.
unfoldable pub return_object : Slabs → SlabCache → ℕ → ℕ → Slabs × SlabCache
return_object s cache slab object =
    let s1 = free_to_slab s slab object in
    (
      s1,
      if is_full s slab
          then (let (full, partial) = move_to_list cache.slabs_full cache.slabs_partial slab in
              record cache { slabs_full = full; slabs_partial = partial })
          else if (s1.slabs slab).in_use == 0
          then (let (partial, unused) = move_to_list cache.slabs_partial cache.slabs_free slab in
              record cache { slabs_partial = partial; slabs_free = unused })
          else cache,
    )

-- The part of `slab_free` under the lock.
unfoldable pub free_slow : Slabs → SlabCache → ℕ → Slabs × SlabCache
free_slow s cache object = elim (find_for_object cache object) [
  | none ↦ (s, cache)
  | some slab ↦
      let (s1, cache1) = return_object s cache slab object in
      (s1, record cache1 { total_frees = add64 cache1.total_frees 1 })
]

-- `cpu_cache->objects[cpu_cache->available++] = object`, on the processor's cache.
unfoldable pub push_object : SlabCache → CpuCache → ℕ → SlabCache
push_object cache cpu object = record cache {
  cpu_caches = update cache.cpu_caches 0 (record cpu {
    array = update cpu.array cpu.available object;
    available = add32 cpu.available 1;
  });
  total_frees = add64 cache.total_frees 1;
}

unfoldable pub free : Slabs → SlabCache → ℕ → Slabs × SlabCache
free s cache object =
    let cpu = cache.cpu_caches 0 in
    let (array, buddy) = alloc_pages s.buddy 0 zone_unmovable in
    let s1 : Slabs = record s { buddy = buddy } in
    if object == 0
    then (s, cache)
    else if not (ltb cpu.available cpu.limit)
    then free_slow s cache object
    else if not (cpu.objects == 0)
    then (s, push_object cache cpu object)
    else if array == 0
    then free_slow s1 cache object
    else (s1, push_object cache (record cpu { objects = array }) object)
