-- ===== src/Slab/CpuCaches.antt =====
-- The caches of the processors in batches, `slab_cpu_cache_refill` and `slab_cpu_cache_drain` of
-- kernel/mm/slab.c.
use black_kernel.Base.{
  ℕ, zero, suc, ◌+◌, ◌-◌, ◌/◌, Option, none, some, [], ◌∷◌, ltb, ◌==◌, ◌&&◌, ◌||◌, if◌then◌else◌,
  update, add32, ℤ, pos, negsuc,
}
use black_kernel.Buddy.{alloc_pages, zone_unmovable}
use black_kernel.Slab.{CpuCache, SlabCache, Slabs, slab_create, alloc_from_slab, alloc_partial}
use black_kernel.Slab.Release.{find_for_object, return_object}

abbrev pub set_cpu : SlabCache → ℕ → CpuCache → SlabCache
set_cpu cache cpu_id cpu = record cache { cpu_caches = update cache.cpu_caches cpu_id cpu }

-- `limit / 2`, at least 1.
unfoldable pub batch_size : CpuCache → ℕ
batch_size cpu = if cpu.limit / 2 == 0 then 1 else cpu.limit / 2

-- The object of a slab that was made, which goes on the partial list.
unfoldable pub take_new : Option (ℕ × Slabs × SlabCache) → Option (ℕ × Slabs × SlabCache)
take_new none = none
take_new (some (slab, s, cache)) =
    if slab == 0
    then some (0, s, cache)
    else (let (obj, s1) = alloc_from_slab s slab in
        some (obj, s1, record cache { slabs_partial = slab ∷ cache.slabs_partial }))

-- The object of one round. A slab that is new on the partial list stays there, also when its only
-- object is taken. None is the division by zero in `slab_create`.
unfoldable pub take_object : Slabs → SlabCache → Option (ℕ × Slabs × SlabCache)
take_object s cache = elim cache.slabs_partial [
  | slab ∷ partial ↦ some (alloc_partial s cache slab)
  | [] ↦ elim cache.slabs_free [
    | slab ∷ next ↦
        let (obj, s1) = alloc_from_slab s slab in
        some
          (obj, s1, record cache { slabs_free = next; slabs_partial = slab ∷ cache.slabs_partial })
    | [] ↦ take_new (slab_create s cache)
  ]
]

-- `cpu_cache->objects[cpu_cache->available++] = obj`
unfoldable pub push_taken : SlabCache → ℕ → ℕ → SlabCache
push_taken cache cpu_id obj =
    let cpu = cache.cpu_caches cpu_id in
    set_cpu cache cpu_id
      (record cpu { array = update cpu.array cpu.available obj; available = add32 cpu.available 1 })

-- The loop; `rounds` is what is left of the batch.
unfoldable pub refill_loop : ℕ → ℕ → Slabs → SlabCache → ℕ → Option (ℕ × Slabs × SlabCache)
refill_loop zero refilled s cache cpu_id = some (refilled, s, cache)
refill_loop (suc rounds) refilled s cache cpu_id =
    if ltb (cache.cpu_caches cpu_id).available (cache.cpu_caches cpu_id).limit
    then elim (take_object s cache) [
      | none ↦ none
      | some (obj, s1, cache1) ↦
          if obj == 0
          then some (refilled, s1, cache1)
          else refill_loop rounds (refilled + 1) s1 (push_taken cache1 cpu_id obj) cpu_id
    ]
    else some (refilled, s, cache)

-- `cpu_cache->objects = ...`
unfoldable pub with_array : SlabCache → ℕ → ℕ → SlabCache
with_array cache cpu_id array =
    set_cpu cache cpu_id (record (cache.cpu_caches cpu_id) { objects = array })

-- `return refilled > 0 ? 0 : -1;`
unfoldable pub report : Option (ℕ × Slabs × SlabCache) → Option (ℤ × Slabs × SlabCache)
report none = none
report (some (refilled, s, cache)) = some (if ltb 0 refilled then pos 0 else negsuc 0, s, cache)

unfoldable pub refill : Slabs → SlabCache → ℕ → Option (ℤ × Slabs × SlabCache)
refill s cache cpu_id =
    let cpu = cache.cpu_caches cpu_id in
    let (array, buddy) = alloc_pages s.buddy 0 zone_unmovable in
    let s1 : Slabs = if cpu.objects == 0 then record s { buddy = buddy } else s in
    let cache1 = if cpu.objects == 0 then with_array cache cpu_id array else cache in
    let filled = report (refill_loop (batch_size cpu) 0 s1 cache1 cpu_id) in
    if cpu.objects == 0 && array == 0 then some (negsuc 0, s1, cache) else filled

-- One object goes back to its slab; an object of no slab is dropped.
unfoldable pub drain_one : Slabs → SlabCache → ℕ → Slabs × SlabCache
drain_one s cache cpu_id =
    let cpu = cache.cpu_caches cpu_id in
    let object = cpu.array (cpu.available - 1) in
    let cache1 = set_cpu cache cpu_id (record cpu { available = cpu.available - 1 }) in
    elim (find_for_object cache1 object) [
      | none ↦ (s, cache1)
      | some slab ↦ return_object s cache1 slab object
    ]

unfoldable pub drain_loop : ℕ → Slabs → SlabCache → ℕ → Slabs × SlabCache
drain_loop zero s cache cpu_id = (s, cache)
drain_loop (suc rounds) s cache cpu_id =
    let (s1, cache1) = drain_one s cache cpu_id in drain_loop rounds s1 cache1 cpu_id

unfoldable pub drain : Slabs → SlabCache → ℕ → Slabs × SlabCache
drain s cache cpu_id =
    let cpu = cache.cpu_caches cpu_id in
    let rounds = if ltb (batch_size cpu) cpu.available then batch_size cpu else cpu.available in
    if cpu.available == 0 || cpu.objects == 0 then (s, cache) else drain_loop rounds s cache cpu_id
