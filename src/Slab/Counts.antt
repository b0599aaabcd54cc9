-- ===== src/Slab/Counts.antt =====
-- The objects of a slab (kernel/mm/slab.c): their places in the page, and their number.
use black_kernel.Base.{
  ℕ, zero, suc, ◌+◌, ◌-◌, ◌*◌, ◌/◌, ◌%◌, ◌≤◌, ◌<◌, ◌≡◌, ◌≢◌, false, arith, ◌==◌, if◌then◌else◌,
  List, [], ◌∷◌, length, some, ap, ◌∙◌, u32, update, update_self, mul64,
}
use native.Mathlib.Nat.{add-mul, mul-le-mul_right, le-div_iff_mul-le, div-add-mod', mod-lt}
use black_kernel.Buddy.{alloc_pages, page_size, zone_reclaimable}
use black_kernel.Slab.{
  Slab, SlabCache, Slabs, cache_line_size, slab_header, objects_per_slab, thread_objects,
  color_range, slab_create,
}

-- Every object of the list is between these bounds, whole.
unfoldable pub AreWithin : ℕ → ℕ → ℕ → List ℕ → Type 0
AreWithin low high size [] = Unit {0}
AreWithin low high size (o ∷ objects) =
    (low ≤ o) × (o + size ≤ high) × AreWithin low high size objects

-- The objects and the free list together are all of the slab's.
pub record IsCounted (slab : Slab) : Type 0 where
  pub counted : slab.in_use + length slab.free_list ≡ slab.total_objects
  pub fits : slab.total_objects < u32

thread_objects-AreWithin :
    (rounds i low objects size high : ℕ) (free_list : List ℕ)
    → low ≤ objects
    → objects + (i + rounds) * size ≤ high
    → AreWithin low high size free_list
    → AreWithin low high size (thread_objects rounds i objects size free_list)
unfolding thread_objects AreWithin
thread_objects-AreWithin zero i low objects size high free_list le room w = w
thread_objects-AreWithin (suc rounds) i low objects size high free_list le room w =
    let same : (i + 1 + rounds) * size ≡ (i + suc rounds) * size =
      ap (λ n. n * size) (omega arith) in
    let this = mul-le-mul_right {m = i + 1} {n = i + suc rounds} size (omega arith) in
    let one_more = add-mul i 1 size in
    thread_objects-AreWithin rounds (i + 1) low objects size high ((objects + i * size) ∷ free_list)
      le (omega (arith, same)) (omega arith, omega (arith, this, one_more), w)

length-thread_objects :
    (rounds i objects size : ℕ) (free_list : List ℕ)
    → length (thread_objects rounds i objects size free_list) ≡ rounds + length free_list
unfolding thread_objects
length-thread_objects zero i objects size free_list = omega arith
length-thread_objects (suc rounds) i objects size free_list =
    length-thread_objects rounds (i + 1) objects size ((objects + i * size) ∷ free_list)
    ∙ omega arith

color_range-fits :
    (cache : SlabCache)
    → cache.objects_per_slab * cache.object_size ≤ 4064
    → color_range cache ≡ 4064 - cache.objects_per_slab * cache.object_size
unfolding color_range
color_range-fits cache fits = omega arith

-- The modulus of the colour, for objects of 1 to 4064 bytes and the number of them that the cache
-- is made with, is what they leave of the page: 4064 modulo the size of an object. It is 0 for
-- every size that divides 4064, 32 among them.
pub color_range_lem :
    (cache : SlabCache)
    → 1 ≤ cache.object_size
    → cache.object_size ≤ 4064
    → cache.objects_per_slab ≡ objects_per_slab cache.object_size
    → color_range cache ≡ 4064 % cache.object_size
unfolding objects_per_slab
color_range_lem cache some_size small per_slab =
    let whole : 4064 / cache.object_size * cache.object_size + 4064 % cache.object_size ≡ 4064 =
      div-add-mod' 4064 cache.object_size in
    let at_least =
      (le-div_iff_mul-le {k = cache.object_size} {x = 1} {y = 4064} (omega arith)).1
        (omega arith) in
    let count : (if 4064 / cache.object_size == 0 then 1 else 4064 / cache.object_size)
        ≡ 4064 / cache.object_size =
      ground (arith, at_least) in
    let product : cache.objects_per_slab * cache.object_size
        ≡ 4064 / cache.object_size * cache.object_size =
      ap (λ n. n * cache.object_size) (per_slab ∙ count) in
    color_range-fits cache (omega (arith, product, whole)) ∙ omega (arith, product, whole)

-- A new slab, where there is memory for one and the objects take less than 4064 bytes and number
-- less than 2^32: its objects lie in its page behind the header, whole, and all of them are free.
pub slab_create-AreWithin :
    (s : Slabs) (cache : SlabCache)
    → cache.objects_per_slab * cache.object_size < 4064
    → cache.objects_per_slab < u32
    → (alloc_pages s.buddy 0 zone_reclaimable).0 ≢ 0
    → (made : ℕ × Slabs × SlabCache) × (slab_create s cache ≡ some made)
      × AreWithin
          (made.0 + slab_header)
          (made.0 + page_size)
          cache.object_size
          (made.1.slabs made.0).free_list
      × IsCounted (made.1.slabs made.0)
unfolding slab_create AreWithin
slab_create-AreWithin s cache fits count ne =
    let (address, buddy) = alloc_pages s.buddy 0 zone_reclaimable in
    let range = color_range-fits cache (omega arith) in
    let some_page : (address == 0) ≡ false = ground (arith, ne) in
    let some_range : (color_range cache == 0) ≡ false = ground (arith, range) in
    let offset = mul64 cache.color_next cache_line_size % color_range cache in
    let low : offset < color_range cache = mod-lt _ (omega (arith, range)) in
    let objects = address + slab_header + offset in
    let n = cache.objects_per_slab in
    let slab : Slab = record {
      free_list = thread_objects n 0 objects cache.object_size [];
      in_use = 0;
      total_objects = n;
      objects = objects;
    } in
    let zero_n : (0 + n) * cache.object_size ≡ n * cache.object_size =
      ap (λ k. k * cache.object_size) (omega arith) in
    (
      (
        address,
        record s { buddy = buddy; slabs = update s.slabs address slab },
        record cache { color_next = (cache.color_next + 1) % 8 },
      ),
      rw (some_page, some_range),
      rw (update_self s.slabs address slab) (
          thread_objects-AreWithin n 0 (address + slab_header) objects cache.object_size
            (address + page_size) [] (omega arith) (omega (arith, zero_n, low, range)) tt),
      rw (update_self s.slabs address slab) (record {
        counted = omega (arith, length-thread_objects n 0 objects cache.object_size []);
        fits = count;
      }),
    )
