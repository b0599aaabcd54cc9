-- ===== src/Pool/Objects.antt =====
-- The objects of a pool (kernel/mm/pool.c): their number, their places and their sizes.
use black_kernel.Base.{
  ℕ, zero, suc, ◌+◌, ◌-◌, ◌*◌, ◌/◌, ◌%◌, ◌^◌, ◌≤◌, ◌<◌, ◌≡◌, ◌≢◌, false, Bool-cases, inl, inr, ◌⊎◌,
  arith, leb, ◌==◌, List, ◌∷◌, length, some, sym, ap, ◌∙◌, u64, u32, add32, sub32, add64, sub64,
  bit_and_shift, bit_and_mask,
}
use native.Mathlib.Nat.{le-div_iff_mul-le}
use black_kernel.Buddy.{Buddy, alloc_pages, page_size, max_order, zone_reclaimable}
use black_kernel.Pool.{
  MemoryPool, align_up, find_order, thread_objects, pages_needed, grow, pop, alloc, free,
  get_utilization, region_header,
}

-- `free_objects` counts the free list, and is no more than `total_objects`.
pub record IsCounted (pool : MemoryPool) : Type 0 where
  pub counted : pool.free_objects ≡ length pool.free_list
  pub bounded : pool.free_objects ≤ pool.total_objects
  pub fits : pool.total_objects < u32

-- `align_up` to eight bytes, without overflow: the least multiple of eight that is large enough.
pub align_up_lem : (size : ℕ) → size + 8 < u64 → align_up size 8 ≡ (size + 7) / 8 * 8
unfolding align_up
align_up_lem size h =
    let sum : sub64 (add64 size 8) 1 ≡ size + 7 = omega arith in
    rw (sum, bit_and_shift 3 (2 ^ 61 - 1) (size + 7), bit_and_mask 61 ((size + 7) / 2 ^ 3))
      (omega arith)

length-thread_objects :
    (rounds i start size : ℕ) (free_list : List ℕ)
    → length (thread_objects rounds i start size free_list) ≡ rounds + length free_list
unfolding thread_objects
length-thread_objects zero i start size free_list = omega arith
length-thread_objects (suc rounds) i start size free_list =
    length-thread_objects rounds (i + 1) start size ((start + i * size) ∷ free_list) ∙ omega arith

-- The pages that the loop for the order stops at are enough, unless it stopped at the largest order.
find_order-enough :
    (rounds order pages : ℕ)
    → order + rounds ≡ max_order
    → (pages ≤ 2 ^ find_order rounds order pages) ⊎ (find_order rounds order pages ≡ max_order)
unfolding find_order
find_order-enough zero order pages e = inr (omega arith)
find_order-enough (suc rounds) order pages e =
    ground (arith, find_order-enough rounds (order + 1) pages (omega arith))

-- A pool with a free object at an address other than 0, whose count is the length of its free list,
-- gives that object, and `pool_free` puts it back: the pool is as it was.
pub free-alloc :
    (b : Buddy) (pool : MemoryPool) (chunk : ℕ) (next : List ℕ)
    → IsCounted pool
    → pool.free_list ≡ chunk ∷ next
    → chunk ≢ 0
    → (after : MemoryPool) × (alloc b pool ≡ some (chunk, b, after)) × (free after chunk ≡ pool)
unfolding alloc pop free
free-alloc b pool chunk next counted e ne =
    let after : MemoryPool = record pool {
      free_list = next;
      free_objects = sub32 pool.free_objects 1;
    } in
    let some_chunk : (chunk == 0) ≡ false = ground arith in
    let at_least : length pool.free_list ≡ suc (length next) = ap length e in
    let n : add32 (sub32 pool.free_objects 1) 1 ≡ pool.free_objects =
      omega (arith, at_least, counted.counted, counted.bounded, counted.fits) in
    (after, rw e, rw (some_chunk, n, sym e))

percent : (total used : ℕ) → total ≢ 0 → used ≤ total → used * 100 % u32 / total ≤ 100
percent total used ne h = elim (Bool-cases (leb 101 (used * 100 % u32 / total))) [
  | inl e ↦
      let big =
        (le-div_iff_mul-le {k = total} {x = 101} {y = used * 100 % u32} (omega arith)).0
          (ground (arith, e)) in
      absurd (omega (arith, big))
  | inr e ↦ ground (arith, e)
]

-- The utilization of a pool is a percentage.
pub get_utilization_bounds : (pool : MemoryPool) → IsCounted pool → get_utilization pool ≤ 100
unfolding get_utilization
get_utilization_bounds pool counted = elim (Bool-cases (pool.total_objects == 0)) [
  | inl e ↦ rw e (omega arith)
  | inr e ↦ rw e (
      percent pool.total_objects (sub32 pool.total_objects pool.free_objects) (ground (arith, e))
        (ground (arith, counted.bounded, counted.fits)))
]

grown :
    (pool : MemoryPool) (objects start : ℕ) (regions : List ℕ)
    → IsCounted pool
    → pool.total_objects + objects < u32
    → IsCounted (record pool {
      regions = regions;
      free_list = thread_objects objects 0 start pool.object_size pool.free_list;
      total_objects = add32 pool.total_objects objects;
      free_objects = add32 pool.free_objects objects;
    })
grown pool objects start regions counted room = record {
  counted = omega (
    arith,
    counted.counted,
    counted.bounded,
    length-thread_objects objects 0 start pool.object_size pool.free_list,
  );
  bounded = omega (arith, counted.bounded);
  fits = omega arith;
}

-- `pool_grow` keeps the count of the free objects right and no larger than that of all objects,
-- whether it succeeds or not, where the new objects fit in 32 bits with the old ones.
pub grow-IsCounted :
    (b : Buddy) (pool : MemoryPool) (count : ℕ)
    → IsCounted pool
    → pool.total_objects
        + (2 ^ find_order max_order 0 (pages_needed pool count) * page_size - region_header)
          / pool.object_size
      < u32
    → IsCounted (grow b pool count).2
unfolding grow
grow-IsCounted b pool count counted room =
    let objects =
      (2 ^ find_order max_order 0 (pages_needed pool count) * page_size - region_header)
      / pool.object_size in
    elim (Bool-cases (count == 0)) [
      | inl e ↦ rw e counted
      | inr e ↦
          elim (Bool-cases (
            (alloc_pages b (find_order max_order 0 (pages_needed pool count)) zone_reclaimable).0
            == 0)) [
              | inl f ↦ rw (e, f) counted
              | inr f ↦ rw (e, f) (grown pool objects _ _ counted room)
            ]
    ]
