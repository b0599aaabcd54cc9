-- ===== src/Buddy/Coverage.antt =====
-- Which addresses the free lists cover, across `buddy_alloc_pages` and `buddy_free_pages`: no page is
-- lost and none is handed out twice.
use native.Mathlib.Nat.{one-le-pow}
use black_kernel.Base.{
  two-pow-suc, ℕ, ◌+◌, ◌*◌, ◌%◌, ◌^◌, ◌≤◌, ◌<◌, ◌≡◌, ◌≢◌, ◌⊎◌, inl, inr, true, false, ◌&&◌, sym,
  subst, arith, ltb, leb, ◌==◌, if◌then◌else◌, u64,
}
use black_kernel.Buddy.{
  Buddy, max_order, page_size, zone_unmovable, sanitize, alloc_pages, out_of_range, free_block,
  free_pages,
}
use black_kernel.Buddy.Measure.{IsAdditive, total}
use black_kernel.Buddy.Valid.{IsBlock}
use black_kernel.Buddy.Alloc.{IsValid, Taken, alloc_pages-Outcome, alloc_pages-IsValid}
use black_kernel.Buddy.Free.{free_block-Returned}

-- 1 if the block of order `k` at `a` contains the address `p`, else 0.
unfoldable pub covers : ℕ → ℕ → ℕ → ℕ
covers p k a = if leb a p && ltb p (a + 2 ^ k * page_size) then 1 else 0

pub covers-IsAdditive : (p : ℕ) → IsAdditive (covers p)
unfolding covers
covers-IsAdditive p k a h = ground (arith, two-pow-suc k)

-- How many free blocks of the zone contain the address.
unfoldable pub free_cover : Buddy → ℕ → ℕ → ℕ
free_cover b z p = total (covers p) (b.zones z)

-- Every address is in one free block of a zone at most.
abbrev pub IsExclusive : Buddy → ℕ → Type 0
IsExclusive b z = (p : ℕ) → free_cover b z p ≤ 1

-- The memory is `memory_size` bytes of whole pages and does not reach the last address.
pub record IsManaged (limit : ℕ) (b : Buddy) : Type 0 where
  pub size : b.memory_start + b.memory_size ≡ limit
  pub below : limit < u64
  pub start_aligned : b.memory_start % page_size ≡ 0

module _ {limit : ℕ} {b : Buddy} (v : IsValid limit b) (order zone_type : ℕ) where
  alloc_pages-Taken :
      (w : ℕ → ℕ → ℕ)
      → IsAdditive w
      → (alloc_pages b order zone_type).0 ≢ 0
      → Taken w limit
          (sanitize zone_type)
          order
          b
          (alloc_pages b order zone_type).0
          (alloc_pages b order zone_type).1
  alloc_pages-Taken w additive ne = elim (alloc_pages-Outcome v additive order zone_type) [
    | inl e ↦ absurd (ne e.0)
    | inr t ↦ t
  ]

  -- A failed call of `buddy_alloc_pages`, which returns 0, leaves the allocator as it was, and one
  -- that does not fail returns a block of the managed memory.
  pub alloc_pages_result :
      ((alloc_pages b order zone_type).0 ≡ 0) × ((alloc_pages b order zone_type).1 ≡ b)
      ⊎ ((alloc_pages b order zone_type).0 ≢ 0)
        × IsBlock b.memory_start limit order (alloc_pages b order zone_type).0
  alloc_pages_result = elim (alloc_pages-Outcome v (covers-IsAdditive 0) order zone_type) [
    | inl e ↦ inl e
    | inr t ↦ inr (omega (arith, t.block.from, v.not_null), t.block)
  ]

  -- A call of `buddy_alloc_pages` that succeeds takes the addresses of the block that it returns, and
  -- no others, off the free lists of its zone.
  pub free_cover-alloc_pages :
      (p : ℕ)
      → (alloc_pages b order zone_type).0 ≢ 0
      → free_cover (alloc_pages b order zone_type).1 (sanitize zone_type) p
          + covers p order (alloc_pages b order zone_type).0
        ≡ free_cover b (sanitize zone_type) p
  unfolding free_cover
  free_cover-alloc_pages p ne = (alloc_pages-Taken (covers p) (covers-IsAdditive p) ne).weight

-- Two calls of `buddy_alloc_pages` that succeed one after the other return blocks with no address
-- in common, in a state whose free blocks lie in the memory and are disjoint in the zone.
pub alloc_pages_disjoint :
    {limit : ℕ} {b : Buddy} (order order' zone_type p : ℕ)
    → IsValid limit b
    → IsExclusive b (sanitize zone_type)
    → (alloc_pages b order zone_type).0 ≢ 0
    → (alloc_pages (alloc_pages b order zone_type).1 order' zone_type).0 ≢ 0
    → covers p order (alloc_pages b order zone_type).0
        + covers p order' (alloc_pages (alloc_pages b order zone_type).1 order' zone_type).0
      ≤ 1
alloc_pages_disjoint {b} order order' zone_type p v once ne ne' = omega (
  arith,
  once p,
  free_cover-alloc_pages v order zone_type p ne,
  free_cover-alloc_pages (alloc_pages-IsValid v order zone_type) order' zone_type p ne',
)

-- The checks of `buddy_free_pages` let every block of the managed memory through.
pub free_pages-eq-free_block :
    {limit : ℕ} {b : Buddy} (order address : ℕ)
    → IsManaged limit b
    → IsValid limit b
    → order ≤ max_order
    → IsBlock b.memory_start limit order address
    → free_pages b address order ≡ free_block b address order
unfolding free_pages out_of_range
free_pages-eq-free_block {b} order address m v h u = rw (small, not_zero, inside, outside, aligned)
  where
    small : ltb max_order order ≡ false
    small = ground arith

    not_zero : (address == 0) ≡ false
    not_zero = ground (arith, v.not_null, u.from)

    inside : ltb address b.memory_start ≡ false
    inside = ground (arith, u.from)

    outside : leb ((b.memory_start + b.memory_size) % u64) address ≡ false
    outside = ground (arith, m.size, m.below, u.upto, one-le-pow order 2)

    aligned : (address % page_size == 0) ≡ true
    aligned = ground (arith, m.start_aligned, u.aligned, u.from)

module _ {limit : ℕ} {b : Buddy} (m : IsManaged limit b) (v : IsValid limit b) where
  -- In a state whose free blocks lie in the memory, a call of `buddy_free_pages` with a block of
  -- the memory puts the addresses of the block, and no others, on the free lists of the unmovable
  -- zone, however far it merges.
  pub free_cover-free_pages :
      (order address p : ℕ)
      → order ≤ max_order
      → IsBlock b.memory_start limit order address
      → free_cover (free_pages b address order) zone_unmovable p
        ≡ free_cover b zone_unmovable p + covers p order address
  unfolding free_cover
  free_cover-free_pages order address p h u =
      rw (free_pages-eq-free_block order address m v h u)
        (free_block-Returned (covers-IsAdditive p) v address order h u).1.weight

  -- Such a call keeps the free blocks inside the managed memory and leaves the other zones alone.
  pub free_pages-IsValid :
      (order address : ℕ)
      → order ≤ max_order
      → IsBlock b.memory_start limit order address
      → IsValid limit (free_pages b address order)
        × ((z : ℕ) → z ≢ zone_unmovable → (free_pages b address order).zones z ≡ b.zones z)
  free_pages-IsValid order address h u =
      let (valid, returned) = free_block-Returned (covers-IsAdditive 0) v address order h u in
      rw (free_pages-eq-free_block order address m v h u) (valid, returned.others)

-- In a state whose free blocks lie in the memory, `buddy_free_pages` after a successful
-- `buddy_alloc_pages` from the unmovable zone gives every address back: the free lists cover what
-- they covered before.
pub free_cover_roundtrip :
    {limit : ℕ} {b : Buddy} (order p : ℕ)
    → IsManaged limit b
    → IsValid limit b
    → order ≤ max_order
    → (alloc_pages b order zone_unmovable).0 ≢ 0
    → free_cover
        (free_pages
          (alloc_pages b order zone_unmovable).1
          (alloc_pages b order zone_unmovable).0
          order)
        zone_unmovable
        p
      ≡ free_cover b zone_unmovable p
unfolding sanitize
free_cover_roundtrip {limit} {b} order p m v h ne =
    let t = alloc_pages-Taken v order zone_unmovable (covers p) (covers-IsAdditive p) ne in
    let b' = (alloc_pages b order zone_unmovable).1 in
    let m' : IsManaged limit b' =
      omega (arith, t.same_start, t.same_size, m.size, m.below, m.start_aligned) in
    let block =
      subst (λ s. IsBlock s limit order (alloc_pages b order zone_unmovable).0) (sym t.same_start)
        t.block in
    omega (
      arith,
      t.weight,
      free_cover-alloc_pages v order zone_unmovable p ne,
      free_cover-free_pages m' (alloc_pages-IsValid v order zone_unmovable) order
          (alloc_pages b order zone_unmovable).0 p h block,
    )
