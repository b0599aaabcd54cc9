-- ===== src/Buddy/Stats/Change.antt =====
-- How the reported number of free pages of buddy.c changes.
use black_kernel.Base.{
  ℕ, ◌+◌, ◌^◌, ◌≤◌, ◌≡◌, ◌≢◌, inl, inr, arith, ==_iff, ◌==◌, Bool-cases, add64, sub64,
}
use black_kernel.Buddy.{Buddy, max_order, zone_unmovable, sanitize, alloc_pages, free_pages}
use black_kernel.Buddy.Measure.{total}
use black_kernel.Buddy.Valid.{IsBlock}
use black_kernel.Buddy.Alloc.{alloc_pages-Outcome}
use black_kernel.Buddy.Free.{free_block-Returned}
use black_kernel.Buddy.Coverage.{covers, free_cover, free_pages-eq-free_block}
use black_kernel.Buddy.Accounting.{pages_of, pages_of-IsAdditive}
use black_kernel.Buddy.Reach.{Invariant, alloc, free, Step-Invariant, alloc_pages-IsEmptyZone}
use black_kernel.Buddy.Stats.{get_free_pages}
use black_kernel.Buddy.Stats.Report.{get_free_pages_lem}

module _ {limit : ℕ} {b : Buddy} (i : Invariant limit b) where
  -- In a state that is in order, a call of `buddy_alloc_pages` that succeeds lowers
  -- `buddy_get_free_pages` by the pages of the block.
  pub get_free_pages-alloc_pages :
      (order zone_type : ℕ)
      → (alloc_pages b order zone_type).0 ≢ 0
      → get_free_pages (alloc_pages b order zone_type).1 ≡ sub64 (get_free_pages b) (2 ^ order)
  get_free_pages-alloc_pages order zone_type ne =
      elim (Bool-cases (sanitize zone_type == zone_unmovable)) [
        | inl c ↦ elim (alloc_pages-Outcome i.valid pages_of-IsAdditive order zone_type) [
          | inl e ↦ absurd (ne e.0)
          | inr t ↦ omega (
            arith,
            get_free_pages_lem i,
            get_free_pages_lem (Step-Invariant (alloc b order zone_type) i),
            rw ((==_iff _ _).0 c) at t.weight,
            t.block.upto,
            i.managed.below,
          )
        ]
        | inr c ↦
            let empty = i.reserved (sanitize zone_type) (ground arith) in
            absurd (ne (rw (alloc_pages-IsEmptyZone b order zone_type empty)))
      ]

  -- A call of `buddy_free_pages` with a block of the memory that is not free raises
  -- `buddy_get_free_pages` by the pages of the block.
  pub get_free_pages-free_pages :
      (order address : ℕ)
      → order ≤ max_order
      → IsBlock b.memory_start limit order address
      → ((p : ℕ) → covers p order address + free_cover b zone_unmovable p ≤ 1)
      → get_free_pages (free_pages b address order) ≡ add64 (get_free_pages b) (2 ^ order)
  get_free_pages-free_pages order address h u apart = omega (
    arith,
    get_free_pages_lem i,
    get_free_pages_lem (Step-Invariant (free b order address h u apart) i),
    weight,
  )
    where
      weight :
          total pages_of ((free_pages b address order).zones zone_unmovable)
          ≡ total pages_of (b.zones zone_unmovable) + 2 ^ order
      weight =
          rw (free_pages-eq-free_block order address i.managed i.valid h u)
            (free_block-Returned pages_of-IsAdditive i.valid address order h u).1.weight
