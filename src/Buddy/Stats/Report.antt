-- ===== src/Buddy/Stats/Report.antt =====
-- What the statistics of buddy.c report, and what its flags do.
use black_kernel.Base.{
  ℕ, zero, suc, ◌+◌, ◌*◌, ◌%◌, ◌^◌, ◌≡◌, refl, ◌≢◌, ◌⊎◌, inl, inr, true, false, ◌&&◌, ap, arith,
  length, ltb, leb, ◌==◌, if◌then◌else◌, Bool-cases, none, some, u64, mul64,
}
use black_kernel.Bytes.{Memory}
use black_kernel.Bytes.Copy.{memset_lem}
use black_kernel.Buddy.{Zone, Buddy, max_order, page_size, zone_unmovable, sanitize, alloc_pages}
use black_kernel.Buddy.Measure.{total, total_below, weigh}
use black_kernel.Buddy.Coverage.{alloc_pages_result}
use black_kernel.Buddy.Accounting.{pages_of}
use black_kernel.Buddy.Reach.{Invariant, IsEmptyZone, alloc_pages-IsEmptyZone}
use black_kernel.Buddy.Stats.{
  get_free_pages, get_order_stats, gfp_zero, gfp_reclaimable, gfp_movable, has_flag, zone_of_flags,
  alloc_pages_flags,
}

-- A zone with no block weighs nothing.
total_below-IsEmptyZone :
    (w : ℕ → ℕ → ℕ) (n : ℕ) (zone : Zone) → IsEmptyZone zone → total_below w n zone.free_lists ≡ 0
unfolding total_below
total_below-IsEmptyZone w zero zone e = refl
total_below-IsEmptyZone w (suc n) zone e =
    omega (arith, total_below-IsEmptyZone w n zone e, ap (weigh w n) (e n))

total-IsEmptyZone : (zone : Zone) → IsEmptyZone zone → total pages_of zone ≡ 0
unfolding total
total-IsEmptyZone zone e = total_below-IsEmptyZone pages_of (max_order + 1) zone e

module _ {limit : ℕ} {b : Buddy} (i : Invariant limit b) where
  -- `buddy_get_free_pages` is the number of pages of the blocks on the free lists, as a 64-bit word:
  -- all of them are in the unmovable zone.
  pub get_free_pages_lem : get_free_pages b ≡ total pages_of (b.zones zone_unmovable) % u64
  unfolding get_free_pages
  get_free_pages_lem = omega (
    arith,
    (i.counted 0).pages,
    (i.counted 1).pages,
    (i.counted 2).pages,
    total-IsEmptyZone (b.zones 1) (i.reserved 1 (omega arith)),
    total-IsEmptyZone (b.zones 2) (i.reserved 2 (omega arith)),
  )

  -- `buddy_get_order_stats` is the length of the free list of that order in the unmovable zone.
  pub get_order_stats_lem :
      (order : ℕ)
      → get_order_stats b order ≡ (
          if ltb max_order order
          then none
          else some (length ((b.zones zone_unmovable).free_lists order) % u64))
  unfolding get_order_stats
  get_order_stats_lem order = ground (
    arith,
    (i.counted 0).counts order,
    (i.counted 1).counts order,
    (i.counted 2).counts order,
    i.reserved 1 (omega arith) order,
    i.reserved 2 (omega arith) order,
  )

abbrev block_bytes : ℕ → ℕ
block_bytes order = 2 ^ order * page_size

module _ {limit : ℕ} {b : Buddy} (i : Invariant limit b) (mem : Memory) (order flags : ℕ) where
  -- Memory starts in the unmovable zone and never leaves it: a request with `GFP_MOVABLE` or
  -- `GFP_RECLAIMABLE` fails in every state that is in order, as all are that the allocator reaches,
  -- and changes nothing.
  pub alloc_pages_flags-reserved :
      (has_flag flags gfp_movable ≡ true) ⊎ (has_flag flags gfp_reclaimable ≡ true)
      → alloc_pages_flags b mem order flags ≡ (0, b, mem)
  unfolding alloc_pages_flags sanitize
  alloc_pages_flags-reserved h = rw (
      alloc_pages-IsEmptyZone b order (zone_of_flags flags)
        (i.reserved (sanitize (zone_of_flags flags)) other))
    where
      other : sanitize (zone_of_flags flags) ≢ zone_unmovable
      other = ground arith

  -- With `GFP_ZERO` a block that is handed out reads 0 at every address; without it, and outside the
  -- block, memory is as before.
  pub alloc_pages_flags_memory :
      (a : ℕ)
      → (alloc_pages_flags b mem order flags).0 ≢ 0
      → (alloc_pages_flags b mem order flags).2 a ≡ (
          if has_flag flags gfp_zero
            && (leb (alloc_pages_flags b mem order flags).0 a
                && ltb a ((alloc_pages_flags b mem order flags).0 + block_bytes order))
          then 0
          else mem a)
  unfolding alloc_pages_flags
  alloc_pages_flags_memory a ne = elim (Bool-cases (addr == 0)) [
    | inl c ↦ absurd (ne (rw c))
    | inr c ↦ rw c (elim (Bool-cases (has_flag flags gfp_zero)) [
      | inl z ↦ rw (z, fits c) (memset_lem mem addr 0 (block_bytes order) a)
      | inr z ↦ rw z
    ])
  ]
    where
      addr : ℕ
      addr = (alloc_pages b order (zone_of_flags flags)).0

      fits : (addr == 0) ≡ false → mul64 (2 ^ order) page_size ≡ block_bytes order
      fits c = elim (alloc_pages_result i.valid order (zone_of_flags flags)) [
        | inl e ↦ absurd (ground arith)
        | inr e ↦ omega (arith, e.1.upto, i.managed.below, i.valid.not_null, e.1.from)
      ]
