-- ===== src/Buddy/Stats.antt =====
-- The statistics of buddy.c, and `buddy_alloc_pages_flags` with the flags of include/mm/gfp.h.
pub mod Report
pub mod Change
use black_kernel.Base.{
  ℕ, zero, suc, ◌+◌, ◌-◌, ◌*◌, ◌^◌, bit_and, Bool, true, false, not, Option, none, some, ltb, ◌==◌,
  if◌then◌else◌, add64, mul64,
}
use black_kernel.Bytes.{Memory, memset}
use black_kernel.Buddy.{
  Zone, Buddy, max_order, page_size, zone_count, zone_unmovable, zone_reclaimable, zone_movable,
  alloc_pages,
}

-- `for (z...; z < BUDDY_ZONE_COUNT; z++) total += <field of g_zones[z]>`, with `rounds` rounds left
unfoldable pub sum_zones : ℕ → ℕ → (Zone → ℕ) → Buddy → ℕ → ℕ
sum_zones zero z field b acc = acc
sum_zones (suc rounds) z field b acc =
    sum_zones rounds (z + 1) field b (add64 acc (field (b.zones z)))

unfoldable pub get_free_pages : Buddy → ℕ
unfolding sum_zones
get_free_pages b = sum_zones zone_count 0 (λ zone. zone.free_pages) b 0

unfoldable pub get_total_pages : Buddy → ℕ
unfolding sum_zones
get_total_pages b = sum_zones zone_count 0 (λ zone. zone.total_pages) b 0

-- `none` where the C function returns without writing `*free_count`.
unfoldable pub get_order_stats : Buddy → ℕ → Option ℕ
unfolding sum_zones
get_order_stats b order =
    if ltb max_order order
    then none
    else some (sum_zones zone_count 0 (λ zone. zone.free_counts order) b 0)

abbrev pub gfp_zero : ℕ
gfp_zero = 0x04

abbrev pub gfp_reclaimable : ℕ
gfp_reclaimable = 0x10

abbrev pub gfp_movable : ℕ
gfp_movable = 0x20

-- A test `flags & mask`.
unfoldable pub has_flag : ℕ → ℕ → Bool
has_flag flags mask = not (bit_and flags mask == 0)

unfoldable pub zone_of_flags : ℕ → ℕ
unfolding has_flag
zone_of_flags flags =
    if has_flag flags gfp_movable
    then zone_movable
    else if has_flag flags gfp_reclaimable
    then zone_reclaimable
    else zone_unmovable

-- `buddy_alloc_pages_flags`, with the memory that `GFP_ZERO` writes.
unfoldable pub alloc_pages_flags : Buddy → Memory → ℕ → ℕ → ℕ × Buddy × Memory
unfolding zone_of_flags
alloc_pages_flags b mem order flags =
    let (addr, b') = alloc_pages b order (zone_of_flags flags) in
    if addr == 0
    then (0, b', mem)
    else if has_flag flags gfp_zero
    then (addr, b', memset mem addr 0 (mul64 (2 ^ order) page_size))
    else (addr, b', mem)
