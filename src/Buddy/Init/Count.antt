-- ===== src/Buddy/Init/Count.antt =====
-- The counters that `buddy_init` leaves.
use black_kernel.Base.{
  ℕ, zero, suc, ◌+◌, ◌*◌, ◌^◌, ◌<◌, ◌≡◌, refl, inl, inr, arith, ◌==◌, Bool-cases, u64, add64, sub64,
}
use black_kernel.Buddy.{
  Zone, Buddy, page_size, zone_unmovable, max_order, pages_to_bytes, bytes_to_pages,
  addr_to_page_index, add_block,
}
use black_kernel.Buddy.Measure.{total}
use black_kernel.Buddy.Accounting.{OnCounts, IsCounted, OnCounts-add_block, pages_of}
use black_kernel.Buddy.Init.{choose_order, carve, cleared, init}
use black_kernel.Buddy.Init.Cut.{fresh_zone, total-fresh_zone, total-init}

-- Cutting counts each block that it adds, and leaves the page counter alone.
carve-OnCounts :
    (fuel : ℕ) (b : Buddy) (addr remaining : ℕ) (zone : Zone)
    → OnCounts zone
    → OnCounts (carve fuel b addr remaining zone)
      × ((carve fuel b addr remaining zone).free_pages ≡ zone.free_pages)
unfolding carve
carve-OnCounts zero b addr remaining zone on = (on, refl)
carve-OnCounts (suc fuel) b addr remaining zone on = elim (Bool-cases (remaining == 0)) [
  | inl c ↦ rw c (on, refl)
  | inr c ↦
      let order = choose_order max_order remaining (addr_to_page_index b addr) in
      rw c (
        carve-OnCounts fuel b (add64 addr (pages_to_bytes (2 ^ order)))
          (sub64 remaining (2 ^ order)) (add_block zone order addr)
          (OnCounts-add_block zone order addr on))
]

-- After `buddy_init` the counters of every zone agree with its free lists.
pub init-IsCounted :
    (start size z : ℕ)
    → start + bytes_to_pages size * page_size < u64
    → IsCounted ((init start size).zones z)
unfolding init
init-IsCounted start size z below = elim (Bool-cases (zone_unmovable == z)) [
  | inl c ↦ rw c (record { counts = kept.0; pages = omega (arith, kept.1, all_pages) })
  | inr c ↦
      rw c (record { counts = λ k. refl; pages = omega (arith, total-fresh_zone pages_of start 0) })
]
  where
    pages : ℕ
    pages = bytes_to_pages size

    kept :
        OnCounts (carve pages (cleared start size) start pages (fresh_zone start pages))
        × ((carve pages (cleared start size) start pages (fresh_zone start pages)).free_pages
            ≡ pages)
    kept =
        carve-OnCounts pages (cleared start size) start pages (fresh_zone start pages) (λ k. refl)

    all_pages :
        total pages_of (carve pages (cleared start size) start pages (fresh_zone start pages))
        ≡ pages
    all_pages = total-init start size below
