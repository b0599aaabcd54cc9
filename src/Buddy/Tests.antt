-- ===== src/Buddy/Tests.antt =====
-- The allocator (kernel/mm/buddy.c) on four pages from 0x100000 on, and on states that it reaches.
use black_kernel.Base.{
  ◌&&◌, leb, ltb, ℕ, ◌+◌, ◌*◌, ◌≤◌, ◌<◌, ◌≡◌, refl, ◌≢◌, ◌↔◌, arith, [], u64, if◌then◌else◌,
}
use black_kernel.Buddy.{
  zone_unmovable, sanitize, page_size, alloc_pages, free_pages, alloc_block, find_order, split,
  take_block, add_block, list_remove, list_add, pages_to_bytes, bytes_to_pages, addr_to_page_index,
}
use black_kernel.Buddy.Init.{init, carve, choose_order}
use black_kernel.Buddy.Valid.{IsBlock}
use black_kernel.Buddy.Coverage.{
  covers, free_cover, alloc_pages_disjoint, free_cover-free_pages, free_cover_roundtrip,
}
use black_kernel.Buddy.Search.{alloc_pages-fails_iff}
use black_kernel.Buddy.Init.Cut.{free_cover-init}
use black_kernel.Buddy.Reach.{Invariant, Reach, here, next, alloc, init-Invariant, Reach-Invariant}

four_pages-Invariant : Invariant 0x104000 (init 0x100000 0x4000)
four_pages-Invariant =
    init-Invariant 0x100000 0x4000 (omega arith) (omega arith) (omega arith) (omega arith)

two_taken : (alloc_pages (init 0x100000 0x4000) 1 0).0 ≡ 0x100000
unfolding alloc_pages init carve choose_order alloc_block find_order split take_block add_block
    list_remove list_add pages_to_bytes bytes_to_pages addr_to_page_index sanitize
two_taken = refl

two_taken_ne : (alloc_pages (init 0x100000 0x4000) 1 0).0 ≢ 0
two_taken_ne e = absurd (omega (arith, two_taken, e))

again_taken : (alloc_pages (alloc_pages (init 0x100000 0x4000) 1 0).1 1 0).0 ≡ 0x102000
unfolding alloc_pages init carve choose_order alloc_block find_order split take_block add_block
    list_remove list_add pages_to_bytes bytes_to_pages addr_to_page_index sanitize
again_taken = refl

again_taken_ne : (alloc_pages (alloc_pages (init 0x100000 0x4000) 1 0).1 1 0).0 ≢ 0
again_taken_ne e = absurd (omega (arith, again_taken, e))

taken-Reach : Reach 0x104000 (init 0x100000 0x4000) (alloc_pages (init 0x100000 0x4000) 1 0).1
taken-Reach = next here (alloc (init 0x100000 0x4000) 1 0)

taken-Invariant : Invariant 0x104000 (alloc_pages (init 0x100000 0x4000) 1 0).1
taken-Invariant = Reach-Invariant taken-Reach four_pages-Invariant

taken_start : (alloc_pages (init 0x100000 0x4000) 1 0).1.memory_start ≡ 0x100000
unfolding alloc_pages init carve choose_order alloc_block find_order split take_block add_block
    list_remove list_add pages_to_bytes bytes_to_pages addr_to_page_index sanitize
taken_start = refl

taken-IsBlock : IsBlock (alloc_pages (init 0x100000 0x4000) 1 0).1.memory_start 0x104000 1 0x100000
taken-IsBlock = record {
  from = omega (arith, taken_start);
  upto = omega arith;
  aligned = omega (arith, taken_start);
}

exclusive_zone : (p : ℕ) → free_cover (init 0x100000 0x4000) (sanitize 0) p ≤ 1
unfolding sanitize
exclusive_zone = four_pages-Invariant.exclusive

init-Invariant_example : Invariant (0x200000 + 0x3000) (init 0x200000 0x3000)
init-Invariant_example =
    init-Invariant 0x200000 0x3000 (omega arith) (omega arith) (omega arith) (omega arith)

Reach-Invariant_example : Invariant 0x104000 (alloc_pages (init 0x100000 0x4000) 1 0).1
Reach-Invariant_example = Reach-Invariant taken-Reach four_pages-Invariant

alloc_pages_disjoint_example :
    covers 0x101000 1 (alloc_pages (init 0x100000 0x4000) 1 0).0
      + covers 0x101000 1 (alloc_pages (alloc_pages (init 0x100000 0x4000) 1 0).1 1 0).0
    ≤ 1
alloc_pages_disjoint_example =
    alloc_pages_disjoint 1 1 0 0x101000 four_pages-Invariant.valid exclusive_zone two_taken_ne
      again_taken_ne

free_cover-free_pages_example :
    free_cover
      (free_pages (alloc_pages (init 0x100000 0x4000) 1 0).1 0x100000 1)
      zone_unmovable
      0x101000
    ≡ free_cover (alloc_pages (init 0x100000 0x4000) 1 0).1 zone_unmovable 0x101000
      + covers 0x101000 1 0x100000
free_cover-free_pages_example =
    free_cover-free_pages taken-Invariant.managed taken-Invariant.valid 1 0x100000 0x101000
      (omega arith) taken-IsBlock

free_cover_roundtrip_example :
    free_cover
      (free_pages
        (alloc_pages (init 0x100000 0x4000) 1 zone_unmovable).1
        (alloc_pages (init 0x100000 0x4000) 1 zone_unmovable).0
        1)
      zone_unmovable
      0x101000
    ≡ free_cover (init 0x100000 0x4000) zone_unmovable 0x101000
free_cover_roundtrip_example =
    free_cover_roundtrip 1 0x101000 four_pages-Invariant.managed four_pages-Invariant.valid
      (omega arith) two_taken_ne

alloc_pages-fails_iff_example :
    ((alloc_pages (init 0x100000 0x4000) 3 0).0 ≡ 0)
    ↔ ((j : ℕ) → 3 ≤ j → j ≤ 10 → ((init 0x100000 0x4000).zones (sanitize 0)).free_lists j ≡ [])
alloc_pages-fails_iff_example = alloc_pages-fails_iff four_pages-Invariant.valid 3 0 (omega arith)

whole_limit : 0x100000 + bytes_to_pages 0x4000 * page_size < u64
unfolding bytes_to_pages
whole_limit = omega arith

free_cover-init_example : free_cover (init 0x100000 0x4000) zone_unmovable 0x103fff ≡ (
    if leb 0x100000 0x103fff && ltb 0x103fff (0x100000 + bytes_to_pages 0x4000 * page_size)
    then 1
    else 0)
free_cover-init_example = free_cover-init 0x100000 0x4000 whole_limit 0x103fff
