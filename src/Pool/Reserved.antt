-- ===== src/Pool/Reserved.antt =====
-- Pools (kernel/mm/pool.c) on the page allocator as it is: a pool grows by regions of the reclaimable
-- zone, which never has a page.
use black_kernel.Base.{
  ℕ, ◌≡◌, refl, arith, Bool, false, not, ◌||◌, Bool-cases, inl, inr, none, ◌==◌,
}
use black_kernel.Buddy.{Buddy, alloc_pages, sanitize, max_order, zone_reclaimable, zone_unmovable}
use black_kernel.Buddy.Reach.{
  Invariant, Reach-Invariant, here, next, alloc, alloc_pages-IsEmptyZone,
}
use black_kernel.Pool.{MemoryPool, grow, create, find_order, pages_needed}

module _ {limit : ℕ} where
  grow-fails :
      (b : Buddy) (pool : MemoryPool) (count : ℕ)
      → Invariant limit b
      → grow b pool count ≡ (false, b, pool)
  unfolding grow sanitize
  grow-fails b pool count i = elim (Bool-cases (count == 0)) [
    | inl e ↦ rw (grow, e) refl
    | inr e ↦ rw (grow, e, no_page) refl
  ]
    where
      no_page :
          alloc_pages b (find_order max_order 0 (pages_needed pool count)) zone_reclaimable ≡ (0, b)
      no_page =
          alloc_pages-IsEmptyZone b _ zone_reclaimable
            (i.reserved (sanitize zone_reclaimable) (ground arith))

  -- In a state where the page allocator is in order, as it is in all that it reaches: `pool_create`
  -- returns NULL for every name, object size and count.
  pub create-fails :
      (b : Buddy) (has_name : Bool) (object_size initial_count : ℕ)
      → Invariant limit b
      → (create b has_name object_size initial_count).0 ≡ none
  unfolding create
  create-fails b has_name object_size initial_count i =
      let after = Reach-Invariant (next here (alloc b 0 zone_unmovable)) i in
      elim (Bool-cases (not has_name || object_size == 0 || initial_count == 0)) [
        | inl e ↦ rw (create, e) refl
        | inr e ↦ elim (Bool-cases ((alloc_pages b 0 zone_unmovable).0 == 0)) [
          | inl f ↦ rw (create, e, f) refl
          | inr f ↦
              rw (create, e, f, grow-fails (alloc_pages b 0 zone_unmovable).1 _ initial_count after)
        ]
      ]
