-- ===== src/Slab/Reserved.antt =====
-- The slab allocator (kernel/mm/slab.c) on the page allocator as it is: slabs come from the reclaimable
-- zone, which never has a page.
use black_kernel.Base.{ℕ, ◌≡◌, ◌≢◌, refl, sym, subst, arith, false, some, [], ltb}
use black_kernel.Buddy.{alloc_pages, sanitize, zone_reclaimable, zone_unmovable}
use black_kernel.Buddy.Reach.{Invariant, alloc_pages-IsEmptyZone}
use black_kernel.Slab.{SlabCache, Slabs, slab_create, alloc_slow, alloc}

-- The cache has no slab with a free object, and processor 0 keeps none.
pub record IsIdle (cache : SlabCache) : Type 0 where
  pub partial : cache.slabs_partial ≡ []
  pub unused : cache.slabs_free ≡ []
  pub available : (cache.cpu_caches 0).available ≡ 0

module _ {limit : ℕ} (s : Slabs) (i : Invariant limit s.buddy) where
  no_page : alloc_pages s.buddy 0 zone_reclaimable ≡ (0, s.buddy)
  unfolding sanitize
  no_page =
      alloc_pages-IsEmptyZone s.buddy 0 zone_reclaimable
        (i.reserved (sanitize zone_reclaimable) other)
    where
      other : sanitize zone_reclaimable ≢ zone_unmovable
      other = ground arith

  slab_create-fails : (cache : SlabCache) → slab_create s cache ≡ some (0, s, cache)
  unfolding slab_create
  slab_create-fails cache = rw no_page refl

  alloc_slow-fails : (cache : SlabCache) → IsIdle cache → alloc_slow s cache ≡ some (0, s, cache)
  unfolding alloc_slow
  alloc_slow-fails cache idle =
      subst (λ c. alloc_slow s c ≡ some (0, s, c)) (sym emptied)
        (rw (alloc_slow, slab_create-fails bare))
    where
      bare : SlabCache
      bare = record cache { slabs_partial = []; slabs_free = [] }

      emptied : cache ≡ bare
      emptied = λ k. record cache { slabs_partial = idle.partial k; slabs_free = idle.unused k }

  -- In a state where the page allocator is in order, as it is in all that it reaches: `slab_alloc` from
  -- a cache that has no free object, as a new one has none, returns NULL and changes nothing.
  pub alloc-fails : (cache : SlabCache) → IsIdle cache → alloc s cache ≡ some (0, s, cache)
  unfolding alloc
  alloc-fails cache idle =
      let none_left : ltb 0 (cache.cpu_caches 0).available ≡ false =
        ground (arith, idle.available) in
      rw (none_left, alloc_slow-fails cache idle)
