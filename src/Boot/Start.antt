-- ===== src/Boot/Start.antt =====
-- The memory manager after its start (kernel/core/main.c).
use black_kernel.Base.{
  ℕ, ◌≡◌, ◌≢◌, arith, Bool, true, false, ◌&&◌, ◌||◌, none, some, ltb, ◌==◌, if◌then◌else◌,
  Bool-cases, inl, inr,
}
use black_kernel.Buddy.{Buddy, alloc_pages, zone_unmovable}
use black_kernel.Buddy.Reach.{Invariant}
use black_kernel.Slab
use black_kernel.Slab.{SlabCache}
use black_kernel.Heap.{Heap, heap_alloc, kmalloc, cache_index}
use black_kernel.Heap
use black_kernel.PageCache.{PageCache, clears_nothing}
use black_kernel.PageCache
use black_kernel.DemandPaging.{Paging}
use black_kernel.DemandPaging
use black_kernel.DemandPaging.RegionSlab.{RegionSlab, IsBare}
use black_kernel.Boot.{Kernel}

-- What holds after the start: the page allocator is in order, the cache of the regions has no free
-- object, and the slab allocator is enabled for `kmalloc`, but there is no cache for it.
pub record IsStarted {D : Type 0} (limit : ℕ) (k : Kernel D) : Type 0 where
  pub order : Invariant limit k.pmm.buddy
  pub regions : IsBare limit k.paging.region_cache
  pub enabled : k.heap.slab_initialized ≡ true
  pub no_caches : (index : ℕ) → k.heap.caches index ≡ none

-- `page_cache_init` gets no page, or one behind which its clearing changes nothing.
unfoldable pub harmless : Buddy → Bool
harmless b =
    let (table, after) = alloc_pages b 0 zone_unmovable in table == 0 || clears_nothing after table

-- Without caches no call of `kmalloc` uses a slab: a size other than 0 is served by the heap's blocks.
pub kmalloc-no_caches :
    (h : Heap) (size : ℕ)
    → size ≢ 0
    → ((index : ℕ) → h.caches index ≡ none)
    → kmalloc h size ≡ some (heap_alloc h size)
unfolding kmalloc
kmalloc-no_caches h size ne no_caches =
    let index = cache_index size in
    let some_size : (size == 0) ≡ false = ground (arith, ne) in
    let no_cache : (if ltb index 8 then h.caches index else none) ≡ none =
      elim (Bool-cases (ltb index 8)) [ inl e ↦ rw e (no_caches index) | inr e ↦ rw e ] in
    elim (Bool-cases (h.slab_initialized && ltb size 4096)) [
      | inl e ↦ rw (kmalloc, some_size, e, no_cache)
      | inr e ↦ rw (kmalloc, some_size, e)
    ]
