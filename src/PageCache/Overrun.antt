-- ===== src/PageCache/Overrun.antt =====
-- The page behind the hash table of the page cache (kernel/mm/page_cache.c).
use black_kernel.Base.{ℕ, ◌≡◌, ◌≢◌, true, [], ◌∷◌, add64}
use black_kernel.Buddy.{Buddy, max_order, alloc_pages, zone_unmovable, max_order}
use black_kernel.PageCache.{PageCache}

-- Of an allocation of one page: where it succeeds, the page behind it is alone on its list.
LeavesBehind : ℕ × Buddy → Type 0
LeavesBehind r = r.0 ≢ 0 → (r.1.zones zone_unmovable).free_lists 0 ≡ add64 r.0 4096 ∷ []

module _ (c : PageCache) (max_pages : ℕ)
    (empty : (c.buddy.zones zone_unmovable).free_lists 0 ≡ []) where
  abbrev table : ℕ
  table = (alloc_pages c.buddy 0 zone_unmovable).0

  -- The cache after its start.
  abbrev started : PageCache
  started = record c {
    hash_size = 1024;
    max_pages = max_pages;
    total_pages = 0;
    cache_hits = 0;
    cache_misses = 0;
    lru = [];
    buddy = (alloc_pages c.buddy 0 zone_unmovable).1;
    has_table = true;
    table = table;
    hash_table = λ hash. [];
  }

  -- The cache after its start, where a client has the page.
  abbrev guarded : PageCache
  guarded = record started { buddy = (alloc_pages started.buddy 0 zone_unmovable).1 }
