-- ===== src/PageCache/Sound.antt =====
-- The invariant of the page cache (kernel/mm/page_cache.c) together with the page allocator.
use black_kernel.Base.{ℕ, ◌+◌, ◌≤◌, not, ◌||◌, Bool-cases, Option-cases, inl, inr, arith, leb, ◌==◌}
use black_kernel.Buddy.Valid.{IsBlock}
use black_kernel.Buddy.Coverage.{covers}
use black_kernel.PageCache.{
  PageCache, find_entry, lru_tail, lru_remove, hash_function, unlink, evict_lru, insert_new, insert,
  remove,
}
use black_kernel.PageCache.Chains.{count-removed}
use black_kernel.PageCache.Coherent.{
  IsCoherent, hash_of, evict_lru-IsCoherent, remove-IsCoherent, either, find_entry-on_list,
  find_entry-none,
}
use black_kernel.PageCache.Linked.{IsUncached, insert_new-IsCoherent}
use black_kernel.PageCache.Owned.{
  IsOwned, Shrinks, kept, count-alloc_pages, count-lru_tail, removed-Shrinks, evicted-Shrinks,
  insert_new-IsOwned,
}

-- The chains and the list hold the same entries, and no page has two owners.
pub record IsSound (start limit : ℕ) (c : PageCache) : Type 0 where
  pub coherent : IsCoherent c
  pub owned : IsOwned start limit c

-- An eviction caches no page.
evict_lru-IsUncached :
    (c : PageCache) (file_id offset : ℕ)
    → IsUncached c file_id offset
    → IsUncached (evict_lru c) file_id offset
unfolding evict_lru unlink lru_remove
evict_lru-IsUncached c file_id offset other =
    let P : PageCache → Type 0 = λ d. IsUncached d file_id offset in
    elim (Option-cases (lru_tail c.lru)) [
      | inl e ↦ rw (evict_lru, e) (either P c.has_table c c other other)
      | inr (victim, e) ↦
          rw (evict_lru, e)
            (either P c.has_table _ c (λ a on. other a (count-removed a victim c.lru on)) other)
    ]

module _ {start limit : ℕ} where
  same-Shrinks : (c : PageCache) → IsOwned start limit c → Shrinks start limit c c
  same-Shrinks c o = record { owned = o; less = λ p. omega arith }

  pub evict_lru-Shrinks :
      (c : PageCache) → IsOwned start limit c → Shrinks start limit c (evict_lru c)
  unfolding evict_lru
  evict_lru-Shrinks c o =
      let same = same-Shrinks c o in
      elim (Option-cases (lru_tail c.lru)) [
        | inl e ↦ rw (evict_lru, e) (either (Shrinks start limit c) c.has_table c c same same)
        | inr (victim, e) ↦
            rw (evict_lru, e)
              (either (Shrinks start limit c) c.has_table _ c
                (evicted-Shrinks c o victim (count-lru_tail c.lru victim e) (hash_of c victim))
                same)
      ]

  insert_new-IsSound :
      (c : PageCache) (file_id offset phys_addr : ℕ)
      → IsSound start limit c
      → IsUncached c file_id offset
      → IsBlock start limit 0 phys_addr
      → ((p : ℕ) → covers p 0 phys_addr + kept c p ≤ 1)
      → IsSound start limit (insert_new c file_id offset phys_addr).1
  insert_new-IsSound c file_id offset phys_addr i other block apart = record {
    coherent =
        insert_new-IsCoherent c file_id offset phys_addr i.coherent other
          (count-alloc_pages c i.owned);
    owned = insert_new-IsOwned c i.owned file_id offset phys_addr block apart;
  }

  -- `page_cache_insert` of a page of the memory that is neither free nor kept by the cache leaves the
  -- cache sound, with eviction or without, also where memory runs out or the page is cached already.
  pub insert-IsSound :
      (c : PageCache) (file_id offset phys_addr : ℕ)
      → IsSound start limit c
      → IsBlock start limit 0 phys_addr
      → ((p : ℕ) → covers p 0 phys_addr + kept c p ≤ 1)
      → IsSound start limit (insert c file_id offset phys_addr).1
  unfolding insert
  insert-IsSound c file_id offset phys_addr i block apart =
      elim (Bool-cases (not c.has_table || phys_addr == 0)) [
        | inl g ↦ rw (insert, g) i
        | inr g ↦ elim (Option-cases (find_entry c file_id offset)) [
          | inr (a, e) ↦ rw (insert, g, e) i
          | inl e ↦
              let other : IsUncached c file_id offset =
                λ a on. find_entry-none c file_id offset a i.coherent e on in
              elim (Bool-cases (leb c.max_pages c.total_pages)) [
                | inr room ↦
                    rw (insert, g, e, room)
                      (insert_new-IsSound c file_id offset phys_addr i other block apart)
                | inl full ↦
                    let evicted = evict_lru-Shrinks c i.owned in
                    rw (insert, g, e, full)
                      (insert_new-IsSound (evict_lru c) file_id offset phys_addr
                        (record {
                          coherent = evict_lru-IsCoherent c i.coherent;
                          owned = evicted.owned;
                        })
                        (evict_lru-IsUncached c file_id offset other) block
                        (λ p. omega (arith, apart p, evicted.less p)))
              ]
        ]
      ]

  -- `page_cache_remove` of any page leaves the cache sound, and frees its entry.
  pub remove-IsSound :
      (c : PageCache) (file_id offset : ℕ)
      → IsSound start limit c
      → IsSound start limit (remove c file_id offset)
  unfolding remove
  remove-IsSound c file_id offset i = record {
    coherent = remove-IsCoherent c file_id offset i.coherent;
    owned = elim (Option-cases (find_entry c file_id offset)) [
      | inl e ↦ rw (remove, e) (either (IsOwned start limit) c.has_table c c i.owned i.owned)
      | inr (a, e) ↦
          let (on, hash, found) = find_entry-on_list c file_id offset a i.coherent e in
          rw (remove, e)
            (either (IsOwned start limit) c.has_table _ c
              (removed-Shrinks c i.owned a on (hash_function file_id offset)).owned i.owned)
    ];
  }
