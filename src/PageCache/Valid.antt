-- ===== src/PageCache/Valid.antt =====
-- The capacity of the page cache (kernel/mm/page_cache.c).
use black_kernel.Base.{
  ℕ, ◌+◌, ◌≤◌, ◌<◌, ◌≡◌, refl, true, not, ◌||◌, Bool-cases, inl, inr, arith, leb, ◌==◌, List, [],
  ◌∷◌, length, none, some, Option-cases, u64,
}
use black_kernel.Buddy.{alloc_pages, zone_unmovable, list_remove}
use black_kernel.PageCache.Sound.{IsSound}
use black_kernel.PageCache.{PageCache, find_entry, evict_lru, insert_new, insert, unlink, lru_tail}

-- `total_pages` counts the list, and is no more than `max_pages`.
pub record IsCounted (c : PageCache) : Type 0 where
  pub counted : c.total_pages ≡ length c.lru
  pub bounded : c.total_pages ≤ c.max_pages
  pub fits : c.max_pages < u64

length-list_remove_tail :
    (l : List ℕ) (a : ℕ) → lru_tail l ≡ some a → length (list_remove l a) + 1 ≡ length l
unfolding lru_tail list_remove
length-list_remove_tail [] a e = ground (arith, e)
length-list_remove_tail (x ∷ []) a e = ground (arith, e)
length-list_remove_tail (x ∷ y ∷ l) a e = elim (Bool-cases (x == a)) [
  | inl f ↦ rw f (omega arith)
  | inr f ↦ rw f (omega (arith, length-list_remove_tail (y ∷ l) a e))
]

lru_tail-none : (l : List ℕ) → lru_tail l ≡ none → length l ≡ 0
unfolding lru_tail
lru_tail-none [] e = refl
lru_tail-none (x ∷ []) e = ground (arith, e)
lru_tail-none (x ∷ y ∷ l) e = ground (arith, lru_tail-none (y ∷ l) e)

-- What an eviction does to the count.
record Evicted (c after : PageCache) : Type 0 where
  counted : IsCounted after
  one_less : after.total_pages + 1 ≡ c.total_pages
  same_max : after.max_pages ≡ c.max_pages

evict_lru-Evicted :
    (c : PageCache) → IsCounted c → c.has_table ≡ true → 1 ≤ c.total_pages → Evicted c (evict_lru c)
unfolding evict_lru unlink
evict_lru-Evicted c counted table some_page = elim (Option-cases (lru_tail c.lru)) [
  | inl e ↦ absurd (omega (arith, lru_tail-none c.lru e, counted.counted))
  | inr (victim, e) ↦
      let shorter = length-list_remove_tail c.lru victim e in
      rw (evict_lru, table, e)
        (record {
          counted = record {
            counted = omega (arith, shorter, counted.counted, counted.bounded, counted.fits);
            bounded = omega (arith, counted.bounded, counted.fits);
            fits = counted.fits;
          };
          one_less = omega (arith, counted.bounded, counted.fits);
          same_max = refl;
        })
]

insert_new-IsCounted :
    (c : PageCache) (file_id offset phys_addr : ℕ)
    → IsCounted c
    → c.total_pages < c.max_pages
    → IsCounted (insert_new c file_id offset phys_addr).1
unfolding insert_new
insert_new-IsCounted c file_id offset phys_addr counted room =
    elim (Bool-cases ((alloc_pages c.buddy 0 zone_unmovable).0 == 0)) [
      | inl e ↦
          rw e
            (record { counted = counted.counted; bounded = counted.bounded; fits = counted.fits })
      | inr e ↦ rw e (record {
        counted = omega (arith, counted.counted, counted.bounded, counted.fits);
        bounded = omega (arith, counted.fits);
        fits = counted.fits;
      })
    ]

-- `page_cache_insert` into a sound cache (so no one else has the page behind that of the hash table) for
-- at least one page, whose count is the length of the list and within its capacity, keeps it so,
-- evicting an entry where the cache is full.
pub insert-IsCounted :
    {start limit : ℕ} (c : PageCache) (file_id offset phys_addr : ℕ)
    → IsSound start limit c
    → 1 ≤ c.max_pages
    → IsCounted c
    → IsCounted (insert c file_id offset phys_addr).1
unfolding insert
insert-IsCounted c file_id offset phys_addr _ room counted =
    elim (Bool-cases (not c.has_table || phys_addr == 0)) [
      | inl f ↦ rw (insert, f) counted
      | inr f ↦ elim (Option-cases (find_entry c file_id offset)) [
        | inr (existing, e) ↦ rw (insert, f, e) counted
        | inl e ↦ elim (Bool-cases (leb c.max_pages c.total_pages)) [
          | inr g ↦
              rw (insert, f, e, g)
                (insert_new-IsCounted c file_id offset phys_addr counted (ground (arith, g)))
          | inl g ↦
              let evicted = evict_lru-Evicted c counted (ground (arith, f)) (ground (arith, g)) in
              rw (insert, f, e, g)
                (insert_new-IsCounted (evict_lru c) file_id offset phys_addr evicted.counted
                  (omega (arith, evicted.one_less, evicted.same_max, counted.bounded)))
        ]
      ]
    ]
