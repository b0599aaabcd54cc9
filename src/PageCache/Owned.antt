-- ===== src/PageCache/Owned.antt =====
-- Which pages the page cache (kernel/mm/page_cache.c) and the page allocator (kernel/mm/buddy.c) keep.
use black_kernel.Base.{
  ℕ, ◌+◌, ◌≤◌, ◌≡◌, ◌≢◌, refl, subst, Bool-cases, inl, inr, arith, ◌==◌, ==_iff, update,
  update_self, List, [], ◌∷◌, some,
}
use black_kernel.Buddy.{Buddy, alloc_pages, free_pages, zone_unmovable, list_remove}
use black_kernel.Buddy.Valid.{IsBlock}
use black_kernel.Buddy.Coverage.{covers, free_cover}
use black_kernel.Buddy.Page.{
  IsPaged, alloc_page-IsPaged, alloc_page-IsTaken, alloc_page-fails, free_page-IsPaged,
  free_cover-free_page,
}
use black_kernel.PageCache.{
  behind, Entry, PageCache, lru_tail, lru_remove, lru_add_to_head, unlink, insert_new,
}
use black_kernel.PageCache.Chains.{count, count-removed}

-- How many pages of the entries of the list, and of what they cache, contain the address `p`.
unfoldable pub pages : (ℕ → Entry) → List ℕ → ℕ → ℕ
pages entries [] p = 0
pages entries (a ∷ l) p = covers p 0 a + covers p 0 (entries a).physical_address + pages entries l p

covers_self : (a : ℕ) → covers a 0 a ≡ 1
unfolding covers
covers_self a = ground arith

-- Taking an entry out of the list takes out its two pages.
pages-list_remove :
    (entries : ℕ → Entry) (l : List ℕ) (a p : ℕ)
    → 1 ≤ count a l
    → pages entries (list_remove l a) p + covers p 0 a + covers p 0 (entries a).physical_address
      ≡ pages entries l p
unfolding pages list_remove count
pages-list_remove entries [] a p on = absurd (omega (arith, on))
pages-list_remove entries (x ∷ l) a p on = elim (Bool-cases (x == a)) [
  | inl e ↦ rw e (
      subst
        (λ y.
          pages entries l p + covers p 0 y + covers p 0 (entries y).physical_address
          ≡ covers p 0 x + covers p 0 (entries x).physical_address + pages entries l p)
        ((==_iff x a).0 e) (omega arith))
  | inr e ↦ rw e (omega (arith, pages-list_remove entries l a p (omega (arith, rw e at on))))
]

-- An address that is not on the list has no say in its pages.
pages-update :
    (entries : ℕ → Entry) (l : List ℕ) (n : ℕ) (e : Entry) (p : ℕ)
    → count n l ≡ 0
    → pages (update entries n e) l p ≡ pages entries l p
unfolding pages count
pages-update entries [] n e p off = refl
pages-update entries (x ∷ l) n e p off = elim (Bool-cases (n == x)) [
  | inl f ↦ absurd (ground (arith, off, f))
  | inr f ↦ rw f (omega (arith, pages-update entries l n e p (ground (arith, off))))
]

-- A new entry at `n` adds its two pages.
pages-link :
    (entries : ℕ → Entry) (l : List ℕ) (n : ℕ) (e : Entry) (p : ℕ)
    → count n l ≡ 0
    → pages (update entries n e) (n ∷ l) p
      ≡ covers p 0 n + covers p 0 e.physical_address + pages entries l p
unfolding pages
pages-link entries l n e p off =
    rw (update_self entries n e) (omega (arith, pages-update entries l n e p off))

-- An entry of the list keeps its own page.
count-pages : (entries : ℕ → Entry) (l : List ℕ) (a : ℕ) → 1 ≤ count a l → 1 ≤ pages entries l a
count-pages entries l a on = omega (arith, pages-list_remove entries l a a on, covers_self a)

pub count-lru_tail : (l : List ℕ) (a : ℕ) → lru_tail l ≡ some a → 1 ≤ count a l
unfolding lru_tail count
count-lru_tail [] a e = absurd (ground (arith, e))
count-lru_tail (x ∷ []) a e = ground (arith, e)
count-lru_tail (x ∷ y ∷ l) a e = omega (arith, count-lru_tail (y ∷ l) a e)

-- How many free blocks, entries, cached pages and pages of the hash table contain the address `p`. The
-- table takes its own page and the page behind it.
unfoldable pub kept : PageCache → ℕ → ℕ
kept c p =
    covers p 0 c.table
    + covers p 0 (behind c.table)
    + (pages c.entries c.lru p + free_cover c.buddy zone_unmovable p)

-- The page allocator is in order, and no address is in two of its free blocks, the two pages of the hash
-- table, the pages of the entries and the pages that they cache, which all are pages of the memory.
pub record IsOwned (start limit : ℕ) (c : PageCache) : Type 0 where
  pub paged : IsPaged start limit c.buddy
  pub blocks :
      (a : ℕ)
      → 1 ≤ count a c.lru
      → IsBlock start limit 0 a × IsBlock start limit 0 (c.entries a).physical_address
  pub apart : (p : ℕ) → kept c p ≤ 1

-- In order, and with no more than before.
pub record Shrinks (start limit : ℕ) (c after : PageCache) : Type 0 where
  pub owned : IsOwned start limit after
  pub less : (p : ℕ) → kept after p ≤ kept c p

module _ {start limit : ℕ} (c : PageCache) (o : IsOwned start limit c) where
  -- A page that the allocator hands out is no entry.
  pub count-alloc_pages :
      (alloc_pages c.buddy 0 zone_unmovable).0 ≢ 0
      → count (alloc_pages c.buddy 0 zone_unmovable).0 c.lru ≡ 0
  unfolding kept
  count-alloc_pages ne =
      let n = (alloc_pages c.buddy 0 zone_unmovable).0 in
      elim (Bool-cases (count n c.lru == 0)) [
        | inl e ↦ (==_iff (count n c.lru) 0).0 e
        | inr e ↦ absurd (
            omega (
              arith,
              o.apart n,
              count-pages c.entries c.lru n (ground (arith, e)),
              covers_self n,
              (alloc_page-IsTaken o.paged ne).cover n,
            ))
      ]

  module _ (a : ℕ) (on : 1 ≤ count a c.lru) where
    -- Without an entry, with an allocator that has no more than that it had and the entry's pages.
    unlink-Shrinks :
        (h : ℕ) (b : Buddy)
        → IsPaged start limit b
        → ((p : ℕ)
            → free_cover b zone_unmovable p
              ≤ free_cover c.buddy zone_unmovable p
                + covers p 0 a
                + covers p 0 (c.entries a).physical_address)
        → Shrinks start limit c (record (unlink c h a) { buddy = b })
    unfolding unlink lru_remove kept
    unlink-Shrinks h b paged less =
        let smaller : (p : ℕ) → kept (record (unlink c h a) { buddy = b }) p ≤ kept c p =
          λ p. omega (arith, less p, pages-list_remove c.entries c.lru a p on) in
        record {
          owned = record {
            paged = paged;
            blocks = λ x on_x. o.blocks x (count-removed x a c.lru on_x);
            apart = λ p. omega (arith, smaller p, o.apart p);
          };
          less = smaller;
        }

    -- The pages of the entry are not free.
    free_entry : (p : ℕ) → covers p 0 a + free_cover c.buddy zone_unmovable p ≤ 1
    unfolding kept
    free_entry p = omega (arith, pages-list_remove c.entries c.lru a p on, o.apart p)

    free_both :
        (p : ℕ)
        → covers p 0 a
            + covers p 0 (c.entries a).physical_address
            + free_cover c.buddy zone_unmovable p
          ≤ 1
    unfolding kept
    free_both p = omega (arith, pages-list_remove c.entries c.lru a p on, o.apart p)

    pub removed-Shrinks :
        (h : ℕ) → Shrinks start limit c (record (unlink c h a) { buddy = free_pages c.buddy a 0 })
    removed-Shrinks h =
        unlink-Shrinks h (free_pages c.buddy a 0)
          (free_page-IsPaged o.paged a (o.blocks a on).0 free_entry)
          (λ p. omega (arith, free_cover-free_page o.paged a (o.blocks a on).0 free_entry p))

    pub evicted-Shrinks :
        (h : ℕ)
        → Shrinks start limit c (record (unlink c h a) {
          buddy = free_pages (free_pages c.buddy (c.entries a).physical_address 0) a 0;
        })
    evicted-Shrinks h =
        let page = (c.entries a).physical_address in
        let apart : (p : ℕ) → covers p 0 page + free_cover c.buddy zone_unmovable p ≤ 1 =
          λ p. omega (arith, free_both p) in
        let paged = free_page-IsPaged o.paged page (o.blocks a on).1 apart in
        let first = free_cover-free_page o.paged page (o.blocks a on).1 apart in
        let apart' : (p : ℕ)
            → covers p 0 a + free_cover (free_pages c.buddy page 0) zone_unmovable p ≤ 1 =
          λ p. omega (arith, free_both p, first p) in
        unlink-Shrinks h _ (free_page-IsPaged paged a (o.blocks a on).0 apart')
          (λ p. omega (arith, first p, free_cover-free_page paged a (o.blocks a on).0 apart' p))

  linked_blocks :
      (n : ℕ) (e : Entry)
      → IsBlock start limit 0 n
      → IsBlock start limit 0 e.physical_address
      → (a : ℕ) → 1 ≤ count a (n ∷ c.lru)
      → IsBlock start limit 0 a × IsBlock start limit 0 (update c.entries n e a).physical_address
  unfolding count
  linked_blocks n e page block a on = elim (Bool-cases (n == a)) [
    | inl g ↦ rw g (subst (IsBlock start limit 0) ((==_iff n a).0 g) page, block)
    | inr g ↦ rw g (o.blocks a (omega (arith, rw g at on)))
  ]

  -- A new entry for a page that neither the allocator nor another entry has.
  pub insert_new-IsOwned :
      (file_id offset phys_addr : ℕ)
      → IsBlock start limit 0 phys_addr
      → ((p : ℕ) → covers p 0 phys_addr + kept c p ≤ 1)
      → IsOwned start limit (insert_new c file_id offset phys_addr).1
  unfolding insert_new lru_add_to_head kept
  insert_new-IsOwned file_id offset phys_addr block apart =
      let n = (alloc_pages c.buddy 0 zone_unmovable).0 in
      elim (Bool-cases (n == 0)) [
        | inl z ↦
            rw (insert_new, z)
              (record {
                paged = alloc_page-IsPaged o.paged;
                blocks = o.blocks;
                apart = λ p. rw (alloc_page-fails o.paged ((==_iff n 0).0 z)) (o.apart p);
              })
        | inr z ↦
            let ne : n ≢ 0 = ground (arith, z) in
            let taken = alloc_page-IsTaken o.paged ne in
            let off = count-alloc_pages ne in
            let e : Entry = record {
              file_id = file_id;
              offset = offset;
              physical_address = phys_addr;
              last_access = c.counter;
              flags = 0;
            } in
            rw (insert_new, z)
              (record {
                paged = alloc_page-IsPaged o.paged;
                blocks = linked_blocks n e taken.page block;
                apart = λ p.
                    omega (arith, pages-link c.entries c.lru n e p off, taken.cover p, apart p);
              })
      ]
