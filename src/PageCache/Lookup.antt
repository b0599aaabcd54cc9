-- ===== src/PageCache/Lookup.antt =====
-- What `page_cache_lookup` finds after the other operations (kernel/mm/page_cache.c).
use black_kernel.Base.{
  ℕ, ◌≡◌, refl, ◌≢◌, Bool, true, false, not, ◌&&◌, ◌||◌, Bool-cases, inl, inr, arith, leb, ◌==◌,
  if◌then◌else◌, none, some, Option-cases, sym, ap, ◌∙◌, subst, update_self, ℤ, pos, negsuc,
}
use black_kernel.Buddy.{alloc_pages, zone_unmovable}
use black_kernel.PageCache.Sound.{IsSound}
use black_kernel.PageCache.{
  PageCache, hash_function, unlink, lru_tail, is_for, find, find_entry, lookup, evict_lru,
  insert_new, insert,
}

-- The answer of a lookup, 0 where the page is not cached.
lookup-cached :
    (c : PageCache) (file_id offset entry : ℕ)
    → c.has_table ≡ true
    → find_entry c file_id offset ≡ some entry
    → (lookup c file_id offset).0 ≡ (c.entries entry).physical_address
unfolding lookup
lookup-cached c file_id offset entry table e = rw (lookup, table, e)

-- The entry that is added is found first.
find_entry-insert_new :
    (c : PageCache) (file_id offset phys_addr : ℕ)
    → ((alloc_pages c.buddy 0 zone_unmovable).0 == 0) ≡ false
    → find_entry (insert_new c file_id offset phys_addr).1 file_id offset
      ≡ some (alloc_pages c.buddy 0 zone_unmovable).0
unfolding find_entry insert_new find is_for
find_entry-insert_new c file_id offset phys_addr e =
    let same : (file_id == file_id && offset == offset) ≡ true = ground arith in
    rw (
      e,
      update_self c.hash_table (hash_function file_id offset) _,
      update_self c.entries (alloc_pages c.buddy 0 zone_unmovable).0 _,
      same,
    )

insert_new-entry :
    (c : PageCache) (file_id offset phys_addr : ℕ)
    → ((alloc_pages c.buddy 0 zone_unmovable).0 == 0) ≡ false
    → ((insert_new c file_id offset phys_addr).1.entries
        (alloc_pages c.buddy 0 zone_unmovable).0).physical_address
      ≡ phys_addr
unfolding insert_new
insert_new-entry c file_id offset phys_addr e = rw e (
    ap (λ r. r.physical_address) (update_self c.entries (alloc_pages c.buddy 0 zone_unmovable).0 _))

insert_new-has_table :
    (c : PageCache) (file_id offset phys_addr : ℕ)
    → (insert_new c file_id offset phys_addr).1.has_table ≡ c.has_table
unfolding insert_new
insert_new-has_table c file_id offset phys_addr = ground arith

-- Of a result and a state: where the result is 0, a lookup of the page gives this address.
Cached : (file_id offset phys_addr : ℕ) → ℤ × PageCache → Type 0
Cached file_id offset phys_addr r = r.0 ≡ pos 0 → (lookup r.1 file_id offset).0 ≡ phys_addr

pub insert_new-failed :
    (c : PageCache) (file_id offset phys_addr : ℕ)
    → ((alloc_pages c.buddy 0 zone_unmovable).0 == 0) ≡ true
    → (insert_new c file_id offset phys_addr).0 ≡ negsuc 0
unfolding insert_new
insert_new-failed c file_id offset phys_addr e = rw e

insert_new-Cached :
    (c : PageCache) (file_id offset phys_addr : ℕ)
    → c.has_table ≡ true
    → Cached file_id offset phys_addr (insert_new c file_id offset phys_addr)
unfolding Cached
insert_new-Cached c file_id offset phys_addr table ok =
    let entry = (alloc_pages c.buddy 0 zone_unmovable).0 in
    elim (Bool-cases (entry == 0)) [
      | inl e ↦ ground (arith, insert_new-failed c file_id offset phys_addr e, ok)
      | inr e ↦
          lookup-cached (insert_new c file_id offset phys_addr).1 file_id offset entry
            (insert_new-has_table c file_id offset phys_addr ∙ table)
            (find_entry-insert_new c file_id offset phys_addr e)
          ∙ insert_new-entry c file_id offset phys_addr e
    ]

either-has_table :
    (b : Bool) (x y : PageCache) (t : Bool)
    → x.has_table ≡ t
    → y.has_table ≡ t
    → (if b then x else y).has_table ≡ t
either-has_table true x y t e f = e
either-has_table false x y t e f = f

evict_lru-has_table : (c : PageCache) → (evict_lru c).has_table ≡ c.has_table
unfolding evict_lru unlink
evict_lru-has_table c = elim (Option-cases (lru_tail c.lru)) [
  | inl e ↦ rw (evict_lru, e) (either-has_table c.has_table c c c.has_table refl refl)
  | inr (victim, e) ↦ rw (evict_lru, e) (either-has_table c.has_table _ c c.has_table refl refl)
]

-- The guards of `page_cache_insert` pass.
guards :
    (c : PageCache) (phys_addr : ℕ)
    → c.has_table ≡ true
    → phys_addr ≢ 0
    → (not c.has_table || phys_addr == 0) ≡ false
guards c phys_addr table ne = ground (arith, table)

pub insert-fresh :
    (c : PageCache) (file_id offset phys_addr : ℕ)
    → c.has_table ≡ true
    → phys_addr ≢ 0
    → find_entry c file_id offset ≡ none
    → insert c file_id offset phys_addr ≡ (
        if leb c.max_pages c.total_pages
        then insert_new (evict_lru c) file_id offset phys_addr
        else insert_new c file_id offset phys_addr)
unfolding insert
insert-fresh c file_id offset phys_addr table ne e = rw (insert, guards c phys_addr table ne, e)

-- After `page_cache_insert` of a page that was not cached, with an address other than 0, into a sound
-- cache (so no one else has the page behind that of the hash table) has returned 0, with eviction or
-- without, a lookup of the page gives the address that was inserted.
pub lookup-insert :
    {start limit : ℕ} (c : PageCache) (file_id offset phys_addr : ℕ)
    → IsSound start limit c
    → c.has_table ≡ true
    → phys_addr ≢ 0
    → find_entry c file_id offset ≡ none
    → (insert c file_id offset phys_addr).0 ≡ pos 0
    → (lookup (insert c file_id offset phys_addr).1 file_id offset).0 ≡ phys_addr
unfolding Cached
lookup-insert c file_id offset phys_addr _ table ne e =
    subst (Cached file_id offset phys_addr)
      (sym (insert-fresh c file_id offset phys_addr table ne e))
      (elim (Bool-cases (leb c.max_pages c.total_pages)) [
        | inl full ↦ rw full (
            insert_new-Cached (evict_lru c) file_id offset phys_addr
              (evict_lru-has_table c ∙ table))
        | inr room ↦ rw room (insert_new-Cached c file_id offset phys_addr table)
      ])

-- A page that is cached already keeps its address: `page_cache_insert` returns 0 and changes nothing.
pub insert-cached :
    (c : PageCache) (file_id offset phys_addr entry : ℕ)
    → c.has_table ≡ true
    → phys_addr ≢ 0
    → find_entry c file_id offset ≡ some entry
    → insert c file_id offset phys_addr ≡ (pos 0, c)
unfolding insert
insert-cached c file_id offset phys_addr entry table ne e =
    rw (insert, guards c phys_addr table ne, e)
