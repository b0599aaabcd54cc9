-- ===== src/PageCache/Tests.antt =====
-- The page cache (kernel/mm/page_cache.c) with room for one page.
use black_kernel.Base.{
  ℕ, ◌+◌, ◌≤◌, ◌≡◌, ◌≢◌, refl, sym, subst, ◌∙◌, arith, none, true, false, [], pos,
}
use black_kernel.Buddy.{
  Buddy, alloc_pages, zone_unmovable, alloc_block, find_order, split, take_block, add_block,
  list_remove, list_add, pages_to_bytes, bytes_to_pages, addr_to_page_index, sanitize,
}
use black_kernel.Buddy.Init.{carve, choose_order}
use black_kernel.Buddy.Init
use black_kernel.Buddy.Coverage.{covers, free_cover}
use black_kernel.Buddy.Reach.{init-Invariant}
use black_kernel.Buddy.Page.{IsPaged, alloc_page-IsPaged, alloc_page-IsTaken}
use black_kernel.PageCache.{PageCache, find, find_entry, lookup, insert, insert_new, remove}
use black_kernel.PageCache.Chains.{count}
use black_kernel.PageCache.Owned.{pages, kept}
use black_kernel.PageCache.Sound.{IsSound}
use black_kernel.PageCache.Reach.{Reach, here, next, client_step, insert_step, Reach-IsSound}
use black_kernel.PageCache.Removal.{lookup-remove}
use black_kernel.PageCache.Insertion.{lookup-insert_room}
use black_kernel.PageCache.Lookup.{lookup-insert}
use black_kernel.PageCache

-- Four pages: the hash table has the first, and a client that does not use it the one behind.
abbrev memory : Buddy
memory = Init.init 0x100000 0x4000

abbrev with_table : Buddy
with_table = (alloc_pages memory 0 zone_unmovable).1

abbrev cache : PageCache
cache = record {
  has_table = true;
  table = 0x100000;
  hash_table = λ h. [];
  entries =
      λ a. record { file_id = 0; offset = 0; physical_address = 0; last_access = 0; flags = 0 };
  lru = [];
  hash_size = 1024;
  total_pages = 0;
  max_pages = 1;
  cache_hits = 0;
  cache_misses = 0;
  counter = 0;
  buddy = (alloc_pages with_table 0 zone_unmovable).1;
}

table_is : (alloc_pages memory 0 zone_unmovable).0 ≡ 0x100000
unfolding Init.init alloc_pages carve choose_order alloc_block find_order split take_block add_block
    list_remove list_add pages_to_bytes bytes_to_pages addr_to_page_index sanitize
table_is = refl

behind_is : (alloc_pages with_table 0 zone_unmovable).0 ≡ 0x101000
unfolding Init.init alloc_pages carve choose_order alloc_block find_order split take_block add_block
    list_remove list_add pages_to_bytes bytes_to_pages addr_to_page_index sanitize
behind_is = refl

first_paged : IsPaged 0x100000 0x104000 memory
unfolding Init.init
first_paged = record {
  order = init-Invariant 0x100000 0x4000 (omega arith) (omega arith) (omega arith) (omega arith);
  begins = refl;
}

managed : IsPaged 0x100000 0x104000 cache.buddy
managed = alloc_page-IsPaged (alloc_page-IsPaged first_paged)

-- Of two pages that are taken one after the other.
two_taken :
    (p t u : ℕ)
    → (alloc_pages memory 0 zone_unmovable).0 ≡ t
    → (alloc_pages with_table 0 zone_unmovable).0 ≡ u
    → t ≢ 0
    → u ≢ 0
    → covers p 0 t + covers p 0 u + free_cover cache.buddy zone_unmovable p ≤ 1
two_taken p t u e f ne ne' =
    let first = (alloc_page-IsTaken first_paged (λ z. ne (sym e ∙ z))).cover p in
    let second =
      (alloc_page-IsTaken (alloc_page-IsPaged first_paged) (λ z. ne' (sym f ∙ z))).cover p in
    omega (
      arith,
      first_paged.order.exclusive p,
      subst
          (λ a.
            free_cover with_table zone_unmovable p + covers p 0 a
            ≡ free_cover memory zone_unmovable p)
          e first,
      subst
          (λ a.
            free_cover cache.buddy zone_unmovable p + covers p 0 a
            ≡ free_cover with_table zone_unmovable p)
          f second,
    )

table_apart :
    (p : ℕ)
    → covers p 0 0x100000 + covers p 0 0x101000 + free_cover cache.buddy zone_unmovable p ≤ 1
table_apart p = two_taken p 0x100000 0x101000 table_is behind_is (omega arith) (omega arith)

cache-IsSound : IsSound 0x100000 0x104000 cache
unfolding count pages kept
cache-IsSound = record {
  coherent = record {
    once = λ a. omega arith;
    chains = λ h a. ground arith;
    keys = λ a b on_a on_b same. absurd (omega (arith, on_a));
  };
  owned = record {
    paged = managed;
    blocks = λ a on. absurd (omega (arith, on));
    apart = λ p. omega (arith, table_apart p);
  };
}

missing : find_entry cache 7 0x3000 ≡ none
unfolding find_entry find
missing = refl

inserted : (insert cache 7 0x3000 0x80000).0 ≡ pos 0
unfolding insert insert_new find_entry find Init.init alloc_pages carve choose_order alloc_block
    find_order split take_block add_block list_remove list_add pages_to_bytes bytes_to_pages
    addr_to_page_index sanitize
inserted = refl

lookup-insert_example : (lookup (insert cache 7 0x3000 0x80000).1 7 0x3000).0 ≡ 0x80000
lookup-insert_example =
    lookup-insert cache 7 0x3000 0x80000 cache-IsSound refl (λ e. absurd (omega (arith, e))) missing
      inserted

-- A client takes a page and hands it over.
abbrev page : ℕ
page = (alloc_pages cache.buddy 0 zone_unmovable).0

abbrev lent : PageCache
lent = record cache { buddy = (alloc_pages cache.buddy 0 zone_unmovable).1 }

page_ne : page ≢ 0
unfolding Init.init alloc_pages carve choose_order alloc_block find_order split take_block add_block
    list_remove list_add pages_to_bytes bytes_to_pages addr_to_page_index sanitize
page_ne = omega arith

lent_apart : (p : ℕ) → kept lent p ≤ 1
unfolding kept pages
lent_apart p = omega (arith, table_apart p, (alloc_page-IsTaken managed page_ne).cover p)

page_apart : (p : ℕ) → covers p 0 page + kept lent p ≤ 1
unfolding kept pages
page_apart p = omega (arith, table_apart p, (alloc_page-IsTaken managed page_ne).cover p)

abbrev filled : PageCache
filled = (insert lent 7 0x3000 page).1

filled-Reach : Reach 0x100000 0x104000 cache filled
filled-Reach =
    next (next here (client_step cache _ (alloc_page-IsPaged managed) lent_apart))
      (insert_step lent 7 0x3000 page (alloc_page-IsTaken managed page_ne).page page_apart)

Reach-IsSound_example : IsSound 0x100000 0x104000 filled
Reach-IsSound_example = Reach-IsSound filled-Reach cache-IsSound

lookup-remove_example : (lookup (remove filled 7 0x3000) 7 0x3000).0 ≡ 0
lookup-remove_example =
    lookup-remove filled 7 0x3000 7 0x3000 (Reach-IsSound filled-Reach cache-IsSound)

lent-IsSound : IsSound 0x100000 0x104000 lent
lent-IsSound =
    Reach-IsSound (next here (client_step cache _ (alloc_page-IsPaged managed) lent_apart))
      cache-IsSound

not_cached : find_entry lent 7 0x3000 ≡ none
unfolding find_entry find
not_cached = refl

accepted : (insert lent 7 0x3000 page).0 ≡ pos 0
unfolding insert insert_new find_entry find Init.init alloc_pages carve choose_order alloc_block
    find_order split take_block add_block list_remove list_add pages_to_bytes bytes_to_pages
    addr_to_page_index sanitize
accepted = refl

-- Another file.
lookup-insert_room_example : (lookup filled 8 0x3000).0 ≡ (lookup lent 8 0x3000).0
lookup-insert_room_example =
    lookup-insert_room lent 7 0x3000 page 8 0x3000 lent-IsSound refl page_ne (omega arith)
      not_cached accepted

abbrev unstarted : PageCache
unstarted = record cache { has_table = false; buddy = memory }
