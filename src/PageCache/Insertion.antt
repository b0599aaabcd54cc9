-- ===== src/PageCache/Insertion.antt =====
-- What `page_cache_lookup` finds after `page_cache_insert` (kernel/mm/page_cache.c) where the cache is not
-- full.
use black_kernel.Base.{
  ℕ, ◌<◌, ◌≡◌, ◌≢◌, refl, sym, ◌∙◌, ap, subst, true, false, ◌&&◌, Bool-cases, Option-cases, inl,
  inr, arith, leb, ◌==◌, ==_iff, if◌then◌else◌, update, update_self, List, [], ◌∷◌, none, ℤ, pos,
  negsuc,
}
use black_kernel.Buddy.{alloc_pages, zone_unmovable}
use black_kernel.PageCache.{
  Entry, PageCache, is_for, find, find_entry, hash_function, get_timestamp, insert_new, insert,
  lookup,
}
use black_kernel.PageCache.Chains.{count}
use black_kernel.PageCache.Coherent.{IsCoherent, find_entry-on_list}
use black_kernel.PageCache.Owned.{count-alloc_pages}
use black_kernel.PageCache.Sound.{IsSound}
use black_kernel.PageCache.Lookup.{insert-fresh, insert_new-failed, lookup-insert}
use black_kernel.PageCache.Removal.{answer, answer-none, lookup-answer, same_page}

-- A walk does not see an entry that is not on the chain.
find-update :
    (entries : ℕ → Entry) (chain : List ℕ) (n : ℕ) (e : Entry) (file page : ℕ)
    → count n chain ≡ 0
    → find (update entries n e) chain file page ≡ find entries chain file page
unfolding find count
find-update entries [] n e file page off = refl
find-update entries (x ∷ chain) n e file page off = elim (Bool-cases (n == x)) [
  | inl f ↦ absurd (ground (arith, off, f))
  | inr f ↦ rw (f, find-update entries chain n e file page (ground (arith, off))) refl
]

-- Nor an entry for another page in front of the chain.
find-front :
    (entries : ℕ → Entry) (chain : List ℕ) (n : ℕ) (e : Entry) (file page : ℕ)
    → is_for e file page ≡ false
    → count n chain ≡ 0
    → find (update entries n e) (n ∷ chain) file page ≡ find entries chain file page
unfolding find
find-front entries chain n e file page other off =
    rw (update_self entries n e, other) (find-update entries chain n e file page off)

module _ (c : PageCache) (file_id offset phys_addr : ℕ) (i : IsCoherent c)
    (some_page : (alloc_pages c.buddy 0 zone_unmovable).0 ≢ 0)
    (off : count (alloc_pages c.buddy 0 zone_unmovable).0 c.lru ≡ 0) where
  allocated : ((alloc_pages c.buddy 0 zone_unmovable).0 == 0) ≡ false
  allocated = ground (arith, some_page)

  -- Another page is found, or not, as before.
  find_entry-insert_new_other :
      (file page : ℕ)
      → same_page file page file_id offset ≡ false
      → find_entry (insert_new c file_id offset phys_addr).1 file page ≡ find_entry c file page
  unfolding find_entry insert_new is_for get_timestamp
  find_entry-insert_new_other file page other =
      let n = (alloc_pages c.buddy 0 zone_unmovable).0 in
      let e : Entry = record {
        file_id = file_id;
        offset = offset;
        physical_address = phys_addr;
        last_access = c.counter;
        flags = 0;
      } in
      let hash = hash_function file_id offset in
      let off_chain : count n (c.hash_table (hash_function file page)) ≡ 0 =
        ground (arith, i.chains (hash_function file page) n, off) in
      let not_for : is_for e file page ≡ false = ground (arith, other) in
      elim (Bool-cases (hash == hash_function file page)) [
        | inl f ↦
            let same : hash ≡ hash_function file page =
              (==_iff hash (hash_function file page)).0 f in
            rw (allocated, f)
              (find-front c.entries (c.hash_table hash) n e file page not_for
                  (subst (λ h. count n (c.hash_table h) ≡ 0) (sym same) off_chain)
                ∙ ap (λ h. find c.entries (c.hash_table h) file page) same)
        | inr f ↦ rw (allocated, f) (find-update c.entries _ n e file page off_chain)
      ]

  -- What is found has the address that it had.
  answer-insert_new :
      (file page : ℕ)
      → answer (insert_new c file_id offset phys_addr).1 (find_entry c file page)
        ≡ answer c (find_entry c file page)
  unfolding answer insert_new get_timestamp
  answer-insert_new file page = elim (Option-cases (find_entry c file page)) [
    | inl e ↦ rw (e, answer-none (insert_new c file_id offset phys_addr).1, answer-none c) refl
    | inr (a, e) ↦
        let n = (alloc_pages c.buddy 0 zone_unmovable).0 in
        let on = (find_entry-on_list c file page a i e).0 in
        let differs : (n == a) ≡ false = elim (Bool-cases (n == a)) [
          | inr f ↦ f
          | inl f ↦
              absurd (omega (arith, on, subst (λ x. count x c.lru ≡ 0) ((==_iff n a).0 f) off))
        ] in
        rw (e, allocated, differs) refl
  ]

  lookup-insert_new_other :
      (file page : ℕ)
      → same_page file page file_id offset ≡ false
      → (lookup (insert_new c file_id offset phys_addr).1 file page).0 ≡ (lookup c file page).0
  lookup-insert_new_other file page other =
      let d = (insert_new c file_id offset phys_addr).1 in
      lookup-answer d file page
      ∙ ap (answer d) (find_entry-insert_new_other file page other)
      ∙ answer-insert_new file page
      ∙ sym (lookup-answer c file page)

-- After `page_cache_insert` of a page that was not cached, with an address other than 0, into a sound
-- cache with room (so no one else has the page behind that of the hash table) has returned 0: a lookup
-- of the page gives its address, and one of any other page what it gave before.
pub lookup-insert_room :
    {start limit : ℕ} (c : PageCache) (file_id offset phys_addr file page : ℕ)
    → IsSound start limit c
    → c.has_table ≡ true
    → phys_addr ≢ 0
    → c.total_pages < c.max_pages
    → find_entry c file_id offset ≡ none
    → (insert c file_id offset phys_addr).0 ≡ pos 0
    → (lookup (insert c file_id offset phys_addr).1 file page).0
      ≡ (if file == file_id && page == offset then phys_addr else (lookup c file page).0)
lookup-insert_room c file_id offset phys_addr file page i table ne room e ok =
    let fresh : insert c file_id offset phys_addr ≡ insert_new c file_id offset phys_addr =
      insert-fresh c file_id offset phys_addr table ne e
      ∙ rw (not_full c.max_pages c.total_pages room) refl in
    let some_page : (alloc_pages c.buddy 0 zone_unmovable).0 ≢ 0 = λ z.
      let failed : (insert_new c file_id offset phys_addr).0 ≡ negsuc 0 =
        insert_new-failed c file_id offset phys_addr ((==_iff _ 0).1 z) in
      let succeeded : (insert_new c file_id offset phys_addr).0 ≡ pos 0 =
        sym (ap (λ (r : ℤ × PageCache). r.0) fresh) ∙ ok in
      ground (arith, failed, succeeded) in
    elim (Bool-cases (same_page file page file_id offset)) [
      | inl s ↦
          let f : file ≡ file_id = ground (arith, s) in
          let p : page ≡ offset = ground (arith, s) in
          rw s (
            (λ k. (lookup (insert c file_id offset phys_addr).1 (f k) (p k)).0)
            ∙ lookup-insert c file_id offset phys_addr i table ne e ok)
      | inr s ↦
          rw (s, fresh)
            (lookup-insert_new_other c file_id offset phys_addr i.coherent some_page
              (count-alloc_pages c i.owned some_page) file page s)
    ]
  where
    not_full : (m t : ℕ) → t < m → leb m t ≡ false
    not_full m t lt = ground arith
