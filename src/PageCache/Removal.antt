-- ===== src/PageCache/Removal.antt =====
-- What `page_cache_lookup` finds after `page_cache_remove` (kernel/mm/page_cache.c).
use black_kernel.Base.{
  ℕ, ◌≤◌, ◌≡◌, refl, sym, ◌∙◌, ap, Bool, true, false, ◌&&◌, Bool-cases, Option-cases, inl, inr,
  arith, ◌==◌, ==_iff, if◌then◌else◌, update_self, Option, none, some,
}
use black_kernel.Buddy.{Buddy, list_remove}
use black_kernel.PageCache.{
  PageCache, Entry, is_for, find, find_entry, hash_function, unlink, lookup, remove,
}
use black_kernel.PageCache.Chains.{
  count, count-list_remove, count-removed, none-find, find-list_remove,
}
use black_kernel.PageCache.Sound.{IsSound}
use black_kernel.PageCache.Coherent.{IsCoherent, hash_of-is_for, find_entry-on_list, either}

-- Whether the page `page` of the file `file` is the one with `offset` in `file_id`.
abbrev pub same_page : ℕ → ℕ → ℕ → ℕ → Bool
same_page file page file_id offset = file == file_id && page == offset

-- The entry of a page is not that of another.
is_for-other :
    (e : Entry) (file page file_id offset : ℕ)
    → is_for e file_id offset ≡ true
    → same_page file page file_id offset ≡ false
    → is_for e file page ≡ false
unfolding is_for
is_for-other e file page file_id offset found other = ground arith

module _ (c : PageCache) (i : IsCoherent c) (file_id offset : ℕ) where
  -- What is left of the chain without the entry of the page is for other pages.
  left_over :
      (a b : ℕ)
      → find_entry c file_id offset ≡ some a
      → 1 ≤ count b (list_remove (c.hash_table (hash_function file_id offset)) a)
      → is_for (c.entries b) file_id offset ≡ false
  left_over a b e on_b =
      let (on, hash, found) = find_entry-on_list c file_id offset a i e in
      let chain = c.hash_table (hash_function file_id offset) in
      elim (Bool-cases (is_for (c.entries b) file_id offset)) [
        | inr f ↦ f
        | inl f ↦
            let (g, o) = hash_of-is_for c b file_id offset f in
            let chained = i.chains (hash_function file_id offset) b in
            let listed : 1 ≤ count b c.lru =
              ground (arith, count-removed b a chain on_b, chained) in
            let same : a ≡ b = i.keys a b on listed (rw (g, o) found) in
            absurd (ground (arith, same, on_b, count-list_remove b a chain, chained, i.once b))
      ]

  -- The entry of the page is gone.
  find_entry-unlink :
      (a : ℕ)
      → find_entry c file_id offset ≡ some a
      → find_entry (unlink c (hash_function file_id offset) a) file_id offset ≡ none
  unfolding find_entry unlink
  find_entry-unlink a e =
      rw (update_self c.hash_table (hash_function file_id offset) _)
        (none-find c.entries _ file_id offset (λ b on_b. left_over a b e on_b))

  -- Those of the others are not.
  find_entry-unlink_other :
      (a file page : ℕ)
      → find_entry c file_id offset ≡ some a
      → same_page file page file_id offset ≡ false
      → find_entry (unlink c (hash_function file_id offset) a) file page ≡ find_entry c file page
  unfolding find_entry unlink
  find_entry-unlink_other a file page e other =
      let (on, hash, found) = find_entry-on_list c file_id offset a i e in
      let differs = is_for-other (c.entries a) file page file_id offset found other in
      elim (Bool-cases (hash_function file_id offset == hash_function file page)) [
        | inl f ↦ rw f (
            find-list_remove c.entries (c.hash_table (hash_function file_id offset)) file page a
              differs
            ∙ ap (λ h. find c.entries (c.hash_table h) file page)
                ((==_iff (hash_function file_id offset) (hash_function file page)).0 f))
        | inr f ↦ rw f refl
      ]

-- What a lookup answers with the entry that it finds.
unfoldable pub answer : PageCache → Option ℕ → ℕ
answer c found =
    if c.has_table then elim found [ none ↦ 0 | some a ↦ (c.entries a).physical_address ] else 0

pub lookup-answer :
    (c : PageCache) (file page : ℕ) → (lookup c file page).0 ≡ answer c (find_entry c file page)
unfolding lookup answer
lookup-answer c file page = elim (Option-cases (find_entry c file page)) [
  | inl e ↦ rw (lookup, e) (ground arith)
  | inr (a, e) ↦ rw (lookup, e) (ground arith)
]

pub answer-none : (c : PageCache) → answer c none ≡ 0
unfolding answer
answer-none c = ground arith

lookup-no_table : (c : PageCache) (file page : ℕ) → c.has_table ≡ false → (lookup c file page).0 ≡ 0
unfolding answer
lookup-no_table c file page t = lookup-answer c file page ∙ rw t refl

-- What holds of both branches of a test, where they are taken, holds of the test.
either_taken :
    (P : PageCache → Type 0) (b : Bool) (c d : PageCache)
    → (b ≡ true → P c)
    → (b ≡ false → P d)
    → P (if b then c else d)
either_taken P true c d p q = p refl
either_taken P false c d p q = q refl

module _ (c : PageCache) (file_id offset file page : ℕ) where
  -- The answer of a cache `d` for any page after the one of `offset` in `file_id` was removed.
  Removed : PageCache → Type 0
  Removed d =
      (lookup d file page).0
      ≡ (if file == file_id && page == offset then 0 else (lookup c file page).0)

  -- It is enough to look at the page itself and at the others.
  Removed-by_page :
      (d : PageCache)
      → (file ≡ file_id → page ≡ offset → (lookup d file page).0 ≡ 0)
      → (same_page file page file_id offset ≡ false
          → (lookup d file page).0 ≡ (lookup c file page).0)
      → Removed d
  unfolding Removed
  Removed-by_page d gone kept = elim (Bool-cases (same_page file page file_id offset)) [
    | inl s ↦ rw s (gone (ground (arith, s)) (ground (arith, s)))
    | inr s ↦ rw s (kept s)
  ]

  -- A page that is not cached.
  Removed-none : find_entry c file_id offset ≡ none → Removed c
  Removed-none e =
      Removed-by_page c (λ f p. lookup-answer c file page ∙ rw (f, p, e) (answer-none c))
        (λ s. refl)

  Removed-some :
      (a : ℕ) (b : Buddy)
      → IsCoherent c
      → find_entry c file_id offset ≡ some a
      → Removed (record (unlink c (hash_function file_id offset) a) { buddy = b })
  unfolding find_entry answer unlink
  Removed-some a b i e =
      let d : PageCache = record (unlink c (hash_function file_id offset) a) { buddy = b } in
      Removed-by_page d
        (λ f p.
          lookup-answer d file page
          ∙ ap (answer c) (
              (λ k. find_entry (unlink c (hash_function file_id offset) a) (f k) (p k))
              ∙ find_entry-unlink c i file_id offset a e)
          ∙ answer-none c)
        (λ s.
          lookup-answer d file page
          ∙ ap (answer c) (find_entry-unlink_other c i file_id offset a file page e s)
          ∙ sym (lookup-answer c file page))

-- After `page_cache_remove` of a page, cached or not, from a sound cache (so no one else has the page
-- behind that of the hash table): a lookup of the page finds nothing, and one of any other page what it
-- found before.
pub lookup-remove :
    {start limit : ℕ} (c : PageCache) (file_id offset file page : ℕ)
    → IsSound start limit c
    → (lookup (remove c file_id offset) file page).0
      ≡ (if file == file_id && page == offset then 0 else (lookup c file page).0)
unfolding remove Removed
lookup-remove c file_id offset file page sound =
    let i = sound.coherent in
    let P = Removed c file_id offset file page in
    elim (Option-cases (find_entry c file_id offset)) [
      | inl e ↦
          let p = Removed-none c file_id offset file page e in
          rw (remove, e) (either P c.has_table c c p p)
      | inr (a, e) ↦
          rw (remove, e)
            (either_taken P c.has_table _ c (λ t. Removed-some c file_id offset file page a _ i e)
              (λ t.
                let nothing = lookup-no_table c file page t in
                Removed-by_page c file_id offset file page c (λ f p. nothing) (λ s. refl)))
    ]
