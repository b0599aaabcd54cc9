-- ===== src/PageCache/Linked.antt =====
-- The hash table and the list of the page cache (kernel/mm/page_cache.c) with a new entry.
use black_kernel.Base.{
  ℕ, ◌≤◌, ◌≡◌, ◌≢◌, subst, true, false, Bool-cases, inl, inr, arith, ◌==◌, ==_iff, if◌then◌else◌,
  update, ◌∷◌,
}
use black_kernel.Buddy.{alloc_pages, zone_unmovable}
use black_kernel.PageCache.{Entry, PageCache, hash_function, is_for, lru_add_to_head, insert_new}
use black_kernel.PageCache.Chains.{count}
use black_kernel.PageCache.Coherent.{hash_of, IsCoherent, buddy-IsCoherent}

-- No entry of the list is for the page.
abbrev pub IsUncached : PageCache → ℕ → ℕ → Type 0
IsUncached c file_id offset =
    (a : ℕ) → 1 ≤ count a c.lru → is_for (c.entries a) file_id offset ≡ false

is_for_comm :
    (d e : Entry) → is_for d e.file_id e.offset ≡ true → is_for e d.file_id d.offset ≡ true
unfolding is_for
is_for_comm d e same = ground arith

-- The entry `e` at the address `n`, in front of its chain and of the list.
abbrev link : PageCache → ℕ → Entry → PageCache
link c n e =
    let hash = hash_function e.file_id e.offset in
    record c {
      hash_table = update c.hash_table hash (n ∷ c.hash_table hash);
      entries = update c.entries n e;
      lru = n ∷ c.lru;
    }

module _ (c : PageCache) (i : IsCoherent c) (n : ℕ) (fresh : count n c.lru ≡ 0) (e : Entry) where
  linked_once : (a : ℕ) → count a (link c n e).lru ≤ 1
  unfolding count
  linked_once a = elim (Bool-cases (n == a)) [
    | inl g ↦ rw g (ground (arith, subst (λ x. count x c.lru ≡ 0) ((==_iff n a).0 g) fresh))
    | inr g ↦ rw g (ground (arith, i.once a))
  ]

  linked_chains :
      (h a : ℕ)
      → count a ((link c n e).hash_table h)
        ≡ (if hash_of (link c n e) a == h then count a (link c n e).lru else 0)
  unfolding count
  linked_chains h a =
      let hash = hash_function e.file_id e.offset in
      elim (Bool-cases (n == a)) [
        | inl g ↦
            let none_yet : count a c.lru ≡ 0 =
              subst (λ x. count x c.lru ≡ 0) ((==_iff n a).0 g) fresh in
            elim (Bool-cases (hash == h)) [
              | inl f ↦ rw (g, f) (ground (arith, i.chains hash a, none_yet, g, f))
              | inr f ↦ rw (g, f) (ground (arith, i.chains h a, none_yet, g, f))
            ]
        | inr g ↦ elim (Bool-cases (hash == h)) [
          | inl f ↦ rw (g, f) (ground (arith, i.chains hash a, g, f))
          | inr f ↦ rw (g, f) (ground (arith, i.chains h a, g, f))
        ]
      ]

  linked_keys :
      IsUncached c e.file_id e.offset
      → (a b : ℕ) → 1 ≤ count a (link c n e).lru
      → 1 ≤ count b (link c n e).lru
      → is_for
          ((link c n e).entries a)
          ((link c n e).entries b).file_id
          ((link c n e).entries b).offset
        ≡ true
      → a ≡ b
  unfolding count is_for
  linked_keys other a b on_a on_b same = elim (Bool-cases (n == a)) [
    | inl g ↦ elim (Bool-cases (n == b)) [
      | inl f ↦ ground (arith, g, f)
      | inr f ↦
          let found : is_for (c.entries b) e.file_id e.offset ≡ true =
            is_for_comm e (c.entries b) (rw (g, f) at same) in
          absurd (ground (arith, found, other b (omega (arith, rw f at on_b))))
    ]
    | inr g ↦ elim (Bool-cases (n == b)) [
      | inl f ↦
          let found : is_for (c.entries a) e.file_id e.offset ≡ true = rw (g, f) at same in
          absurd (ground (arith, found, other a (omega (arith, rw g at on_a))))
      | inr f ↦
          i.keys a b (omega (arith, rw g at on_a)) (omega (arith, rw f at on_b)) (rw (g, f) at same)
    ]
  ]

pub insert_new-IsCoherent :
    (c : PageCache) (file_id offset phys_addr : ℕ)
    → IsCoherent c
    → IsUncached c file_id offset
    → ((alloc_pages c.buddy 0 zone_unmovable).0 ≢ 0
        → count (alloc_pages c.buddy 0 zone_unmovable).0 c.lru ≡ 0)
    → IsCoherent (insert_new c file_id offset phys_addr).1
unfolding insert_new lru_add_to_head
insert_new-IsCoherent c file_id offset phys_addr i other fresh =
    elim (Bool-cases ((alloc_pages c.buddy 0 zone_unmovable).0 == 0)) [
      | inl z ↦ rw (insert_new, z) (buddy-IsCoherent c _ i)
      | inr z ↦
          let off = fresh (ground (arith, z)) in
          rw (insert_new, z)
            (record {
              once = linked_once c i n off e;
              chains = linked_chains c i n off e;
              keys = linked_keys c i n off e other;
            })
    ]
  where
    n : ℕ
    n = (alloc_pages c.buddy 0 zone_unmovable).0

    e : Entry
    e = record {
      file_id = file_id;
      offset = offset;
      physical_address = phys_addr;
      last_access = c.counter;
      flags = 0;
    }
