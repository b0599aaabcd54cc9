-- ===== src/Buddy/Reach.antt =====
-- The states that `buddy_init`, `buddy_alloc_pages` and `buddy_free_pages` (buddy.c) can reach, and
-- what holds in all of them.
use black_kernel.Base.{
  ℕ, ◌+◌, ◌*◌, ◌%◌, ◌≤◌, ◌<◌, ◌≡◌, refl, ◌≢◌, inl, inr, false, List, [], ◌∷◌, sym, subst, ◌∙◌,
  arith, ==_iff, ◌==◌, Bool-cases, u64,
}
use black_kernel.Buddy.{
  Zone, Buddy, max_order, page_size, zone_unmovable, sanitize, bytes_to_pages, alloc_pages,
  free_block, free_pages,
}
use black_kernel.Buddy.Valid.{IsBlock}
use black_kernel.Buddy.Alloc.{IsValid, alloc_pages-cases, alloc_pages-IsValid, alloc_pages-Outcome}
use black_kernel.Buddy.Free.{Returned, free_block-Returned}
use black_kernel.Buddy.Coverage.{
  covers, covers-IsAdditive, free_cover, IsExclusive, IsManaged, free_pages-eq-free_block,
  free_cover-free_pages,
}
use black_kernel.Buddy.Accounting.{IsCounted, alloc_pages-IsCounted, free_block-IsCounted}
use black_kernel.Buddy.Init.{init}
use black_kernel.Buddy.Init.Count.{init-IsCounted}
use black_kernel.Buddy.Init.Cut.{free_cover-init, init-IsValid}

-- A call by a client that frees only blocks of the memory, none of whose addresses is free already.
pub data Step (limit : ℕ) : Buddy → Buddy → Type 0 where
  alloc : (b : Buddy) (order zone_type : ℕ) → Step limit b (alloc_pages b order zone_type).1
  free :
      (b : Buddy) (order address : ℕ)
      → order ≤ max_order
      → IsBlock b.memory_start limit order address
      → ((p : ℕ) → covers p order address + free_cover b zone_unmovable p ≤ 1)
      → Step limit b (free_pages b address order)

pub data Reach (limit : ℕ) (b : Buddy) : Buddy → Type 0 where
  here : Reach limit b b
  next : {c d : Buddy} → Reach limit b c → Step limit c d → Reach limit b d

-- No block is on any list of the zone.
abbrev pub IsEmptyZone : Zone → Type 0
IsEmptyZone zone = (k : ℕ) → zone.free_lists k ≡ []

pub record Invariant (limit : ℕ) (b : Buddy) : Type 0 where
  pub managed : IsManaged limit b
  pub valid : IsValid limit b
  pub exclusive : IsExclusive b zone_unmovable
  pub counted : (z : ℕ) → IsCounted (b.zones z)
  pub reserved : (z : ℕ) → z ≢ zone_unmovable → IsEmptyZone (b.zones z)

-- From a zone with no block every call fails and changes nothing.
pub alloc_pages-IsEmptyZone :
    (b : Buddy) (order zone_type : ℕ)
    → IsEmptyZone (b.zones (sanitize zone_type))
    → alloc_pages b order zone_type ≡ (0, b)
alloc_pages-IsEmptyZone b order zone_type none_free =
    alloc_pages-cases (λ r. r ≡ (0, b)) b order zone_type refl
      λ current block rest h top e. absurd (cons≢nil block rest (sym e ∙ none_free current))
  where
    cons≢nil : (x : ℕ) (l : List ℕ) → ◌≡◌ {A = List ℕ} (x ∷ l) [] → ⊥
    cons≢nil x l q = cc

alloc-IsExclusive :
    {limit : ℕ} {b : Buddy} (order zone_type : ℕ)
    → Invariant limit b
    → sanitize zone_type ≡ zone_unmovable
    → IsExclusive (alloc_pages b order zone_type).1 zone_unmovable
unfolding free_cover
alloc-IsExclusive {b} order zone_type i e p =
    elim (alloc_pages-Outcome i.valid (covers-IsAdditive p) order zone_type) [
      | inl q ↦ rw q.1 (i.exclusive p)
      | inr t ↦ omega (arith, i.exclusive p, rw e at t.weight)
    ]

alloc-Invariant :
    {limit : ℕ} {b : Buddy} (order zone_type : ℕ)
    → Invariant limit b
    → Invariant limit (alloc_pages b order zone_type).1
alloc-Invariant {limit} {b} order zone_type i =
    elim (Bool-cases (sanitize zone_type == zone_unmovable)) [
      | inl c ↦ elim (alloc_pages-Outcome i.valid (covers-IsAdditive 0) order zone_type) [
        | inl e ↦ subst (Invariant limit) (sym e.1) i
        | inr t ↦ record {
          managed = omega (arith, i.managed, t.same_start, t.same_size);
          valid = alloc_pages-IsValid i.valid order zone_type;
          exclusive = alloc-IsExclusive order zone_type i ((==_iff _ _).0 c);
          counted = alloc_pages-IsCounted i.valid i.counted order zone_type;
          reserved = λ z ne. rw (t.others z (rw ((==_iff _ _).0 c) ne)) (i.reserved z ne);
        }
      ]
      | inr c ↦
          rw
            (alloc_pages-IsEmptyZone b order zone_type
              (i.reserved (sanitize zone_type) (ground arith)))
            i
    ]

free-Invariant :
    {limit : ℕ} {b : Buddy} (order address : ℕ)
    → order ≤ max_order
    → IsBlock b.memory_start limit order address
    → ((p : ℕ) → covers p order address + free_cover b zone_unmovable p ≤ 1)
    → Invariant limit b
    → Invariant limit (free_pages b address order)
free-Invariant {limit} {b} order address h u apart i =
    rw (free_pages-eq-free_block order address i.managed i.valid h u) (record {
      managed = omega (arith, i.managed, r.1.same_start, r.1.same_size);
      valid = r.0;
      exclusive = λ p. omega (
        arith,
        apart p,
        rw (free_pages-eq-free_block order address i.managed i.valid h u) at
            (free_cover-free_pages i.managed i.valid order address p h u),
      );
      counted = λ z. free_block-IsCounted i.valid i.counted order address z h u;
      reserved = λ z ne. rw (r.1.others z ne) (i.reserved z ne);
    })
  where
    r :
        IsValid limit (free_block b address order)
        × Returned (covers 0) order address b (free_block b address order)
    r = free_block-Returned (covers-IsAdditive 0) i.valid address order h u

pub Step-Invariant :
    {limit : ℕ} {b c : Buddy} → Step limit b c → Invariant limit b → Invariant limit c
Step-Invariant (alloc b order zone_type) i = alloc-Invariant order zone_type i
Step-Invariant (free b order address h u apart) i = free-Invariant order address h u apart i

init-IsManaged :
    (start size limit : ℕ)
    → start % page_size ≡ 0
    → start + size ≡ limit
    → limit < u64
    → IsManaged limit (init start size)
unfolding init
init-IsManaged start size limit a e below = record { size = e; below = below; start_aligned = a }

init-reserved : (start size z : ℕ) → z ≢ zone_unmovable → IsEmptyZone ((init start size).zones z)
unfolding init
init-reserved start size z ne k =
    let other : (zone_unmovable == z) ≡ false = ground arith in rw other

-- A size of whole pages is that many pages, where memory does not start at the null page.
bytes_to_pages_exact :
    (start size : ℕ)
    → 0 < start
    → start % page_size ≡ 0
    → size % page_size ≡ 0
    → start + size < u64
    → bytes_to_pages size * page_size ≡ size
unfolding bytes_to_pages
bytes_to_pages_exact start size h a e below = omega arith

-- After `buddy_init` of whole pages, at an address that is a multiple of the page size and not 0, the
-- allocator is in order: the free blocks lie in the memory and are disjoint, the counters agree with the
-- lists, and the reclaimable and movable zones are empty.
pub init-Invariant :
    (start size : ℕ)
    → 0 < start
    → start % page_size ≡ 0
    → size % page_size ≡ 0
    → start + size < u64
    → Invariant (start + size) (init start size)
init-Invariant start size h a e below = record {
  managed = init-IsManaged start size (start + size) a refl below;
  valid = subst (λ n. IsValid (start + n) (init start size)) whole (init-IsValid start size fits h);
  exclusive = λ p. ground (arith, free_cover-init start size fits p);
  counted = λ z. init-IsCounted start size z fits;
  reserved = init-reserved start size;
}
  where
    whole : bytes_to_pages size * page_size ≡ size
    whole = bytes_to_pages_exact start size h a e below

    fits : start + bytes_to_pages size * page_size < u64
    fits = omega (arith, whole)

-- Every state that the allocator reaches from one in order, by allocations and by frees of blocks of
-- the memory that are not free, is in order: the free blocks lie in the memory and are disjoint, the
-- counters agree with the lists, and the reclaimable and movable zones are empty.
pub Reach-Invariant :
    {limit : ℕ} {b c : Buddy} → Reach limit b c → Invariant limit b → Invariant limit c
Reach-Invariant here i = i
Reach-Invariant (next r s) i = Step-Invariant s (Reach-Invariant r i)
