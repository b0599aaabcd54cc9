-- ===== src/Buddy/Alloc.antt =====
-- `buddy_alloc_pages`: which block it hands out, and what it leaves on the free lists.
use black_kernel.Base.{
  ℕ, zero, suc, ◌+◌, ◌-◌, ◌^◌, ◌≤◌, ◌<◌, ◌≡◌, refl, ◌≢◌, ◌⊎◌, inl, inr, true, List, [], ◌∷◌, subst,
  arith, ltb, ◌==◌, Bool-cases, update_self, update_ne, sym, u64, sub64,
}
use black_kernel.Buddy.{
  Buddy, max_order, has, take_block, split, find_order, sanitize, alloc_block, alloc_pages,
}
use black_kernel.Buddy.Measure.{IsAdditive, total, total-free_pages, total-take_block, total-split}
use black_kernel.Buddy.Valid.{
  IsBlock, OnLists, All, All-has, OnLists-take_block, OnLists-split, IsBlock-down,
}

-- The free blocks lie in the memory from `memory_start`, which is not the null address, to `limit`.
pub record IsValid (limit : ℕ) (b : Buddy) : Type 0 where
  pub bounded : limit ≤ u64
  pub not_null : 0 < b.memory_start
  pub blocks : (z : ℕ) → OnLists (IsBlock b.memory_start limit) (b.zones z)

-- What an allocation changes: weight moves from the zone to the block that is handed out.
pub record Taken (w : ℕ → ℕ → ℕ) (limit zone_type order : ℕ) (b : Buddy) (addr : ℕ) (b' : Buddy)
    : Type 0 where
  pub block : IsBlock b.memory_start limit order addr
  pub weight : total w (b'.zones zone_type) + w order addr ≡ total w (b.zones zone_type)
  pub others : (z : ℕ) → z ≢ zone_type → b'.zones z ≡ b.zones z
  pub same_start : b'.memory_start ≡ b.memory_start
  pub same_size : b'.memory_size ≡ b.memory_size

pub find_order-le :
    (rounds : ℕ) (lists : ℕ → List ℕ) (current : ℕ) → current ≤ find_order rounds lists current
unfolding find_order
find_order-le zero lists current = omega arith
find_order-le (suc rounds) lists current = ground (arith, find_order-le rounds lists (current + 1))

-- The search skips empty lists only.
pub find_order-empty :
    (rounds : ℕ) (lists : ℕ → List ℕ) (current j : ℕ)
    → current ≤ j
    → j < find_order rounds lists current
    → lists j ≡ []
unfolding find_order
find_order-empty zero lists current j h e = absurd (omega arith)
find_order-empty (suc rounds) lists current j h e = elim (Bool-cases (current == j)) [
  | inl c ↦ ground (arith, find_order-le rounds lists (current + 1))
  | inr c ↦ ground (arith, find_order-empty rounds lists (current + 1) j)
]

-- The search stops at a list that is not empty, or at its end.
pub find_order-found :
    (rounds : ℕ) (lists : ℕ → List ℕ) (current : ℕ)
    → find_order rounds lists current < current + rounds
    → lists (find_order rounds lists current) ≢ []
unfolding find_order
find_order-found zero lists current h = absurd (omega arith)
find_order-found (suc rounds) lists current h =
    ground (arith, find_order-found rounds lists (current + 1))

pub has-head : (a : ℕ) (rest l : List ℕ) → l ≡ a ∷ rest → has l a ≡ true
unfolding has
has-head a rest l e = rw e (ground arith)

pub head-All : (P : ℕ → Type 0) (a : ℕ) (rest l : List ℕ) → l ≡ a ∷ rest → All P l → P a
head-All P a rest l e all = All-has P l a all (has-head a rest l e)

module _ {w : ℕ → ℕ → ℕ} (additive : IsAdditive w) {limit : ℕ} {b : Buddy}
    (v : IsValid limit b) where
  alloc_block-Taken :
      (zone_type order rounds block : ℕ) (rest : List ℕ)
      → order + rounds ≤ max_order
      → (b.zones zone_type).free_lists (order + rounds) ≡ block ∷ rest
      → let (addr, b') = alloc_block b zone_type order (order + rounds) (block ∷ rest) in
        Taken w limit zone_type order b addr b'
  unfolding alloc_block
  alloc_block-Taken zone_type order rounds block rest h e =
      let k = order + rounds in
      let zone = b.zones zone_type in
      let back : order + rounds - order ≡ rounds = omega arith in
      let whole : IsBlock b.memory_start limit k block =
        head-All _ block rest _ e (v.blocks zone_type k) in
      rw back (record {
        block = IsBlock-down v.bounded order rounds whole;
        weight = rw (update_self b.zones zone_type) (
            omega (
              arith,
              total-free_pages w (split block order rounds (take_block zone k block)) (
                  sub64 (split block order rounds (take_block zone k block)).free_pages
                    (2 ^ order)),
              total-take_block w zone k block h (has-head block rest _ e),
              total-split w additive block order rounds (take_block zone k block) h
                  (omega (arith, whole.upto, v.bounded)),
            ));
        others = λ z ne. update_ne b.zones zone_type _ z (λ q. ne (sym q));
        same_start = refl;
        same_size = refl;
      })

-- What holds of a failure and of every block that the search can find holds of the call.
pub alloc_pages-cases :
    (P : ℕ × Buddy → Type 0) (b : Buddy) (order zone_type : ℕ)
    → P (0, b)
    → ((current block : ℕ) (rest : List ℕ)
        → order ≤ current
        → current ≤ max_order
        → (b.zones (sanitize zone_type)).free_lists current ≡ block ∷ rest
        → P (alloc_block b (sanitize zone_type) order current (block ∷ rest)))
    → P (alloc_pages b order zone_type)
unfolding alloc_pages
alloc_pages-cases P b order zone_type fail found = elim (Bool-cases (ltb max_order order)) [
  | inl c ↦ rw c fail
  | inr c ↦ rw c (elim (Bool-cases (ltb max_order current)) [
    | inl d ↦ rw d fail
    | inr d ↦ rw d (pick (lists current) (ground arith) refl)
  ])
]
  where
    lists : ℕ → List ℕ
    lists = (b.zones (sanitize zone_type)).free_lists

    current : ℕ
    current = find_order (max_order + 1 - order) lists order

    pick :
        (l : List ℕ)
        → current ≤ max_order
        → lists current ≡ l
        → P (alloc_block b (sanitize zone_type) order current l)
    pick [] top e = fail
    pick (block ∷ rest) top e =
        found current block rest (find_order-le (max_order + 1 - order) lists order) top e

abbrev pub Outcome : (ℕ → ℕ → ℕ) → ℕ → ℕ → ℕ → Buddy → ℕ × Buddy → Type 0
Outcome w limit zone_type order b (addr, b') =
    (addr ≡ 0) × (b' ≡ b) ⊎ Taken w limit zone_type order b addr b'

module _ {limit : ℕ} {b : Buddy} (v : IsValid limit b) where
  alloc_block-IsValid :
      (zone_type order current : ℕ) (l : List ℕ)
      → order ≤ current
      → (b.zones zone_type).free_lists current ≡ l
      → IsValid limit (alloc_block b zone_type order current l).1
  unfolding alloc_block
  alloc_block-IsValid zone_type order current [] h e = v
  alloc_block-IsValid zone_type order current (block ∷ rest) h e = record {
    bounded = v.bounded;
    not_null = v.not_null;
    blocks = blocks;
  }
    where
      whole : IsBlock b.memory_start limit current block
      whole = head-All _ block rest _ e (v.blocks zone_type current)

      reached : order + (current - order) ≡ current
      reached = omega arith

      after :
          OnLists
            (IsBlock b.memory_start limit)
            (split block order (current - order) (take_block (b.zones zone_type) current block))
      after =
          OnLists-split v.bounded block order (current - order) _
            (OnLists-take_block _ (b.zones zone_type) current block (v.blocks zone_type))
            (rw reached whole)

      blocks :
          (z : ℕ)
          → OnLists
              (IsBlock b.memory_start limit)
              ((alloc_block b zone_type order current (block ∷ rest)).1.zones z)
      blocks z = elim (Bool-cases (zone_type == z)) [
        | inl c ↦ rw c after
        | inr c ↦ rw c (v.blocks z)
      ]

  -- `buddy_alloc_pages` keeps the free blocks inside the managed memory.
  pub alloc_pages-IsValid : (order zone_type : ℕ) → IsValid limit (alloc_pages b order zone_type).1
  alloc_pages-IsValid order zone_type =
      alloc_pages-cases (λ r. IsValid limit r.1) b order zone_type v
        λ current block rest h top e. alloc_block-IsValid (sanitize zone_type) order current _ h e

  module _ {w : ℕ → ℕ → ℕ} (additive : IsAdditive w) where
    pub alloc_block-Taken_at :
        (zone_type order current block : ℕ) (rest : List ℕ)
        → order ≤ current
        → current ≤ max_order
        → (b.zones zone_type).free_lists current ≡ block ∷ rest
        → let (addr, b') = alloc_block b zone_type order current (block ∷ rest) in
          Taken w limit zone_type order b addr b'
    alloc_block-Taken_at zone_type order current block rest h top e =
        let reached : order + (current - order) ≡ current = omega arith in
        subst
          (λ c.
            (b.zones zone_type).free_lists c ≡ block ∷ rest
            → c ≤ max_order
            → let (addr, b') = alloc_block b zone_type order c (block ∷ rest) in
              Taken w limit zone_type order b addr b')
          reached
          (λ q t. alloc_block-Taken additive v zone_type order (current - order) block rest t q) e
          top

    -- A call that succeeds returns a block of the memory, and takes just that block from its zone;
    -- one that fails returns 0 and changes nothing.
    pub alloc_pages-Outcome :
        (order zone_type : ℕ)
        → Outcome w limit (sanitize zone_type) order b (alloc_pages b order zone_type)
    alloc_pages-Outcome order zone_type =
        alloc_pages-cases (Outcome w limit (sanitize zone_type) order b) b order zone_type
          (inl (refl, refl))
          λ current block rest h top e.
            inr (alloc_block-Taken_at (sanitize zone_type) order current block rest h top e)
