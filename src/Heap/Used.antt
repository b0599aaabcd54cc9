-- ===== src/Heap/Used.antt =====
-- The allocations in the heap's blocks (kernel/mm/heap.c): where they lie, and what `kmalloc` and
-- `kfree` do to them.
use black_kernel.Base.{
  ℕ, ◌+◌, ◌≤◌, ◌<◌, ◌≡◌, refl, sym, ◌∙◌, ap, subst, Bool, true, false, ◌&&◌, Bool-cases, inl, inr,
  arith, ◌==◌, ==_iff, if◌then◌else◌, List, [], ◌∷◌,
}
use black_kernel.Heap.{Block, block_header, merge_next, free_block}
use black_kernel.Heap.Blocks.{Tile}

-- The blocks in use.
unfoldable pub used : List Block → List Block
used [] = []
used (b ∷ next) = if b.free then used next else b ∷ used next

-- The others than the one at the address.
unfoldable pub without : ℕ → List Block → List Block
without address [] = []
without address (b ∷ next) =
    let rest = without address next in if b.address == address then rest else b ∷ rest

-- Every block starts at `start` or later.
unfoldable pub AreFrom : ℕ → List Block → Type 0
AreFrom start [] = Unit {0}
AreFrom start (b ∷ next) = (start ≤ b.address) × AreFrom start next

-- Each block ends, with its header, before the next ones start.
unfoldable pub AreApart : List Block → Type 0
AreApart [] = Unit {0}
AreApart (b ∷ next) = AreFrom (b.address + block_header + b.size) next × AreApart next

AreFrom-le :
    (low start : ℕ) (blocks : List Block) → low ≤ start → AreFrom start blocks → AreFrom low blocks
unfolding AreFrom
AreFrom-le low start [] le all = tt
AreFrom-le low start (b ∷ next) le (from, all) = (omega arith, AreFrom-le low start next le all)

used-AreFrom :
    (start limit : ℕ) (blocks : List Block) → Tile start limit blocks → AreFrom start (used blocks)
unfolding used AreFrom Tile
used-AreFrom start limit [] t = tt
used-AreFrom start limit (b ∷ next) (at, t) =
    let rest =
      AreFrom-le start (start + block_header + b.size) (used next) (omega arith)
        (used-AreFrom (start + block_header + b.size) limit next t) in
    elim (Bool-cases b.free) [ inl e ↦ rw e rest | inr e ↦ rw e (omega (arith, at), rest) ]

pub used-AreApart :
    (start limit : ℕ) (blocks : List Block) → Tile start limit blocks → AreApart (used blocks)
unfolding used AreApart Tile
used-AreApart start limit [] t = tt
used-AreApart start limit (b ∷ next) (at, t) =
    let rest = used-AreApart (start + block_header + b.size) limit next t in
    let after = used-AreFrom (start + block_header + b.size) limit next t in
    elim (Bool-cases b.free) [ inl e ↦ rw e rest | inr e ↦ rw e (rw at after, rest) ]

pub without-AreFrom :
    (address start : ℕ) (blocks : List Block)
    → address < start
    → AreFrom start blocks
    → without address blocks ≡ blocks
unfolding without AreFrom
without-AreFrom address start [] lt all = refl
without-AreFrom address start (b ∷ next) lt (from, all) =
    let ne : (b.address == address) ≡ false = ground arith in
    rw (ne, without-AreFrom address start next lt all)

-- A free block counts for nothing, whatever it takes over.
used-merge_next :
    (b : Block) (next : List Block) → b.free ≡ true → used (merge_next b next) ≡ used next
unfolding used merge_next
used-merge_next b [] e = rw e
used-merge_next b (n ∷ next) e = elim (Bool-cases n.free) [ inl f ↦ rw (f, e) | inr f ↦ rw (f, e) ]

Tile-next :
    (start limit : ℕ) (b : Block) (next : List Block)
    → Tile start limit (b ∷ next)
    → Tile (start + block_header + b.size) limit next
unfolding Tile
Tile-next start limit b next t = t.1

nothing : (address : ℕ) → used [] ≡ without address (used [])
unfolding used without
nothing address = refl

-- The block at the head is the one that is left out.
without-head :
    (start limit : ℕ) (b : Block) (next : List Block)
    → Tile start limit (b ∷ next)
    → without b.address (used (b ∷ next)) ≡ used next
unfolding Tile used without
without-head start limit b next (at, t) =
    let rest =
      without-AreFrom b.address (start + block_header + b.size) (used next) (omega (arith, at))
        (used-AreFrom (start + block_header + b.size) limit next t) in
    let same : (b.address == b.address) ≡ true = ground arith in
    elim (Bool-cases b.free) [ inl f ↦ rw f rest | inr f ↦ rw (f, same) rest ]

-- The block at the head is another one.
used-kept :
    (b : Block) (next rest : List Block) (address : ℕ) (merges : Bool)
    → (b.address == address) ≡ false
    → (merges ≡ true → b.free ≡ true)
    → used rest ≡ without address (used next)
    → used (if merges then merge_next b rest else b ∷ rest) ≡ without address (used (b ∷ next))
unfolding used without
used-kept b next rest address true ne only e = rw (used-merge_next b rest (only refl), only refl) e
used-kept b next rest address false ne only e = elim (Bool-cases b.free) [
  | inl f ↦ rw f e
  | inr f ↦ rw (f, ne) (ap (λ l. record b { free = false } ∷ l) e)
]

-- `kfree` takes the block at the address out of those in use and leaves the others as they are.
pub used-free_block :
    (start limit : ℕ) (blocks : List Block) (address : ℕ)
    → Tile start limit blocks
    → used (free_block blocks address) ≡ without address (used blocks)
unfolding free_block
used-free_block start limit [] address t = nothing address
used-free_block start limit (b ∷ next) address t =
    let rest =
      used-free_block (start + block_header + b.size) limit next address
        (Tile-next start limit b next t) in
    let is_next : Bool = elim next [ [] ↦ false | n ∷ more ↦ n.address == address ] in
    elim (Bool-cases (b.address == address)) [
      | inl e ↦
          let same : b.address ≡ address = (==_iff _ _).0 e in
          rw e (
            used-merge_next (record b { free = true }) next refl
            ∙ sym (
                subst (λ a. without a (used (b ∷ next)) ≡ used next) same
                  (without-head start limit b next t)))
      | inr e ↦ rw e (
          used-kept b next (free_block next address) address (is_next && b.free) e
            (λ f. ground arith) rest)
    ]
