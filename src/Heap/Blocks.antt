-- ===== src/Heap/Blocks.antt =====
-- The blocks of the heap (kernel/mm/heap.c) tile it.
use black_kernel.Base.{
  ℕ, ◌+◌, ◌-◌, ◌≤◌, ◌<◌, ◌≡◌, refl, Bool, true, false, ◌&&◌, Bool-cases, inl, inr, ◌⊎◌, arith, leb,
  ◌==◌, if◌then◌else◌, List, [], ◌∷◌, Option, none, some, subst, u64, add64, sub64,
}
use black_kernel.Heap.{Block, block_header, split_block, merge_next, free_block, claim, first_fit}

-- The blocks lie one behind the other from `start` to `limit`, headers included.
unfoldable pub Tile : ℕ → ℕ → List Block → Type 0
Tile start limit [] = start ≡ limit
Tile start limit (b ∷ next) = (b.address ≡ start) × Tile (start + block_header + b.size) limit next

-- Blocks do not go down.
pub Tile-le : (start limit : ℕ) (blocks : List Block) → Tile start limit blocks → start ≤ limit
unfolding Tile
Tile-le start limit [] t = omega arith
Tile-le start limit (b ∷ next) (at, t) =
    omega (arith, Tile-le (start + block_header + b.size) limit next t)

split_block-Tile :
    (start limit : ℕ) (b : Block) (size : ℕ) (next : List Block)
    → limit < u64
    → size < u64 - 64
    → Tile start limit (b ∷ next)
    → Tile start limit (split_block b size next)
unfolding Tile split_block
split_block-Tile start limit b size next below small (at, t) =
    let le = Tile-le (start + block_header + b.size) limit next t in
    elim (Bool-cases (leb (add64 (add64 size block_header) 16) b.size)) [
      | inr e ↦ rw e (at, t)
      | inl e ↦
          let fits : size + block_header + 16 ≤ b.size = ground (arith, e) in
          let rest : sub64 (sub64 b.size size) block_header ≡ b.size - size - block_header =
            omega arith in
          let end : start + block_header + size + block_header + (b.size - size - block_header)
              ≡ start + block_header + b.size =
            omega arith in
          rw e (at, (omega (arith, at), rw (rest, end) t))
    ]

merge_next-Tile :
    (start limit : ℕ) (b : Block) (next : List Block)
    → limit < u64
    → Tile start limit (b ∷ next)
    → Tile start limit (merge_next b next)
unfolding Tile merge_next
merge_next-Tile start limit b [] below t = t
merge_next-Tile start limit b (n ∷ next) below (at, (n_at, t)) =
    let le = Tile-le (start + block_header + b.size + block_header + n.size) limit next t in
    elim (Bool-cases n.free) [
      | inr e ↦ rw e (at, (n_at, t))
      | inl e ↦
          let size : add64 b.size (add64 block_header n.size) ≡ b.size + block_header + n.size =
            omega arith in
          let end : start + block_header + (b.size + block_header + n.size)
              ≡ start + block_header + b.size + block_header + n.size =
            omega arith in
          rw e (at, rw (size, end) t)
    ]

either :
    (b : Bool) (start limit : ℕ) (x y : List Block)
    → Tile start limit x
    → Tile start limit y
    → Tile start limit (if b then x else y)
either true start limit x y t u = t
either false start limit x y t u = u

-- `kfree` of a block, with both merges, leaves the blocks one behind the other from the start to
-- the end of the heap if they were, in a heap that ends below 2^64.
pub free_block-Tile :
    (start limit : ℕ) (blocks : List Block) (address : ℕ)
    → limit < u64
    → Tile start limit blocks
    → Tile start limit (free_block blocks address)
unfolding free_block Tile
free_block-Tile start limit [] address below t = t
free_block-Tile start limit (b ∷ next) address below (at, t) =
    let rest = free_block-Tile (start + block_header + b.size) limit next address below t in
    elim (Bool-cases (b.address == address)) [
      | inl e ↦ rw e (merge_next-Tile start limit (record b { free = true }) next below (at, t))
      | inr e ↦ rw e (
          either (elim next [ [] ↦ false | n ∷ more ↦ n.address == address ] && b.free) start limit
            (merge_next b (free_block next address)) (b ∷ free_block next address)
            (merge_next-Tile start limit b (free_block next address) below (at, rest)) (at, rest))
    ]

-- The block at the address is in use and has room for `total_size` bytes.
unfoldable pub Claimed : List Block → ℕ → ℕ → Type 0
Claimed [] address total_size = ⊥
Claimed (b ∷ next) address total_size =
    ((b.address ≡ address) × (b.free ≡ false) × (total_size ≤ b.size))
    ⊎ Claimed next address total_size

-- The head of the list after the split.
claim-split_block :
    (start limit : ℕ) (b : Block) (size : ℕ) (next : List Block)
    → size ≤ b.size
    → Tile start limit (split_block b size next)
    → Tile start limit (claim (split_block b size next))
      × Claimed (claim (split_block b size next)) b.address size
unfolding Tile split_block claim Claimed
claim-split_block start limit b size next le =
    elim (Bool-cases (leb (add64 (add64 size block_header) 16) b.size)) [
      | inl e ↦ rw e (λ t. (t, inl (refl, refl, omega arith)))
      | inr e ↦ rw e (λ t. (t, inl (refl, refl, le)))
    ]

unfoldable Fits : ℕ → ℕ → ℕ → Option (ℕ × List Block) → Type 0
Fits start limit total_size none = Unit {0}
Fits start limit total_size (some (address, after)) =
    Tile start limit after × Claimed after address total_size

cons-Fits :
    (start limit total_size : ℕ) (b : Block) (found : Option (ℕ × List Block))
    → b.address ≡ start
    → Fits (start + block_header + b.size) limit total_size found
    → Fits start limit total_size (elim found [ none ↦ none | some r ↦ some (r.0, b ∷ r.1) ])
unfolding Fits Tile Claimed
cons-Fits start limit total_size b none at f = tt
cons-Fits start limit total_size b (some (address, after)) at (t, claimed) = ((at, t), inr claimed)

first_fit-Fits :
    (start limit : ℕ) (blocks : List Block) (total_size : ℕ)
    → limit < u64
    → total_size < u64 - 64
    → Tile start limit blocks
    → Fits start limit total_size (first_fit blocks total_size)
unfolding first_fit Fits Tile
first_fit-Fits start limit [] total_size below small t = tt
first_fit-Fits start limit (b ∷ next) total_size below small (at, t) =
    let later =
      first_fit-Fits (start + block_header + b.size) limit next total_size below small t in
    elim (Bool-cases (b.free && leb total_size b.size)) [
      | inl f ↦ rw f (
          claim-split_block start limit b total_size next (ground (arith, f))
            (split_block-Tile start limit b total_size next below small (at, t)))
      | inr f ↦ rw f (cons-Fits start limit total_size b (first_fit next total_size) at later)
    ]

-- `kmalloc` from a heap that ends below 2^64 and whose blocks lie one behind the other, for less
-- than 2^64 - 64 bytes: where the search finds a block, the blocks still do, and the block at the
-- address found is in use and has room for what was asked for.
pub first_fit-Tile :
    (start limit : ℕ) (blocks : List Block) (total_size address : ℕ) (after : List Block)
    → limit < u64
    → total_size < u64 - 64
    → Tile start limit blocks
    → first_fit blocks total_size ≡ some (address, after)
    → Tile start limit after × Claimed after address total_size
unfolding Fits
first_fit-Tile start limit blocks total_size address after below small t e =
    subst (Fits start limit total_size) e
      (first_fit-Fits start limit blocks total_size below small t)
