-- ===== src/Heap/Allocations.antt =====
-- `kmalloc` from the heap's blocks and `kfree` (kernel/mm/heap.c) as changes of the set of allocations.
use black_kernel.Base.{
  ℕ, ◌+◌, ◌-◌, ◌/◌, ◌^◌, ◌≤◌, ◌<◌, ◌≡◌, ◌≢◌, refl, sym, ◌∙◌, ap, subst, true, false, ◌&&◌,
  Bool-cases, Option-cases, inl, inr, arith, leb, ◌==◌, List, [], ◌∷◌, ◌++◌, Option, none, some,
  u64, add64, sub64, bit_and_shift, bit_and_mask,
}
use black_kernel.Heap.{
  Block, Heap, block_header, alloc_header, align16, heap_alloc, split_block, free_block, claim,
  first_fit,
}
use black_kernel.Heap.Calls.{kfree}
use black_kernel.Heap.Blocks.{Tile, Tile-le, Claimed, first_fit-Tile}
use black_kernel.Heap.Used.{
  used, without, AreFrom, AreApart, used-AreApart, used-free_block, without-AreFrom,
}

-- One allocation more, of at least `size` bytes behind its header, and the others as before.
pub record Adds (before after : List Block) (address size : ℕ) : Type 0 where
  pub low : List Block
  pub high : List Block
  pub block : Block
  pub others : used before ≡ low ++ high
  pub all : used after ≡ low ++ (block ∷ high)
  pub at : block.address ≡ address
  pub room : size ≤ block.size

-- The first block that fits: it was not in use.
claim-Adds :
    (b : Block) (size : ℕ) (next : List Block)
    → b.free ≡ true
    → size ≤ b.size
    → Adds (b ∷ next) (claim (split_block b size next)) b.address size
unfolding claim split_block used
claim-Adds b size next free le =
    elim (Bool-cases (leb (add64 (add64 size block_header) 16) b.size)) [
      | inl e ↦ rw e (record {
        low = [];
        high = used next;
        block = record b { size = size; free = false };
        others = rw free;
        all = refl;
        at = refl;
        room = omega arith;
      })
      | inr e ↦ rw e (record {
        low = [];
        high = used next;
        block = record b { free = false };
        others = rw free;
        all = refl;
        at = refl;
        room = le;
      })
    ]

used-cons : (b : Block) (next : List Block) → b.free ≡ false → used (b ∷ next) ≡ b ∷ used next
unfolding used
used-cons b next e = simp e

cons-Adds :
    (b : Block) (before after : List Block) (address size : ℕ)
    → Adds before after address size
    → Adds (b ∷ before) (b ∷ after) address size
unfolding used
cons-Adds b before after address size a = elim (Bool-cases b.free) [
  | inl e ↦ record {
    low = a.low;
    high = a.high;
    block = a.block;
    others = rw e a.others;
    all = rw e a.all;
    at = a.at;
    room = a.room;
  }
  | inr e ↦ record {
    low = b ∷ a.low;
    high = a.high;
    block = a.block;
    others = used-cons b before e ∙ ap (λ l. b ∷ l) a.others;
    all = used-cons b after e ∙ ap (λ l. b ∷ l) a.all;
    at = a.at;
    room = a.room;
  }
]

abbrev Finds : List Block → ℕ → Option (ℕ × List Block) → Type 0
Finds before size none = Unit
Finds before size (some r) = Adds before r.1 r.0 size

cons-Finds :
    (b : Block) (before : List Block) (size : ℕ) (found : Option (ℕ × List Block))
    → Finds before size found
    → Finds (b ∷ before) size (elim found [ none ↦ none | some r ↦ some (r.0, b ∷ r.1) ])
cons-Finds b before size none f = tt
cons-Finds b before size (some r) f = cons-Adds b before r.1 r.0 size f

first_fit-Finds : (blocks : List Block) (size : ℕ) → Finds blocks size (first_fit blocks size)
unfolding first_fit
first_fit-Finds [] size = tt
first_fit-Finds (b ∷ next) size = elim (Bool-cases (b.free && leb size b.size)) [
  | inl e ↦ rw e (claim-Adds b size next (ground arith) (ground arith))
  | inr e ↦ rw e (cons-Finds b next size (first_fit next size) (first_fit-Finds next size))
]

block_after :
    (low high : List Block) (block : Block) (start : ℕ)
    → AreFrom start (low ++ (block ∷ high))
    → start ≤ block.address
unfolding AreFrom
block_after [] high block start all = all.0
block_after (b ∷ low) high block start all = block_after low high block start all.1

-- One block leaves the list: the others are at other addresses.
without-one :
    (low high : List Block) (block : Block)
    → AreApart (low ++ (block ∷ high))
    → without block.address (low ++ (block ∷ high)) ≡ low ++ high
unfolding AreApart without
without-one [] high block apart =
    let same : (block.address == block.address) ≡ true = ground arith in
    rw same (
      without-AreFrom block.address (block.address + block_header + block.size) high (omega arith)
        apart.0)
without-one (b ∷ low) high block apart =
    let later = block_after low high block (b.address + block_header + b.size) apart.0 in
    let ne : (b.address == block.address) ≡ false = ground (arith, later) in
    rw ne (ap (λ l. b ∷ l) (without-one low high block apart.1))

align16-small : (n : ℕ) → n < 2 ^ 32 → (n ≤ align16 n) × (align16 n < u64 - 64)
unfolding align16
align16-small n h =
    omega (arith, bit_and_shift 4 (2 ^ 60 - 1) (add64 n 15), bit_and_mask 60 (add64 n 15 / 2 ^ 4))

Adds-weaken :
    {before after : List Block} (address size : ℕ) {address' size' : ℕ}
    → Adds before after address size
    → address ≡ address'
    → size' ≤ size
    → Adds before after address' size'
Adds-weaken address size a e le = record {
  low = a.low;
  high = a.high;
  block = a.block;
  others = a.others;
  all = a.all;
  at = a.at ∙ e;
  room = omega (arith, a.room);
}

-- `kmalloc` from the heap's blocks, where it succeeds, in a heap that ends below 2^64 and whose blocks
-- lie one behind the other, for less than 2^31 bytes: every allocation that was there keeps its address
-- and its size, there is one more, with room for the bytes asked for behind the two headers, and no
-- two of them overlap.
pub heap_alloc-Adds :
    (h : Heap) (size start limit : ℕ)
    → limit < u64
    → size < 2 ^ 31
    → Tile start limit h.blocks
    → (heap_alloc h size).0 ≢ 0
    → Adds h.blocks
        (heap_alloc h size).1.blocks
        ((heap_alloc h size).0 - block_header - alloc_header)
        (alloc_header + size)
      × AreApart (used (heap_alloc h size).1.blocks)
      × Tile start limit (heap_alloc h size).1.blocks
unfolding heap_alloc
heap_alloc-Adds h size start limit below small t ne =
    let n = align16 (add64 alloc_header size) in
    elim (Option-cases (first_fit h.blocks n)) [
      | inl e ↦ absurd (ne (rw (heap_alloc, e)))
      | inr ((b, blocks), e) ↦
          let (n_le, n_small) = align16-small (add64 alloc_header size) (omega arith) in
          let (t', claimed) = first_fit-Tile start limit h.blocks n b blocks below n_small t e in
          let adds : Adds h.blocks blocks b n =
            subst (Finds h.blocks n) e (first_fit-Finds h.blocks n) in
          rw (heap_alloc, e)
            (
              Adds-weaken b n adds (omega arith) (omega (arith, n_le)),
              used-AreApart start limit blocks t',
              t',
            )
    ]

-- A block in use ends within the heap.
Claimed-le :
    (start limit : ℕ) (blocks : List Block) (address size : ℕ)
    → Tile start limit blocks
    → Claimed blocks address size
    → address + block_header + size ≤ limit
unfolding Tile Claimed
Claimed-le start limit [] address size t claimed = absurd claimed
Claimed-le start limit (b ∷ next) address size (at, t) (inl (here, f, room)) =
    omega (arith, Tile-le (start + block_header + b.size) limit next t)
Claimed-le start limit (b ∷ next) address size (at, t) (inr later) =
    Claimed-le (start + block_header + b.size) limit next address size t later

-- `kfree` finds the header that `kmalloc` has written in front of the pointer.
kfree-heap_alloc :
    (h : Heap) (size address : ℕ) (blocks : List Block)
    → first_fit h.blocks (align16 (add64 alloc_header size)) ≡ some (address, blocks)
    → address + block_header + alloc_header < u64
    → (kfree (heap_alloc h size).1 (heap_alloc h size).0).blocks ≡ free_block blocks address
unfolding heap_alloc kfree
kfree-heap_alloc h size address blocks e low =
    let at : sub64 (address + block_header + alloc_header) alloc_header ≡ address + block_header =
      omega arith in
    let back : sub64 (address + block_header) block_header ≡ address = omega arith in
    let some_ptr : (address + block_header + alloc_header == 0) ≡ false = ground arith in
    let here : (address + block_header == address + block_header) ≡ true = ground arith in
    rw (heap_alloc, e, some_ptr, at, here, back) refl

failed :
    (h : Heap) (size : ℕ)
    → first_fit h.blocks (align16 (add64 alloc_header size)) ≡ none
    → (heap_alloc h size).0 ≡ 0
unfolding heap_alloc
failed h size e = rw (heap_alloc, e)

taken_back :
    {before after : List Block} (address size : ℕ)
    → Adds before after address size
    → AreApart (used after)
    → without address (used after) ≡ used before
taken_back address size a apart =
    rw (a.all, ← a.at) (without-one a.low a.high a.block (rw a.all at apart) ∙ sym a.others)

-- `kfree` of what `kmalloc` has just handed out from the heap's blocks, in a heap that ends below 2^64
-- and whose blocks lie one behind the other, for less than 2^31 bytes: the allocations are again those
-- that there were, at the same addresses and of the same sizes.
pub used-kfree :
    (h : Heap) (size start limit : ℕ)
    → limit < u64
    → size < 2 ^ 31
    → Tile start limit h.blocks
    → (heap_alloc h size).0 ≢ 0
    → used (kfree (heap_alloc h size).1 (heap_alloc h size).0).blocks ≡ used h.blocks
used-kfree h size start limit below small t ne =
    let n = align16 (add64 alloc_header size) in
    elim (Option-cases (first_fit h.blocks n)) [
      | inl e ↦ absurd (ne (failed h size e))
      | inr ((b, blocks), e) ↦
          let (n_le, n_small) = align16-small (add64 alloc_header size) (omega arith) in
          let (t', claimed) = first_fit-Tile start limit h.blocks n b blocks below n_small t e in
          let adds : Adds h.blocks blocks b n =
            subst (Finds h.blocks n) e (first_fit-Finds h.blocks n) in
          let inside = Claimed-le start limit blocks b n t' claimed in
          ap used (kfree-heap_alloc h size b blocks e (omega (arith, n_le, inside)))
          ∙ used-free_block start limit blocks b t'
          ∙ taken_back b n adds (used-AreApart start limit blocks t')
    ]
