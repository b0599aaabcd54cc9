-- ===== src/Buddy/Measure.antt =====
-- Weights of the blocks on the free lists (buddy.c): how they change as blocks come and go.
use native.Mathlib.Nat.{one-le-pow}
use black_kernel.Base.{
  two-pow-suc, ℕ, zero, suc, ◌+◌, ◌*◌, ◌^◌, ◌≤◌, ◌<◌, ◌≡◌, refl, true, List, [], ◌∷◌, arith, update,
  u64, add64,
}
use black_kernel.Buddy.{
  Zone, max_order, page_size, pages_to_bytes, list_add, list_remove, has, add_block, take_block,
  split,
}

-- A block of order `k` weighs what its two halves weigh, where it does not pass the end of memory.
abbrev pub IsAdditive : (ℕ → ℕ → ℕ) → Type 0
IsAdditive w =
    (k a : ℕ) → a + 2 ^ suc k * page_size ≤ u64 → w (suc k) a ≡ w k a + w k (a + 2 ^ k * page_size)

-- The upper half of a block that ends in memory does not wrap.
pub upper_half :
    (k a : ℕ)
    → a + 2 ^ suc k * page_size ≤ u64
    → add64 a (pages_to_bytes (2 ^ k)) ≡ a + 2 ^ k * page_size
unfolding pages_to_bytes
upper_half k a h = omega (arith, two-pow-suc k, one-le-pow k 2 (omega arith))

module _ (w : ℕ → ℕ → ℕ) where
  unfoldable pub weigh : ℕ → List ℕ → ℕ
  weigh k [] = 0
  weigh k (a ∷ l) = w k a + weigh k l

  unfoldable pub total_below : ℕ → (ℕ → List ℕ) → ℕ
  unfolding weigh
  total_below zero lists = 0
  total_below (suc n) lists = total_below n lists + weigh n (lists n)

  -- The weight of all the free blocks of a zone.
  unfoldable pub total : Zone → ℕ
  unfolding total_below
  total zone = total_below (max_order + 1) zone.free_lists

  -- The page counter does not matter to the weight.
  pub total-free_pages : (zone : Zone) (n : ℕ) → total (record zone { free_pages = n }) ≡ total zone
  unfolding total
  total-free_pages zone n = refl

  weigh-list_remove :
      (k a : ℕ) (l : List ℕ) → has l a ≡ true → weigh k (list_remove l a) + w k a ≡ weigh k l
  unfolding weigh list_remove has
  weigh-list_remove k a [] h = ground arith
  weigh-list_remove k a (x ∷ l) h = ground (arith, weigh-list_remove k a l)

  total_below-update_out :
      (n i : ℕ) (lists : ℕ → List ℕ) (v : List ℕ)
      → n ≤ i
      → total_below n (update lists i v) ≡ total_below n lists
  unfolding total_below
  total_below-update_out zero i lists v h = refl
  total_below-update_out (suc n) i lists v h = ground (arith, total_below-update_out n i lists v)

  total_below-update :
      (n i : ℕ) (lists : ℕ → List ℕ) (v : List ℕ)
      → i < n
      → total_below n (update lists i v) + weigh i (lists i) ≡ total_below n lists + weigh i v
  unfolding total_below
  total_below-update zero i lists v h = elim h [ ]
  total_below-update (suc n) i lists v h =
      ground (arith, total_below-update n i lists v, total_below-update_out n i lists v)

  pub total-add_block :
      (zone : Zone) (k a : ℕ) → k ≤ max_order → total (add_block zone k a) ≡ total zone + w k a
  unfolding total add_block weigh
  total-add_block zone k a h = omega (
    arith,
    total_below-update (max_order + 1) k zone.free_lists (list_add (zone.free_lists k) a)
        (omega arith),
  )

  pub total-take_block :
      (zone : Zone) (k a : ℕ)
      → k ≤ max_order
      → has (zone.free_lists k) a ≡ true
      → total (take_block zone k a) + w k a ≡ total zone
  unfolding total take_block
  total-take_block zone k a h e = omega (
    arith,
    total_below-update (max_order + 1) k zone.free_lists (list_remove (zone.free_lists k) a)
        (omega arith),
    weigh-list_remove k a (zone.free_lists k) e,
  )

  module _ (additive : IsAdditive w) where
    -- Splitting keeps the weight: what goes back on the lists and what is kept make up the block.
    pub total-split :
        (block order rounds : ℕ) (zone : Zone)
        → order + rounds ≤ max_order
        → block + 2 ^ (order + rounds) * page_size ≤ u64
        → total (split block order rounds zone) + w order block
          ≡ total zone + w (order + rounds) block
    unfolding split
    total-split block order zero zone h e = let e' : order + 0 ≡ order = omega arith in rw e'
    total-split block order (suc rounds) zone h e =
        let k = order + rounds in
        let e' : order + suc rounds ≡ suc k = omega arith in
        let whole : block + 2 ^ suc k * page_size ≤ u64 = rw e' at e in
        rw (e', upper_half k block whole)
          (omega (
            arith,
            additive k block whole,
            total-add_block zone k (block + 2 ^ k * page_size) (omega arith),
            total-split block order rounds (add_block zone k (block + 2 ^ k * page_size))
                (omega arith) (omega (arith, two-pow-suc k)),
          ))
