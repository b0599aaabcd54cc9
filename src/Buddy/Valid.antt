-- ===== src/Buddy/Valid.antt =====
-- What holds of every block on the free lists (buddy.c): it lies in the managed memory, page by page.
use black_kernel.Base.{
  two-pow-suc, ℕ, zero, suc, ◌+◌, ◌-◌, ◌*◌, ◌%◌, ◌^◌, ◌≤◌, ◌≡◌, true, List, [], ◌∷◌, inl, inr,
  subst, arith, ◌==◌, ==_iff, Bool-cases, u64, add64,
}
use black_kernel.Buddy.{
  Zone, page_size, pages_to_bytes, list_remove, has, add_block, take_block, split,
}
use black_kernel.Buddy.Measure.{upper_half}

-- `a` starts a block of 2^k pages in the memory from `start` to `limit`.
pub record IsBlock (start limit k a : ℕ) : Type 0 where
  pub from : start ≤ a
  pub upto : a + 2 ^ k * page_size ≤ limit
  pub aligned : (a - start) % page_size ≡ 0

abbrev pub All : (ℕ → Type 0) → List ℕ → Type 0
All P [] = Unit
All P (a ∷ l) = P a × All P l

-- `P k` holds of each block on the list of order `k`.
abbrev pub OnLists : (ℕ → ℕ → Type 0) → Zone → Type 0
OnLists P zone = (k : ℕ) → All (P k) (zone.free_lists k)

module _ (P : ℕ → Type 0) where
  pub All-has : (l : List ℕ) (a : ℕ) → All P l → has l a ≡ true → P a
  unfolding has
  All-has [] a all h = absurd (ground arith)
  All-has (x ∷ l) a all h = elim (Bool-cases (x == a)) [
    | inl e ↦ subst P ((==_iff x a).0 e) all.0
    | inr e ↦ All-has l a all.1 (rw e at h)
  ]

  pub All-list_remove : (l : List ℕ) (a : ℕ) → All P l → All P (list_remove l a)
  unfolding list_remove
  All-list_remove [] a all = tt
  All-list_remove (x ∷ l) a all = elim (Bool-cases (x == a)) [
    | inl e ↦ rw e all.1
    | inr e ↦ rw e (all.0, All-list_remove l a all.1)
  ]

module _ (P : ℕ → ℕ → Type 0) where
  pub OnLists-add_block :
      (zone : Zone) (k a : ℕ) → OnLists P zone → P k a → OnLists P (add_block zone k a)
  unfolding add_block
  OnLists-add_block zone k a on p j = elim (Bool-cases (k == j)) [
    | inl e ↦ rw e (subst (λ i. All (P i) (a ∷ zone.free_lists k)) ((==_iff k j).0 e) (p, on k))
    | inr e ↦ rw e (on j)
  ]

  pub OnLists-take_block :
      (zone : Zone) (k a : ℕ) → OnLists P zone → OnLists P (take_block zone k a)
  unfolding take_block
  OnLists-take_block zone k a on j = elim (Bool-cases (k == j)) [
    | inl e ↦ rw e (
        subst (λ i. All (P i) (list_remove (zone.free_lists k) a)) ((==_iff k j).0 e)
          (All-list_remove (P k) (zone.free_lists k) a (on k)))
    | inr e ↦ rw e (on j)
  ]

module _ {start limit : ℕ} (bounded : limit ≤ u64) where
  pub IsBlock-lower : {k a : ℕ} → IsBlock start limit (suc k) a → IsBlock start limit k a
  IsBlock-lower {k} v = omega (arith, two-pow-suc k, v.from, v.upto, v.aligned)

  pub IsBlock-upper :
      {k a : ℕ}
      → IsBlock start limit (suc k) a
      → IsBlock start limit k (add64 a (pages_to_bytes (2 ^ k)))
  IsBlock-upper {k} {a} v =
      rw (upper_half k a (omega (arith, v.upto)))
        (omega (arith, two-pow-suc k, v.from, v.upto, v.aligned))

  -- The block of a higher order at the same address is a block of a lower one, too.
  pub IsBlock-down :
      (order rounds : ℕ) {a : ℕ}
      → IsBlock start limit (order + rounds) a
      → IsBlock start limit order a
  IsBlock-down order zero v = let e : order + 0 ≡ order = omega arith in rw e at v
  IsBlock-down order (suc rounds) v =
      let e : order + suc rounds ≡ suc (order + rounds) = omega arith in
      IsBlock-down order rounds (IsBlock-lower (rw e at v))

  pub OnLists-split :
      (block order rounds : ℕ) (zone : Zone)
      → OnLists (IsBlock start limit) zone
      → IsBlock start limit (order + rounds) block
      → OnLists (IsBlock start limit) (split block order rounds zone)
  unfolding split
  OnLists-split block order zero zone on v = on
  OnLists-split block order (suc rounds) zone on v =
      let e : order + suc rounds ≡ suc (order + rounds) = omega arith in
      let whole : IsBlock start limit (suc (order + rounds)) block = rw e at v in
      OnLists-split block order rounds _
        (OnLists-add_block (IsBlock start limit) zone (order + rounds) _ on (IsBlock-upper whole))
        (IsBlock-lower whole)
