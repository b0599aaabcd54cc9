-- ===== src/Buddy/Search.antt =====
-- When `buddy_alloc_pages` succeeds.
use black_kernel.Base.{
  ℕ, ◌+◌, ◌-◌, ◌≤◌, ◌≡◌, refl, ◌≢◌, ◌↔◌, inl, inr, false, List, [], ◌∷◌, sym, ◌∙◌, arith, ltb,
  Bool-cases,
}
use black_kernel.Buddy.{Buddy, max_order, sanitize, find_order, alloc_block, alloc_pages}
use black_kernel.Buddy.Alloc.{
  IsValid, find_order-empty, find_order-found, head-All, alloc_pages-cases,
}

cons-ne-nil : (x : ℕ) (l : List ℕ) → ◌≡◌ {A = List ℕ} (x ∷ l) [] → ⊥
cons-ne-nil x l q = cc

module _ {limit : ℕ} {b : Buddy} (v : IsValid limit b) (order zone_type : ℕ)
    (small : order ≤ max_order) where
  alloc_block-ne :
      (current block : ℕ) (rest : List ℕ)
      → (b.zones (sanitize zone_type)).free_lists current ≡ block ∷ rest
      → (alloc_block b (sanitize zone_type) order current (block ∷ rest)).0 ≢ 0
  unfolding alloc_block
  alloc_block-ne current block rest e =
      omega (
        arith,
        v.not_null,
        (head-All _ block rest _ e (v.blocks (sanitize zone_type) current)).from,
      )

  -- A call that fails has passed over empty lists only.
  all_empty :
      (alloc_pages b order zone_type).0 ≡ 0
      → (j : ℕ) → order ≤ j
      → j ≤ max_order
      → (b.zones (sanitize zone_type)).free_lists j ≡ []
  unfolding alloc_pages
  all_empty e j from top = elim (Bool-cases (ltb max_order current)) [
    | inl d ↦ find_order-empty (max_order + 1 - order) lists order j from (ground arith)
    | inr d ↦ absurd (found (lists current) d refl)
  ]
    where
      lists : ℕ → List ℕ
      lists = (b.zones (sanitize zone_type)).free_lists

      current : ℕ
      current = find_order (max_order + 1 - order) lists order

      within : ltb max_order order ≡ false
      within = ground arith

      found : (l : List ℕ) → ltb max_order current ≡ false → lists current ≡ l → ⊥
      found [] d q = find_order-found (max_order + 1 - order) lists order (ground arith) q
      found (block ∷ rest) d q = alloc_block-ne current block rest q (rw (within, d, q) at e)

  -- In a state whose free blocks lie in the memory, `buddy_alloc_pages` of an order up to the
  -- largest fails exactly when no block of the zone is of the order asked for or a higher one.
  pub alloc_pages-fails_iff :
      ((alloc_pages b order zone_type).0 ≡ 0)
      ↔ ((j : ℕ) → order ≤ j → j ≤ max_order → (b.zones (sanitize zone_type)).free_lists j ≡ [])
  alloc_pages-fails_iff = (all_empty, fails)
    where
      fails :
          ((j : ℕ) → order ≤ j → j ≤ max_order → (b.zones (sanitize zone_type)).free_lists j ≡ [])
          → (alloc_pages b order zone_type).0 ≡ 0
      fails empty =
          alloc_pages-cases (λ r. r.0 ≡ 0) b order zone_type refl
            λ current block rest h top e.
              absurd (cons-ne-nil block rest (sym e ∙ empty current h top))
