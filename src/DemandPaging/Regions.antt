-- ===== src/DemandPaging/Regions.antt =====
-- The regions of an address space (kernel/mm/demand_paging.c).
use black_kernel.Base.{
  ℕ, ◌≤◌, ◌<◌, ◌≡◌, refl, false, ◌&&◌, Bool-cases, inl, inr, arith, leb, ltb, ◌==◌, List, [], ◌∷◌,
  none, sym, ap, subst, update_self,
}
use black_kernel.DemandPaging.{
  RegionCache, Region, Paging, find, overlaps, overlaps_any, set_regions, register_in,
}

-- The region holds the address.
unfoldable pub Covers : Region → ℕ → Type 0
Covers r virt = (r.start ≤ virt) × (virt < r.end)

-- No address is in two of the regions.
unfoldable pub AreDisjoint : List Region → Type 0
AreDisjoint [] = Unit {0}
AreDisjoint (r ∷ regions) =
    ((virt : ℕ) → Covers r virt → find regions virt ≡ none) × AreDisjoint regions

-- The test for overlap finds every region that shares an address.
overlaps-shared :
    (r : Region) (start end virt : ℕ)
    → overlaps r start end ≡ false
    → start ≤ virt
    → virt < end
    → (leb r.start virt && ltb virt r.end) ≡ false
unfolding overlaps
overlaps-shared r start end virt e le lt = ground (arith, e)

overlaps_any-find :
    (regions : List Region) (start end virt : ℕ)
    → overlaps_any regions start end ≡ false
    → start ≤ virt
    → virt < end
    → find regions virt ≡ none
unfolding overlaps_any find
overlaps_any-find [] start end virt e le lt = refl
overlaps_any-find (r ∷ regions) start end virt e le lt =
    let this : overlaps r start end ≡ false = ground (arith, e) in
    let others : overlaps_any regions start end ≡ false = ground (arith, e) in
    rw (overlaps-shared r start end virt this le lt)
      (overlaps_any-find regions start end virt others le lt)

module _ {S : Type 0} (cache : RegionCache S) where
  set_regions_self :
      (p : Paging S) (i : ℕ) (regions : List Region)
      → ((set_regions cache p i regions).address_spaces i).regions ≡ regions
  unfolding set_regions
  set_regions_self p i regions = ap (λ s. s.regions) (update_self p.address_spaces i _)

  -- `demand_paging_register_region`, once it has found the address space, keeps the regions of the
  -- space disjoint if they are, whether it succeeds or not.
  pub register_in-AreDisjoint :
      (p : Paging S) (i start end flags : ℕ)
      → AreDisjoint (p.address_spaces i).regions
      → AreDisjoint ((register_in cache p i start end flags).1.address_spaces i).regions
  unfolding register_in AreDisjoint Covers
  register_in-AreDisjoint p i start end flags disjoint =
      let (region, cache') = cache.slab_alloc p.region_cache in
      let regions = (p.address_spaces i).regions in
      elim (Bool-cases (overlaps_any regions start end)) [
        | inl e ↦ rw e disjoint
        | inr e ↦ elim (Bool-cases (region == 0)) [
          | inl f ↦ rw (e, f) disjoint
          | inr f ↦
              rw (e, f)
                (subst AreDisjoint (sym (set_regions_self _ i _)) (
                  λ virt covers. overlaps_any-find regions start end virt e covers.0 covers.1,
                  disjoint,
                ))
        ]
      ]
