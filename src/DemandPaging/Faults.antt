-- ===== src/DemandPaging/Faults.antt =====
-- Page faults in the regions (`demand_paging_handle_fault`, kernel/mm/demand_paging.c).
use black_kernel.Base.{
  ℕ, ◌≡◌, refl, ◌≢◌, Bool-cases, inl, inr, arith, ◌==◌, Option-cases, sym, ◌∙◌, subst, negsuc,
  bit_and,
}
use black_kernel.Buddy.{sanitize, zone_movable, zone_unmovable}
use black_kernel.Buddy.Reach.{Invariant, alloc_pages-IsEmptyZone}
use black_kernel.Vmm.{get_physical_address}
use black_kernel.DemandPaging.{
  RegionCache, Region, Paging, align_down, find_space, vm_flag_demand_paged, get_address_space,
  find_region, populate, handle_fault,
}

module _ {S : Type 0} (cache : RegionCache S) where
  get_address_space-vm : (p : Paging S) (pml4 : ℕ) → (get_address_space cache p pml4).1.vm ≡ p.vm
  unfolding get_address_space
  get_address_space-vm p pml4 =
      elim (Option-cases (find_space p.address_space_count 0 p.address_spaces pml4)) [
        | inr (i, e) ↦ rw (get_address_space, e)
        | inl e ↦ rw (get_address_space, e) (ground arith)
      ]

  find_region-vm : (p : Paging S) (pml4 virt : ℕ) → (find_region cache p pml4 virt).1.vm ≡ p.vm
  unfolding find_region
  find_region-vm p pml4 virt = elim (Option-cases (get_address_space cache p pml4).0) [
    | inl e ↦ rw (find_region, e) (get_address_space-vm p pml4)
    | inr (i, e) ↦ rw (find_region, e) (get_address_space-vm p pml4)
  ]

  -- No page is free in the movable zone, so there is no frame for an unmapped page.
  populate-fails :
      {limit : ℕ} (p : Paging S) (pml4 aligned : ℕ) (region : Region)
      → Invariant limit p.vm.pmm.buddy
      → get_physical_address p.vm.words pml4 aligned ≡ 0
      → ((populate cache p pml4 aligned region).0 ≡ negsuc 0)
        × ((populate cache p pml4 aligned region).1.vm ≡ p.vm)
  unfolding populate sanitize
  populate-fails p pml4 aligned region i unmapped =
      rw
        (
          unmapped,
          alloc_pages-IsEmptyZone p.vm.pmm.buddy 0 zone_movable
              (i.reserved (sanitize zone_movable) other),
        )
        (refl, refl)
    where
      other : sanitize zone_movable ≢ zone_unmovable
      other = ground arith

  -- In a state where the page allocator is in order, as it is in all that it reaches, a fault on a
  -- page that is not mapped is not handled: the result is -1, and page tables and allocator stay as
  -- they are.
  pub handle_fault-fails :
      {limit : ℕ} (p : Paging S) (pml4 virt : ℕ)
      → Invariant limit p.vm.pmm.buddy
      → get_physical_address p.vm.words pml4 (align_down virt) ≡ 0
      → ((handle_fault cache p pml4 virt).0 ≡ negsuc 0)
        × ((handle_fault cache p pml4 virt).1.vm ≡ p.vm)
  unfolding handle_fault
  handle_fault-fails {limit = limit} p pml4 virt i unmapped =
      let aligned = align_down virt in
      let (found, p1) = find_region cache p pml4 aligned in
      let same : p1.vm ≡ p.vm = find_region-vm p pml4 aligned in
      elim (Option-cases found) [
        | inl e ↦ rw (handle_fault, e) (refl, same)
        | inr (region, e) ↦ elim (Bool-cases (bit_and region.flags vm_flag_demand_paged == 0)) [
          | inl f ↦ rw (handle_fault, e, f) (refl, same)
          | inr f ↦
              let (failed, kept) =
                populate-fails {limit = limit} p1 pml4 aligned region
                  (subst (λ v. Invariant limit v.pmm.buddy) (sym same) i)
                  (subst (λ v. get_physical_address v.words pml4 aligned ≡ 0) (sym same)
                    unmapped) in
              rw (handle_fault, e, f) (failed, kept ∙ same)
        ]
      ]
