-- ===== src/DemandPaging.antt =====
-- Demand paging, kernel/mm/demand_paging.c and include/mm/demand_paging.h: the registered regions of
-- every address space and the page fault handler. The slab cache `vm_region_cache` is an interface
-- here, which RegionSlab fills by the slab allocator, and `Vm` holds the page tables and the page
-- allocator. The locks make each operation one step.
pub mod Tests
pub mod Regions
pub mod Search
pub mod Rounding
pub mod Spaces
pub mod Faults
pub mod RegionSlab
use black_kernel.Base.{
  ℕ, zero, suc, ◌+◌, ◌-◌, ◌*◌, ◌/◌, ◌%◌, ◌^◌, bit_and, bit_or, Bool, true, false, not, Option, none,
  some, List, [], ◌∷◌, ltb, leb, ◌==◌, ◌&&◌, ◌||◌, if◌then◌else◌, update, u64, add64, sub64, ℤ, pos,
  negsuc,
}
use black_kernel.Buddy.{Buddy, alloc_pages, free_pages, zone_movable, page_size}
use black_kernel.Pmm.{Pmm}
use black_kernel.Vmm.{
  Words, Vm, flag_present, flag_writable, flag_user, zero_words, map_page, unmap_page,
  get_physical_address,
}

-- `slab_cache_create`, `slab_alloc(vm_region_cache)` and `slab_free(vm_region_cache, region)` on the
-- cache's state.
pub record RegionCache (S : Type 0) : Type 0 where
  pub create : S → S
  pub slab_alloc : S → ℕ × S
  pub slab_free : S → ℕ → S

-- A `vm_region_t` with its own address.
pub record Region : Type 0 where
  pub address : ℕ
  pub start : ℕ
  pub end : ℕ
  pub flags : ℕ

pub record AddressSpace : Type 0 where
  pub pml4 : ℕ
  pub regions : List Region

pub record Paging (S : Type 0) : Type 0 where
  pub address_spaces : ℕ → AddressSpace
  pub address_space_count : ℕ
  pub vm : Vm
  pub region_cache : S

abbrev pub max_address_spaces : ℕ
max_address_spaces = 256

abbrev pub vm_flag_demand_paged : ℕ
vm_flag_demand_paged = 0x01

abbrev pub vm_flag_zero_fill : ℕ
vm_flag_zero_fill = 0x02

-- `address & ~(BUDDY_PAGE_SIZE - 1)`
unfoldable pub align_down : ℕ → ℕ
align_down address = bit_and address (u64 - page_size)

-- `(start + size + BUDDY_PAGE_SIZE - 1) & ~(BUDDY_PAGE_SIZE - 1)`
unfoldable pub aligned_end : ℕ → ℕ → ℕ
aligned_end start size = align_down (sub64 (add64 (add64 start size) page_size) 1)

-- The search of the first `count` spaces from `i` on.
unfoldable pub find_space : ℕ → ℕ → (ℕ → AddressSpace) → ℕ → Option ℕ
find_space zero i spaces pml4 = none
find_space (suc count) i spaces pml4 =
    if (spaces i).pml4 == pml4 then some i else find_space count (i + 1) spaces pml4

-- The walk along the regions of a space.
unfoldable pub find : List Region → ℕ → Option Region
find [] virt = none
find (r ∷ regions) virt = if leb r.start virt && ltb virt r.end then some r else find regions virt

unfoldable pub overlaps : Region → ℕ → ℕ → Bool
overlaps r start end =
    (leb r.start start && ltb start r.end)
    || (ltb r.start end && leb end r.end)
    || (leb start r.start && leb r.end end)

unfoldable pub overlaps_any : List Region → ℕ → ℕ → Bool
unfolding overlaps
overlaps_any [] start end = false
overlaps_any (r ∷ regions) start end = overlaps r start end || overlaps_any regions start end

-- The unlinking of the first region with this start: the region, and the others.
unfoldable pub take_region : List Region → ℕ → Option Region × List Region
take_region [] start = (none, [])
take_region (r ∷ regions) start =
    if r.start == start
    then (some r, regions)
    else (let rest = take_region regions start in (rest.0, r ∷ rest.1))

-- `for (addr = start; addr < end; addr += PAGE_SIZE)` of `demand_paging_unregister_region`.
unfoldable pub release_pages : ℕ → ℕ → ℕ → Vm → ℕ → Vm
release_pages zero addr end v pml4 = v
release_pages (suc rounds) addr end v pml4 =
    let phys = get_physical_address v.words pml4 addr in
    let released : Vm = record {
      words = unmap_page v.words pml4 addr;
      pmm = record v.pmm { buddy = free_pages v.pmm.buddy phys 0 };
    } in
    let next =
      release_pages rounds (add64 addr page_size) end (if phys == 0 then v else released) pml4 in
    if ltb addr end then next else v

module _ {S : Type 0} (cache : RegionCache S) where
  unfoldable pub init : Paging S → Paging S
  init p = record p {
    address_spaces = λ i.
        if ltb i max_address_spaces then record { pml4 = 0; regions = [] } else p.address_spaces i;
    address_space_count = 0;
    region_cache = cache.create p.region_cache;
  }

  -- The index of the space of this page table, none where there is no room for a new one.
  unfoldable pub get_address_space : Paging S → ℕ → Option ℕ × Paging S
  get_address_space p pml4 = elim (find_space p.address_space_count 0 p.address_spaces pml4) [
    | some i ↦ (some i, p)
    | none ↦
        if ltb p.address_space_count max_address_spaces
        then (
          some p.address_space_count,
          record p {
            address_spaces =
                update p.address_spaces p.address_space_count
                  (record { pml4 = pml4; regions = [] });
            address_space_count = p.address_space_count + 1;
          },
        )
        else (none, p)
  ]

  unfoldable pub find_region : Paging S → ℕ → ℕ → Option Region × Paging S
  find_region p pml4 virt =
      let (space, p1) = get_address_space p pml4 in
      elim space [ none ↦ (none, p1) | some i ↦ (find (p1.address_spaces i).regions virt, p1) ]

  unfoldable pub set_regions : Paging S → ℕ → List Region → Paging S
  set_regions p i regions = record p {
    address_spaces = update p.address_spaces i (record (p.address_spaces i) { regions = regions });
  }

  -- The part of `demand_paging_register_region` under the lock of the space.
  unfoldable pub register_in : Paging S → ℕ → ℕ → ℕ → ℕ → ℤ × Paging S
  register_in p i start end flags =
      let regions = (p.address_spaces i).regions in
      let (region, cache') = cache.slab_alloc p.region_cache in
      let allocated : Paging S = record p { region_cache = cache' } in
      let new : Region = record { address = region; start = start; end = end; flags = flags } in
      if overlaps_any regions start end
      then (negsuc 0, p)
      else if region == 0
      then (negsuc 0, allocated)
      else (pos 0, set_regions allocated i (new ∷ regions))

  unfoldable pub register_region : Paging S → ℕ → ℕ → ℕ → ℕ → ℤ × Paging S
  register_region p pml4 start size flags =
      let (space, p1) = get_address_space p pml4 in
      if pml4 == 0 || size == 0 then (negsuc 0, p) else elim space [
        | none ↦ (negsuc 0, p1)
        | some i ↦ register_in p1 i (align_down start) (aligned_end start size) flags
      ]

  -- The fault is in a region with demand paging: both checks that the page is not yet mapped, the
  -- frame, its clearing through the direct map, and the mapping.
  unfoldable pub populate : Paging S → ℕ → ℕ → Region → ℤ × Paging S
  populate p pml4 aligned region =
      let mapped = not (get_physical_address p.vm.words pml4 aligned == 0) in
      let (phys, buddy) = alloc_pages p.vm.pmm.buddy 0 zone_movable in
      let pmm : Pmm = record p.vm.pmm { buddy = buddy } in
      let words =
        if bit_and region.flags vm_flag_zero_fill == 0
        then p.vm.words
        else zero_words 512 0 p.vm.words (add64 0xFFFF800000000000 phys) in
      let v : Vm = record { pmm = pmm; words = words } in
      if mapped
      then (pos 0, p)
      else if phys == 0
      then (negsuc 0, record p { vm = record p.vm { pmm = pmm } })
      else (
        pos 0,
        record p {
          vm = map_page v pml4 aligned phys (bit_or (bit_or flag_present flag_writable) flag_user);
        },
      )

  unfoldable pub handle_fault : Paging S → ℕ → ℕ → ℤ × Paging S
  handle_fault p pml4 virt =
      let (found, p1) = find_region p pml4 (align_down virt) in
      elim found [
        | none ↦ (negsuc 0, p1)
        | some region ↦
            if bit_and region.flags vm_flag_demand_paged == 0
            then (negsuc 0, p1)
            else populate p1 pml4 (align_down virt) region
      ]

  -- A region is `(end - start) / 4096` pages, rounded up.
  unfoldable pub unregister_in : Paging S → ℕ → ℕ → ℕ → Paging S
  unregister_in p i pml4 start =
      let (found, others) = take_region (p.address_spaces i).regions start in
      elim found [
        | none ↦ p
        | some region ↦
            let p1 = set_regions p i others in
            let rounds = (region.end - region.start + page_size - 1) / page_size in
            record p1 {
              vm = release_pages rounds region.start region.end p1.vm pml4;
              region_cache = cache.slab_free p1.region_cache region.address;
            }
      ]

  unfoldable pub unregister_region : Paging S → ℕ → ℕ → Paging S
  unregister_region p pml4 start =
      let (space, p1) = get_address_space p pml4 in
      elim space [ none ↦ p1 | some i ↦ unregister_in p1 i pml4 (align_down start) ]
