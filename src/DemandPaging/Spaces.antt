-- ===== src/DemandPaging/Spaces.antt =====
-- The search for an address space (`demand_paging_get_address_space`) and for a region in it
-- (kernel/mm/demand_paging.c).
use black_kernel.Base.{ℕ, ◌+◌, ◌≡◌, [], Option, some, ℤ, pos, update}
use black_kernel.DemandPaging.{RegionCache, Region, Paging, find_space, find_region}

module _ {S : Type 0} (cache : RegionCache S) where
  make_space : Paging S → ℕ → Paging S
  make_space p pml4 = record p {
    address_spaces =
        update p.address_spaces p.address_space_count (record { pml4 = pml4; regions = [] });
    address_space_count = p.address_space_count + 1;
  }

  -- What a search in a state answers, a search in the state afterwards answers too.
  Found : (pml4 i : ℕ) → Option ℕ × Paging S → Type 0
  Found pml4 i r =
      r.0 ≡ some i → find_space r.1.address_space_count 0 r.1.address_spaces pml4 ≡ some i

  -- The region that was asked for.
  Made : Region → ℕ → ℕ → ℕ → Type 0
  Made r start end flags = (r.start ≡ start) × (r.end ≡ end) × (r.flags ≡ flags)

  -- Of a state and a result: where the result is 0, the address is in a region like the one asked for.
  Registered : (pml4 virt start end flags : ℕ) → ℤ × Paging S → Type 0
  Registered pml4 virt start end flags r =
      r.0 ≡ pos 0
      → (region : Region) × ((find_region cache r.1 pml4 virt).0 ≡ some region)
        × Made region start end flags
