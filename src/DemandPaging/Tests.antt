-- ===== src/DemandPaging/Tests.antt =====
-- Demand paging (kernel/mm/demand_paging.c) in one address space.
use black_kernel.Base.{ℕ, ◌+◌, ◌≡◌, arith, some, none, true, [], ◌∷◌, negsuc}
use black_kernel.Buddy.Init.{init}
use black_kernel.Buddy.Reach.{Invariant, init-Invariant}
use black_kernel.DemandPaging.{RegionCache, Paging, register_in, register_region}
use black_kernel.DemandPaging.RegionSlab.{
  slab_alloc, RegionSlab, region_slab, create, IsBare, create-IsBare, register_region-fails,
}
use black_kernel.DemandPaging.Regions.{AreDisjoint, register_in-AreDisjoint}

-- A cache that hands out one address behind the other.
abbrev cache : RegionCache ℕ
cache = record { create = λ s. s; slab_alloc = λ s. (s, s + 64); slab_free = λ s a. s }

abbrev paging : Paging ℕ
paging = record {
  address_spaces = λ i. record { pml4 = 0; regions = [] };
  address_space_count = 0;
  vm = record {
    pmm = record {
      buddy = init 0x100000 0x4000;
      pmm_total = 0;
      pmm_free = 0;
      buddy_initialized = true;
    };
    words = λ a. 0;
  };
  region_cache = 0x9000;
}

no-AreDisjoint : AreDisjoint []
unfolding AreDisjoint
no-AreDisjoint = tt

register_in-AreDisjoint_example :
    AreDisjoint ((register_in cache paging 0 0x5000 0x7000 1).1.address_spaces 0).regions
register_in-AreDisjoint_example =
    register_in-AreDisjoint cache paging 0 0x5000 0x7000 1 no-AreDisjoint

-- A slab cache whose processor keeps one free object.
abbrev stocked : Paging RegionSlab
stocked = record {
  address_spaces = paging.address_spaces;
  address_space_count = 0;
  vm = paging.vm;
  region_cache = record {
    slabs = record {
      slabs = λ a. record { free_list = []; in_use = 1; total_objects = 1; objects = 0x9020 };
      buddy = init 0x100000 0x4000;
      cache_list = [];
    };
    cache = some (record {
      object_size = 32;
      align = 8;
      objects_per_slab = 127;
      color_next = 0;
      slabs_full = 0x9000 ∷ [];
      slabs_partial = [];
      slabs_free = [];
      total_allocations = 1;
      total_frees = 1;
      cache_hits = 0;
      cpu_caches =
          λ cpu. record { objects = 0xA000; array = λ i. 0x9020; available = 1; limit = 16 };
    });
  };
}

paging-Invariant : Invariant (0x100000 + 0x4000) paging.vm.pmm.buddy
paging-Invariant =
    init-Invariant 0x100000 0x4000 (omega arith) (omega arith) (omega arith) (omega arith)

-- The cache of the regions on an allocator of four pages.
abbrev before : RegionSlab
before = record {
  slabs = record {
    slabs = λ a. record { free_list = []; in_use = 0; total_objects = 0; objects = 0 };
    buddy = init 0x100000 0x4000;
    cache_list = [];
  };
  cache = none;
}

abbrev slab_paging : Paging RegionSlab
slab_paging = record {
  address_spaces = paging.address_spaces;
  address_space_count = 0;
  vm = paging.vm;
  region_cache = create before;
}

bare : IsBare (0x100000 + 0x4000) (create before)
bare = create-IsBare before paging-Invariant

register_region-fails_example :
    ((register_region region_slab slab_paging 0x1000 0x5123 0x1000 1).0 ≡ negsuc 0)
    × ((register_region region_slab slab_paging 0x1000 0x5123 0x1000 1).1.region_cache
        ≡ create before)
register_region-fails_example = register_region-fails slab_paging 0x1000 0x5123 0x1000 1 bare
