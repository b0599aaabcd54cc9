-- ===== src/Slab/Tests.antt =====
-- Slabs (kernel/mm/slab.c) of objects of 48 bytes.
use black_kernel.Base.{ℕ, ◌≡◌, refl, arith, some, [], ◌∷◌, ◌==◌, if◌then◌else◌}
use black_kernel.Buddy.{
  Buddy, alloc_pages, alloc_block, find_order, split, take_block, list_remove, sanitize,
}
use black_kernel.Buddy.Init.{init}
use black_kernel.Buddy.Reach.{init-Invariant}
use black_kernel.Slab.{alloc, SlabCache, Slabs}
use black_kernel.Slab.Reserved.{alloc-fails}

-- An allocator with one page in each zone.
abbrev buddy : Buddy
buddy = record {
  zones = λ z. record {
    free_lists = λ k. if k == 0 then 0x100000 ∷ [] else [];
    free_counts = λ k. if k == 0 then 1 else 0;
    total_pages = 1;
    free_pages = 1;
    base_address = 0x100000;
    map_size = 0x100000;
  };
  memory_start = 0x100000;
  memory_size = 0x1000;
  bitmap = λ i. 0;
}

abbrev cache : ℕ → ℕ → SlabCache
cache size count = record {
  object_size = size;
  align = 16;
  objects_per_slab = count;
  color_next = 3;
  slabs_full = [];
  slabs_partial = [];
  slabs_free = [];
  total_allocations = 0;
  total_frees = 0;
  cache_hits = 0;
  cpu_caches = λ cpu. record { objects = 0; array = λ i. 0; available = 0; limit = 16 };
}

abbrev slabs : Slabs
slabs = record {
  slabs = λ a. record { free_list = []; in_use = 0; total_objects = 0; objects = 0 };
  buddy = buddy;
  cache_list = [];
}

page : (alloc_pages buddy 0 1).0 ≡ 0x100000
unfolding alloc_pages alloc_block find_order split take_block list_remove sanitize
page = refl

abbrev managed : Slabs
managed = record slabs { buddy = init 0x100000 0x4000 }

alloc-fails_example : alloc managed (cache 48 84) ≡ some (0, managed, cache 48 84)
alloc-fails_example =
    alloc-fails managed
      (init-Invariant 0x100000 0x4000 (omega arith) (omega arith) (omega arith) (omega arith))
      (cache 48 84) (record { partial = refl; unused = refl; available = refl })
