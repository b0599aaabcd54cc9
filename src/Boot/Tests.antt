-- ===== src/Boot/Tests.antt =====
-- The start of the kernel (kernel/core/main.c) with three tags and memory of four pages.
use black_kernel.Base.{
  ℕ, ◌≡◌, refl, arith, true, false, some, none, List, [], ◌∷◌, ◌==◌, if◌then◌else◌,
}
use black_kernel.Buddy.{Buddy}
use black_kernel.Pic.Chips.{Which, Chip}
use black_kernel.Pic.Tests.{ready_chips}
use black_kernel.Interrupts.Tests.{machine}
use black_kernel.Slab.{Slabs}
use black_kernel.Slab
use black_kernel.Heap
use black_kernel.DemandPaging
use black_kernel.Boot.{Kernel, scan_tags}
use black_kernel.Boot.Tags.{Tag, AreAt, last_mmap, scan_tags-last_mmap, scan_tags-never_ends}

-- A tag of 13 bytes, a memory map of 40, and the end.
abbrev tags : List Tag
tags = record { kind = 1; size = 13 } ∷ record { kind = 6; size = 40 } ∷ []

abbrev word : ℕ → ℕ
word a =
    if a == 0x508
    then 1
    else if a == 0x50C
    then 13
    else if a == 0x518
    then 6
    else if a == 0x51C
    then 40
    else if a == 0x500
    then 72
    else 0

tags-AreAt : AreAt word 0x508 tags
unfolding AreAt
tags-AreAt = (
  refl,
  omega arith,
  refl,
  omega arith,
  omega arith,
  (refl, omega arith, refl, omega arith, omega arith, refl),
)

scan_tags-last_mmap_example :
    scan_tags 3 word 0x508 (record { address = 0; size = 0 })
    ≡ some (record { address = 0x528; size = 24 })
unfolding last_mmap
scan_tags-last_mmap_example =
    scan_tags-last_mmap 3 word 0x508 tags (record { address = 0; size = 0 }) tags-AreAt
      (omega arith)

-- From the total size on.
scan_tags-never_ends_example : scan_tags 1000 word 0x500 (record { address = 0; size = 0 }) ≡ none
scan_tags-never_ends_example =
    scan_tags-never_ends 1000 word 0x500 (record { address = 0; size = 0 }) (omega arith)
      (omega arith) refl

abbrev slabs : Buddy → Slabs
slabs buddy = record {
  slabs = λ a. record { free_list = []; in_use = 0; total_objects = 0; objects = 0 };
  buddy = buddy;
  cache_list = [];
}

abbrev kernel : Buddy → Kernel (Which → Chip)
kernel buddy = record {
  machine = machine ready_chips;
  pmm = record { buddy = buddy; pmm_total = 0; pmm_free = 0; buddy_initialized = true };
  heap = record {
    heap_start = 0;
    heap_size = 0;
    blocks = [];
    headers = λ a. record { magic = 0; size = 0; flags = 0; slab_cache_index = 0 };
    memory = λ a. 0;
    slab_initialized = false;
    caches = λ i. none;
    slabs = slabs buddy;
  };
  cow = record {
    hash_table = λ i. [];
    refs = λ a. record { physical_address = 0; ref_count = 0 };
    words = λ a. 0;
    buddy = buddy;
  };
  paging = record {
    address_spaces = λ i. record { pml4 = 0; regions = [] };
    address_space_count = 0;
    vm = record {
      pmm = record { buddy = buddy; pmm_total = 0; pmm_free = 0; buddy_initialized = true };
      words = λ a. 0;
    };
    region_cache = record { slabs = slabs buddy; cache = none };
  };
  page_cache = record {
    has_table = false;
    table = 0;
    hash_table = λ i. [];
    entries =
        λ a. record { file_id = 0; offset = 0; physical_address = 0; last_access = 0; flags = 0 };
    lru = [];
    hash_size = 0;
    total_pages = 0;
    max_pages = 0;
    cache_hits = 0;
    cache_misses = 0;
    counter = 0;
    buddy = buddy;
  };
}
