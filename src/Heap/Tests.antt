-- ===== src/Heap/Tests.antt =====
-- The blocks of a small heap (kernel/mm/heap.c).
use black_kernel.Base.{◌≡◌, ◌≢◌, ◌+◌, ◌-◌, refl, arith, none, true, false, List, [], ◌∷◌}
use black_kernel.Buddy.Init.{init}
use black_kernel.Heap.{
  Block, Heap, block_header, alloc_header, align16, heap_alloc, free_block, first_fit, claim,
  split_block,
}
use black_kernel.Heap.Calls.{kfree}
use black_kernel.Heap.Used.{used, AreApart}
use black_kernel.Heap.Allocations.{Adds, heap_alloc-Adds, used-kfree}
use black_kernel.Heap.Blocks.{Tile, free_block-Tile}

abbrev heap : List Block
heap =
    record { address = 0x1000; size = 64; free = false }
    ∷ record { address = 0x1060; size = 416; free = true }
    ∷ []

heap-Tile : Tile 0x1000 0x1220 heap
unfolding Tile
heap-Tile = (refl, (refl, refl))

free_block-Tile_example : Tile 0x1000 0x1220 (free_block heap 0x1000)
free_block-Tile_example = free_block-Tile 0x1000 0x1220 heap 0x1000 (omega arith) heap-Tile

abbrev small_heap : Heap
small_heap = record {
  heap_start = 0x1000;
  heap_size = 0x220;
  blocks = heap;
  headers = λ a. record { magic = 0; size = 0; flags = 0; slab_cache_index = 0 };
  memory = λ a. 0;
  slab_initialized = true;
  caches = λ i. none;
  slabs = record {
    slabs = λ a. record { free_list = []; in_use = 0; total_objects = 0; objects = 0 };
    buddy = init 0x100000 0x4000;
    cache_list = [];
  };
}

found : (heap_alloc small_heap 100).0 ≢ 0
unfolding heap_alloc first_fit claim split_block align16
found = omega arith

heap_alloc-Adds_example :
    Adds heap
      (heap_alloc small_heap 100).1.blocks
      ((heap_alloc small_heap 100).0 - block_header - alloc_header)
      (alloc_header + 100)
    × AreApart (used (heap_alloc small_heap 100).1.blocks)
    × Tile 0x1000 0x1220 (heap_alloc small_heap 100).1.blocks
heap_alloc-Adds_example =
    heap_alloc-Adds small_heap 100 0x1000 0x1220 (omega arith) (omega arith) heap-Tile found

used-kfree_example :
    used (kfree (heap_alloc small_heap 100).1 (heap_alloc small_heap 100).0).blocks ≡ used heap
used-kfree_example =
    used-kfree small_heap 100 0x1000 0x1220 (omega arith) (omega arith) heap-Tile found
