-- ===== src/Heap/Calls.antt =====
-- The calls around `kmalloc`, kernel/mm/heap.c: `kcalloc`, `kfree`, `krealloc` and those with flags.
use black_kernel.Base.{
  ℕ, zero, suc, ◌+◌, ◌/◌, ◌^◌, bit_and, not, Option, none, some, leb, ◌==◌, ◌||◌, if◌then◌else◌,
  update, sub64, mul64,
}
use black_kernel.Bytes.{memset, memcpy}
use black_kernel.Slab.{SlabCache}
use black_kernel.Slab.Release
use black_kernel.Heap.{
  Heap, block_header, alloc_header, alloc_magic, alloc_from_slab, alloc_from_heap, is_heap_pointer,
  free_block, kmalloc,
}

-- The first of the caches from `i` on that there is, and the size of its objects.
unfoldable pub first_cache : ℕ → ℕ → (ℕ → Option SlabCache) → Option (ℕ × SlabCache)
first_cache zero i caches = none
first_cache (suc rounds) i caches =
    let rest = first_cache rounds (i + 1) caches in
    elim (caches i) [ none ↦ rest | some c ↦ some (2 ^ (i + 4), c) ]

-- The size is `*out_size`.
unfoldable pub find_slab_cache : Heap → ℕ → Option (ℕ × SlabCache)
find_slab_cache h ptr =
    if not h.slab_initialized || ptr == 0 || is_heap_pointer h ptr
    then none
    else first_cache 8 0 h.caches

-- `num * size`, none where it overflows.
unfoldable pub total_of : ℕ → ℕ → Option ℕ
total_of num size =
    if num == 0 || size == 0
    then some 0
    else if mul64 num size / num == size
    then some (mul64 num size)
    else none

-- The bytes of an allocation that succeeded are cleared.
unfoldable pub clear : ℕ × Heap → ℕ → ℕ × Heap
clear r total = if r.0 == 0 then r else (r.0, record r.1 { memory = memset r.1.memory r.0 0 total })

unfoldable pub kcalloc : Heap → ℕ → ℕ → Option (ℕ × Heap)
kcalloc h num size = elim (total_of num size) [
  | none ↦ some (0, h)
  | some total ↦ elim (kmalloc h total) [ none ↦ none | some r ↦ some (clear r total) ]
]

unfoldable pub kfree : Heap → ℕ → Heap
kfree h ptr =
    let at = sub64 ptr alloc_header in
    let header = h.headers at in
    if ptr == 0
    then h
    else if not (header.magic == alloc_magic)
    then h
    else if not (bit_and header.flags alloc_from_slab == 0)
    then (if leb 8 header.slab_cache_index then h else elim (h.caches header.slab_cache_index) [
      | none ↦ h
      | some cache ↦
          let (slabs, cache') = Release.free h.slabs cache at in
          record h { slabs = slabs; caches = update h.caches header.slab_cache_index (some cache') }
    ])
    else if not (bit_and header.flags alloc_from_heap == 0)
    then record h { blocks = free_block h.blocks (sub64 at block_header) }
    else h

-- The copy into the new allocation, 0 for NULL, and the release of the old one.
unfoldable pub move : ℕ × Heap → ℕ → ℕ → ℕ × Heap
move r ptr old_size =
    if r.0 == 0
    then r
    else (r.0, kfree (record r.1 { memory = memcpy r.1.memory r.0 ptr old_size }) ptr)

unfoldable pub krealloc : Heap → ℕ → ℕ → Option (ℕ × Heap)
krealloc h ptr size =
    let header = h.headers (sub64 ptr alloc_header) in
    if ptr == 0
    then kmalloc h size
    else if size == 0
    then some (0, kfree h ptr)
    else if not (header.magic == alloc_magic)
    then some (0, h)
    else if leb size header.size
    then some (ptr, h)
    else elim (kmalloc h size) [ none ↦ none | some r ↦ some (move r ptr header.size) ]

unfoldable pub kmalloc_flags : Heap → ℕ → ℕ → Option (ℕ × Heap)
kmalloc_flags h size flags = elim (kmalloc h size) [
  | none ↦ none
  | some r ↦ some (if bit_and flags 0x04 == 0 then r else clear r size)
]

unfoldable pub kcalloc_flags : Heap → ℕ → ℕ → ℕ → Option (ℕ × Heap)
kcalloc_flags h num size flags = kcalloc h num size
