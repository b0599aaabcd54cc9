-- ===== src/Heap.antt =====
-- The kernel heap, kernel/mm/heap.c and include/kernel/heap.h. The doubly linked list of blocks is
-- the list of their headers, each with its address; `next` and `prev` are the neighbours in it. The
-- slab caches that `kmalloc` uses are those of `Slab`. None of the results is a crash in a slab cache.
pub mod Calls
pub mod Tests
pub mod Blocks
pub mod Used
pub mod Allocations
use black_kernel.Base.{
  ℕ, zero, suc, ◌+◌, ◌-◌, ◌*◌, ◌/◌, ◌%◌, ◌^◌, bit_and, Bool, true, false, not, Option, none, some,
  List, [], ◌∷◌, ltb, leb, ◌==◌, ◌&&◌, ◌||◌, if◌then◌else◌, update, u64, u32, add64, sub64, mul64,
  ◌>>=◌,
}
use black_kernel.Bytes.{Memory, memset, memcpy}
use black_kernel.Slab.{Slabs, SlabCache, cache_create}
use black_kernel.Slab

pub record Block : Type 0 where
  pub address : ℕ
  pub size : ℕ
  pub free : Bool

pub record AllocHeader : Type 0 where
  pub magic : ℕ
  pub size : ℕ
  pub flags : ℕ
  pub slab_cache_index : ℕ

-- `headers` holds the allocation headers by address, `memory` the bytes of the allocations, and
-- `caches` the caches `g_cache_16` to `g_cache_2048` by index.
pub record Heap : Type 0 where
  pub heap_start : ℕ
  pub heap_size : ℕ
  pub blocks : List Block
  pub headers : ℕ → AllocHeader
  pub memory : Memory
  pub slab_initialized : Bool
  pub caches : ℕ → Option SlabCache
  pub slabs : Slabs

-- `sizeof(block_header_t)` and `sizeof(alloc_header_t)`
abbrev pub block_header : ℕ
block_header = 32

abbrev pub alloc_header : ℕ
alloc_header = 12

abbrev pub alloc_magic : ℕ
alloc_magic = 0xDEADBEEF

abbrev pub alloc_from_slab : ℕ
alloc_from_slab = 0x01

abbrev pub alloc_from_heap : ℕ
alloc_from_heap = 0x02

abbrev pub slab_cache_none : ℕ
slab_cache_none = 0xFF

unfoldable pub align16 : ℕ → ℕ
align16 n = bit_and (add64 n 15) (u64 - 16)

unfoldable pub is_heap_pointer : Heap → ℕ → Bool
is_heap_pointer h address = leb h.heap_start address && ltb address (add64 h.heap_start h.heap_size)

-- `heap_init` makes the eight caches in this order, of 16, 32, ..., 2048 bytes.
unfoldable pub make_caches : ℕ → ℕ → Heap → Heap
make_caches zero i h = h
make_caches (suc rounds) i h =
    let (made, slabs) = cache_create h.slabs true (2 ^ (i + 4)) 16 in
    let cache : Option SlabCache = elim made [ none ↦ none | some m ↦ some m.1 ] in
    make_caches rounds (i + 1) (record h { slabs = slabs; caches = update h.caches i cache })

unfoldable pub init : Heap → ℕ → ℕ → Heap
init h start size =
    let cleared : Heap = record h {
      heap_start = start;
      heap_size = size;
      blocks = (record { address = start; size = sub64 size block_header; free = true }) ∷ [];
    } in
    if h.slab_initialized then make_caches 8 0 cleared else cleared

unfoldable pub enable_slab : Heap → Heap
enable_slab h = record h { slab_initialized = true }

-- The block of `size` bytes, and the block of the rest where that is large enough.
unfoldable pub split_block : Block → ℕ → List Block → List Block
split_block b size next =
    if leb (add64 (add64 size block_header) 16) b.size
    then (let n : Block = record {
      address = b.address + block_header + size;
      size = sub64 (sub64 b.size size) block_header;
      free = true;
    } in
        record b { size = size } ∷ n ∷ next)
    else b ∷ next

-- `b` takes over its successor if that is free.
unfoldable pub merge_next : Block → List Block → List Block
merge_next b [] = b ∷ []
merge_next b (n ∷ next) =
    if n.free
    then record b { size = add64 b.size (add64 block_header n.size) } ∷ next
    else b ∷ n ∷ next

-- `b->free = 1; coalesce(b);` for the block at `address`: it takes over its successor if that is free,
-- and then its predecessor takes it over if that is. An address that is no block changes nothing here;
-- the code writes there, which is not followed.
unfoldable pub free_block : List Block → ℕ → List Block
free_block [] address = []
free_block (b ∷ next) address =
    let rest = free_block next address in
    let is_next : Bool = elim next [ [] ↦ false | n ∷ more ↦ n.address == address ] in
    if b.address == address
    then merge_next (record b { free = true }) next
    else if is_next && b.free
    then merge_next b rest
    else b ∷ rest

-- `b->free = 0`, after the split.
unfoldable pub claim : List Block → List Block
claim [] = []
claim (b ∷ next) = record b { free = false } ∷ next

-- The search for the first free block that is large enough: its address, and the blocks afterwards.
unfoldable pub first_fit : List Block → ℕ → Option (ℕ × List Block)
first_fit [] total_size = none
first_fit (b ∷ next) total_size =
    let later : Option (ℕ × List Block) = elim (first_fit next total_size) [
      | none ↦ none
      | some r ↦ some (r.0, b ∷ r.1)
    ] in
    if b.free && leb total_size b.size
    then some (b.address, claim (split_block b total_size next))
    else later

-- The cache for a size below 4096, by index; 8 is none.
unfoldable pub cache_index : ℕ → ℕ
cache_index size =
    if leb size 16
    then 0
    else if leb size 32
    then 1
    else if leb size 64
    then 2
    else if leb size 128
    then 3
    else if leb size 256
    then 4
    else if leb size 512
    then 5
    else if leb size 1024
    then 6
    else if leb size 2048
    then 7
    else 8

-- The pointer to the user's bytes, 0 for NULL.
unfoldable pub heap_alloc : Heap → ℕ → ℕ × Heap
heap_alloc h size = elim (first_fit h.blocks (align16 (add64 alloc_header size))) [
  | none ↦ (0, h)
  | some (b, blocks) ↦ (
    b + block_header + alloc_header,
    record h {
      blocks = blocks;
      headers = update h.headers (b + block_header) (record {
        magic = alloc_magic;
        size = size % u32;
        flags = alloc_from_heap;
        slab_cache_index = slab_cache_none;
      });
    },
  )
]

-- The part of `kmalloc` with a slab cache.
unfoldable pub cache_alloc : Heap → ℕ → ℕ → SlabCache → Option (ℕ × Heap)
cache_alloc h size index cache = elim (Slab.alloc h.slabs cache) [
  | none ↦ none
  | some (slab_ptr, slabs, cache') ↦
      let h1 : Heap = record h { slabs = slabs; caches = update h.caches index (some cache') } in
      if slab_ptr == 0
      then some (heap_alloc h1 size)
      else some (
        slab_ptr + alloc_header,
        record h1 {
          headers = update h.headers slab_ptr (record {
            magic = alloc_magic;
            size = size % u32;
            flags = alloc_from_slab;
            slab_cache_index = index;
          });
        },
      )
]

unfoldable pub kmalloc : Heap → ℕ → Option (ℕ × Heap)
kmalloc h size =
    let index = cache_index size in
    let cache : Option SlabCache = if ltb index 8 then h.caches index else none in
    if size == 0
    then some (0, h)
    else if h.slab_initialized && ltb size 4096
    then elim cache [ none ↦ some (heap_alloc h size) | some c ↦ cache_alloc h size index c ]
    else some (heap_alloc h size)
