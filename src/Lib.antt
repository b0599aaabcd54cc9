-- ===== src/Lib.antt =====
-- The PROMETHEUS kernel: its memory manager, its drivers and interrupts, and its start.
--
-- The parts, and the files that model them. Paths are from the root of the repository.
--
-- Buddy (kernel/mm/buddy.c, include/mm/buddy.h, include/mm/gfp.h) is the page allocator. A zone is
-- a record of its lists and counters, a free list the list of the addresses of its blocks, and the
-- bitmap a function from the index of a byte; every operation takes the state and returns the new
-- one. `alloc_pages` is `buddy_alloc_pages`, with `find_order`, `split` and `alloc_block` for its
-- parts; `free_pages` is `buddy_free_pages`, with `merge` for the loop. Buddy/Init has
-- `buddy_init`, Buddy/Stats the statistics and `buddy_alloc_pages_flags`. Buddy/Measure,
-- Buddy/Valid, Buddy/Alloc, Buddy/Free, Buddy/Coverage, Buddy/Page, Buddy/Accounting, Buddy/Search,
-- Buddy/Bitmap and Buddy/Reach are about the blocks, the addresses they cover, the counters and the
-- states that calls lead to.
--
-- Pmm (kernel/mm/pmm.c) scans the memory map and hands out frames of the page allocator. Vmm
-- (kernel/mm/vmm.c) is the page tables, with memory as a function from the address of a word to the
-- word; Vmm/Entries reads entries as numbers and Vmm/Mapping follows the walk.
--
-- PageCache (kernel/mm/page_cache.c), Cow (kernel/mm/cow.c) and Slab (kernel/mm/slab.c) keep
-- records in pages of the allocator: the records are functions of the address, and a chain or list
-- is the list of the addresses on it. PageCache/Chains and PageCache/Coherent are about the chains
-- and the list, PageCache/Removal and PageCache/Insertion about what is found, PageCache/Owned,
-- PageCache/Sound and PageCache/Reach about the pages of cache and allocator together. The program
-- gives the hash table of 8192 bytes one page of 4096. Its chains are modelled apart from all other
-- memory, which they are only as long as no one else uses the page behind the table's: a sound
-- state counts that page as the table's, `page_cache_init` is none where its clearing of 8192 bytes
-- would change something there, and PageCache/Overrun is about the page that the program gives
-- away. Cow/Entries is about the fields of an entry, DemandPaging/Rounding about the ends of a
-- region. Slab/Release has `slab_free` and `slab_cache_destroy`, Slab/CpuCaches the batches of the
-- processors' caches. DemandPaging (kernel/mm/demand_paging.c) takes the slab cache of its regions
-- as an interface, `RegionCache`, which DemandPaging/RegionSlab fills by Slab, and uses Vmm and
-- Buddy. Pool (kernel/mm/pool.c) and Heap (kernel/mm/heap.c) keep free lists; the heap's block list
-- is the list of its headers in order, and its caches are those of Slab. Heap/Calls has the calls
-- around `kmalloc`. Heap/Blocks, Heap/Used and Heap/Allocations are about the blocks and the
-- allocations in them.
--
-- Spinlock (kernel/core/spinlock.c, include/kernel/atomic.h) is a step relation: each atomic access
-- of each processor is one step, in any order. In the other files an operation under a lock is one
-- step, since it runs between an acquire and a release.
--
-- Bytes (kernel/lib/string.c) is the byte and string functions, Stdio (kernel/lib/stdio.c) the
-- formatting, Vga (kernel/drivers/vga.c) the text screen and Keyboard (kernel/drivers/keyboard.c)
-- the ring of the keyboard. Base holds the shared names and lemmas.
--
-- Ports (kernel/lib/port.c) is the record of the two port instructions on a state of the devices of
-- any type. Pic (kernel/drivers/pic.c), Pit (kernel/drivers/pit.c) and Serial
-- (kernel/drivers/serial.c) drive the devices through it; what the chips do is a record of laws
-- that the theorems take (`IsPic` in Pic/Chips, `IsUart` in Serial/Sent), with an instance in the
-- tests. Console is `kprintf`, `kputs` and the message of kernel/core/panic.c, over Stdio, Vga and
-- Serial. Interrupts is the table of kernel/core/interrupts_init.c and the handler of
-- kernel/core/interrupts.c, which calls Console, Pit, Keyboard and Pic; the addresses of the
-- assembly stubs are parameters, and `noerr_frame` is what the stubs of kernel/arch/x86_64/idt.asm
-- push (Interrupts/Stubs). Boot is kernel/core/main.c: the loop over the tags of the boot loader,
-- and in three stretches the calls that start Vga, Serial, Interrupts, Pmm, Slab, Heap, Cow,
-- DemandPaging and PageCache on one page allocator.
--
-- Numbers are natural numbers with the wrap-around of the C types written out: `add64`, `sub64`,
-- `mul64` on `uint64_t`, `add32` and `sub32` on `uint32_t`. A pointer is its address, and NULL is
-- 0.
--
-- Loops. The loop of `buddy_init` has as many rounds as there are pages, since each takes at least
-- one; the loops over orders have one round for each order left, and those over lists follow the
-- list. The number printers have 16 and 20 rounds, enough for 64 bits. The string functions, the
-- loop over the tags and the loops that read the status of the serial line run on fuel and return
-- none where it runs out. The wait of the timer follows a list of its rounds, each with the
-- interrupts between the comparison and the `hlt` and the one that ends the `hlt`, and is none
-- where they end first. The `int` results of Stdio and Console are the conversion of the length to
-- 32 bits with a sign. `none` is also a division by zero in Slab, the read of a null chunk in Pool,
-- and an argument of another type or a read behind the format in Stdio and Console.
--
-- Not modelled: the assembly (boot, interrupt stubs, `lidt`), the 16-bit and 32-bit port
-- instructions, the cursor registers of the screen, the messages of the start and the debug output
-- (include/kernel/config.h, the dump functions), TLB flushes, memory barriers, names of caches and
-- pools, what a list writes into freed memory, what `free_block` of Heap writes at an address that
-- is no block, and the tests under kernel/tests and tests.
pub mod Base
pub mod Buddy
pub mod Bytes
pub mod Pmm
pub mod Vmm
pub mod PageCache
pub mod Cow
pub mod DemandPaging
pub mod Slab
pub mod Heap
pub mod Pool
pub mod Spinlock
pub mod Stdio
pub mod Vga
pub mod Keyboard
pub mod Ports
pub mod Pic
pub mod Pit
pub mod Serial
pub mod Console
pub mod Interrupts
pub mod Boot
