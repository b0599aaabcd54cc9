-- ===== src/Boot.antt =====
-- The start of the kernel, kernel/core/main.c: the tags of the boot loader, and the initialisations in
-- the three stretches in which they run, of the devices, of the page allocator and of the rest. The
-- messages between them and the tests at the end are left out.
pub mod Tags
pub mod Start
pub mod Tests
use black_kernel.Base.{
  ℕ, zero, suc, ◌+◌, ◌-◌, ◌*◌, ◌/◌, ◌^◌, bit_and, Bool, Option, none, some, List, [], ◌∷◌, ltb,
  ◌==◌, ◌||◌, if◌then◌else◌, u32, add64, add32, sub32, ◌>>=◌,
}
use black_kernel.Ports.{Ports}
use black_kernel.Buddy.{Buddy}
use black_kernel.Pmm.{Pmm, MmapEntry, pmm_init}
use black_kernel.Slab
use black_kernel.Heap.{Heap, enable_slab}
use black_kernel.Heap
use black_kernel.Cow.{Cow}
use black_kernel.Cow
use black_kernel.PageCache.{PageCache}
use black_kernel.PageCache
use black_kernel.DemandPaging.{Paging}
use black_kernel.DemandPaging
use black_kernel.DemandPaging.RegionSlab.{RegionSlab, region_slab}
use black_kernel.Vga
use black_kernel.Serial
use black_kernel.Pic
use black_kernel.Interrupts.{Machine}
use black_kernel.Interrupts

abbrev pub multiboot2_magic : ℕ
multiboot2_magic = 0x36D76289

-- `mm` and `mm_size`
pub record Mmap : Type 0 where
  pub address : ℕ
  pub size : ℕ

-- `(t->size + 7) & ~7`, in 32 bits.
unfoldable pub tag_length : ℕ → ℕ
tag_length size = bit_and (add32 size 7) (u32 - 8)

-- `sizeof(multiboot_tag_mmap_t)`
abbrev pub mmap_header : ℕ
mmap_header = 16

-- The loop over the tags; `word` reads 32 bits. None where the rounds end first.
unfoldable pub scan_tags : ℕ → (ℕ → ℕ) → ℕ → Mmap → Option Mmap
scan_tags zero word tags found = none
scan_tags (suc fuel) word tags found =
    let found' : Mmap =
      if word tags == 6
      then (record { address = tags + mmap_header; size = sub32 (word (tags + 4)) mmap_header })
      else found in
    let rest = scan_tags fuel word (add64 tags (tag_length (word (tags + 4)))) found' in
    if word tags == 0 then some found else rest

-- The entries of the memory map, of 24 bytes each, from `p` to its end.
unfoldable pub entries_at : ℕ → (ℕ → ℕ) → ℕ → List MmapEntry
entries_at zero word p = []
entries_at (suc rounds) word p =
    record {
      addr = word p + word (p + 4) * 2 ^ 32;
      len = word (p + 8) + word (p + 12) * 2 ^ 32;
      kind = word (p + 16);
    }
    ∷ entries_at rounds word (p + 24)

unfoldable pub mmap_entries : (ℕ → ℕ) → Mmap → List MmapEntry
mmap_entries word m = entries_at ((m.size + 23) / 24) word m.address

-- What the parts of the memory manager keep. They share one page allocator, which stands in each.
pub record Kernel (D : Type 0) : Type 0 where
  pub machine : Machine D
  pub pmm : Pmm
  pub heap : Heap
  pub cow : Cow
  pub paging : Paging RegionSlab
  pub page_cache : PageCache

module _ {D : Type 0} where
  -- Every part sees the page allocator as it is now.
  abbrev pub share : Kernel D → Buddy → Kernel D
  share k buddy = record k {
    pmm = record k.pmm { buddy = buddy };
    heap = record k.heap { slabs = record k.heap.slabs { buddy = buddy } };
    cow = record k.cow { buddy = buddy };
    paging = record k.paging {
      vm = record k.paging.vm { pmm = record k.pmm { buddy = buddy } };
      region_cache = record k.paging.region_cache { slabs = record k.heap.slabs { buddy = buddy } };
    };
    page_cache = record k.page_cache { buddy = buddy };
  }

  -- From `slab_init` on, what comes before `page_cache_init`.
  unfoldable pub start_slabs : Kernel D → Kernel D
  start_slabs k =
      let slabs = Slab.init (record k.heap.slabs { buddy = k.pmm.buddy }) in
      let heap =
        enable_slab (Heap.init (record k.heap { slabs = slabs }) 0x80000000 (16 * 1024 * 1024)) in
      let cow = Cow.init k.cow in
      let regions : RegionSlab = record k.paging.region_cache { slabs = heap.slabs } in
      let paging = DemandPaging.init region_slab (record k.paging { region_cache = regions }) in
      record k {
        heap = record heap { slabs = paging.region_cache.slabs };
        cow = cow;
        paging = paging;
        page_cache = record k.page_cache { buddy = paging.region_cache.slabs.buddy };
      }

  -- From `slab_init` to `page_cache_init`; none where that clears what is not its own.
  unfoldable pub start_memory : Kernel D → Option (Kernel D)
  unfolding start_slabs
  start_memory k =
      let started = start_slabs k in
      PageCache.init started.page_cache 1024 >>= λ page_cache.
      some (share (record started { page_cache = page_cache }) page_cache.buddy)

  -- `pmm_init` on the memory map, where the tags have one.
  unfoldable pub start_pmm : (ℕ → ℕ) → Mmap → Kernel D → Kernel D
  start_pmm word m k =
      if m.address == 0 || m.size == 0
      then k
      else record k { pmm = pmm_init k.pmm (mmap_entries word m) }

  -- The screen, the serial line and the interrupts; `table` is the address of the interrupt table.
  unfoldable pub start_devices : Ports D → (ℕ → ℕ) → (ℕ → ℕ) → ℕ → Kernel D → Kernel D
  start_devices p isr irq table k =
      let console = k.machine.console in
      let m : Machine D = record k.machine {
        console = record {
          screen = Vga.init console.screen;
          device = Serial.init p console.device;
        };
      } in
      record k { machine = Interrupts.init p isr irq table m }

  -- The memory manager, and the lines of timer and keyboard.
  unfoldable pub finish : Ports D → Kernel D → Option (Kernel D)
  finish p k = start_memory k >>= λ k1.
      let d = Pic.unmask_irq p (Pic.unmask_irq p k1.machine.console.device 0) 1 in
      some (record k1 { machine = Interrupts.with_device p k1.machine d })
