-- ===== src/Pmm.antt =====
-- The physical memory manager, kernel/mm/pmm.c: the memory map of the boot loader, and frames of one
-- page from the buddy allocator. The static variables are the state; printing is left out.
pub mod Frames
use black_kernel.Base.{
  ℕ, ◌+◌, ◌-◌, ◌*◌, Bool, true, false, ◌&&◌, List, [], ◌∷◌, ltb, leb, ◌==◌, if◌then◌else◌, add64,
  sub64, mul64,
}
use black_kernel.Buddy.{Buddy, page_size, zone_unmovable, alloc_pages, free_pages}
use black_kernel.Buddy.Init
use black_kernel.Buddy.Stats.{get_free_pages}

-- `multiboot_mmap_entry_t`
pub record MmapEntry : Type 0 where
  pub addr : ℕ
  pub len : ℕ
  pub kind : ℕ

-- The buddy allocator's state stands here too, since this module calls it.
pub record Pmm : Type 0 where
  pub buddy : Buddy
  pub pmm_total : ℕ
  pub pmm_free : ℕ
  pub buddy_initialized : Bool

pub record Scan : Type 0 where
  pub total : ℕ
  pub memory_start : ℕ
  pub memory_size : ℕ

-- One round of the loop over the memory map. Type 1 is usable memory.
unfoldable pub scan_entry : Scan → MmapEntry → Scan
scan_entry s e =
    if e.kind == 1 && ltb s.memory_size e.len
    then record { total = add64 s.total e.len; memory_start = e.addr; memory_size = e.len }
    else record s { total = add64 s.total e.len }

unfoldable pub scan : Scan → List MmapEntry → Scan
unfolding scan_entry
scan s [] = s
scan s (e ∷ mmap) = scan (scan_entry s e) mmap

-- `pmm_init`; the list holds the entries between `mmap` and `mmap + mmap_size`.
unfoldable pub pmm_init : Pmm → List MmapEntry → Pmm
unfolding scan
pmm_init p mmap =
    let s = scan (record { total = 0; memory_start = 0; memory_size = 0 }) mmap in
    if ltb 0 s.memory_size
    then (record {
      buddy = Init.init s.memory_start s.memory_size;
      pmm_total = s.total;
      pmm_free = s.memory_size;
      buddy_initialized = true;
    })
    else record p { pmm_total = s.total; pmm_free = 0 }

unfoldable pub alloc_frame : Pmm → ℕ × Pmm
alloc_frame p =
    if p.buddy_initialized
    then (let (frame, buddy) = alloc_pages p.buddy 0 zone_unmovable in
        if frame == 0 then (0, record p { buddy = buddy }) else (
          frame,
          record p {
            buddy = buddy;
            pmm_free = if leb page_size p.pmm_free then p.pmm_free - page_size else p.pmm_free;
          },
        ))
    else (0, p)

unfoldable pub free_frame : Pmm → ℕ → Pmm
free_frame p frame =
    if p.buddy_initialized
    then (if frame == 0
        then p
        else record p { buddy = free_pages p.buddy frame 0; pmm_free = add64 p.pmm_free page_size })
    else p

unfoldable pub get_total_memory : Pmm → ℕ
get_total_memory p = p.pmm_total

unfoldable pub get_free_memory : Pmm → ℕ
get_free_memory p =
    if p.buddy_initialized then mul64 (get_free_pages p.buddy) page_size else p.pmm_free
