-- ===== src/Pmm/Frames.antt =====
-- Frames of kernel/mm/pmm.c against the buddy allocator, and the choice of the memory region.
use black_kernel.Base.{
  ℕ, ◌≤◌, ◌≡◌, refl, ◌≢◌, ◌⊎◌, inl, inr, ◌&&◌, List, [], ◌∷◌, arith, ltb, ◌==◌, Bool-cases, sub64,
}
use black_kernel.Buddy.{page_size, zone_unmovable, alloc_pages}
use black_kernel.Buddy.Reach.{Invariant}
use black_kernel.Buddy.Stats.Change.{get_free_pages-alloc_pages}
use black_kernel.Pmm.{MmapEntry, Pmm, Scan, scan_entry, scan, alloc_frame, get_free_memory}

-- No usable region of the map is larger than the one in hand.
abbrev pub IsLargest : ℕ → List MmapEntry → Type 0
IsLargest size [] = Unit
IsLargest size (e ∷ mmap) = (e.kind ≡ 1 → e.len ≤ size) × IsLargest size mmap

abbrev pub IsRegion : ℕ → ℕ → List MmapEntry → Type 0
IsRegion start size [] = ⊥
IsRegion start size (e ∷ mmap) =
    ((e.kind ≡ 1) × (e.addr ≡ start) × (e.len ≡ size)) ⊎ IsRegion start size mmap

scan-le : (s : Scan) (mmap : List MmapEntry) → s.memory_size ≤ (scan s mmap).memory_size
unfolding scan
scan-le s [] = omega arith
scan-le s (e ∷ mmap) = ground (arith, scan-le (scan_entry s e) mmap)

-- The scan of the memory map ends with a size that no usable region exceeds.
pub scan-IsLargest : (s : Scan) (mmap : List MmapEntry) → IsLargest (scan s mmap).memory_size mmap
unfolding scan
scan-IsLargest s [] = tt
scan-IsLargest s (e ∷ mmap) =
    ((λ q. ground (arith, scan-le (scan_entry s e) mmap)), scan-IsLargest (scan_entry s e) mmap)

-- The region that the scan of the memory map ends with is the one that it started with, or a usable
-- region of the map.
pub scan-IsRegion :
    (s : Scan) (mmap : List MmapEntry)
    → ((scan s mmap).memory_start ≡ s.memory_start) × ((scan s mmap).memory_size ≡ s.memory_size)
      ⊎ IsRegion (scan s mmap).memory_start (scan s mmap).memory_size mmap
unfolding scan
scan-IsRegion s [] = inl (refl, refl)
scan-IsRegion s (e ∷ mmap) = elim (scan-IsRegion (scan_entry s e) mmap) [
  | inl q ↦ elim (Bool-cases (e.kind == 1 && ltb s.memory_size e.len)) [
    | inl c ↦ inr (inl (ground arith))
    | inr c ↦ inl (ground arith)
  ]
  | inr r ↦ inr (inr r)
]

-- A frame that `pmm_alloc_frame` hands out lowers `pmm_get_free_memory` by one page.
pub get_free_memory-alloc_frame :
    {limit : ℕ} (p : Pmm)
    → Invariant limit p.buddy
    → (alloc_frame p).0 ≢ 0
    → get_free_memory (alloc_frame p).1 ≡ sub64 (get_free_memory p) page_size
unfolding alloc_frame get_free_memory
get_free_memory-alloc_frame p i ne = elim (Bool-cases p.buddy_initialized) [
  | inl c ↦ rw c (elim (Bool-cases ((alloc_pages p.buddy 0 zone_unmovable).0 == 0)) [
    | inl d ↦ absurd (ne (rw (c, d)))
    | inr d ↦ rw d (omega (arith, get_free_pages-alloc_pages i 0 zone_unmovable (ground arith)))
  ])
  | inr c ↦ absurd (ne (rw c))
]
