-- ===== src/DemandPaging/Rounding.antt =====
-- The bounds of a region in whole pages (kernel/mm/demand_paging.c), as numbers.
use black_kernel.Base.{
  ℕ, ◌+◌, ◌-◌, ◌*◌, ◌/◌, ◌^◌, ◌<◌, ◌≡◌, arith, bit_and_mask, bit_and_shift, u64, add64, sub64,
}
use black_kernel.Buddy.{page_size}
use black_kernel.DemandPaging.{align_down, aligned_end}

-- The last multiple of the page size up to `address`.
pub align_down_lem : (address : ℕ) → address < u64 → align_down address ≡ address / 4096 * 4096
unfolding align_down
align_down_lem address below =
    rw (bit_and_shift 12 (2 ^ 52 - 1) address, bit_and_mask 52 (address / 2 ^ 12)) (omega arith)

-- The first multiple of the page size from the end of the bytes on.
pub aligned_end_lem :
    (start size : ℕ)
    → start + size + 4096 < u64
    → aligned_end start size ≡ (start + size + 4095) / 4096 * 4096
unfolding aligned_end
aligned_end_lem start size below =
    let sum : sub64 (add64 (add64 start size) page_size) 1 ≡ start + size + 4095 = omega arith in
    rw sum (align_down_lem (start + size + 4095) (omega arith))
