-- ===== src/Vmm/Entries.antt =====
-- The fields of a page table entry (vmm.c) as numbers.
use black_kernel.Base.{
  ℕ, ◌+◌, ◌-◌, ◌*◌, ◌/◌, ◌%◌, ◌^◌, ◌<◌, ◌≡◌, false, bit_or, arith, ◌==◌, bit_and_mask,
  bit_and_shift, bit_or_split, bit_or_low, bit_or_one, bit_or-zero, ◌∙◌,
}
use black_kernel.Vmm.{flag_present, flag_writable, is_absent, entry_address, leaf_entry}

-- The address in an entry is its bits 12 to 51.
pub entry_address_lem : (e : ℕ) → entry_address e ≡ e / 2 ^ 12 % 2 ^ 40 * 2 ^ 12
unfolding entry_address
entry_address_lem e = rw (bit_and_shift 12 (2 ^ 40 - 1) e, bit_and_mask 40 (e / 2 ^ 12))

pub is_absent_lem : (e : ℕ) → is_absent e ≡ (e % 2 == 0)
unfolding is_absent
is_absent_lem e = rw (bit_and_mask 1 e)

-- The word that `vmm_map_page` writes, as a number: the page's address, and the flags with the lowest
-- one set.
leaf_entry_sum :
    (phys flags : ℕ)
    → leaf_entry phys flags ≡ (phys / 2 ^ 12 % 2 ^ 40 * 2 ^ 12 + flags % 2 ^ 12) / 2 * 2 + 1
unfolding leaf_entry
leaf_entry_sum phys flags = rw (
  bit_and_shift 12 (2 ^ 40 - 1) phys,
  bit_and_mask 40 (phys / 2 ^ 12),
  bit_and_mask 12 flags,
  bit_or_low 12 (phys / 2 ^ 12 % 2 ^ 40) (flags % 2 ^ 12) (omega arith),
  bit_or_one,
)

-- Such an entry is present, and its address is the page's.
pub leaf_entry_lem :
    (phys flags : ℕ)
    → (is_absent (leaf_entry phys flags) ≡ false)
      × (entry_address (leaf_entry phys flags) ≡ phys / 2 ^ 12 % 2 ^ 40 * 2 ^ 12)
leaf_entry_lem phys flags = (
  rw (is_absent_lem (leaf_entry phys flags)) (ground (arith, leaf_entry_sum phys flags)),
  entry_address_lem (leaf_entry phys flags) ∙ omega (arith, leaf_entry_sum phys flags),
)

-- The entry for a new table at `frame`: present, with the address of the frame.
pub table_entry_lem :
    (frame : ℕ)
    → frame % 2 ^ 12 ≡ 0
    → frame < 2 ^ 52
    → (is_absent (bit_or (bit_or frame flag_present) flag_writable) ≡ false)
      × (entry_address (bit_or (bit_or frame flag_present) flag_writable) ≡ frame)
table_entry_lem frame aligned small =
    (rw (is_absent_lem entry) (ground (arith, sum)), entry_address_lem entry ∙ omega (arith, sum))
  where
    entry : ℕ
    entry = bit_or (bit_or frame flag_present) flag_writable

    low : bit_or frame flag_present ≡ frame + 1
    low = omega (arith, bit_or_one frame)

    above : (frame + 1) / 2 ^ 12 ≡ frame / 2 ^ 12
    above = omega arith

    below : (frame + 1) % 2 ^ 12 ≡ 1
    below = omega arith

    sum : entry ≡ frame + 3
    sum = rw (low, bit_or_split 12 (frame + 1) 2, above, below, bit_or-zero) (omega arith)
