-- ===== src/Cow/Entries.antt =====
-- The entry that `cow_handle_fault` (kernel/mm/cow.c) writes for a copied page, as a number.
use black_kernel.Base.{
  ℕ, zero, suc, ◌+◌, ◌-◌, ◌*◌, ◌/◌, ◌%◌, ◌^◌, ◌<◌, ◌≡◌, refl, bit_and, bit_or, arith, bit_and_mask,
  bit_and_shift, bit_and_split, bit_or_split, bit_or_low, bit_or-zero, ◌∙◌, u64,
}
use black_kernel.Vmm.{entry_address}
use black_kernel.Vmm.Entries.{entry_address_lem}
use black_kernel.Cow.{to_private, moved_entry}

moved_entry_sum :
    (new entry : ℕ) → moved_entry new entry ≡ new / 2 ^ 12 % 2 ^ 40 * 2 ^ 12 + entry % 2 ^ 12
unfolding moved_entry
moved_entry_sum new entry = rw (
  bit_and_shift 12 (2 ^ 40 - 1) new,
  bit_and_mask 40 (new / 2 ^ 12),
  bit_and_mask 12 entry,
  bit_or_low 12 (new / 2 ^ 12 % 2 ^ 40) (entry % 2 ^ 12) (omega arith),
)

low_or_two : (r : ℕ) → r < 4 → bit_or r 2 ≡ 2 + r % 2
low_or_two zero lt = refl
low_or_two (suc zero) lt = refl
low_or_two (suc (suc zero)) lt = refl
low_or_two (suc (suc (suc zero))) lt = refl
low_or_two (suc (suc (suc (suc r)))) lt = absurd (omega arith)

bit_or_two : (e : ℕ) → bit_or e 2 ≡ e / 4 * 4 + 2 + e % 2
bit_or_two e =
    rw (bit_or_split 2 e 2, bit_or-zero, low_or_two (e % 2 ^ 2) (omega arith)) (omega arith)

bit_and_not_cow : (x : ℕ) → bit_and x (u64 - 1 - 0x200) ≡ x / 2 ^ 10 % 2 ^ 54 * 2 ^ 10 + x % 2 ^ 9
bit_and_not_cow x =
    rw
      (
        bit_and_split 10 x (u64 - 1 - 0x200),
        bit_and_mask 54 (x / 2 ^ 10),
        bit_and_mask 9 (x % 2 ^ 10),
      )
      (omega arith)

to_private_sum :
    (e : ℕ)
    → to_private e
      ≡ (e / 4 * 4 + 2 + e % 2) / 2 ^ 10 % 2 ^ 54 * 2 ^ 10 + (e / 4 * 4 + 2 + e % 2) % 2 ^ 9
unfolding to_private
to_private_sum e = rw (bit_or_two e, bit_and_not_cow (e / 4 * 4 + 2 + e % 2))

-- An entry for the page `new` that is writable and not shared, with the other flags of `entry`.
pub record LeadsTo (new entry word : ℕ) : Type 0 where
  pub page : entry_address word ≡ new
  pub writable : word / 2 % 2 ≡ 1
  pub not_shared : word / 2 ^ 9 % 2 ≡ 0
  pub present : word % 2 ≡ entry % 2
  pub middle : word / 2 ^ 2 % 2 ^ 7 ≡ entry / 2 ^ 2 % 2 ^ 7
  pub upper : word / 2 ^ 10 % 2 ^ 2 ≡ entry / 2 ^ 10 % 2 ^ 2

pub moved_entry-LeadsTo :
    (new entry : ℕ)
    → new % 2 ^ 12 ≡ 0
    → new < 2 ^ 52
    → LeadsTo new entry (to_private (moved_entry new entry))
moved_entry-LeadsTo new entry aligned small =
    let e = moved_entry new entry in
    let sum = moved_entry_sum new entry in
    let word = to_private_sum e in
    record {
      page = entry_address_lem (to_private e) ∙ omega (arith, word, sum);
      writable = omega (arith, word, sum);
      not_shared = omega (arith, word, sum);
      present = omega (arith, word, sum);
      middle = omega (arith, word, sum);
      upper = omega (arith, word, sum);
    }
