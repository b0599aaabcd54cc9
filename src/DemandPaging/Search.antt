-- ===== src/DemandPaging/Search.antt =====
-- The search for an address space (`demand_paging_get_address_space`, kernel/mm/demand_paging.c).
use black_kernel.Base.{
  ℕ, zero, suc, ◌+◌, ◌≡◌, refl, false, arith, ◌==◌, none, some, sym, ◌∙◌, subst, update,
  update_self, update_ne,
}
use black_kernel.DemandPaging.{AddressSpace, find_space}

-- The search reads only which page table each space is for.
pub find_space-same :
    (count i : ℕ) (spaces spaces' : ℕ → AddressSpace) (pml4 : ℕ)
    → ((k : ℕ) → (spaces' k).pml4 ≡ (spaces k).pml4)
    → find_space count i spaces' pml4 ≡ find_space count i spaces pml4
unfolding find_space
find_space-same zero i spaces spaces' pml4 same = refl
find_space-same (suc count) i spaces spaces' pml4 same =
    rw (same i, find_space-same count (i + 1) spaces spaces' pml4 same)

pub find_space-here :
    (count i : ℕ) (spaces : ℕ → AddressSpace) (pml4 : ℕ)
    → (spaces i).pml4 ≡ pml4
    → find_space (suc count) i spaces pml4 ≡ some i
unfolding find_space
find_space-here count i spaces pml4 e = ground (arith, e)

pub find_space-later :
    (count i : ℕ) (spaces : ℕ → AddressSpace) (pml4 : ℕ)
    → ((spaces i).pml4 == pml4) ≡ false
    → find_space (suc count) i spaces pml4 ≡ find_space count (i + 1) spaces pml4
unfolding find_space
find_space-later count i spaces pml4 e = rw e

pub find_space-none :
    (count i : ℕ) (spaces : ℕ → AddressSpace) (pml4 : ℕ)
    → find_space (suc count) i spaces pml4 ≡ none
    → ((spaces i).pml4 == pml4) ≡ false
unfolding find_space
find_space-none count i spaces pml4 e = ground (arith, e)

-- A new space behind the others is found where none of them is.
pub find_space-new :
    (count i : ℕ) (spaces : ℕ → AddressSpace) (pml4 : ℕ) (new : AddressSpace)
    → new.pml4 ≡ pml4
    → find_space count i spaces pml4 ≡ none
    → find_space (suc count) i (update spaces (i + count) new) pml4 ≡ some (i + count)
find_space-new zero i spaces pml4 new is none_found =
    let at : i + 0 ≡ i = omega arith in
    rw at (find_space-here 0 i (update spaces i new) pml4 (rw (update_self spaces i new) is))
find_space-new (suc count) i spaces pml4 new is none_found =
    let spaces' = update spaces (i + suc count) new in
    let other = find_space-none count i spaces pml4 none_found in
    let same : spaces' i ≡ spaces i =
      update_ne spaces (i + suc count) new i (λ e. absurd (omega arith)) in
    let at : i + suc count ≡ i + 1 + count = omega arith in
    find_space-later (suc count) i spaces' pml4
      (subst (λ s. (s.pml4 == pml4) ≡ false) (sym same) other)
    ∙ rw at (
        find_space-new count (i + 1) spaces pml4 new is
          (sym (find_space-later count i spaces pml4 other) ∙ none_found))
