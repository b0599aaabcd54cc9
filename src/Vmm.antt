-- ===== src/Vmm.antt =====
-- The page tables, kernel/mm/vmm.c. A table is an array of 512 words of eight bytes; `words` is the
-- memory as a function from the address of a word to the word, and the frame allocator's state
-- stands beside it. `vmm_init` and `vmm_switch_address_space` do nothing.
pub mod Tests
pub mod Entries
pub mod Mapping
use black_kernel.Base.{
  ℕ, zero, suc, ◌+◌, ◌*◌, ◌/◌, ◌^◌, bit_and, bit_or, Bool, Option, none, some, ◌>>=◌, ◌==◌,
  if◌then◌else◌, update,
}
use black_kernel.Pmm.{Pmm, alloc_frame}

abbrev pub Words : Type 0
Words = ℕ → ℕ

pub record Vm : Type 0 where
  pub pmm : Pmm
  pub words : Words

abbrev pub flag_present : ℕ
flag_present = 0x001

abbrev pub flag_writable : ℕ
flag_writable = 0x002

abbrev pub flag_user : ℕ
flag_user = 0x004

abbrev pub addr_mask : ℕ
addr_mask = 0x000FFFFFFFFFF000

-- `ADDR_PML4_INDEX` and its kin: nine bits of the address from `shift` on.
unfoldable pub index_at : ℕ → ℕ → ℕ
index_at shift virt = bit_and (virt / 2 ^ shift) 0x1FF

abbrev pub slot : ℕ → ℕ → ℕ
slot table index = table + index * 8

-- `e & VMM_FLAG_PRESENT`, and the address in the entry.
unfoldable pub is_absent : ℕ → Bool
is_absent e = bit_and e flag_present == 0

unfoldable pub entry_address : ℕ → ℕ
entry_address e = bit_and e addr_mask

-- `for (i...; i < PAGE_SIZE / 8; i++) virt_to_ptr(frame)[i] = 0`
unfoldable pub zero_words : ℕ → ℕ → Words → ℕ → Words
zero_words zero i words frame = words
zero_words (suc rounds) i words frame =
    zero_words rounds (i + 1) (update words (slot frame i) 0) frame

-- A null pointer is 0.
unfoldable pub get_or_alloc : Vm → ℕ → ℕ → ℕ × Vm
unfolding is_absent entry_address
get_or_alloc v table index =
    if is_absent (v.words (slot table index))
    then (let (frame, pmm) = alloc_frame v.pmm in
        let e = bit_or (bit_or frame flag_present) flag_writable in
        if frame == 0 then (0, record v { pmm = pmm }) else (
          entry_address e,
          record {
            pmm = pmm;
            words = update (zero_words 512 0 v.words frame) (slot table index) e;
          },
        ))
    else (entry_address (v.words (slot table index)), v)

unfoldable pub create_address_space : Vm → ℕ × Vm
create_address_space v =
    let (frame, pmm) = alloc_frame v.pmm in
    if frame == 0
    then (0, record v { pmm = pmm })
    else (frame, record { pmm = pmm; words = zero_words 512 0 v.words frame })

-- The word that `vmm_map_page` writes.
unfoldable pub leaf_entry : ℕ → ℕ → ℕ
leaf_entry phys flags = bit_or (bit_or (bit_and phys addr_mask) (bit_and flags 0xFFF)) flag_present

unfoldable pub map_page : Vm → ℕ → ℕ → ℕ → ℕ → Vm
unfolding get_or_alloc index_at leaf_entry
map_page v pml4 virt phys flags =
    let (pdpt, v1) = get_or_alloc v pml4 (index_at 39 virt) in
    let (pd, v2) = get_or_alloc v1 pdpt (index_at 30 virt) in
    let (pt, v3) = get_or_alloc v2 pd (index_at 21 virt) in
    if pdpt == 0
    then v1
    else if pd == 0
    then v2
    else if pt == 0
    then v3
    else record v3 { words = update v3.words (slot pt (index_at 12 virt)) (leaf_entry phys flags) }

-- The table that an entry of a table points to, if it is present.
unfoldable pub next_table : Words → ℕ → ℕ → Option ℕ
unfolding is_absent entry_address
next_table words table index =
    if is_absent (words (slot table index))
    then none
    else some (entry_address (words (slot table index)))

-- The walk down to the last table, which `vmm_unmap_page` and `vmm_get_physical_address` share.
unfoldable pub find_pt : Words → ℕ → ℕ → Option ℕ
unfolding next_table index_at
find_pt words pml4 virt = do
  pdpt ← next_table words pml4 (index_at 39 virt)
  pd ← next_table words pdpt (index_at 30 virt)
  next_table words pd (index_at 21 virt)

unfoldable pub unmap_page : Words → ℕ → ℕ → Words
unmap_page words pml4 virt = elim (find_pt words pml4 virt) [
  | none ↦ words
  | some pt ↦ update words (slot pt (index_at 12 virt)) 0
]

-- 0 where the page is not mapped.
unfoldable pub get_physical_address : Words → ℕ → ℕ → ℕ
get_physical_address words pml4 virt = elim (find_pt words pml4 virt) [
  | none ↦ 0
  | some pt ↦
      if is_absent (words (slot pt (index_at 12 virt)))
      then 0
      else bit_or (entry_address (words (slot pt (index_at 12 virt)))) (bit_and virt 0xFFF)
]
