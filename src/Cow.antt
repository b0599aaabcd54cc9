-- ===== src/Cow.antt =====
-- Copy-on-write pages, kernel/mm/cow.c and include/mm/cow.h: reference counts of physical pages in a
-- hash table, and the two operations that set and resolve the copy-on-write bit of a page table entry.
-- The `page_ref_t` structures are records by address, a chain is the list of the addresses on it.
-- The locks make each operation one step; a TLB flush changes no state of the model.
pub mod Tests
pub mod Counts
pub mod Entries
pub mod Copy
use black_kernel.Base.{
  ℕ, zero, suc, ◌+◌, ◌-◌, ◌*◌, ◌/◌, ◌%◌, ◌^◌, bit_and, bit_or, Bool, true, false, not, Option, none,
  some, List, [], ◌∷◌, ltb, leb, ◌==◌, ◌&&◌, ◌||◌, if◌then◌else◌, update, u64, add32, sub32, ℤ, pos,
  negsuc,
}
use black_kernel.Buddy.{Buddy, alloc_pages, free_pages, list_remove, zone_unmovable}
use black_kernel.Vmm.{
  Words, flag_writable, addr_mask, index_at, slot, is_absent, entry_address, find_pt,
}

pub record PageRef : Type 0 where
  pub physical_address : ℕ
  pub ref_count : ℕ

-- The table of references, with the page tables' words and the allocator that it uses.
pub record Cow : Type 0 where
  pub hash_table : ℕ → List ℕ
  pub refs : ℕ → PageRef
  pub words : Words
  pub buddy : Buddy

abbrev pub cow_flag_mask : ℕ
cow_flag_mask = 0x200

abbrev pub cow_hash_mask : ℕ
cow_hash_mask = 1023

-- `phys_addr &= ~0xFFFULL`
unfoldable pub page_of : ℕ → ℕ
page_of phys_addr = bit_and phys_addr (u64 - 0x1000)

unfoldable pub hash : ℕ → ℕ
unfolding page_of
hash phys_addr = bit_and (page_of phys_addr / 2 ^ 12) cow_hash_mask

unfoldable pub init : Cow → Cow
init c = record c { hash_table = λ i. [] }

-- The address of the page table entry, 0 where a table on the way is missing.
unfoldable pub get_pte : Words → ℕ → ℕ → ℕ
get_pte words pml4 virt = elim (find_pt words pml4 virt) [
  | none ↦ 0
  | some pt ↦ slot pt (index_at 12 virt)
]

-- The walk along a chain.
unfoldable pub find : (ℕ → PageRef) → List ℕ → ℕ → Option ℕ
find refs [] phys = none
find refs (a ∷ chain) phys =
    if (refs a).physical_address == phys then some a else find refs chain phys

unfoldable pub find_ref : Cow → ℕ → Option ℕ
find_ref c phys = find c.refs (c.hash_table (hash phys)) phys

-- The reference entry of the page, which may be new; 0 where there is no memory for it.
unfoldable pub get_ref : Cow → ℕ → ℕ × Cow
get_ref c phys_addr = elim (find_ref c (page_of phys_addr)) [
  | some ref ↦ (ref, c)
  | none ↦
      let (ref, buddy) = alloc_pages c.buddy 0 zone_unmovable in
      if ref == 0
      then (0, record c { buddy = buddy })
      else (let at = hash (page_of phys_addr) in
          (
            ref,
            record c {
              buddy = buddy;
              refs =
                  update c.refs ref
                    (record { physical_address = page_of phys_addr; ref_count = 0 });
              hash_table = update c.hash_table at (ref ∷ c.hash_table at);
            },
          ))
]

-- `ref->ref_count = n`
unfoldable pub set_count : Cow → ℕ → ℕ → Cow
set_count c ref n = record c { refs = update c.refs ref (record (c.refs ref) { ref_count = n }) }

-- `entry &= ~VMM_FLAG_WRITABLE; entry |= COW_FLAG_MASK;` and the reverse.
unfoldable pub to_shared : ℕ → ℕ
to_shared entry = bit_or (bit_and entry (u64 - 1 - flag_writable)) cow_flag_mask

unfoldable pub to_private : ℕ → ℕ
to_private entry = bit_and (bit_or entry flag_writable) (u64 - 1 - cow_flag_mask)

unfoldable pub mark_page : Cow → ℕ → ℕ → ℤ × Cow
mark_page c pml4 virt =
    let pte = get_pte c.words pml4 virt in
    let entry = c.words pte in
    if pml4 == 0
    then (negsuc 0, c)
    else if pte == 0
    then (negsuc 0, c)
    else if is_absent entry
    then (negsuc 0, c)
    else (let (ref, c1) = get_ref c (entry_address entry) in
        if ref == 0
        then (negsuc 0, c1)
        else (let c2 = set_count c1 ref (add32 (c1.refs ref).ref_count 1) in
            (pos 0, record c2 { words = update c2.words pte (to_shared entry) })))

-- The copy of a page, whose 4096 bytes are 512 words.
unfoldable pub copy_page : ℕ → ℕ → Words → ℕ → ℕ → Words
copy_page zero i words new old = words
copy_page (suc rounds) i words new old =
    copy_page rounds (i + 1) (update words (slot new i) (words (slot old i))) new old

-- `(new_phys & 0x000FFFFFFFFFF000) | (entry & 0xFFF)`
unfoldable pub moved_entry : ℕ → ℕ → ℕ
moved_entry new_phys entry = bit_or (bit_and new_phys addr_mask) (bit_and entry 0xFFF)

-- The part of `cow_handle_fault` for a page with other references.
unfoldable pub copy_shared : Cow → ℕ → ℕ → ℕ → ℤ × Cow
copy_shared c pte entry ref =
    let c1 = set_count c ref (sub32 (c.refs ref).ref_count 1) in
    let (new_phys, buddy) = alloc_pages c1.buddy 0 zone_unmovable in
    let c2 : Cow = record c1 { buddy = buddy } in
    if new_phys == 0 then (negsuc 0, set_count c2 ref (add32 (c2.refs ref).ref_count 1)) else (
      pos 0,
      record c2 {
        words =
            update (copy_page 512 0 c2.words new_phys (entry_address entry)) pte
              (to_private (moved_entry new_phys entry));
      },
    )

unfoldable pub handle_fault : Cow → ℕ → ℕ → ℤ × Cow
handle_fault c pml4 virt =
    let pte = get_pte c.words pml4 virt in
    let entry = c.words pte in
    if pte == 0
    then (negsuc 0, c)
    else if is_absent entry
    then (negsuc 0, c)
    else if bit_and entry cow_flag_mask == 0
    then (negsuc 0, c)
    else (let (ref, c1) = get_ref c (entry_address entry) in
        if ref == 0
        then (negsuc 0, c1)
        else if (c1.refs ref).ref_count == 1
        then (let c2 = set_count c1 ref (sub32 (c1.refs ref).ref_count 1) in
            (pos 0, record c2 { words = update c2.words pte (to_private entry) }))
        else copy_shared c1 pte entry ref)

unfoldable pub increment_ref : Cow → ℕ → Cow
increment_ref c phys_addr =
    let (ref, c1) = get_ref c phys_addr in
    if ref == 0 then c1 else set_count c1 ref (add32 (c1.refs ref).ref_count 1)

unfoldable pub decrement_ref : Cow → ℕ → Cow
decrement_ref c phys_addr = elim (find_ref c (page_of phys_addr)) [
  | none ↦ c
  | some ref ↦
      let count = sub32 (c.refs ref).ref_count 1 in
      let at = hash (page_of phys_addr) in
      let c1 = set_count c ref count in
      if count == 0
      then record c1 {
        hash_table = update c1.hash_table at (list_remove (c1.hash_table at) ref);
        buddy = free_pages (free_pages c1.buddy (page_of phys_addr) 0) ref 0;
      }
      else c1
]

unfoldable pub get_ref_count : Cow → ℕ → ℕ
get_ref_count c phys_addr = elim (find_ref c (page_of phys_addr)) [
  | none ↦ 0
  | some ref ↦ (c.refs ref).ref_count
]
