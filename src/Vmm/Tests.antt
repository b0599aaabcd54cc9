-- ===== src/Vmm/Tests.antt =====
-- The page tables (kernel/mm/vmm.c) of an address space with one table of each level.
use black_kernel.Base.{
  ◌+◌, ◌*◌, ◌/◌, ◌%◌, ◌^◌, ◌≡◌, ◌≢◌, refl, true, some, none, arith, ◌==◌, if◌then◌else◌,
}
use black_kernel.Buddy.{
  alloc_pages, alloc_block, find_order, split, take_block, add_block, list_remove, list_add,
  pages_to_bytes, bytes_to_pages, addr_to_page_index, sanitize,
}
use black_kernel.Buddy.Init.{init, carve, choose_order}
use black_kernel.Pmm.{Pmm, alloc_frame}
use black_kernel.Vmm.{
  Words, Vm, is_absent, entry_address, index_at, next_table, slot, get_or_alloc, map_page,
  get_physical_address,
}
use black_kernel.Vmm.Mapping.{
  Walk, Spares, get_physical_address-map_page, get_physical_address-map_page_ne, get_or_alloc-empty,
}

abbrev words : Words
words = λ a.
    if a == 0x1000
    then 0x2003
    else if a == 0x2000
    then 0x3003
    else if a == 0x3000
    then 0x4003
    else 0

abbrev pmm : Pmm
pmm = record {
  buddy = init 0x100000 0x4000;
  pmm_total = 0;
  pmm_free = 0x4000;
  buddy_initialized = true;
}

low-Walk : Walk words 0x1000 0x5123 0x2000 0x3000 0x4000
unfolding next_table is_absent entry_address index_at
low-Walk = record {
  first = refl;
  second = refl;
  third = refl;
  pdpt_ne = λ e. absurd (omega (arith, e));
  pd_ne = λ e. absurd (omega (arith, e));
  pt_ne = λ e. absurd (omega (arith, e));
}

next-Walk : Walk words 0x1000 0x6456 0x2000 0x3000 0x4000
unfolding next_table is_absent entry_address index_at
next-Walk = record {
  first = refl;
  second = refl;
  third = refl;
  pdpt_ne = λ e. absurd (omega (arith, e));
  pd_ne = λ e. absurd (omega (arith, e));
  pt_ne = λ e. absurd (omega (arith, e));
}

low-Spares : Spares 0x1000 0x5123 0x2000 0x3000 (slot 0x4000 (index_at 12 0x5123))
unfolding index_at
low-Spares = record {
  first = λ e. absurd (omega (arith, e));
  second = λ e. absurd (omega (arith, e));
  third = λ e. absurd (omega (arith, e));
}

next-Spares : Spares 0x1000 0x6456 0x2000 0x3000 (slot 0x4000 (index_at 12 0x5123))
unfolding index_at
next-Spares = record {
  first = λ e. absurd (omega (arith, e));
  second = λ e. absurd (omega (arith, e));
  third = λ e. absurd (omega (arith, e));
}

other_slot : slot 0x4000 (index_at 12 0x6456) ≢ slot 0x4000 (index_at 12 0x5123)
unfolding index_at
other_slot e = absurd (omega (arith, e))

get_physical_address-map_page_example :
    get_physical_address
      (map_page (record { pmm = pmm; words = words }) 0x1000 0x5123 0x77000 3).words
      0x1000
      0x5123
    ≡ 0x77000 / 2 ^ 12 % 2 ^ 40 * 2 ^ 12 + 0x5123 % 2 ^ 12
get_physical_address-map_page_example =
    get_physical_address-map_page low-Walk pmm 0x77000 3 low-Spares

get_physical_address-map_page_ne_example :
    get_physical_address
      (map_page (record { pmm = pmm; words = words }) 0x1000 0x5123 0x77000 3).words
      0x1000
      0x6456
    ≡ get_physical_address words 0x1000 0x6456
get_physical_address-map_page_ne_example =
    get_physical_address-map_page_ne pmm 0x77000 3 low-Walk next-Walk next-Spares other_slot

abbrev vm : Vm
vm = record { pmm = pmm; words = words }

frame : (alloc_frame pmm).0 ≡ 0x100000
unfolding alloc_frame alloc_pages init carve choose_order alloc_block find_order split take_block
    add_block list_remove list_add pages_to_bytes bytes_to_pages addr_to_page_index sanitize
frame = refl

frame_ne : (alloc_frame pmm).0 ≢ 0
frame_ne e = absurd (omega (arith, frame, e))

no_entry : is_absent (words (slot 0x1000 7)) ≡ true
unfolding is_absent
no_entry = refl

get_or_alloc-empty_example :
    ((get_or_alloc vm 0x1000 7).0 ≡ (alloc_frame pmm).0)
    × (next_table (get_or_alloc vm 0x1000 7).1.words 0x1000 7 ≡ some (alloc_frame pmm).0)
    × (next_table (get_or_alloc vm 0x1000 7).1.words (alloc_frame pmm).0 3 ≡ none)
get_or_alloc-empty_example =
    get_or_alloc-empty vm 0x1000 7 3 no_entry frame_ne (omega (arith, frame)) (omega (arith, frame))
      (λ e. absurd (omega (arith, frame, e))) (omega arith)
