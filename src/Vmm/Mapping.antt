-- ===== src/Vmm/Mapping.antt =====
-- `vmm_map_page`, `vmm_unmap_page` and `vmm_get_physical_address` together.
use black_kernel.Base.{
  ℕ, zero, suc, ◌+◌, ◌*◌, ◌/◌, ◌%◌, ◌^◌, ◌<◌, ◌≡◌, refl, ◌≢◌, true, false, ◌&&◌, none, some, sym,
  subst, ap, ◌∙◌, bit_and, bit_or, arith, ltb, leb, ◌==◌, if◌then◌else◌, update, update_self,
  update_ne, bit_and_mask, bit_or_low,
}
use black_kernel.Pmm.{Pmm, alloc_frame}
use black_kernel.Vmm.{
  Words, Vm, flag_present, flag_writable, index_at, slot, is_absent, entry_address, zero_words,
  get_or_alloc, leaf_entry, map_page, next_table, find_pt, unmap_page, get_physical_address,
}
use black_kernel.Vmm.Entries.{leaf_entry_lem, table_entry_lem, is_absent_lem}

-- The walk for an address goes through these three tables, none of them null.
pub record Walk (words : Words) (pml4 virt pdpt pd pt : ℕ) : Type 0 where
  pub first : next_table words pml4 (index_at 39 virt) ≡ some pdpt
  pub second : next_table words pdpt (index_at 30 virt) ≡ some pd
  pub third : next_table words pd (index_at 21 virt) ≡ some pt
  pub pdpt_ne : pdpt ≢ 0
  pub pd_ne : pd ≢ 0
  pub pt_ne : pt ≢ 0

-- The word at `a` is none of those that the walk reads.
pub record Spares (pml4 virt pdpt pd a : ℕ) : Type 0 where
  pub first : slot pml4 (index_at 39 virt) ≢ a
  pub second : slot pdpt (index_at 30 virt) ≢ a
  pub third : slot pd (index_at 21 virt) ≢ a

-- A present entry is not replaced.
get_or_alloc-present :
    (v : Vm) (table index next : ℕ)
    → next_table v.words table index ≡ some next
    → get_or_alloc v table index ≡ (next, v)
unfolding get_or_alloc next_table
get_or_alloc-present v table index next e = ground arith

next_table-update :
    (words : Words) (table index a x : ℕ)
    → slot table index ≢ a
    → next_table (update words a x) table index ≡ next_table words table index
unfolding next_table
next_table-update words table index a x ne =
    rw (update_ne words a x (slot table index) (λ q. ne (sym q)))

-- What the two operations do once the walk has found the last table.
get_physical_address-found :
    (words : Words) (pml4 virt pt : ℕ)
    → find_pt words pml4 virt ≡ some pt
    → get_physical_address words pml4 virt ≡ (
        if is_absent (words (slot pt (index_at 12 virt)))
        then 0
        else bit_or (entry_address (words (slot pt (index_at 12 virt)))) (bit_and virt 0xFFF))
unfolding get_physical_address
get_physical_address-found words pml4 virt pt e = rw (get_physical_address, e)

unmap_page-found :
    (words : Words) (pml4 virt pt : ℕ)
    → find_pt words pml4 virt ≡ some pt
    → unmap_page words pml4 virt ≡ update words (slot pt (index_at 12 virt)) 0
unfolding unmap_page
unmap_page-found words pml4 virt pt e = rw (unmap_page, e)

module _ {words : Words} {pml4 virt pdpt pd pt : ℕ} (walk : Walk words pml4 virt pdpt pd pt) where
  pub find_pt-Walk : find_pt words pml4 virt ≡ some pt
  unfolding find_pt
  find_pt-Walk = rw (walk.first, walk.second, walk.third)

  -- A write beside the tables of the walk leaves the walk as it is.
  pub find_pt-update :
      (a x : ℕ) → Spares pml4 virt pdpt pd a → find_pt (update words a x) pml4 virt ≡ some pt
  unfolding find_pt
  find_pt-update a x spares = rw (
    next_table-update words pml4 (index_at 39 virt) a x spares.first,
    walk.first,
    next_table-update words pdpt (index_at 30 virt) a x spares.second,
    walk.second,
    next_table-update words pd (index_at 21 virt) a x spares.third,
    walk.third,
  )

  map_page-words :
      (pmm : Pmm) (phys flags : ℕ)
      → (map_page (record { pmm = pmm; words = words }) pml4 virt phys flags).words
        ≡ update words (slot pt (index_at 12 virt)) (leaf_entry phys flags)
  unfolding map_page
  map_page-words pmm phys flags =
      let v : Vm = record { pmm = pmm; words = words } in
      let pdpt_ne : (pdpt == 0) ≡ false = ground (arith, walk.pdpt_ne) in
      let pd_ne : (pd == 0) ≡ false = ground (arith, walk.pd_ne) in
      let pt_ne : (pt == 0) ≡ false = ground (arith, walk.pt_ne) in
      rw (
        get_or_alloc-present v pml4 (index_at 39 virt) pdpt walk.first,
        get_or_alloc-present v pdpt (index_at 30 virt) pd walk.second,
        get_or_alloc-present v pd (index_at 21 virt) pt walk.third,
        pdpt_ne,
        pd_ne,
        pt_ne,
      )

  -- After `vmm_map_page`, where the tables of the address are there and the entry written is not one
  -- of the three on the way to it, the address translates to the page's address, bits 12 to 51, with
  -- the offset in the page.
  pub get_physical_address-map_page :
      (pmm : Pmm) (phys flags : ℕ)
      → Spares pml4 virt pdpt pd (slot pt (index_at 12 virt))
      → get_physical_address
          (map_page (record { pmm = pmm; words = words }) pml4 virt phys flags).words
          pml4
          virt
        ≡ phys / 2 ^ 12 % 2 ^ 40 * 2 ^ 12 + virt % 2 ^ 12
  get_physical_address-map_page pmm phys flags spares =
      let at = slot pt (index_at 12 virt) in
      let (present, address) = leaf_entry_lem phys flags in
      ap (λ ws. get_physical_address ws pml4 virt) (map_page-words pmm phys flags)
      ∙ get_physical_address-found (update words at (leaf_entry phys flags)) pml4 virt pt
          (find_pt-update at (leaf_entry phys flags) spares)
      ∙ rw (update_self words at (leaf_entry phys flags), present, address, bit_and_mask 12 virt)
          (bit_or_low 12 (phys / 2 ^ 12 % 2 ^ 40) (virt % 2 ^ 12) (omega arith))

  -- After `vmm_unmap_page`, where the tables of the address are there and the entry cleared is not
  -- one of the three on the way to it, the address is not mapped.
  pub get_physical_address-unmap_page :
      Spares pml4 virt pdpt pd (slot pt (index_at 12 virt))
      → get_physical_address (unmap_page words pml4 virt) pml4 virt ≡ 0
  get_physical_address-unmap_page spares =
      let at = slot pt (index_at 12 virt) in
      ap (λ ws. get_physical_address ws pml4 virt)
        (unmap_page-found words pml4 virt pt find_pt-Walk)
      ∙ get_physical_address-found (update words at 0) pml4 virt pt (find_pt-update at 0 spares)
      ∙ rw (update_self words at 0, is_absent_lem)

-- `vmm_map_page` of one page, where the tables of its address are there, leaves the translation of
-- another address alone: one whose tables are there, whose last entry is another word than the one
-- written, and for which that word is not on the way either.
pub get_physical_address-map_page_ne :
    {words : Words} {pml4 virt pdpt pd pt virt' pdpt' pd' pt' : ℕ} (pmm : Pmm) (phys flags : ℕ)
    → Walk words pml4 virt pdpt pd pt
    → Walk words pml4 virt' pdpt' pd' pt'
    → Spares pml4 virt' pdpt' pd' (slot pt (index_at 12 virt))
    → slot pt' (index_at 12 virt') ≢ slot pt (index_at 12 virt)
    → get_physical_address
        (map_page (record { pmm = pmm; words = words }) pml4 virt phys flags).words
        pml4
        virt'
      ≡ get_physical_address words pml4 virt'
get_physical_address-map_page_ne {words} {pml4} {virt} {pdpt} {pd} {pt} {virt'} {pdpt'} {pd'} {pt'}
      pmm phys flags walk walk' spares ne =
    let at = slot pt (index_at 12 virt) in
    ap (λ ws. get_physical_address ws pml4 virt') (map_page-words walk pmm phys flags)
    ∙ get_physical_address-found (update words at (leaf_entry phys flags)) pml4 virt' pt'
        (find_pt-update walk' at (leaf_entry phys flags) spares)
    ∙ rw
        (update_ne words at (leaf_entry phys flags) (slot pt' (index_at 12 virt'))
          (λ q. ne (sym q)))
        (sym (get_physical_address-found words pml4 virt' pt' (find_pt-Walk walk')))

next_table-present :
    (words : Words) (table index entry frame : ℕ)
    → is_absent entry ≡ false
    → entry_address entry ≡ frame
    → next_table (update words (slot table index) entry) table index ≡ some frame
unfolding next_table
next_table-present words table index entry frame present address =
    rw (update_self words (slot table index) entry, present, address)

next_table-absent :
    (words : Words) (table index a entry : ℕ)
    → a ≢ slot table index
    → words (slot table index) ≡ 0
    → next_table (update words a entry) table index ≡ none
unfolding next_table
next_table-absent words table index a entry apart e =
    rw (update_ne words a entry (slot table index) apart, e)
      (subst (λ b. (if b then none else some (entry_address 0)) ≡ none) (sym (is_absent_lem 0))
        refl)

-- Every word of a new table is 0.
zero_words_lem :
    (rounds i : ℕ) (words : Words) (frame j : ℕ)
    → zero_words rounds i words frame (slot frame j)
      ≡ (if leb i j && ltb j (i + rounds) then 0 else words (slot frame j))
unfolding zero_words
zero_words_lem zero i words frame j = ground arith
zero_words_lem (suc rounds) i words frame j =
    ground (arith, zero_words_lem rounds (i + 1) (update words (slot frame i) 0) frame j)

-- Where an entry is absent and there is a frame at a multiple of 4096 below 2^52, `get_or_alloc`
-- returns the frame, the entry leads to it, and no entry of the new table leads on, each of them
-- being another word than the entry.
pub get_or_alloc-empty :
    (v : Vm) (table index j : ℕ)
    → is_absent (v.words (slot table index)) ≡ true
    → (alloc_frame v.pmm).0 ≢ 0
    → (alloc_frame v.pmm).0 % 2 ^ 12 ≡ 0
    → (alloc_frame v.pmm).0 < 2 ^ 52
    → slot table index ≢ slot (alloc_frame v.pmm).0 j
    → j < 512
    → ((get_or_alloc v table index).0 ≡ (alloc_frame v.pmm).0)
      × (next_table (get_or_alloc v table index).1.words table index ≡ some (alloc_frame v.pmm).0)
      × (next_table (get_or_alloc v table index).1.words (alloc_frame v.pmm).0 j ≡ none)
unfolding get_or_alloc
get_or_alloc-empty v table index j absent ne aligned small apart below =
    let frame = (alloc_frame v.pmm).0 in
    let entry = bit_or (bit_or frame flag_present) flag_writable in
    let (present, address) = table_entry_lem frame aligned small in
    let ne' : (frame == 0) ≡ false = ground arith in
    let cleared = zero_words 512 0 v.words frame in
    let zero_j : cleared (slot frame j) ≡ 0 = zero_words_lem 512 0 v.words frame j ∙ ground arith in
    rw (absent, ne')
      (
        address,
        next_table-present cleared table index entry frame present address,
        next_table-absent cleared frame j (slot table index) entry apart zero_j,
      )
