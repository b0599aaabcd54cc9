-- ===== src/Cow/Copy.antt =====
-- The copy of a shared page (`cow_handle_fault`, kernel/mm/cow.c).
use black_kernel.Base.{
  ℕ, ◌≤◌, ◌<◌, ◌≡◌, refl, ◌≢◌, Bool-cases, inl, inr, arith, ◌==◌, ap, ◌∙◌, update_self, u32, add32,
  sub32, negsuc,
}
use black_kernel.Buddy.{alloc_pages, zone_unmovable}
use black_kernel.Vmm.{slot}
use black_kernel.Cow.{Cow, set_count, copy_shared}

-- The pages at the two addresses share no word.
abbrev pub AreApart : ℕ → ℕ → Type 0
AreApart new old = (k j : ℕ) → k < 512 → j < 512 → slot new k ≢ slot old j

module _ (c : Cow) (pte entry ref : ℕ) where
  -- The page that the allocator gives once the reference is counted off.
  abbrev pub new_page : ℕ
  new_page = (alloc_pages c.buddy 0 zone_unmovable).0

  -- Where there is no frame for the copy, a fault on a page with other references fails, and
  -- neither the page tables nor any reference count change. The count of the page is at least 1 and
  -- below 2^32.
  pub copy_shared-out_of_memory :
      new_page ≡ 0
      → 1 ≤ (c.refs ref).ref_count
      → (c.refs ref).ref_count < u32
      → ((copy_shared c pte entry ref).0 ≡ negsuc 0)
        × ((copy_shared c pte entry ref).1.words ≡ c.words)
        × ((a : ℕ) → ((copy_shared c pte entry ref).1.refs a).ref_count ≡ (c.refs a).ref_count)
  unfolding copy_shared set_count
  copy_shared-out_of_memory e some_ref fits =
      let back : add32 (sub32 (c.refs ref).ref_count 1) 1 ≡ (c.refs ref).ref_count = omega arith in
      rw e (
        refl,
        refl,
        λ a. elim (Bool-cases (ref == a)) [
          | inl q ↦ rw q (
              ap (λ r. add32 r.ref_count 1) (update_self c.refs ref _)
              ∙ back
              ∙ ap (λ j. (c.refs j).ref_count) (ground (arith, q)))
          | inr q ↦ rw q
        ],
      )
