-- ===== src/Buddy/Bitmap.antt =====
-- The allocation bitmap of buddy.c is a set of pages: a bit that is set or cleared is read back, and
-- the bits of other pages stay.
use black_kernel.Base.{
  ℕ, ◌/◌, ◌%◌, ◌<◌, ◌≡◌, true, false, inl, inr, ap, arith, ltb, ◌==◌, ==_iff, if◌then◌else◌,
  Bool-cases, set_byte, clear_byte,
}
use black_kernel.Buddy.{bitmap_size, set_allocation_bit, clear_allocation_bit, test_allocation_bit}

-- Two pages have the same bit of the same byte only if they are one page.
same_page : (p q : ℕ) → p / 8 ≡ q / 8 → p % 8 ≡ q % 8 → p ≡ q
same_page p q e f = omega arith

module _ (map : ℕ → ℕ) (bytes : (i : ℕ) → map i < 256) (page : ℕ)
    (within : page / 8 < bitmap_size) where
  in_map : ltb (page / 8) bitmap_size ≡ true
  in_map = ground arith

  -- On a bitmap of bytes and for a page that it has a bit for, after `set_allocation_bit` the bit
  -- of the page is 1, and that of every other page as before.
  pub test-set_allocation_bit :
      (q : ℕ)
      → test_allocation_bit (set_allocation_bit map page) q
        ≡ (if page == q then 1 else test_allocation_bit map q)
  unfolding test_allocation_bit set_allocation_bit
  test-set_allocation_bit q = elim (Bool-cases (page / 8 == q / 8)) [
    | inl c ↦
        let same : page / 8 ≡ q / 8 = (==_iff _ _).0 c in
        rw (in_map, c, rw same at in_map)
          (ground (
            arith,
            set_byte (map (page / 8)) (page % 8) (q % 8) (bytes (page / 8)),
            ap map same,
            same_page page q same,
          ))
    | inr c ↦ let other : (page == q) ≡ false = ground arith in rw (in_map, c, other)
  ]

  -- After `clear_allocation_bit` the bit of the page is 0, and that of every other page as before.
  pub test-clear_allocation_bit :
      (q : ℕ)
      → test_allocation_bit (clear_allocation_bit map page) q
        ≡ (if page == q then 0 else test_allocation_bit map q)
  unfolding test_allocation_bit clear_allocation_bit
  test-clear_allocation_bit q = elim (Bool-cases (page / 8 == q / 8)) [
    | inl c ↦
        let same : page / 8 ≡ q / 8 = (==_iff _ _).0 c in
        rw (in_map, c, rw same at in_map)
          (ground (
            arith,
            clear_byte (map (page / 8)) (page % 8) (q % 8) (bytes (page / 8)),
            ap map same,
            same_page page q same,
          ))
    | inr c ↦ let other : (page == q) ≡ false = ground arith in rw (in_map, c, other)
  ]
