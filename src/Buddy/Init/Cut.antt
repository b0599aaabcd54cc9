-- ===== src/Buddy/Init/Cut.antt =====
-- What `buddy_init` puts on the free lists: each page of the memory once, in blocks that lie in it.
use native.Mathlib.Nat.{one-le-pow}
use black_kernel.Base.{
  ℕ, zero, suc, ◌+◌, ◌-◌, ◌*◌, ◌%◌, ◌^◌, ◌≤◌, ◌<◌, ◌≡◌, refl, ◌≢◌, inl, inr, false, ◌&&◌,
  bit_and_mask, ap, arith, ltb, leb, ◌==◌, if◌then◌else◌, Bool-cases, u64, add64, sub64,
}
use black_kernel.Buddy.{
  Zone, Buddy, max_order, page_size, zone_unmovable, pages_to_bytes, bytes_to_pages,
  addr_to_page_index, add_block,
}
use black_kernel.Buddy.Measure.{total, total-add_block}
use black_kernel.Buddy.Valid.{IsBlock, OnLists, OnLists-add_block}
use black_kernel.Buddy.Alloc.{IsValid}
use black_kernel.Buddy.Coverage.{covers, free_cover}
use black_kernel.Buddy.Init.{choose_order, carve, empty_zone, cleared, init}

pub choose_order-le : (k remaining index : ℕ) → choose_order k remaining index ≤ k
unfolding choose_order
choose_order-le zero remaining index = omega arith
choose_order-le (suc k) remaining index = ground (arith, choose_order-le k remaining index)

-- A block of the order that is chosen fits in what remains, if a page does, and starts at a multiple
-- of its size.
pub choose_order_fits :
    (k remaining index : ℕ)
    → 0 < remaining
    → (2 ^ choose_order k remaining index ≤ remaining)
      × (index % 2 ^ choose_order k remaining index ≡ 0)
unfolding choose_order
choose_order_fits zero remaining index h = omega arith
choose_order_fits (suc k) remaining index h =
    ground (arith, choose_order_fits k remaining index, bit_and_mask (suc k) index)

-- 1 if `p` is one of the `n` addresses from `a` on.
abbrev within : ℕ → ℕ → ℕ → ℕ
within p a n = if leb a p && ltb p (a + n) then 1 else 0

within-split :
    (p a k n m : ℕ)
    → n ≡ 2 ^ k * page_size + m
    → within p a n ≡ covers p k a + within p (a + 2 ^ k * page_size) m
unfolding covers
within-split p a k n m e = ground arith

-- `e a n` is the weight of the `n` pages from `a` on, in whatever blocks they are cut.
abbrev pub IsExtent : (ℕ → ℕ → ℕ) → (ℕ → ℕ → ℕ) → Type 0
IsExtent w e =
    ((a : ℕ) → e a 0 ≡ 0) × ((k a m : ℕ) → e a (2 ^ k + m) ≡ w k a + e (a + 2 ^ k * page_size) m)

-- One round: what is left of the memory behind the block that is cut off.
module _ (limit addr remaining k : ℕ) (ends : addr + remaining * page_size ≡ limit)
    (below : limit < u64) (fits : 2 ^ k ≤ remaining) where
  next_addr : add64 addr (pages_to_bytes (2 ^ k)) ≡ addr + 2 ^ k * page_size
  unfolding pages_to_bytes
  next_addr = omega arith

  next_remaining : sub64 remaining (2 ^ k) ≡ remaining - 2 ^ k
  next_remaining = omega arith

  next_ends : addr + 2 ^ k * page_size + (remaining - 2 ^ k) * page_size ≡ limit
  next_ends = omega arith

module _ (b : Buddy) (limit : ℕ) (below : limit < u64) where
  carve-extent :
      (w e : ℕ → ℕ → ℕ) (fuel addr remaining : ℕ) (zone : Zone)
      → IsExtent w e
      → remaining ≤ fuel
      → addr + remaining * page_size ≡ limit
      → total w (carve fuel b addr remaining zone) ≡ total w zone + e addr remaining
  unfolding carve
  carve-extent w e zero addr remaining zone ext h ends =
      let none_left : remaining ≡ 0 = omega arith in rw (none_left, ext.0 addr) (omega arith)
  carve-extent w e (suc fuel) addr remaining zone ext h ends = elim (Bool-cases (remaining == 0)) [
    | inl c ↦
        let none_left : remaining ≡ 0 = ground arith in
        rw c (rw (none_left, ext.0 addr) (omega arith))
    | inr c ↦ rw c (
        go c (λ addr' remaining' zone' h' ends'.
          carve-extent w e fuel addr' remaining' zone' ext h' ends'))
  ]
    where
      k : ℕ
      k = choose_order max_order remaining (addr_to_page_index b addr)

      go :
          (remaining == 0) ≡ false
          → ((addr' remaining' : ℕ) (zone' : Zone)
              → remaining' ≤ fuel
              → addr' + remaining' * page_size ≡ limit
              → total w (carve fuel b addr' remaining' zone') ≡ total w zone' + e addr' remaining')
          → total w (
              carve fuel b
                (add64 addr (pages_to_bytes (2 ^ k)))
                (sub64 remaining (2 ^ k))
                (add_block zone k addr))
            ≡ total w zone + e addr remaining
      go c next =
          let (fits, _) =
            choose_order_fits max_order remaining (addr_to_page_index b addr) (ground arith) in
          let whole : remaining ≡ 2 ^ k + (remaining - 2 ^ k) = omega arith in
          rw
            (
              next_addr limit addr remaining k ends below fits,
              next_remaining limit addr remaining k ends below fits,
            )
            (omega (
              arith,
              next (addr + 2 ^ k * page_size) (remaining - 2 ^ k) (add_block zone k addr)
                  (omega (arith, one-le-pow k 2))
                  (next_ends limit addr remaining k ends below fits),
              total-add_block w zone k addr
                  (choose_order-le max_order remaining (addr_to_page_index b addr)),
              ext.1 k addr (remaining - 2 ^ k),
              ap (e addr) whole,
            ))

  carve-OnLists :
      (start : ℕ) (fuel addr remaining : ℕ) (zone : Zone)
      → remaining ≤ fuel
      → addr + remaining * page_size ≡ limit
      → start ≤ addr
      → (addr - start) % page_size ≡ 0
      → OnLists (IsBlock start limit) zone
      → OnLists (IsBlock start limit) (carve fuel b addr remaining zone)
  unfolding carve
  carve-OnLists start zero addr remaining zone h ends from aligned on = on
  carve-OnLists start (suc fuel) addr remaining zone h ends from aligned on =
      elim (Bool-cases (remaining == 0)) [
        | inl c ↦ rw c on
        | inr c ↦ rw c (
            go c (λ addr' remaining' zone' h' ends' from' aligned' on'.
              carve-OnLists start fuel addr' remaining' zone' h' ends' from' aligned' on'))
      ]
    where
      k : ℕ
      k = choose_order max_order remaining (addr_to_page_index b addr)

      go :
          (remaining == 0) ≡ false
          → ((addr' remaining' : ℕ) (zone' : Zone)
              → remaining' ≤ fuel
              → addr' + remaining' * page_size ≡ limit
              → start ≤ addr'
              → (addr' - start) % page_size ≡ 0
              → OnLists (IsBlock start limit) zone'
              → OnLists (IsBlock start limit) (carve fuel b addr' remaining' zone'))
          → OnLists (IsBlock start limit) (
              carve fuel b
                (add64 addr (pages_to_bytes (2 ^ k)))
                (sub64 remaining (2 ^ k))
                (add_block zone k addr))
      go c next =
          let (fits, _) =
            choose_order_fits max_order remaining (addr_to_page_index b addr) (ground arith) in
          rw
            (
              next_addr limit addr remaining k ends below fits,
              next_remaining limit addr remaining k ends below fits,
            )
            (next (addr + 2 ^ k * page_size) (remaining - 2 ^ k) (add_block zone k addr)
              (omega (arith, one-le-pow k 2)) (next_ends limit addr remaining k ends below fits)
              (omega arith) (omega arith) (OnLists-add_block _ zone k addr on (omega arith)))

covers-IsExtent : (p : ℕ) → IsExtent (covers p) (λ a n. within p a (n * page_size))
covers-IsExtent p = (
  (λ a. ground arith),
  (λ k a m. within-split p a k ((2 ^ k + m) * page_size) (m * page_size) (omega arith)),
)

pages-IsExtent : IsExtent (λ k a. 2 ^ k) (λ a n. n)
pages-IsExtent = ((λ a. refl), (λ k a m. refl))

abbrev pub fresh_zone : ℕ → ℕ → Zone
fresh_zone start pages = record (empty_zone start) { total_pages = pages; free_pages = pages }

pub total-fresh_zone : (w : ℕ → ℕ → ℕ) (start pages : ℕ) → total w (fresh_zone start pages) ≡ 0
unfolding total
total-fresh_zone w start pages = refl

-- The pages that `buddy_init` manages: enough for the bytes, and less than a page too many.
pub bytes_to_pages_bounds :
    (bytes : ℕ)
    → bytes + page_size < u64
    → (bytes ≤ bytes_to_pages bytes * page_size)
      × (bytes_to_pages bytes * page_size < bytes + page_size)
unfolding bytes_to_pages
bytes_to_pages_bounds bytes h = omega arith

module _ (start size : ℕ) (below : start + bytes_to_pages size * page_size < u64) where
  -- After `buddy_init`, where the memory in whole pages does not reach 2^64, the free lists of the
  -- unmovable zone cover each address of the memory, rounded up to whole pages, exactly once, and
  -- no other address.
  pub free_cover-init :
      (p : ℕ)
      → free_cover (init start size) zone_unmovable p
        ≡ (if leb start p && ltb p (start + bytes_to_pages size * page_size) then 1 else 0)
  unfolding free_cover init
  free_cover-init p = omega (
    arith,
    carve-extent (cleared start size) _ below (covers p) (λ a n. within p a (n * page_size)) pages
        start pages (fresh_zone start pages) (covers-IsExtent p) (omega arith) refl,
    total-fresh_zone (covers p) start pages,
  )
    where
      pages : ℕ
      pages = bytes_to_pages size

  -- After `buddy_init` the blocks of all the orders make up the free pages that the zone counts.
  pub total-init :
      total (λ k a. 2 ^ k) ((init start size).zones zone_unmovable) ≡ bytes_to_pages size
  unfolding init
  total-init = omega (
    arith,
    carve-extent (cleared start size) _ below (λ k a. 2 ^ k) (λ a n. n) pages start pages
        (fresh_zone start pages) pages-IsExtent (omega arith) refl,
    total-fresh_zone (λ k a. 2 ^ k) start pages,
  )
    where
      pages : ℕ
      pages = bytes_to_pages size

  -- After `buddy_init` every free block lies in the memory, rounded up to whole pages.
  pub init-IsValid : 0 < start → IsValid (start + bytes_to_pages size * page_size) (init start size)
  unfolding init
  init-IsValid h = record {
    bounded = omega arith;
    not_null = h;
    blocks = λ z. elim (Bool-cases (zone_unmovable == z)) [
      | inl e ↦ rw e (
          carve-OnLists (cleared start size) _ below start pages start pages
            (fresh_zone start pages) (omega arith) refl (omega arith) (omega arith) (λ k. tt))
      | inr e ↦ rw e (λ k. tt)
    ];
  }
    where
      pages : ℕ
      pages = bytes_to_pages size

-- Where the size of the memory is no multiple of the page size, and the memory in whole pages does
-- not reach 2^64, `buddy_init` puts the first address behind the memory on the free lists.
pub free_cover-init_past_end :
    (start size : ℕ)
    → start + bytes_to_pages size * page_size < u64
    → size + page_size < u64
    → size % page_size ≢ 0
    → free_cover (init start size) zone_unmovable (start + size) ≡ 1
free_cover-init_past_end start size below small ne =
    ground (arith, free_cover-init start size below (start + size), bytes_to_pages_bounds size)
