-- ===== src/Buddy/Accounting.antt =====
-- The counters of a zone, `free_counts` and `free_pages`, against its free lists.
use native.Mathlib.Nat.{pow-le-pow_right}
use black_kernel.Base.{
  two-pow-suc, ℕ, zero, suc, ◌+◌, ◌-◌, ◌%◌, ◌^◌, ◌≤◌, ◌≡◌, refl, inl, inr, true, List, [], ◌∷◌,
  arith, length, ltb, ◌==◌, if◌then◌else◌, Bool-cases, update_self, u64, sub64,
}
use black_kernel.Buddy.{
  Zone, Buddy, max_order, zone_unmovable, sanitize, get_buddy_address, addr_to_page_index,
  clear_allocation_bit, list_remove, has, add_block, take_block, split, alloc_block, alloc_pages,
  merge, free_block,
}
use black_kernel.Buddy.Measure.{IsAdditive, total}
use black_kernel.Buddy.Valid.{IsBlock}
use black_kernel.Buddy.Alloc.{IsValid, alloc_block-Taken_at, alloc_pages-cases}
use black_kernel.Buddy.Free.{merge-cases, free_block-Returned}

abbrev pub pages_of : ℕ → ℕ → ℕ
pages_of k a = 2 ^ k

pub pages_of-IsAdditive : IsAdditive pages_of
pages_of-IsAdditive k a h = omega (arith, two-pow-suc k)

abbrev pub OnCounts : Zone → Type 0
OnCounts zone = (k : ℕ) → zone.free_counts k ≡ length (zone.free_lists k) % u64

-- `free_counts[k]` is the length of the list of order k, and `free_pages` the pages of all its blocks,
-- both as 64-bit words.
pub record IsCounted (zone : Zone) : Type 0 where
  pub counts : OnCounts zone
  pub pages : zone.free_pages ≡ total pages_of zone % u64

length-list_remove : (l : List ℕ) (a : ℕ) → has l a ≡ true → length (list_remove l a) + 1 ≡ length l
unfolding list_remove has
length-list_remove [] a h = ground arith
length-list_remove (x ∷ l) a h = ground (arith, length-list_remove l a)

pub OnCounts-add_block : (zone : Zone) (k a : ℕ) → OnCounts zone → OnCounts (add_block zone k a)
unfolding add_block
OnCounts-add_block zone k a on j = ground (arith, on j, on k)

OnCounts-take_block :
    (zone : Zone) (k a : ℕ)
    → has (zone.free_lists k) a ≡ true
    → OnCounts zone
    → OnCounts (take_block zone k a)
unfolding take_block
OnCounts-take_block zone k a h on j =
    ground (arith, on j, on k, length-list_remove (zone.free_lists k) a)

OnCounts-split :
    (block order rounds : ℕ) (zone : Zone)
    → OnCounts zone
    → OnCounts (split block order rounds zone)
      × ((split block order rounds zone).free_pages ≡ zone.free_pages)
unfolding split
OnCounts-split block order zero zone on = (on, refl)
OnCounts-split block order (suc rounds) zone on =
    OnCounts-split block order rounds _ (OnCounts-add_block zone (order + rounds) _ on)

OnCounts-merge :
    (rounds : ℕ) (b : Buddy) (addr order : ℕ) (zone : Zone)
    → OnCounts zone
    → OnCounts (merge rounds b addr order zone).2
      × ((merge rounds b addr order zone).2.free_pages ≡ zone.free_pages)
unfolding merge
OnCounts-merge zero b addr order zone on = (on, refl)
OnCounts-merge (suc rounds) b addr order zone on =
    merge-cases (λ m. OnCounts m.2 × (m.2.free_pages ≡ zone.free_pages)) rounds b addr order zone
      (on, refl)
      λ f.
        let buddy = get_buddy_address b addr order in
        OnCounts-merge rounds b (if ltb buddy addr then buddy else addr) (order + 1)
          (take_block zone order buddy) (OnCounts-take_block zone order buddy f on)

has-head : (a : ℕ) (rest l : List ℕ) → l ≡ a ∷ rest → has l a ≡ true
unfolding has
has-head a rest l e = rw e (ground arith)

pub small_block : (order : ℕ) → order ≤ max_order → 2 ^ order ≤ 1024
small_block order h = pow-le-pow_right (omega arith) h

module _ {limit : ℕ} {b : Buddy} (v : IsValid limit b)
    (counted : (z : ℕ) → IsCounted (b.zones z)) where
  alloc_block-IsCounted :
      (zone_type order current block : ℕ) (rest : List ℕ)
      → order ≤ current
      → current ≤ max_order
      → (b.zones zone_type).free_lists current ≡ block ∷ rest
      → (z : ℕ) → IsCounted ((alloc_block b zone_type order current (block ∷ rest)).1.zones z)
  unfolding alloc_block
  alloc_block-IsCounted zone_type order current block rest h top e z =
      elim (Bool-cases (zone_type == z)) [
        | inl c ↦ rw c (record {
          counts = kept.0;
          pages =
              omega
                (arith, weight, kept.1, (counted zone_type).pages, small_block order (omega arith));
        })
        | inr c ↦ rw c (counted z)
      ]
    where
      zone : Zone
      zone = take_block (b.zones zone_type) current block

      kept :
          OnCounts (split block order (current - order) zone)
          × ((split block order (current - order) zone).free_pages ≡ zone.free_pages)
      kept = OnCounts-split block order (current - order) zone (
          OnCounts-take_block (b.zones zone_type) current block (has-head block rest _ e)
            (counted zone_type).counts)

      weight :
          total pages_of (record (split block order (current - order) zone) {
            free_pages = sub64 (split block order (current - order) zone).free_pages (2 ^ order);
          })
            + 2 ^ order
          ≡ total pages_of (b.zones zone_type)
      weight =
          rw (update_self b.zones zone_type) at
            (alloc_block-Taken_at v pages_of-IsAdditive zone_type order current block rest h top
              e).weight

  -- `buddy_alloc_pages` keeps the counters of every zone in step with its free lists.
  pub alloc_pages-IsCounted :
      (order zone_type z : ℕ) → IsCounted ((alloc_pages b order zone_type).1.zones z)
  alloc_pages-IsCounted order zone_type z =
      alloc_pages-cases (λ r. IsCounted (r.1.zones z)) b order zone_type (counted z)
        λ current block rest h top e.
          alloc_block-IsCounted (sanitize zone_type) order current block rest h top e z

  -- `buddy_free_pages` of a block of the memory keeps them in step, too.
  pub free_block-IsCounted :
      (order address z : ℕ)
      → order ≤ max_order
      → IsBlock b.memory_start limit order address
      → IsCounted ((free_block b address order).zones z)
  unfolding free_block
  free_block-IsCounted order address z h u = elim (Bool-cases (zone_unmovable == z)) [
    | inl c ↦ rw c (record {
      counts = OnCounts-add_block m.2 m.1 m.0 kept.0;
      pages = omega (arith, weight, kept.1, (counted zone_unmovable).pages);
    })
    | inr c ↦ rw c (counted z)
  ]
    where
      cleared : Buddy
      cleared = record b { bitmap = clear_allocation_bit b.bitmap (addr_to_page_index b address) }

      m : ℕ × ℕ × Zone
      m = merge (max_order - order) cleared address order (b.zones zone_unmovable)

      kept : OnCounts m.2 × (m.2.free_pages ≡ (b.zones zone_unmovable).free_pages)
      kept =
          OnCounts-merge (max_order - order) cleared address order (b.zones zone_unmovable)
            (counted zone_unmovable).counts

      weight :
          total pages_of ((free_block b address order).zones zone_unmovable)
          ≡ total pages_of (b.zones zone_unmovable) + 2 ^ order
      weight = (free_block-Returned pages_of-IsAdditive v address order h u).1.weight
