-- ===== src/Buddy/Free.antt =====
-- `buddy_free_pages`: merging keeps what the free lists cover.
use native.Mathlib.Nat.{one-le-pow}
use black_kernel.Base.{
  two-pow-suc, ℕ, zero, suc, ◌+◌, ◌-◌, ◌*◌, ◌^◌, ◌≤◌, ◌<◌, ◌≡◌, refl, ◌≢◌, ◌⊎◌, inl, inr, true,
  false, sym, arith, ltb, ◌==◌, if◌then◌else◌, Bool-cases, update_ne, u64, add64, bit_xor_cases,
}
use black_kernel.Buddy.{
  Zone, Buddy, max_order, zone_unmovable, clear_allocation_bit, page_size, addr_to_page_index,
  get_buddy_address, test_allocation_bit, out_of_range, has, add_block, take_block, merge,
  free_block,
}
use black_kernel.Buddy.Measure.{
  IsAdditive, total, total-free_pages, total-add_block, total-take_block,
}
use black_kernel.Buddy.Valid.{IsBlock, OnLists, All-has, OnLists-add_block, OnLists-take_block}
use black_kernel.Buddy.Alloc.{IsValid}

module _ {limit : ℕ} (b : Buddy) (bounded : limit ≤ u64) (not_null : 0 < b.memory_start) where
  -- The buddy of a block, if it is a block too, is the block right above or right below.
  buddy_adjacent :
      (k addr : ℕ)
      → IsBlock b.memory_start limit k addr
      → IsBlock b.memory_start limit k (get_buddy_address b addr k)
      → (get_buddy_address b addr k ≡ addr + 2 ^ k * page_size)
        ⊎ (addr ≡ get_buddy_address b addr k + 2 ^ k * page_size)
  unfolding get_buddy_address
  buddy_adjacent k addr v u = elim (bit_xor_cases k (addr_to_page_index b addr)) [
    | inl e ↦ inl (rw e (omega (arith, rw e at u.from, v.from, v.upto, v.aligned)))
    | inr e ↦ inr (rw e.1 (omega (arith, v.from, v.upto, v.aligned)))
  ]

-- One round of the merge loop stops, or goes on with a buddy that is on the free list.
pub merge-cases :
    (P : ℕ × ℕ × Zone → Type 0) (rounds : ℕ) (b : Buddy) (addr order : ℕ) (zone : Zone)
    → P (addr, order, zone)
    → (has (zone.free_lists order) (get_buddy_address b addr order) ≡ true
        → P (
            merge rounds b
              (if ltb (get_buddy_address b addr order) addr
                then get_buddy_address b addr order
                else addr)
              (order + 1)
              (take_block zone order (get_buddy_address b addr order))))
    → P (merge (suc rounds) b addr order zone)
unfolding merge
merge-cases P rounds b addr order zone stop go = elim (Bool-cases (out_of_range b buddy)) [
  | inl c ↦ rw c stop
  | inr c ↦
      rw c (elim (Bool-cases (test_allocation_bit b.bitmap (addr_to_page_index b buddy) == 0)) [
        | inl d ↦ rw d (elim (Bool-cases (has (zone.free_lists order) buddy)) [
          | inl f ↦ rw f (go f)
          | inr f ↦ rw f stop
        ])
        | inr d ↦ rw d stop
      ])
]
  where
    buddy : ℕ
    buddy = get_buddy_address b addr order

-- What the merge loop gives back: a block and a zone that weigh together what was there before.
record Merged (w : ℕ → ℕ → ℕ) (start limit order addr : ℕ) (zone : Zone) (m : ℕ × ℕ × Zone)
    : Type 0 where
  top : m.1 ≤ max_order
  block : IsBlock start limit m.1 m.0
  blocks : OnLists (IsBlock start limit) m.2
  weight : total w m.2 + w m.1 m.0 ≡ total w zone + w order addr

-- A block and the one right above it make up a block of the next order.
module _ (w : ℕ → ℕ → ℕ) (additive : IsAdditive w) (start limit : ℕ) (bounded : limit ≤ u64) where
  abbrev Joined : ℕ → ℕ → ℕ → ℕ → Type 0
  Joined k addr buddy lower =
      IsBlock start limit (k + 1) lower × (w (k + 1) lower ≡ w k addr + w k buddy)

  join :
      (k a : ℕ)
      → IsBlock start limit k a
      → IsBlock start limit k (a + 2 ^ k * page_size)
      → IsBlock start limit (k + 1) a × (w (k + 1) a ≡ w k a + w k (a + 2 ^ k * page_size))
  join k a v u =
      let next : k + 1 ≡ suc k = omega arith in
      rw next (
        omega (arith, two-pow-suc k, v.from, v.upto, v.aligned, u.upto),
        additive k a (omega (arith, two-pow-suc k, u.upto)),
      )

  -- The lower of two adjacent blocks starts a block of the next order.
  join_lower :
      (k addr buddy : ℕ)
      → IsBlock start limit k addr
      → IsBlock start limit k buddy
      → (buddy ≡ addr + 2 ^ k * page_size) ⊎ (addr ≡ buddy + 2 ^ k * page_size)
      → Joined k addr buddy (if ltb buddy addr then buddy else addr)
  join_lower k addr buddy v u (inl e) =
      let above : ltb buddy addr ≡ false = ground (arith, one-le-pow k 2) in
      rw (above, e) (join k addr v (rw e at u))
  join_lower k addr buddy v u (inr e) =
      let below : ltb buddy addr ≡ true = ground (arith, one-le-pow k 2) in
      let (block, weight) = join k buddy u (rw e at v) in rw below (block, rw e (omega arith))

module _ {w : ℕ → ℕ → ℕ} (additive : IsAdditive w) {limit : ℕ} (b : Buddy) (bounded : limit ≤ u64)
    (not_null : 0 < b.memory_start) where
  merge-Merged :
      (rounds order addr : ℕ) (zone : Zone)
      → order + rounds ≤ max_order
      → IsBlock b.memory_start limit order addr
      → OnLists (IsBlock b.memory_start limit) zone
      → Merged w b.memory_start limit order addr zone (merge rounds b addr order zone)
  unfolding merge
  merge-Merged zero order addr zone h v on = record {
    top = omega arith;
    block = v;
    blocks = on;
    weight = refl;
  }
  merge-Merged (suc rounds) order addr zone h v on =
      let buddy = get_buddy_address b addr order in
      merge-cases (Merged w b.memory_start limit order addr zone) rounds b addr order zone
        (record { top = omega arith; block = v; blocks = on; weight = refl })
        λ f.
          let other = All-has _ (zone.free_lists order) buddy (on order) f in
          let (block, sum) =
            join_lower w additive b.memory_start limit bounded order addr buddy v other
              (buddy_adjacent b bounded not_null order addr v other) in
          let rest =
            merge-Merged rounds (order + 1) (if ltb buddy addr then buddy else addr)
              (take_block zone order buddy) (omega arith) block
              (OnLists-take_block _ zone order buddy on) in
          record {
            top = rest.top;
            block = rest.block;
            blocks = rest.blocks;
            weight =
                omega
                  (arith, rest.weight, sum, total-take_block w zone order buddy (omega arith) f);
          }

-- What a call that passes the checks changes: the freed block's weight goes to the unmovable zone.
pub record Returned (w : ℕ → ℕ → ℕ) (order addr : ℕ) (b b' : Buddy) : Type 0 where
  pub weight : total w (b'.zones zone_unmovable) ≡ total w (b.zones zone_unmovable) + w order addr
  pub others : (z : ℕ) → z ≢ zone_unmovable → b'.zones z ≡ b.zones z
  pub same_start : b'.memory_start ≡ b.memory_start
  pub same_size : b'.memory_size ≡ b.memory_size

module _ {w : ℕ → ℕ → ℕ} (additive : IsAdditive w) {limit : ℕ} {b : Buddy}
    (v : IsValid limit b) where
  pub free_block-Returned :
      (address order : ℕ)
      → order ≤ max_order
      → IsBlock b.memory_start limit order address
      → IsValid limit (free_block b address order)
        × Returned w order address b (free_block b address order)
  unfolding free_block
  free_block-Returned address order h u = (
    record {
      bounded = v.bounded;
      not_null = v.not_null;
      blocks = λ z. elim (Bool-cases (zone_unmovable == z)) [
        | inl e ↦ rw e (OnLists-add_block _ m.2 m.1 m.0 merged.blocks merged.block)
        | inr e ↦ rw e (v.blocks z)
      ];
    },
    record {
      weight = omega (
        arith,
        total-free_pages w (add_block m.2 m.1 m.0)
            (add64 (add_block m.2 m.1 m.0).free_pages (2 ^ order)),
        total-add_block w m.2 m.1 m.0 merged.top,
        merged.weight,
      );
      others = λ z ne. update_ne b.zones zone_unmovable _ z (λ q. ne (sym q));
      same_start = refl;
      same_size = refl;
    },
  )
    where
      cleared : Buddy
      cleared = record b { bitmap = clear_allocation_bit b.bitmap (addr_to_page_index b address) }

      m : ℕ × ℕ × Zone
      m = merge (max_order - order) cleared address order (b.zones zone_unmovable)

      merged : Merged w b.memory_start limit order address (b.zones zone_unmovable) m
      merged =
          merge-Merged additive cleared v.bounded v.not_null (max_order - order) order address _
            (omega arith) u (v.blocks zone_unmovable)
