-- ===== src/Buddy/Page.antt =====
-- Single pages of the unmovable zone: what `buddy_alloc_pages` and `buddy_free_pages` (buddy.c) of one
-- page do to an allocator in order.
use black_kernel.Base.{ℕ, ◌+◌, ◌≤◌, ◌≡◌, ◌≢◌, inl, inr, sym, subst, arith}
use black_kernel.Buddy.{Buddy, alloc_pages, free_pages, zone_unmovable, sanitize}
use black_kernel.Buddy.Valid.{IsBlock}
use black_kernel.Buddy.Alloc.{alloc_pages-Outcome}
use black_kernel.Buddy.Free.{free_block-Returned}
use black_kernel.Buddy.Coverage.{
  covers, free_cover, covers-IsAdditive, free_cover-alloc_pages, free_cover-free_pages,
  free_pages-eq-free_block, alloc_pages_result,
}
use black_kernel.Buddy.Reach.{Invariant, alloc, free, Step-Invariant}

-- An allocator in order whose memory begins at `start`.
pub record IsPaged (start limit : ℕ) (b : Buddy) : Type 0 where
  pub order : Invariant limit b
  pub begins : b.memory_start ≡ start

-- The page `a` that was taken from `b`.
pub record IsTaken (start limit : ℕ) (b : Buddy) (a : ℕ) (after : Buddy) : Type 0 where
  pub page : IsBlock start limit 0 a
  pub cover :
      (p : ℕ) → free_cover after zone_unmovable p + covers p 0 a ≡ free_cover b zone_unmovable p

module _ {start limit : ℕ} {b : Buddy} (paged : IsPaged start limit b) where
  pub alloc_page-IsPaged : IsPaged start limit (alloc_pages b 0 zone_unmovable).1
  alloc_page-IsPaged = record {
    order = Step-Invariant (alloc b 0 zone_unmovable) paged.order;
    begins = elim (alloc_pages-Outcome paged.order.valid (covers-IsAdditive 0) 0 zone_unmovable) [
      | inl e ↦ rw e.1 paged.begins
      | inr t ↦ omega (arith, t.same_start, paged.begins)
    ];
  }

  pub alloc_page-IsTaken :
      (alloc_pages b 0 zone_unmovable).0 ≢ 0
      → IsTaken start limit b (alloc_pages b 0 zone_unmovable).0 (alloc_pages b 0 zone_unmovable).1
  unfolding sanitize
  alloc_page-IsTaken ne = record {
    page = elim (alloc_pages_result paged.order.valid 0 zone_unmovable) [
      | inl e ↦ absurd (ne e.0)
      | inr t ↦ subst (λ s. IsBlock s limit 0 (alloc_pages b 0 zone_unmovable).0) paged.begins t.1
    ];
    cover = λ p. free_cover-alloc_pages paged.order.valid 0 zone_unmovable p ne;
  }

  pub alloc_page-fails :
      (alloc_pages b 0 zone_unmovable).0 ≡ 0 → (alloc_pages b 0 zone_unmovable).1 ≡ b
  alloc_page-fails z = elim (alloc_pages_result paged.order.valid 0 zone_unmovable) [
    | inl e ↦ e.1
    | inr t ↦ absurd (t.0 z)
  ]

  module _ (a : ℕ) (block : IsBlock start limit 0 a)
      (apart : (p : ℕ) → covers p 0 a + free_cover b zone_unmovable p ≤ 1) where
    own : IsBlock b.memory_start limit 0 a
    own = subst (λ s. IsBlock s limit 0 a) (sym paged.begins) block

    pub free_page-IsPaged : IsPaged start limit (free_pages b a 0)
    free_page-IsPaged = record {
      order = Step-Invariant (free b 0 a (omega arith) own apart) paged.order;
      begins =
          rw (free_pages-eq-free_block 0 a paged.order.managed paged.order.valid (omega arith) own)
            (omega (
              arith,
              (free_block-Returned (covers-IsAdditive 0) paged.order.valid a 0 (omega arith)
                  own).1.same_start,
              paged.begins,
            ));
    }

    pub free_cover-free_page :
        (p : ℕ)
        → free_cover (free_pages b a 0) zone_unmovable p
          ≡ free_cover b zone_unmovable p + covers p 0 a
    free_cover-free_page p =
        free_cover-free_pages paged.order.managed paged.order.valid 0 a p (omega arith) own
