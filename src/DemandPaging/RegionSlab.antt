-- ===== src/DemandPaging/RegionSlab.antt =====
-- The slab cache of the regions (`vm_region_cache`, kernel/mm/demand_paging.c), by kernel/mm/slab.c.
use black_kernel.Base.{
  ℕ, ◌≡◌, refl, ◌∙◌, sym, subst, arith, true, ◌||◌, Option, none, some, ◌==◌, Bool-cases,
  Option-cases, inl, inr, negsuc,
}
use black_kernel.Buddy.{alloc_pages, zone_unmovable}
use black_kernel.Buddy.Reach.{Invariant, Reach-Invariant, here, next, alloc}
use black_kernel.Slab.{Slabs, SlabCache, cache_create}
use black_kernel.Slab
use black_kernel.Slab.Release
use black_kernel.Slab.Reserved.{IsIdle, alloc-fails}
use black_kernel.DemandPaging.{
  RegionCache, Paging, find_space, overlaps_any, get_address_space, register_in, register_region,
  align_down, aligned_end,
}

-- `cache` is none where `vm_region_cache` is NULL.
pub record RegionSlab : Type 0 where
  pub slabs : Slabs
  pub cache : Option SlabCache

-- `sizeof(vm_region_t)`
abbrev pub region_size : ℕ
region_size = 32

unfoldable pub create : RegionSlab → RegionSlab
create s =
    let (made, slabs) = cache_create s.slabs true region_size 8 in
    record { slabs = slabs; cache = elim made [ none ↦ none | some m ↦ some m.1 ] }

-- A division by zero in `slab_create`, which comes only after it has a page, is taken for NULL.
unfoldable pub slab_alloc : RegionSlab → ℕ × RegionSlab
slab_alloc s = elim s.cache [
  | none ↦ (0, s)
  | some c ↦ elim (Slab.alloc s.slabs c) [
    | none ↦ (0, s)
    | some (object, slabs, c') ↦ (object, record { slabs = slabs; cache = some c' })
  ]
]

unfoldable pub slab_free : RegionSlab → ℕ → RegionSlab
slab_free s object = elim s.cache [
  | none ↦ s
  | some c ↦
      let (slabs, c') = Release.free s.slabs c object in record { slabs = slabs; cache = some c' }
]

unfoldable pub region_slab : RegionCache RegionSlab
region_slab = record { create = create; slab_alloc = slab_alloc; slab_free = slab_free }

-- The page allocator is in order, and the cache, if there is one, has no free object.
pub record IsBare (limit : ℕ) (s : RegionSlab) : Type 0 where
  pub order : Invariant limit s.slabs.buddy
  pub idle : (c : SlabCache) → s.cache ≡ some c → IsIdle c

slab_alloc-by_cache :
    {limit : ℕ} (slabs : Slabs) (cache : Option SlabCache)
    → IsBare limit (record { slabs = slabs; cache = cache })
    → slab_alloc (record { slabs = slabs; cache = cache })
      ≡ (0, record { slabs = slabs; cache = cache })
unfolding slab_alloc
slab_alloc-by_cache slabs none bare = refl
slab_alloc-by_cache slabs (some c) bare =
    rw (slab_alloc, alloc-fails slabs bare.order c (bare.idle c refl))

slab_alloc-IsBare : {limit : ℕ} (s : RegionSlab) → IsBare limit s → slab_alloc s ≡ (0, s)
slab_alloc-IsBare s bare = slab_alloc-by_cache s.slabs s.cache bare

some-IsIdle : (x c : SlabCache) → IsIdle x → ◌≡◌ {A = Option SlabCache} (some x) (some c) → IsIdle c
some-IsIdle x c idle e = subst IsIdle (cc) idle

-- A new cache has no free object.
pub create-IsBare :
    {limit : ℕ} (s : RegionSlab) → Invariant limit s.slabs.buddy → IsBare limit (create s)
unfolding create cache_create
create-IsBare {limit = limit} s order =
    let after = Reach-Invariant (next here (alloc s.slabs.buddy 0 zone_unmovable)) order in
    elim (Bool-cases ((alloc_pages s.slabs.buddy 0 zone_unmovable).0 == 0)) [
      | inl e ↦ rw (create, cache_create, e) (record { order = after; idle = λ c q. cc })
      | inr e ↦
          rw (create, cache_create, e)
            (record {
              order = after;
              idle = λ c q.
                  some-IsIdle _ c (record { partial = refl; unused = refl; available = refl }) q;
            })
    ]

get_address_space-region_cache :
    {S : Type 0} (cache : RegionCache S) (p : Paging S) (pml4 : ℕ)
    → (get_address_space cache p pml4).1.region_cache ≡ p.region_cache
unfolding get_address_space
get_address_space-region_cache cache p pml4 =
    elim (Option-cases (find_space p.address_space_count 0 p.address_spaces pml4)) [
      | inr (i, e) ↦ rw (get_address_space, e)
      | inl e ↦ rw (get_address_space, e) (ground arith)
    ]

register_in-fails :
    {limit : ℕ} (p : Paging RegionSlab) (i start end flags : ℕ)
    → IsBare limit p.region_cache
    → ((register_in region_slab p i start end flags).0 ≡ negsuc 0)
      × ((register_in region_slab p i start end flags).1.region_cache ≡ p.region_cache)
unfolding register_in region_slab
register_in-fails p i start end flags bare =
    elim (Bool-cases (overlaps_any (p.address_spaces i).regions start end)) [
      | inl e ↦ rw (register_in, e) (refl, refl)
      | inr e ↦ rw (register_in, e, slab_alloc-IsBare p.region_cache bare) (refl, refl)
    ]

-- In a state where the page allocator is in order, as it is in all that it reaches, and the cache of
-- the regions has no free object, as the new one has none: `demand_paging_register_region` of any
-- region returns -1, and the cache stays as it is, so that every later call fails, too.
pub register_region-fails :
    {limit : ℕ} (p : Paging RegionSlab) (pml4 start size flags : ℕ)
    → IsBare limit p.region_cache
    → ((register_region region_slab p pml4 start size flags).0 ≡ negsuc 0)
      × ((register_region region_slab p pml4 start size flags).1.region_cache ≡ p.region_cache)
unfolding register_region
register_region-fails {limit = limit} p pml4 start size flags bare =
    let (space, p1) = get_address_space region_slab p pml4 in
    let same : p1.region_cache ≡ p.region_cache =
      get_address_space-region_cache region_slab p pml4 in
    elim (Bool-cases (pml4 == 0 || size == 0)) [
      | inl e ↦ rw (register_region, e) (refl, refl)
      | inr e ↦ elim (Option-cases space) [
        | inl n ↦ rw (register_region, e, n) (refl, same)
        | inr (i, n) ↦
            let (failed, kept) =
              register_in-fails {limit = limit} p1 i (align_down start) (aligned_end start size)
                flags (subst (IsBare limit) (sym same) bare) in
            rw (register_region, e, n) (failed, kept ∙ same)
      ]
    ]
