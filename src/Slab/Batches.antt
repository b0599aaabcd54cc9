-- ===== src/Slab/Batches.antt =====
-- How many objects `slab_cpu_cache_refill` and `slab_cpu_cache_drain` (kernel/mm/slab.c) move.
use black_kernel.Base.{
  ℕ, ◌+◌, ◌≤◌, ◌<◌, ◌≡◌, ◌≢◌, ℤ, pos, negsuc, Option, none, some, ltb, if◌then◌else◌,
}
use black_kernel.Slab.{SlabCache, Slabs}
use black_kernel.Slab.CpuCaches.{batch_size}

-- A result that has left the caches of the processors alone.
abbrev Keeps : SlabCache → Option (ℕ × Slabs × SlabCache) → Type 0
Keeps cache none = Unit
Keeps cache (some r) = r.2.cpu_caches ≡ cache.cpu_caches

abbrev pub Ends {ℓ} : {A : Type ℓ} → (A → Type 0) → Option A → Type 0
Ends P none = Unit
Ends P (some r) = P r

-- `done - before` objects more are kept for the processor, at most `rounds`, and no more than fit.
pub record Refilled (cpu_id before rounds : ℕ) (cache after : SlabCache) (done : ℕ) : Type 0 where
  pub grown :
      (after.cpu_caches cpu_id).available + before ≡ (cache.cpu_caches cpu_id).available + done
  pub bounded : (after.cpu_caches cpu_id).available ≤ (after.cpu_caches cpu_id).limit
  pub same_limit : (after.cpu_caches cpu_id).limit ≡ (cache.cpu_caches cpu_id).limit
  pub at_most : done ≤ before + rounds
  pub kept :
      (j : ℕ)
      → j < (cache.cpu_caches cpu_id).available
      → (after.cpu_caches cpu_id).array j ≡ (cache.cpu_caches cpu_id).array j
  pub taken :
      (j : ℕ)
      → (cache.cpu_caches cpu_id).available ≤ j
      → j < (after.cpu_caches cpu_id).available
      → (after.cpu_caches cpu_id).array j ≢ 0

-- What a call leaves: `moved` objects more for the processor, and whether there are any.
pub record IsRefill (cpu_id : ℕ) (cache : SlabCache) (r : ℤ × Slabs × SlabCache) : Type 0 where
  pub moved : ℕ
  pub grown : (r.2.cpu_caches cpu_id).available ≡ (cache.cpu_caches cpu_id).available + moved
  pub bounded : (r.2.cpu_caches cpu_id).available ≤ (r.2.cpu_caches cpu_id).limit
  pub at_most : moved ≤ batch_size (cache.cpu_caches cpu_id)
  pub kept :
      (j : ℕ)
      → j < (cache.cpu_caches cpu_id).available
      → (r.2.cpu_caches cpu_id).array j ≡ (cache.cpu_caches cpu_id).array j
  pub taken :
      (j : ℕ)
      → (cache.cpu_caches cpu_id).available ≤ j
      → j < (r.2.cpu_caches cpu_id).available
      → (r.2.cpu_caches cpu_id).array j ≢ 0
  pub told : r.0 ≡ (if ltb 0 moved then pos 0 else negsuc 0)
