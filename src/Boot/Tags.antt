-- ===== src/Boot/Tags.antt =====
-- The loop over the tags of the boot loader (kernel/core/main.c).
use black_kernel.Base.{
  ℕ, zero, suc, ◌+◌, ◌-◌, ◌*◌, ◌/◌, ◌^◌, ◌<◌, ◌≡◌, ◌≢◌, refl, false, arith, bit_and_mask,
  bit_and_shift, none, some, List, [], ◌∷◌, length, ◌==◌, if◌then◌else◌, u32, u64, add64, add32,
  sub32,
}
use black_kernel.Boot.{Mmap, tag_length, scan_tags}

pub record Tag : Type 0 where
  pub kind : ℕ
  pub size : ℕ

-- The next multiple of 8.
abbrev pub round8 : ℕ → ℕ
round8 size = (size + 7) / 8 * 8

-- The tags stand at `a` and behind each other, a tag of type 0 behind the last.
unfoldable pub AreAt : (ℕ → ℕ) → ℕ → List Tag → Type 0
AreAt word a [] = word a ≡ 0
AreAt word a (t ∷ tags) =
    (word a ≡ t.kind)
    × (t.kind ≢ 0)
    × (word (a + 4) ≡ t.size)
    × (t.size + 7 < u32)
    × (a + round8 t.size < u64)
    × AreAt word (a + round8 t.size) tags

-- The memory map of the last tag of type 6: what stands behind its header.
unfoldable pub last_mmap : ℕ → List Tag → Mmap → Mmap
last_mmap a [] found = found
last_mmap a (t ∷ tags) found =
    last_mmap (a + round8 t.size) tags
      (if t.kind == 6 then (record { address = a + 16; size = sub32 t.size 16 }) else found)

tag_length-round8 : (size : ℕ) → size + 7 < u32 → tag_length size ≡ round8 size
unfolding tag_length
tag_length-round8 size h =
    omega
      (arith, bit_and_shift 3 (2 ^ 29 - 1) (add32 size 7), bit_and_mask 29 (add32 size 7 / 2 ^ 3))

-- With the pointer at the first tag the loop ends in as many rounds as there are tags and one, and
-- finds the memory map of the last tag of type 6, if there is one.
pub scan_tags-last_mmap :
    (fuel : ℕ) (word : ℕ → ℕ) (a : ℕ) (tags : List Tag) (found : Mmap)
    → AreAt word a tags
    → length tags < fuel
    → scan_tags fuel word a found ≡ some (last_mmap a tags found)
unfolding scan_tags AreAt last_mmap
scan_tags-last_mmap zero word a tags found at lt = absurd (omega arith)
scan_tags-last_mmap (suc fuel) word a [] found at lt = rw at
scan_tags-last_mmap (suc fuel) word a (t ∷ tags) found (kind, some_kind, size, small, low, rest)
      lt =
    let ne : (t.kind == 0) ≡ false = ground (arith, some_kind) in
    let step : add64 a (tag_length t.size) ≡ a + round8 t.size =
      omega (arith, tag_length-round8 t.size small) in
    rw (kind, size, ne, step)
      (scan_tags-last_mmap fuel word (a + round8 t.size) tags _ rest (omega arith))

-- Multiboot2 passes the address of the total size, behind which a reserved word that is 0 stands in
-- front of the tags. From there the loop never ends, whatever follows.
pub scan_tags-never_ends :
    (fuel : ℕ) (word : ℕ → ℕ) (info : ℕ) (found : Mmap)
    → info < u64
    → word info ≢ 0
    → word (info + 4) ≡ 0
    → scan_tags fuel word info found ≡ none
unfolding scan_tags
scan_tags-never_ends zero word info found low total reserved = refl
scan_tags-never_ends (suc fuel) word info found low total reserved =
    let ne : (word info == 0) ≡ false = ground (arith, total) in
    let stays : add64 info (tag_length 0) ≡ info =
      omega (arith, tag_length-round8 0 (omega arith)) in
    rw (reserved, ne, stays) (scan_tags-never_ends fuel word info _ low total reserved)
