-- ===== src/Bytes/Copy.antt =====
-- `memset`, `memcpy` and `memmove` byte by byte: what stands at every address afterwards.
use black_kernel.Base.{
  ℕ, zero, suc, ◌+◌, ◌-◌, ◌%◌, ◌≤◌, ◌≡◌, ap, ◌⊎◌, ◌&&◌, arith, ltb, leb, if◌then◌else◌, update,
}
use black_kernel.Bytes.{Memory, memset_from, memset, memcpy_from, memcpy, memmove_down, memmove}

memset_from_lem :
    (rounds i : ℕ) (mem : Memory) (d c a : ℕ)
    → memset_from rounds i mem d c a
      ≡ (if leb (d + i) a && ltb a (d + i + rounds) then c % 256 else mem a)
unfolding memset_from
memset_from_lem zero i mem d c a = ground arith
memset_from_lem (suc rounds) i mem d c a =
    ground (arith, memset_from_lem rounds (i + 1) (update mem (d + i) (c % 256)) d c a)

-- `memset` writes the byte `c` to the `n` addresses from `dest` on, and to no other.
pub memset_lem :
    (mem : Memory) (dest c n a : ℕ)
    → memset mem dest c n a ≡ (if leb dest a && ltb a (dest + n) then c % 256 else mem a)
unfolding memset
memset_lem mem dest c n a = ground (arith, memset_from_lem n 0 mem dest c a)

-- The forward copy reads only what it has not overwritten, if `d` is below `s` or far from it.
memcpy_from_lem :
    (rounds i : ℕ) (mem : Memory) (d s a : ℕ)
    → (d ≤ s) ⊎ (s + i + rounds ≤ d + i)
    → memcpy_from rounds i mem d s a
      ≡ (if leb (d + i) a && ltb a (d + i + rounds) then mem (s + (a - d)) else mem a)
unfolding memcpy_from
memcpy_from_lem zero i mem d s a h = ground arith
memcpy_from_lem (suc rounds) i mem d s a h =
    ground
      (arith, memcpy_from_lem rounds (i + 1) (update mem (d + i) (mem (s + i))) d s a, at_index)
  where
    at_index : a ≡ d + i → mem (s + (a - d)) ≡ mem (s + i)
    at_index e = ap mem (omega arith)

memmove_down_lem :
    (n : ℕ) (mem : Memory) (d s a : ℕ)
    → s ≤ d
    → memmove_down n mem d s a ≡ (if leb d a && ltb a (d + n) then mem (s + (a - d)) else mem a)
unfolding memmove_down
memmove_down_lem zero mem d s a h = ground arith
memmove_down_lem (suc n) mem d s a h =
    ground (arith, memmove_down_lem n (update mem (d + n) (mem (s + n))) d s a, at_index)
  where
    at_index : a ≡ d + n → mem (s + (a - d)) ≡ mem (s + n)
    at_index e = ap mem (omega arith)

-- `memmove` copies the `n` bytes from `s` on to `d`, also where the two overlap, and writes nowhere else.
pub memmove_lem :
    (mem : Memory) (d s n a : ℕ)
    → memmove mem d s n a ≡ (if leb d a && ltb a (d + n) then mem (s + (a - d)) else mem a)
unfolding memmove
memmove_lem mem d s n a =
    ground (arith, memcpy_from_lem n 0 mem d s a, memmove_down_lem n mem d s a)

-- `memcpy` agrees with `memmove` at every address, where the two areas do not overlap.
pub memcpy-memmove :
    (mem : Memory) (d s n a : ℕ)
    → (d + n ≤ s) ⊎ (s + n ≤ d)
    → memcpy mem d s n a ≡ memmove mem d s n a
unfolding memcpy
memcpy-memmove mem d s n a apart =
    ground (arith, memcpy_from_lem n 0 mem d s a, memmove_lem mem d s n a)
