-- ===== src/Bytes.antt =====
-- The byte and string functions, kernel/lib/string.c. Memory is a function from addresses to bytes;
-- an object does not reach the last address, so that a pointer into it does not wrap. A function
-- that writes returns the new memory; all of them return `dest`, which is left out.
pub mod Tests
pub mod Copy
pub mod Strings
use black_kernel.Base.{
  ℕ, zero, suc, ◌+◌, ◌-◌, ◌%◌, Bool, true, false, not, ◌&&◌, ◌||◌, Option, none, some, ℤ, pos,
  sub_ℕ, ltb, ◌==◌, if◌then◌else◌, update,
}

abbrev pub Memory : Type 0
Memory = ℕ → ℕ

-- `for (i...; i < n; i++) d[i] = c`, with `rounds` rounds left
unfoldable pub memset_from : ℕ → ℕ → Memory → ℕ → ℕ → Memory
memset_from zero i mem d c = mem
memset_from (suc rounds) i mem d c = memset_from rounds (i + 1) (update mem (d + i) (c % 256)) d c

unfoldable pub memset : Memory → ℕ → ℕ → ℕ → Memory
unfolding memset_from
memset mem dest c n = memset_from n 0 mem dest c

-- `for (i...; i < n; i++) d[i] = s[i]`
unfoldable pub memcpy_from : ℕ → ℕ → Memory → ℕ → ℕ → Memory
memcpy_from zero i mem d s = mem
memcpy_from (suc rounds) i mem d s =
    memcpy_from rounds (i + 1) (update mem (d + i) (mem (s + i))) d s

unfoldable pub memcpy : Memory → ℕ → ℕ → ℕ → Memory
unfolding memcpy_from
memcpy mem dest src n = memcpy_from n 0 mem dest src

-- `for (i = n; i > 0; i--) d[i - 1] = s[i - 1]`
unfoldable pub memmove_down : ℕ → Memory → ℕ → ℕ → Memory
memmove_down zero mem d s = mem
memmove_down (suc i) mem d s = memmove_down i (update mem (d + i) (mem (s + i))) d s

unfoldable pub memmove : Memory → ℕ → ℕ → ℕ → Memory
unfolding memcpy_from memmove_down
memmove mem d s n =
    if ltb d s then memcpy_from n 0 mem d s else if ltb s d then memmove_down n mem d s else mem

unfoldable pub memcmp_from : ℕ → ℕ → Memory → ℕ → ℕ → ℤ
memcmp_from zero i mem a b = pos 0
memcmp_from (suc rounds) i mem a b =
    let rest = memcmp_from rounds (i + 1) mem a b in
    if mem (a + i) == mem (b + i) then rest else sub_ℕ (mem (a + i)) (mem (b + i))

unfoldable pub memcmp : Memory → ℕ → ℕ → ℕ → ℤ
unfolding memcmp_from
memcmp mem s1 s2 n = memcmp_from n 0 mem s1 s2

-- A string need not end: the loops over strings run on fuel, and `none` means that it ran out.
unfoldable pub strlen_from : ℕ → ℕ → Memory → ℕ → Option ℕ
strlen_from zero l mem str = none
strlen_from (suc fuel) l mem str =
    let rest = strlen_from fuel (l + 1) mem str in
    if str == 0 || mem (str + l) == 0 then some l else rest

unfoldable pub strlen : ℕ → Memory → ℕ → Option ℕ
unfolding strlen_from
strlen fuel mem str = strlen_from fuel 0 mem str

-- `while ((*d++ = *src++))`
unfoldable pub strcpy : ℕ → Memory → ℕ → ℕ → Option Memory
strcpy zero mem d src = none
strcpy (suc fuel) mem d src =
    let written = update mem d (mem src) in
    let rest = strcpy fuel written (d + 1) (src + 1) in if mem src == 0 then some written else rest

-- The second loop of `strncpy` is `memset` by 0 from `i` on.
unfoldable pub strncpy_from : ℕ → ℕ → Memory → ℕ → ℕ → Memory
unfolding memset_from
strncpy_from zero i mem dest src = mem
strncpy_from (suc rounds) i mem dest src =
    let rest = strncpy_from rounds (i + 1) (update mem (dest + i) (mem (src + i))) dest src in
    if mem (src + i) == 0 then memset_from (suc rounds) i mem dest 0 else rest

unfoldable pub strncpy : Memory → ℕ → ℕ → ℕ → Memory
unfolding strncpy_from
strncpy mem dest src n = strncpy_from n 0 mem dest src

unfoldable pub strcmp : ℕ → Memory → ℕ → ℕ → Option ℤ
strcmp zero mem s1 s2 = none
strcmp (suc fuel) mem s1 s2 =
    let rest = strcmp fuel mem (s1 + 1) (s2 + 1) in
    if not (mem s1 == 0) && mem s1 == mem s2 then rest else some (sub_ℕ (mem s1) (mem s2))

unfoldable pub strncmp_from : ℕ → ℕ → Memory → ℕ → ℕ → ℤ
strncmp_from zero i mem s1 s2 = pos 0
strncmp_from (suc rounds) i mem s1 s2 =
    let rest = strncmp_from rounds (i + 1) mem s1 s2 in
    if not (mem (s1 + i) == mem (s2 + i)) || mem (s1 + i) == 0 || mem (s2 + i) == 0
    then sub_ℕ (mem (s1 + i)) (mem (s2 + i))
    else rest

unfoldable pub strncmp : Memory → ℕ → ℕ → ℕ → ℤ
unfolding strncmp_from
strncmp mem s1 s2 n = strncmp_from n 0 mem s1 s2

-- `while (*d) d++;`, then the copy of `strcpy`
unfoldable pub strcat : ℕ → Memory → ℕ → ℕ → Option Memory
unfolding strcpy
strcat zero mem d src = none
strcat (suc fuel) mem d src =
    let rest = strcat fuel mem (d + 1) src in
    if mem d == 0 then strcpy (suc fuel) mem d src else rest
