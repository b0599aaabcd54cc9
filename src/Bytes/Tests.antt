-- ===== src/Bytes/Tests.antt =====
-- The functions of kernel/lib/string.c on a memory that holds its own addresses.
use black_kernel.Base.{◌+◌, ◌-◌, ◌%◌, ◌≡◌, ltb, leb, if◌then◌else◌, ◌&&◌}
use black_kernel.Bytes.{Memory, memmove}
use black_kernel.Bytes.Copy.{memmove_lem}

abbrev numbers : Memory
numbers = λ a. a % 256

memmove_lem_example :
    memmove numbers 12 10 8 15
    ≡ (if leb 12 15 && ltb 15 (12 + 8) then numbers (10 + (15 - 12)) else numbers 15)
memmove_lem_example = memmove_lem numbers 12 10 8 15
