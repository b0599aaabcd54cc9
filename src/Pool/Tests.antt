-- ===== src/Pool/Tests.antt =====
-- A pool (kernel/mm/pool.c) of ten objects of 64 bytes, with four pages of memory.
use black_kernel.Base.{◌≡◌, arith, none, true}
use black_kernel.Buddy.Init.{init}
use black_kernel.Buddy.Reach.{init-Invariant}
use black_kernel.Pool.{create}
use black_kernel.Pool.Reserved.{create-fails}

create-fails_example : (create (init 0x100000 0x4000) true 64 10).0 ≡ none
create-fails_example =
    create-fails (init 0x100000 0x4000) true 64 10
      (init-Invariant 0x100000 0x4000 (omega arith) (omega arith) (omega arith) (omega arith))
