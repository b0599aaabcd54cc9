-- ===== src/Cow/Tests.antt =====
-- Copy-on-write pages (kernel/mm/cow.c) on a small memory.
use black_kernel.Base.{[]}
use black_kernel.Buddy.Init.{cleared}
use black_kernel.Buddy.Init
use black_kernel.Cow.{Cow}

abbrev cow : Cow
cow = record {
  hash_table = λ h. [];
  refs = λ a. record { physical_address = 0x5000; ref_count = 2 };
  words = λ a. a;
  buddy = Init.init 0x100000 0x4000;
}
