-- ===== src/Base/ByteBits.antt =====
-- The bits of a byte: setting and clearing one, checked for every byte.
use Prim.Native.Nat.{ℕ, zero, suc, ◌-◌, ◌/◌, ◌%◌, ◌^◌, ◌<◌, bit_and, bit_or}
use mathlib.Core.Path.{◌≡◌, refl}
use mathlib.Core.Bool.{Bool, true, ◌&&◌}
use native.Mathlib.Omega.{arith}
use black_kernel.Base.Tests.{◌==◌, ==_iff, if◌then◌else◌}

-- The test is passed by every number under the bound.
passes : (ℕ → Bool) → ℕ → Bool
passes test zero = true
passes test (suc bound) = passes test bound && test bound

passes_at : (test : ℕ → Bool) (bound i : ℕ) → i < bound → passes test bound ≡ true → test i ≡ true
unfolding passes
passes_at test zero i below all = absurd (omega arith)
passes_at test (suc bound) i below all = ground (arith, passes_at test bound i)

-- `(byte >> i) & 1`
abbrev pub bit_of : ℕ → ℕ → ℕ
bit_of byte i = bit_and (byte / 2 ^ i) 1

-- Bit `i` of a byte after bit `j` is set, and after it is cleared: in 8 bits, and in 32 bits.
abbrev set_case : ℕ → ℕ → ℕ → Bool
set_case byte j i = bit_of (bit_or byte (2 ^ j) % 256) i == (if j == i then 1 else bit_of byte i)

abbrev clear_case : ℕ → ℕ → ℕ → Bool
clear_case byte j i = bit_of (bit_and byte (255 - 2 ^ j)) i == (if j == i then 0 else bit_of byte i)

abbrev clear_word_case : ℕ → ℕ → ℕ → Bool
clear_word_case byte j i =
    bit_of (bit_and byte (0xFFFFFFFF - 2 ^ j) % 256) i == (if j == i then 0 else bit_of byte i)

abbrev table : (ℕ → ℕ → ℕ → Bool) → Bool
table p = passes (λ byte. passes (λ j. passes (λ i. p byte j i) 8) 8) 256

set_table : table set_case ≡ true
unfolding passes
set_table = refl

clear_table : table clear_case ≡ true
unfolding passes
clear_table = refl

clear_word_table : table clear_word_case ≡ true
unfolding passes
clear_word_table = refl

table_sound :
    (p : ℕ → ℕ → ℕ → Bool) (byte j i : ℕ)
    → table p ≡ true
    → byte < 256
    → j < 8
    → i < 8
    → p byte j i ≡ true
table_sound p byte j i h hb hj hi =
    let byte_passes =
      passes_at (λ byte. passes (λ j. passes (λ i. p byte j i) 8) 8) 256 byte hb h in
    let row_passes = passes_at (λ j. passes (λ i. p byte j i) 8) 8 j hj byte_passes in
    passes_at (λ i. p byte j i) 8 i hi row_passes

module _ (byte j i : ℕ) (hb : byte < 256) (hj : j < 8) (hi : i < 8) where
  pub set_byte : bit_of (bit_or byte (2 ^ j) % 256) i ≡ (if j == i then 1 else bit_of byte i)
  set_byte = (==_iff _ _).0 (table_sound set_case byte j i set_table hb hj hi)

  pub clear_byte : bit_of (bit_and byte (255 - 2 ^ j)) i ≡ (if j == i then 0 else bit_of byte i)
  clear_byte = (==_iff _ _).0 (table_sound clear_case byte j i clear_table hb hj hi)

  pub clear_byte_in_word :
      bit_of (bit_and byte (0xFFFFFFFF - 2 ^ j) % 256) i ≡ (if j == i then 0 else bit_of byte i)
  clear_byte_in_word =
      (==_iff _ _).0 (table_sound clear_word_case byte j i clear_word_table hb hj hi)
