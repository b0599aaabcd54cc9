-- ===== src/Base/Fields.antt =====
-- `&` and `|` on the fields of a word: the low `k` bits and the rest do not meet.
use Prim.Native.Nat.{
  ℕ, zero, suc, ◌+◌, ◌*◌, ◌/◌, ◌%◌, ◌^◌, ◌<◌, min, max, bit_and, bit_or, bit_or-bitwise,
}
use mathlib.Core.Path.{◌≡◌, ◌∙◌}
use native.Mathlib.Nat.{one-le-pow, mul-div_cancel, mul-mod_left, div-eq_of_lt, mod-eq_of_lt}
use native.Mathlib.Omega.{arith}
use black_kernel.Base.Bits.{
  bit_and_halves, bit_or_halves, bit_and-zero, bit_or-zero, div_half, mod_half, two-pow-suc,
}

-- The lowest digit of a remainder by twice as much, and what stands above it.
mod_half_parts : (a m : ℕ) → (a % (2 * m) / 2 ≡ a / 2 % m) × (a % (2 * m) % 2 ≡ a % 2)
mod_half_parts a m = omega (arith, mod_half a m)

and_low_step :
    (a b m : ℕ)
    → bit_and (a % (2 * m)) (b % (2 * m))
      ≡ bit_and (a / 2 % m) (b / 2 % m) * 2 + min (a % 2) (b % 2)
and_low_step a b m =
    let (a_rest, a_digit) = mod_half_parts a m in
    let (b_rest, b_digit) = mod_half_parts b m in
    bit_and_halves (a % (2 * m)) (b % (2 * m)) ∙ rw (a_rest, b_rest, a_digit, b_digit)

or_low_step :
    (a b m : ℕ)
    → bit_or (a % (2 * m)) (b % (2 * m)) ≡ bit_or (a / 2 % m) (b / 2 % m) * 2 + max (a % 2) (b % 2)
or_low_step a b m =
    let (a_rest, a_digit) = mod_half_parts a m in
    let (b_rest, b_digit) = mod_half_parts b m in
    bit_or_halves (a % (2 * m)) (b % (2 * m)) ∙ rw (a_rest, b_rest, a_digit, b_digit)

pub bit_and_split :
    (k a b : ℕ)
    → bit_and a b ≡ bit_and (a / 2 ^ k) (b / 2 ^ k) * 2 ^ k + bit_and (a % 2 ^ k) (b % 2 ^ k)
bit_and_split zero a b =
    let (a1, a0) = by_one a in let (b1, b0) = by_one b in rw (a1, a0, b1, b0) (omega arith)
  where
    by_one : (n : ℕ) → (n / 2 ^ 0 ≡ n) × (n % 2 ^ 0 ≡ 0)
    by_one n = omega arith
bit_and_split (suc k) a b =
    rw (two-pow-suc k, ← div_half a (2 ^ k), ← div_half b (2 ^ k), and_low_step a b (2 ^ k))
      (omega (arith, bit_and_halves a b, bit_and_split k (a / 2) (b / 2)))

pub bit_or_split :
    (k a b : ℕ)
    → bit_or a b ≡ bit_or (a / 2 ^ k) (b / 2 ^ k) * 2 ^ k + bit_or (a % 2 ^ k) (b % 2 ^ k)
bit_or_split zero a b =
    let (a1, a0) = by_one a in let (b1, b0) = by_one b in rw (a1, a0, b1, b0) (omega arith)
  where
    by_one : (n : ℕ) → (n / 2 ^ 0 ≡ n) × (n % 2 ^ 0 ≡ 0)
    by_one n = omega arith
bit_or_split (suc k) a b =
    rw (two-pow-suc k, ← div_half a (2 ^ k), ← div_half b (2 ^ k), or_low_step a b (2 ^ k))
      (omega (arith, bit_or_halves a b, bit_or_split k (a / 2) (b / 2)))

-- `a & (m << k)` acts on what stands above the low bits alone.
pub bit_and_shift : (k m a : ℕ) → bit_and a (m * 2 ^ k) ≡ bit_and (a / 2 ^ k) m * 2 ^ k
bit_and_shift k m a =
    rw
      (
        bit_and_split k a (m * 2 ^ k),
        mul-div_cancel m (one-le-pow k 2 (omega arith)),
        mul-mod_left m (2 ^ k),
        bit_and-zero,
      )
      (omega arith)

-- `(q << k) | r` is a sum when `r` fits `k` bits.
pub bit_or_low : (k q r : ℕ) → r < 2 ^ k → bit_or (q * 2 ^ k) r ≡ q * 2 ^ k + r
bit_or_low k q r fits = rw (
  bit_or_split k (q * 2 ^ k) r,
  mul-div_cancel q (one-le-pow k 2 (omega arith)),
  mul-mod_left q (2 ^ k),
  div-eq_of_lt fits,
  mod-eq_of_lt fits,
  bit_or-zero,
  bit_or-bitwise 0 r,
)

-- `a | 1`
pub bit_or_one : (a : ℕ) → bit_or a 1 ≡ a / 2 * 2 + 1
bit_or_one a = omega (arith, bit_or_halves a 1, bit_or-zero (a / 2))
