-- ===== src/Base/Bits.antt =====
-- Laws of `&`, `|` and `^` at variables, from the recursion on binary digits.
use Prim.Native.Nat.{
  ℕ, zero, suc, ◌+◌, ◌-◌, ◌*◌, ◌/◌, ◌%◌, ◌^◌, ◌≤◌, min, max, bit_and, bit_or, bit_xor, digits,
  differ, bit_and-bitwise, bit_or-bitwise, bit_xor-bitwise,
}
use mathlib.Core.Path.{◌≡◌, refl, ◌∙◌, ap}
use native.Mathlib.Nat.{pow-suc, one-le-pow, div-add-mod, mul-div-le, div-div-eq-div-mul}
use native.Mathlib.Omega.{arith}
use mathlib.Core.Bool.{false}
use mathlib.Core.Logic.{◌≢◌, ◌⊎◌, inl, inr}
use black_kernel.Base.Tests.{◌==◌, if◌then◌else◌, Bool-cases}

-- The recursion on binary digits runs on fuel, and as much fuel as the number is enough.
module _ (z : ℕ → ℕ) (f : ℕ → ℕ → ℕ) where
  digits_one_more : (k x y : ℕ) → x ≤ k → digits z f (suc k) x y ≡ digits z f k x y
  digits_one_more zero zero y fits = refl
  digits_one_more zero (suc x) y fits = absurd (omega arith)
  digits_one_more (suc k) zero y fits = refl
  digits_one_more (suc k) (suc x) y fits =
      omega (arith, digits_one_more k (suc x / 2) (y / 2) (omega arith))

  digits_more : (extra k l x y : ℕ) → x ≤ k → l ≡ k + extra → digits z f l x y ≡ digits z f k x y
  digits_more zero k l x y fits e = ap (λ fuel. digits z f fuel x y) (omega arith)
  digits_more (suc extra) k l x y fits e =
      digits_more extra (suc k) l x y (omega arith) (omega arith) ∙ digits_one_more k x y fits

  -- Half of a number needs no more fuel than its predecessor has.
  digits_half :
      (x y : ℕ) → digits z f x (suc x / 2) (y / 2) ≡ digits z f (suc x / 2) (suc x / 2) (y / 2)
  digits_half x y =
      digits_more (x - suc x / 2) (suc x / 2) x (suc x / 2) (y / 2) (omega arith) (omega arith)

pub bit_and_halves : (x y : ℕ) → bit_and x y ≡ bit_and (x / 2) (y / 2) * 2 + min (x % 2) (y % 2)
bit_and_halves zero y = omega (arith, bit_and-bitwise 0 (y / 2), bit_and-bitwise 0 y)
bit_and_halves (suc x) y =
    let half = digits_half (λ _. 0) min x y in
    omega (arith, half, bit_and-bitwise (suc x / 2) (y / 2), bit_and-bitwise (suc x) y)

pub bit_or_halves : (x y : ℕ) → bit_or x y ≡ bit_or (x / 2) (y / 2) * 2 + max (x % 2) (y % 2)
bit_or_halves zero y = omega (arith, bit_or-bitwise 0 (y / 2), bit_or-bitwise 0 y)
bit_or_halves (suc x) y =
    let half = digits_half (λ t. t) max x y in
    omega (arith, half, bit_or-bitwise (suc x / 2) (y / 2), bit_or-bitwise (suc x) y)

pub bit_xor_halves : (x y : ℕ) → bit_xor x y ≡ bit_xor (x / 2) (y / 2) * 2 + differ (x % 2) (y % 2)
bit_xor_halves zero y = omega (arith, bit_xor-bitwise 0 (y / 2), bit_xor-bitwise 0 y)
bit_xor_halves (suc x) y =
    let half = digits_half (λ t. t) differ x y in
    omega (arith, half, bit_xor-bitwise (suc x / 2) (y / 2), bit_xor-bitwise (suc x) y)

differ-zero : (d : ℕ) → differ d 0 ≡ d
differ-zero zero = refl
differ-zero (suc d) = refl

-- The three operations with 0, by halving a number that is at most `k`.
with_zero : (k x : ℕ) → x ≤ k → (bit_and x 0 ≡ 0) × (bit_or x 0 ≡ x) × (bit_xor x 0 ≡ x)
with_zero k zero fits = (refl, refl, refl)
with_zero zero (suc x) fits = absurd (omega arith)
with_zero (suc k) (suc x) fits =
    let (none, all, same) = with_zero k (suc x / 2) (omega arith) in
    (
      omega (arith, none, bit_and_halves (suc x) 0),
      omega (arith, all, bit_or_halves (suc x) 0),
      omega (arith, same, bit_xor_halves (suc x) 0, differ-zero (suc x % 2)),
    )

pub bit_and-zero : (x : ℕ) → bit_and x 0 ≡ 0
bit_and-zero x = (with_zero x x (omega arith)).0

pub bit_or-zero : (x : ℕ) → bit_or x 0 ≡ x
bit_or-zero x = (with_zero x x (omega arith)).1

pub bit_xor-zero : (x : ℕ) → bit_xor x 0 ≡ x
bit_xor-zero x = (with_zero x x (omega arith)).2

-- Halving, and a division by twice as much.
pub div_half : (a m : ℕ) → a / 2 / m ≡ a / (2 * m)
div_half a m = div-div-eq-div-mul a 2 m

pub mod_half : (a m : ℕ) → a % (2 * m) ≡ a / 2 % m * 2 + a % 2
mod_half a m = omega (
  arith,
  div_half a m,
  div-add-mod a (2 * m),
  div-add-mod (a / 2) m,
  ap (λ (t : ℕ). m * t) (div_half a m),
)

pub two-pow-suc : (k : ℕ) → 2 ^ suc k ≡ 2 * 2 ^ k
two-pow-suc k = omega (arith, pow-suc 2 k)

and_low : (a m : ℕ) → 1 ≤ m → bit_and a (2 * m - 1) ≡ bit_and (a / 2) (m - 1) * 2 + a % 2
and_low a m h = bit_and_halves a (2 * m - 1) ∙ rw half (omega arith)
  where
    half : (2 * m - 1) / 2 ≡ m - 1
    half = omega arith

xor_double : (a m : ℕ) → bit_xor a (2 * m) ≡ bit_xor (a / 2) m * 2 + a % 2
xor_double a m = bit_xor_halves a (2 * m) ∙ rw (half, even, differ-zero)
  where
    half : 2 * m / 2 ≡ m
    half = omega arith

    even : 2 * m % 2 ≡ 0
    even = omega arith

-- `a & (2^k - 1)` keeps the k lowest bits.
pub bit_and_mask : (k a : ℕ) → bit_and a (2 ^ k - 1) ≡ a % 2 ^ k
bit_and_mask zero a = rw bit_and-zero (omega arith)
bit_and_mask (suc k) a =
    rw (two-pow-suc k, mod_half a (2 ^ k), ← bit_and_mask k (a / 2))
      (and_low a (2 ^ k) (one-le-pow k 2 (omega arith)))

odd_quotient : (a m : ℕ) → (a / m % 2 == 0) ≡ false → m ≤ a
odd_quotient a m c = ground (arith, mul-div-le a m, product (a / m))
  where
    product : (q : ℕ) → q % 2 ≢ 0 → m ≤ m * q
    product q h = grind arith

-- Put back the lowest digit.
single_double :
    (a m x : ℕ)
    → x ≡ (if a / 2 / m % 2 == 0 then a / 2 + m else a / 2 - m)
    → x * 2 + a % 2 ≡ (if a / 2 / m % 2 == 0 then a + 2 * m else a - 2 * m)
single_double a m x e = elim (Bool-cases (a / 2 / m % 2 == 0)) [
  | inl c ↦ rw c (omega (arith, rw c at e))
  | inr c ↦ rw c (omega (arith, rw c at e, odd_quotient (a / 2) m c))
]

-- `a ^ (1 << k)` adds the bit if it is not there, else takes it off.
pub bit_xor_single :
    (k a : ℕ) → bit_xor a (2 ^ k) ≡ (if a / 2 ^ k % 2 == 0 then a + 2 ^ k else a - 2 ^ k)
bit_xor_single zero a = ground (arith, bit_xor_halves a 1, bit_xor-zero (a / 2))
bit_xor_single (suc k) a =
    rw (two-pow-suc k, ← div_half a (2 ^ k))
      (xor_double a (2 ^ k) ∙ single_double a (2 ^ k) _ (bit_xor_single k (a / 2)))

-- The same as two cases, the second with the bit in place.
pub bit_xor_cases :
    (k a : ℕ) → (bit_xor a (2 ^ k) ≡ a + 2 ^ k) ⊎ (2 ^ k ≤ a) × (bit_xor a (2 ^ k) ≡ a - 2 ^ k)
bit_xor_cases k a = elim (Bool-cases (a / 2 ^ k % 2 == 0)) [
  | inl c ↦ inl (rw c at (bit_xor_single k a))
  | inr c ↦ inr (odd_quotient a (2 ^ k) c, rw c at (bit_xor_single k a))
]
