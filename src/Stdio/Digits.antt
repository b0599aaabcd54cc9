-- ===== src/Stdio/Digits.antt =====
-- The numbers that `itoa_dec` and `itoa_hex` (kernel/lib/stdio.c) print, read back.
use black_kernel.Base.{
  ℕ, zero, suc, ◌+◌, ◌-◌, ◌*◌, ◌/◌, ◌%◌, ◌^◌, ◌≤◌, ◌<◌, ◌≡◌, refl, bit_and, Bool, true, false,
  Bool-cases, inl, inr, arith, ltb, ◌==◌, if◌then◌else◌, List, [], ◌∷◌, bit_and_mask, sym, ap, ◌∙◌,
  subst, ℤ, pos, negsuc, u64,
}
use black_kernel.Stdio.{hex_digit, hex_digits, itoa_hex, dec_digits, itoa_dec}

-- The decimal number that the characters write, behind the digits of `n`.
unfoldable pub read_dec : ℕ → List ℕ → ℕ
read_dec n [] = n
read_dec n (c ∷ text) = read_dec (n * 10 + (c - 48)) text

-- The value of a hexadecimal digit of either case.
unfoldable pub hex_value : ℕ → ℕ
hex_value c = if ltb c 58 then c - 48 else if ltb c 71 then c - 55 else c - 87

unfoldable pub read_hex : ℕ → List ℕ → ℕ
read_hex n [] = n
read_hex n (c ∷ text) = read_hex (n * 16 + hex_value c) text

-- An optional minus sign and a decimal number.
unfoldable pub read_int : List ℕ → ℤ
read_int [] = pos 0
read_int (c ∷ text) =
    if c == 45
    then (if read_dec 0 text == 0 then pos 0 else negsuc (read_dec 0 text - 1))
    else pos (read_dec 0 (c ∷ text))

read_dec-dec_digits :
    (rounds x : ℕ) (rest : List ℕ)
    → x < 10 ^ rounds
    → read_dec 0 (dec_digits rounds x rest) ≡ read_dec x rest
unfolding dec_digits read_dec
read_dec-dec_digits zero x rest h = ap (λ n. read_dec n rest) (omega arith)
read_dec-dec_digits (suc rounds) x rest h =
    let more = read_dec-dec_digits rounds (x / 10) ((48 + x % 10) ∷ rest) (omega arith) in
    let whole : x / 10 * 10 + (48 + x % 10 - 48) ≡ x = omega arith in
    elim (Bool-cases (x == 0)) [
      | inl e ↦ rw e (ap (λ n. read_dec n rest) (ground (arith, e)))
      | inr e ↦ rw e (more ∙ ap (λ n. read_dec n rest) whole)
    ]

hex_value-hex_digit : (upper : Bool) (d : ℕ) → d < 16 → hex_value (hex_digit upper d) ≡ d
unfolding hex_value hex_digit
hex_value-hex_digit upper d h = ground arith

read_hex-hex_digits :
    (rounds : ℕ) (upper : Bool) (v : ℕ) (rest : List ℕ)
    → v < 16 ^ rounds
    → read_hex 0 (hex_digits rounds upper v rest) ≡ read_hex v rest
unfolding hex_digits read_hex
read_hex-hex_digits zero upper v rest h = ap (λ n. read_hex n rest) (omega arith)
read_hex-hex_digits (suc rounds) upper v rest h =
    let low : bit_and v 0xF ≡ v % 16 = bit_and_mask 4 v in
    let digit = hex_value-hex_digit upper (bit_and v 0xF) (omega (arith, low)) in
    let more =
      read_hex-hex_digits rounds upper (v / 2 ^ 4) (hex_digit upper (bit_and v 0xF) ∷ rest)
        (omega arith) in
    let whole : v / 2 ^ 4 * 16 + hex_value (hex_digit upper (bit_and v 0xF)) ≡ v =
      omega (arith, low, digit) in
    elim (Bool-cases (v == 0)) [
      | inl e ↦ rw e (ap (λ n. read_hex n rest) (ground (arith, e)))
      | inr e ↦ rw e (more ∙ ap (λ n. read_hex n rest) whole)
    ]

-- The hexadecimal digits that `itoa_hex` writes of a 64-bit number, in either case, read as that number.
pub read_hex-itoa_hex : (v : ℕ) (upper : Bool) → v < u64 → read_hex 0 (itoa_hex v upper) ≡ v
unfolding itoa_hex read_hex hex_value
read_hex-itoa_hex v upper h = elim (Bool-cases (v == 0)) [
  | inl e ↦ rw e (ground (arith, e))
  | inr e ↦ rw e (read_hex-hex_digits 16 upper v [] (omega arith))
]

-- The first character is a digit, not a minus sign.
unfoldable IsDigits : List ℕ → Type 0
IsDigits [] = ⊥
IsDigits (c ∷ text) = 48 ≤ c

dec_digits-IsDigits :
    (rounds x : ℕ) (rest : List ℕ) → IsDigits rest → IsDigits (dec_digits rounds x rest)
unfolding dec_digits IsDigits
dec_digits-IsDigits zero x rest h = h
dec_digits-IsDigits (suc rounds) x rest h =
    let more = dec_digits-IsDigits rounds (x / 10) ((48 + x % 10) ∷ rest) (omega arith) in
    elim (Bool-cases (x == 0)) [ inl e ↦ rw e h | inr e ↦ rw e more ]

read_int-IsDigits : (text : List ℕ) → IsDigits text → read_int text ≡ pos (read_dec 0 text)
unfolding read_int IsDigits
read_int-IsDigits [] h = absurd h
read_int-IsDigits (c ∷ text) h = let digit : (c == 45) ≡ false = ground arith in rw digit

dec_digits-suc :
    (rounds x : ℕ)
    → (x == 0) ≡ false
    → dec_digits (suc rounds) x [] ≡ dec_digits rounds (x / 10) ((48 + x % 10) ∷ [])
unfolding dec_digits
dec_digits-suc rounds x e = rw e

-- A number that is not 0 has a first digit.
dec_digits-some : (x : ℕ) → (x == 0) ≡ false → IsDigits (dec_digits 20 x [])
unfolding IsDigits
dec_digits-some x e =
    subst IsDigits (sym (dec_digits-suc 19 x e))
      (dec_digits-IsDigits 19 (x / 10) ((48 + x % 10) ∷ []) (omega arith))

read_zero : read_int (48 ∷ []) ≡ pos 0
unfolding read_int read_dec
read_zero = refl

read_end : (n : ℕ) → read_dec n [] ≡ n
unfolding read_dec
read_end n = refl

read_pos : (n : ℕ) → n < u64 → read_int (itoa_dec (pos n) false) ≡ pos n
unfolding itoa_dec
read_pos n h = elim (Bool-cases (n == 0)) [
  | inl e ↦ rw e (read_zero ∙ ap pos (ground (arith, e)))
  | inr e ↦ rw e (
      read_int-IsDigits (dec_digits 20 n []) (dec_digits-some n e)
      ∙ ap pos (read_dec-dec_digits 20 n [] (omega arith) ∙ read_end n))
]

read_neg : (n : ℕ) → n < 2 ^ 63 → read_int (itoa_dec (negsuc n) false) ≡ negsuc n
unfolding itoa_dec read_int
read_neg n h =
    let value : read_dec 0 (dec_digits 20 (n + 1) []) ≡ n + 1 =
      read_dec-dec_digits 20 (n + 1) [] (omega arith) ∙ read_end (n + 1) in
    let some : (n + 1 == 0) ≡ false = ground arith in rw (value, some) (ap negsuc (omega arith))

-- The digits that `itoa_dec` writes of n or of -(n + 1), with its sign, read as that number, for
-- every n below 2^63.
pub read_int-itoa_dec :
    (n : ℕ)
    → n < 2 ^ 63
    → (read_int (itoa_dec (pos n) false) ≡ pos n)
      × (read_int (itoa_dec (negsuc n) false) ≡ negsuc n)
read_int-itoa_dec n h = (read_pos n (omega arith), read_neg n h)

-- The digits that `itoa_dec` writes of a `uint64_t` read as that number.
pub read_dec-itoa_dec : (n : ℕ) → n < u64 → read_dec 0 (itoa_dec (pos n) true) ≡ n
unfolding itoa_dec read_dec
read_dec-itoa_dec n h = elim (Bool-cases (n == 0)) [
  | inl e ↦ rw e (ground (arith, e))
  | inr e ↦ rw e (read_dec-dec_digits 20 n [] (omega arith))
]
