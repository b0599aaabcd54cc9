-- ===== src/Stdio.antt =====
-- Formatted output, kernel/lib/stdio.c. Strings are the lists of their characters; so are the
-- buffers `tmp` and `buf`, which the numbers fit in. `kprintf` and `kputs`, which pass the text on to
-- the drivers, are in Console.
pub mod Tests
pub mod Digits
pub mod Output
use black_kernel.Base.{
  ℕ, zero, suc, ◌+◌, ◌-◌, ◌*◌, ◌/◌, ◌%◌, ◌^◌, bit_and, Bool, true, false, not, Option, none, some,
  List, [], ◌∷◌, ltb, leb, ◌==◌, ◌&&◌, ◌||◌, if◌then◌else◌, update, u64, u32, sub64, ℤ, pos, negsuc,
}

-- `d[v & 0xF]`
unfoldable pub hex_digit : Bool → ℕ → ℕ
hex_digit upper d = if ltb d 10 then 48 + d else (if upper then 55 else 87) + d

-- `while (v) tmp[i++] = ...`, then the digits in reverse: the list is built from its end, with the
-- digits that are already there in `rest`.
unfoldable pub hex_digits : ℕ → Bool → ℕ → List ℕ → List ℕ
hex_digits zero upper v rest = rest
hex_digits (suc rounds) upper v rest =
    let more = hex_digits rounds upper (v / 2 ^ 4) (hex_digit upper (bit_and v 0xF) ∷ rest) in
    if v == 0 then rest else more

unfoldable pub itoa_hex : ℕ → Bool → List ℕ
itoa_hex v upper = if v == 0 then 48 ∷ [] else hex_digits 16 upper v []

unfoldable pub dec_digits : ℕ → ℕ → List ℕ → List ℕ
dec_digits zero x rest = rest
dec_digits (suc rounds) x rest =
    let more = dec_digits rounds (x / 10) ((48 + x % 10) ∷ rest) in if x == 0 then rest else more

-- The magnitude of a negative number -(n + 1) is n + 1; with `uns` the value is reinterpreted as unsigned.
unfoldable pub itoa_dec : ℤ → Bool → List ℕ
itoa_dec v uns = elim v [
  | pos x ↦ if x == 0 then 48 ∷ [] else dec_digits 20 x []
  | negsuc n ↦ if uns then dec_digits 20 (u64 - 1 - n) [] else (45 ∷ dec_digits 20 (n + 1) [])
]

-- The output: `out` is NULL where `has_out` is false.
pub record Sink : Type 0 where
  pub has_out : Bool
  pub out_sz : ℕ
  pub out : ℕ → ℕ
  pub pos : ℕ

-- `if (out && pos + 1 < out_sz) out[pos] = c; pos++;`
unfoldable pub put : Sink → ℕ → Sink
put s c = record s {
  out = if s.has_out && ltb (s.pos + 1) s.out_sz then update s.out s.pos c else s.out;
  pos = s.pos + 1;
}

unfoldable pub put_all : Sink → List ℕ → Sink
put_all s [] = s
put_all s (c ∷ text) = put_all (put s c) text

-- A variadic argument: a string, NULL or its characters, or a number.
pub data Arg : Type 0 where
  text : Option (List ℕ) → Arg
  number : ℕ → Arg

-- The low 32 bits as an `int`.
unfoldable pub to_int : ℕ → ℤ
to_int n = if ltb (n % u32) (2 ^ 31) then pos (n % u32) else negsuc (u32 - 1 - n % u32)

-- The text of a conversion that takes a number; none for another letter.
unfoldable pub number_text : ℕ → ℕ → Option (List ℕ)
number_text c n =
    if c == 99
    then some (n % 256 ∷ [])
    else if c == 100
    then some (itoa_dec (to_int n) false)
    else if c == 117
    then some (itoa_dec (pos (n % u32)) true)
    else if c == 120 || c == 88
    then some (itoa_hex n (c == 88))
    else if c == 112
    then some (48 ∷ 120 ∷ itoa_hex n false)
    else none

-- `"(null)"`
unfoldable pub string_text : Option (List ℕ) → List ℕ
string_text none = 40 ∷ 110 ∷ 117 ∷ 108 ∷ 108 ∷ 41 ∷ []
string_text (some s) = s

-- One conversion, with the arguments left; none where an argument is missing or of another type.
unfoldable pub convert : Sink → ℕ → List Arg → Option (Sink × List Arg)
convert s c args =
    if c == 37
    then some (put s 37, args)
    else if c == 115
    then elim args [
      | [] ↦ none
      | a ∷ args ↦ elim a [ text t ↦ some (put_all s (string_text t), args) | number n ↦ none ]
    ]
    else if c == 99 || c == 100 || c == 117 || c == 120 || c == 88 || c == 112
    then elim args [
      | [] ↦ none
      | a ∷ args ↦ elim a [
        | text t ↦ none
        | number n ↦ elim (number_text c n) [ none ↦ none | some t ↦ some (put_all s t, args) ]
      ]
    ]
    else some (s, args)

-- The loop over the format, which is the list of its characters before the null character. A percent
-- sign at its end would make the loop read behind the null character: none.
unfoldable pub scan : List ℕ → Sink → List Arg → Option Sink
scan [] s args = some s
scan (c ∷ []) s args = if c == 37 then none else some (put s c)
scan (c ∷ d ∷ fmt) s args =
    let plain = scan (d ∷ fmt) (put s c) args in
    let converted : Option Sink = elim (convert s d args) [
      | none ↦ none
      | some r ↦ scan fmt r.0 r.1
    ] in
    if c == 37 then converted else plain

-- The final null character.
unfoldable pub terminate : Sink → Sink
terminate s =
    if s.has_out && not (s.out_sz == 0)
    then record s {
      out = update s.out (if ltb s.pos (s.out_sz - 1) then s.pos else s.out_sz - 1) 0;
    }
    else s

-- `return (int)pos;`, and the buffer.
unfoldable pub kvsnprintf : Sink → List ℕ → List Arg → Option (ℤ × Sink)
kvsnprintf s fmt args = elim (scan fmt (record s { pos = 0 }) args) [
  | none ↦ none
  | some done ↦ some (to_int done.pos, terminate done)
]

-- No bound: the buffer is written as far as the text goes.
unfoldable pub ksprintf : (ℕ → ℕ) → List ℕ → List Arg → Option (ℤ × Sink)
ksprintf buffer fmt args =
    kvsnprintf (record { has_out = true; out_sz = u64 - 1; out = buffer; pos = 0 }) fmt args
