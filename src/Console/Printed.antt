-- ===== src/Console/Printed.antt =====
-- What `kprintf` (kernel/lib/stdio.c) puts on the screen and on the serial line.
use black_kernel.Base.{
  ℕ, zero, suc, ◌+◌, ◌≤◌, ◌<◌, ◌≡◌, ◌≢◌, refl, sym, ap, ◌∙◌, arith, true, false, some, List, [],
  ◌∷◌, ◌++◌, ltb, ◌==◌, if◌then◌else◌, update, length, get_or, take, length-take, min, ◌^◌, pos,
}
use black_kernel.Ports.{Ports}
use black_kernel.Stdio.{Sink, Arg}
use black_kernel.Stdio.Output.{expand, kvsnprintf_lem}
use black_kernel.Vga.{write}
use black_kernel.Serial.Sent.{IsUart, write_string-sent}
use black_kernel.Console.{Console, string_at, format, kputs, kprintf}

-- The buffer holds the string, and the null character behind it.
string_at_lem :
    (xs : List ℕ) (rounds i : ℕ) (buf : ℕ → ℕ)
    → length xs < rounds
    → ((j : ℕ) → j < length xs → buf (i + j) ≡ get_or xs j 0)
    → ((j : ℕ) → j < length xs → get_or xs j 0 ≢ 0)
    → buf (i + length xs) ≡ 0
    → string_at rounds buf i ≡ xs
unfolding string_at
string_at_lem xs zero i buf lt holds some_char ended = absurd (omega arith)
string_at_lem [] (suc rounds) i buf lt holds some_char ended =
    let here : buf i ≡ 0 = ap buf (omega arith) ∙ ended in ground (arith, here)
string_at_lem (x ∷ xs) (suc rounds) i buf lt holds some_char ended =
    let here : buf i ≡ x = ap buf (omega arith) ∙ holds 0 (omega arith) in
    let rest =
      string_at_lem xs rounds (i + 1) buf (omega arith)
        (λ j h. ap buf (omega arith) ∙ holds (suc j) (omega arith))
        (λ j h. some_char (suc j) (omega arith)) (ap buf (omega arith) ∙ ended) in
    let ne : (x == 0) ≡ false = ground (arith, some_char 0 (omega arith)) in rw (here, ne, rest)

get_or-take : (n : ℕ) (xs : List ℕ) (j : ℕ) → j < n → get_or (take n xs) j 0 ≡ get_or xs j 0
get_or-take zero xs j h = absurd (omega arith)
get_or-take (suc n) [] j h = refl
get_or-take (suc n) (x ∷ xs) zero h = refl
get_or-take (suc n) (x ∷ xs) (suc j) h = get_or-take n xs j (omega arith)

-- No null character among those of the text.
abbrev pub HasNoNull : List ℕ → Type 0
HasNoNull xs = (j : ℕ) → j < length xs → get_or xs j 0 ≢ 0

last_at : (n len : ℕ) → n ≡ len → (if ltb n 1023 then n else 1023) ≡ min len 1023
last_at n len e = ground arith

update_at : (out : ℕ → ℕ) (last : ℕ) {i : ℕ} → last ≡ i → update out last 0 i ≡ 0
update_at out last e = ground arith

kept_below :
    (out : ℕ → ℕ) (last j len : ℕ)
    → last ≡ min len 1023
    → j < min 1023 len
    → update out last 0 (0 + j) ≡ out j
kept_below out last j len e h = let here : 0 + j ≡ j = omega arith in rw here (ground arith)

format-take :
    (buf : ℕ → ℕ) (fmt : List ℕ) (args : List Arg) (total : List ℕ)
    → expand fmt args ≡ some total
    → length total < 2 ^ 31
    → HasNoNull total
    → format buf fmt args ≡ some (pos (length total), take 1023 total)
unfolding format
format-take buf fmt args total e small some_char =
    let s : Sink = record { has_out = true; out_sz = 1024; out = buf; pos = 0 } in
    let (after, run, holds) = kvsnprintf_lem s fmt args total e small refl (omega arith) in
    let n = length total in
    let last = if ltb n 1023 then n else 1023 in
    let last_is : last ≡ min n 1023 = last_at n n refl in
    let short = length-take 1023 total in
    let string =
      string_at_lem (take 1023 total) 1024 0 (update after.out last 0) (omega (arith, short))
        (λ j h.
          kept_below after.out last j n last_is (omega (arith, short))
          ∙ holds.kept j (omega (arith, short)) (omega (arith, short))
          ∙ sym (get_or-take 1023 total j (omega (arith, short))))
        (λ j h e.
          some_char j (omega (arith, short))
            (sym (get_or-take 1023 total j (omega (arith, short))) ∙ e))
        (update_at after.out last (omega (arith, last_is, short))) in
    rw run (ap (λ t. some (pos n, t)) string)

module _ {D : Type 0} (p : Ports D) (sent : D → List ℕ) (left : D → ℕ) (slow : ℕ)
    (uart : IsUart p sent left slow) where
  -- `kprintf` of a text of less than 2^31 characters without a null character, where every conversion
  -- of the format has an argument of its kind: it ends, returns the length of the text, and sends the
  -- same first 1023 characters of it to the screen and to the serial line, where more rounds of fuel
  -- than the line is slow are given.
  pub kprintf-take :
      (fuel : ℕ) (c : Console D) (buf : ℕ → ℕ) (fmt : List ℕ) (args : List Arg) (total : List ℕ)
      → expand fmt args ≡ some total
      → length total < 2 ^ 31
      → HasNoNull total
      → left c.device ≤ slow
      → slow < fuel
      → (d : D) × (sent d ≡ sent c.device ++ take 1023 total)
        × (kprintf p fuel c buf fmt args
            ≡ some (
              pos (length total),
              record { screen = write c.screen (take 1023 total); device = d },
            ))
  unfolding kprintf kputs
  kprintf-take fuel c buf fmt args total e small some_char le lt =
      let (d, run, all) =
        write_string-sent p sent left slow uart fuel c.device (take 1023 total) le lt in
      (d, all, rw (format-take buf fmt args total e small some_char, run))
