-- ===== src/Console/Tests.antt =====
-- A message (kernel/lib/stdio.c) of one conversion, on the screen and on a slow serial line.
use black_kernel.Base.{ℕ, ◌≡◌, ◌++◌, refl, arith, zero, suc, some, List, [], ◌∷◌, take, pos}
use black_kernel.Stdio.{number, number_text, itoa_dec, dec_digits, to_int}
use black_kernel.Stdio.Output.{expand, expand_one}
use black_kernel.Vga.{write}
use black_kernel.Console.{Console, kprintf}
use black_kernel.Console.Printed.{HasNoNull, kprintf-take}
use black_kernel.Serial.Tests.{ports, uart}

abbrev console : Console (List ℕ × ℕ)
console = record {
  screen = record { buffer = λ i. 0; color = 7; cursor_x = 0; cursor_y = 3 };
  device = ([], 2);
}

-- `"%d"` of 12
abbrev format : List ℕ
format = 37 ∷ 100 ∷ []

abbrev digits : List ℕ
digits = 49 ∷ 50 ∷ []

expanded : expand format (number 12 ∷ []) ≡ some digits
unfolding expand expand_one number_text itoa_dec dec_digits to_int
expanded = refl

digits-HasNoNull : HasNoNull digits
digits-HasNoNull zero h = omega arith
digits-HasNoNull (suc zero) h = omega arith
digits-HasNoNull (suc (suc j)) h = absurd (omega arith)

kprintf-take_example :
    (d : List ℕ × ℕ) × (d.0 ≡ [] ++ take 1023 digits)
    × (kprintf ports 4 console (λ i. 255) format (number 12 ∷ [])
        ≡ some (pos 2, record { screen = write console.screen (take 1023 digits); device = d }))
kprintf-take_example =
    kprintf-take ports (λ d. d.0) (λ d. d.1) 3 uart 4 console (λ i. 255) format (number 12 ∷ [])
      digits expanded (omega arith) digits-HasNoNull (omega arith) (omega arith)
