-- ===== src/Stdio/Tests.antt =====
-- Formatted output (kernel/lib/stdio.c) on small inputs.
use black_kernel.Base.{◌≡◌, refl, arith, some, true, false, [], ◌∷◌, pos, negsuc}
use black_kernel.Stdio.{Sink, number, kvsnprintf, itoa_dec, number_text, dec_digits, to_int}
use black_kernel.Stdio.Digits.{read_int, read_int-itoa_dec}
use black_kernel.Stdio.Output.{expand, expand_one, Holds, kvsnprintf_lem}

-- `"%d"` into a buffer of three bytes.
abbrev buffer : Sink
buffer = record { has_out = true; out_sz = 3; out = λ i. 0; pos = 9 }

expanded : expand (37 ∷ 100 ∷ []) (number 123 ∷ []) ≡ some (49 ∷ 50 ∷ 51 ∷ [])
unfolding expand expand_one number_text itoa_dec dec_digits to_int
expanded = refl

kvsnprintf_lem_example :
    (after : Sink) × (kvsnprintf buffer (37 ∷ 100 ∷ []) (number 123 ∷ []) ≡ some (pos 3, after))
    × Holds buffer after (49 ∷ 50 ∷ 51 ∷ [])
kvsnprintf_lem_example =
    kvsnprintf_lem buffer (37 ∷ 100 ∷ []) (number 123 ∷ []) (49 ∷ 50 ∷ 51 ∷ []) expanded
      (omega arith) refl (omega arith)

read_int-itoa_dec_example :
    (read_int (itoa_dec (pos 41) false) ≡ pos 41)
    × (read_int (itoa_dec (negsuc 41) false) ≡ negsuc 41)
read_int-itoa_dec_example = read_int-itoa_dec 41 (omega arith)
