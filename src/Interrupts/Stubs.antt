-- ===== src/Interrupts/Stubs.antt =====
-- What the stubs of the interrupts (kernel/arch/x86_64/idt.asm) make of the handler.
use black_kernel.Base.{
  ℕ, zero, suc, ◌≤◌, ◌<◌, ◌≡◌, refl, arith, Bool, true, not, ◌&&◌, some, List, [], ◌∷◌, ◌++◌, ◌==◌,
}
use black_kernel.Ports.{Ports}
use black_kernel.Stdio.{number, number_text, itoa_dec, dec_digits, to_int}
use black_kernel.Stdio.Output.{expand, expand_one}
use black_kernel.Vga.{write}
use black_kernel.Serial.Sent.{IsUart}
use black_kernel.Console.Printed.{HasNoNull, kprintf-take}
use black_kernel.Interrupts.{Machine, halted, noerr_frame, exception_format, interrupt_handler}

no_null : List ℕ → Bool
no_null [] = true
no_null (c ∷ l) = not (c == 0) && no_null l

no_null-HasNoNull : (l : List ℕ) → no_null l ≡ true → HasNoNull l
unfolding no_null
no_null-HasNoNull [] e j lt = absurd (omega arith)
no_null-HasNoNull (c ∷ l) e zero lt = ground arith
no_null-HasNoNull (c ∷ l) e (suc j) lt = no_null-HasNoNull l (ground arith) j (omega arith)

-- `"Exception 1 err=0\n"`
abbrev pub first_exception : List ℕ
first_exception =
    69 ∷ 120 ∷ 99 ∷ 101 ∷ 112 ∷ 116 ∷ 105 ∷ 111 ∷ 110 ∷ 32 ∷ 49 ∷ 32 ∷ 101 ∷ 114 ∷ 114 ∷ 61 ∷ 48
    ∷ 10 ∷ []

module _ {D : Type 0} (p : Ports D) (sent : D → List ℕ) (left : D → ℕ) (slow : ℕ)
    (uart : IsUart p sent left slow) where
  expanded : expand (exception_format p) (number 1 ∷ number 0 ∷ []) ≡ some first_exception
  unfolding expand expand_one number_text itoa_dec dec_digits to_int
  expanded = refl

  first_exception-HasNoNull : HasNoNull first_exception
  unfolding no_null
  first_exception-HasNoNull = no_null-HasNoNull first_exception refl

  -- An interrupt with a stub that pushes no error code of the processor, as those of all sixteen lines
  -- and of most exceptions are, halts the kernel for good, whatever its vector: the handler takes it
  -- for exception 1, with code 0, and says so on the screen and on the serial line, where more
  -- rounds of fuel than the line is slow are given.
  pub interrupt_handler-halts :
      (fuel : ℕ) (buf : ℕ → ℕ) (m : Machine D)
      → left m.console.device ≤ slow
      → slow < fuel
      → (d : D) × (sent d ≡ sent m.console.device ++ first_exception)
        × (interrupt_handler p fuel buf m noerr_frame
            ≡ some
                (halted (record { screen = write m.console.screen first_exception; device = d })))
  unfolding interrupt_handler
  interrupt_handler-halts fuel buf m le lt =
      let (d, all, run) =
        kprintf-take p sent left slow uart fuel m.console buf (exception_format p)
          (number 1 ∷ number 0 ∷ []) first_exception expanded (omega arith)
          first_exception-HasNoNull le lt in
      (d, all, rw run refl)
