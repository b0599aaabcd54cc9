-- ===== src/Console.antt =====
-- Text to both screen and serial line: `kprintf` and `kputs` of kernel/lib/stdio.c and the message of
-- kernel/core/panic.c. None is a conversion without its argument, or a serial line that does not
-- take a character in `fuel` reads of its status.
pub mod Printed
pub mod Tests
use black_kernel.Base.{
  ℕ, zero, suc, ◌+◌, Bool, true, Option, none, some, List, [], ◌∷◌, ◌++◌, ltb, ◌==◌, if◌then◌else◌,
  update, ◌>>=◌, ℤ, pos, negsuc,
}
use black_kernel.Ports.{Ports}
use black_kernel.Stdio.{Sink, Arg, kvsnprintf, string_text}
use black_kernel.Vga.{Screen, set_color, clear, write}
use black_kernel.Serial.{write_string}

pub record Console (D : Type 0) : Type 0 where
  pub screen : Screen
  pub device : D

-- The characters of a buffer from `i` on, up to the null character.
unfoldable pub string_at : ℕ → (ℕ → ℕ) → ℕ → List ℕ
string_at zero buf i = []
string_at (suc rounds) buf i =
    let more = string_at rounds buf (i + 1) in if buf i == 0 then [] else buf i ∷ more

-- `char buf[1024]` with what it happens to hold, and the string that is printed of it. None is also a
-- negative length, with which the code writes in front of the buffer.
unfoldable pub format : (ℕ → ℕ) → List ℕ → List Arg → Option (ℤ × List ℕ)
format buf fmt args =
    kvsnprintf (record { has_out = true; out_sz = 1024; out = buf; pos = 0 }) fmt args >>= λ r.
    elim r.0 [
      | negsuc n ↦ none
      | pos n ↦ some (pos n, string_at 1024 (update r.1.out (if ltb n 1023 then n else 1023) 0) 0)
    ]

module _ {D : Type 0} (p : Ports D) (fuel : ℕ) where
  unfoldable pub kputs : Console D → List ℕ → Option (Console D)
  kputs c str = write_string p fuel c.device str >>= λ d.
      some (record { screen = write c.screen str; device = d })

  -- The length of the text, and the console.
  unfoldable pub kprintf : Console D → (ℕ → ℕ) → List ℕ → List Arg → Option (ℤ × Console D)
  unfolding format kputs
  kprintf c buf fmt args = format buf fmt args >>= λ r. kputs c r.1 >>= λ c'. some (r.0, c')

  -- `kernel_panic`, up to its last loop. No message is a null pointer.
  unfoldable pub panic : Console D → Option (List ℕ) → Option (Console D)
  panic c message =
      let screen = clear (set_color c.screen 0x0F 0x04) in
      write_string p fuel c.device (80 ∷ 65 ∷ 78 ∷ 73 ∷ 67 ∷ 32 ∷ []) >>= λ d1.
      write_string p fuel d1 (string_text message) >>= λ d2.
      write_string p fuel d2 (10 ∷ []) >>= λ d3. some (record { screen = screen; device = d3 })
