-- ===== src/Vga/Tests.antt =====
-- The text screen (kernel/drivers/vga.c) at its end.
use black_kernel.Base.{ℕ, ◌≤◌, ◌≡◌, arith, [], ◌∷◌}
use black_kernel.Vga.{Screen, write}
use black_kernel.Vga.Bounds.{IsValid, NoTab, write-IsValid}

abbrev screen : Screen
screen = record { buffer = λ i. 0; color = 7; cursor_x = 79; cursor_y = 24 }

screen-IsValid : IsValid screen
screen-IsValid = record { column = omega arith; row = omega arith }

letters-NoTab : NoTab (65 ∷ 10 ∷ 66 ∷ [])
unfolding NoTab
letters-NoTab = (
  λ e. absurd (omega (arith, e)),
  (λ e. absurd (omega (arith, e)), (λ e. absurd (omega (arith, e)), tt)),
)

write-IsValid_example :
    IsValid (write screen (65 ∷ 10 ∷ 66 ∷ []))
    × ((j : ℕ) → 2000 ≤ j → (write screen (65 ∷ 10 ∷ 66 ∷ [])).buffer j ≡ screen.buffer j)
write-IsValid_example = write-IsValid screen (65 ∷ 10 ∷ 66 ∷ []) screen-IsValid letters-NoTab
