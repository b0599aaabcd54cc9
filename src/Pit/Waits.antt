-- ===== src/Pit/Waits.antt =====
-- How long `pit_wait` (kernel/drivers/pit.c) waits.
use black_kernel.Base.{ℕ, ◌+◌, ◌≤◌, ◌<◌, ◌≡◌, ◌++◌, Bool, List, [], ◌∷◌, if◌then◌else◌}
use black_kernel.Pit.{Round}

-- The timer's interrupts among those of the list, and in the rounds.
unfoldable pub timer_ticks : List Bool → ℕ
timer_ticks [] = 0
timer_ticks (timer ∷ interrupts) = (if timer then 1 else 0) + timer_ticks interrupts

unfoldable pub round_ticks : Round → ℕ
round_ticks r = timer_ticks r.early + (if r.wakes then 1 else 0)

unfoldable pub all_ticks : List Round → ℕ
all_ticks [] = 0
all_ticks (r ∷ rounds) = round_ticks r + all_ticks rounds

-- The time had not come at the comparison of the last of the rounds, if there is one.
unfoldable pub WasEarly : ℕ → ℕ → List Round → Type 0
WasEarly ticks target [] = Unit
WasEarly ticks target (r ∷ []) = ticks < target
WasEarly ticks target (r ∷ q ∷ rounds) = WasEarly (ticks + round_ticks r) target (q ∷ rounds)

-- A wait that returns with some rounds left: it went through those before them, every interrupt of the
-- timer in them is counted, the time has come, and it had not come when the last `hlt` was entered.
pub record HasWaited (rounds : List Round) (ticks target : ℕ) (r : ℕ × List Round) : Type 0 where
  pub seen : List Round
  pub split : seen ++ r.1 ≡ rounds
  pub elapsed : ticks + all_ticks seen ≡ r.0
  pub has_come : target ≤ r.0
  pub not_before : WasEarly ticks target seen
