-- ===== src/Pit/Tests.antt =====
-- Waits (kernel/drivers/pit.c) with interrupts of the timer and of others, one of them between the
-- comparison and the `hlt`.
use black_kernel.Base.{true, false, List, [], ◌∷◌}
use black_kernel.Pit.{Round}

abbrev rounds : List Round
rounds =
    record { early = []; wakes = false }
    ∷ record { early = true ∷ []; wakes = false }
    ∷ record { early = true ∷ false ∷ []; wakes = true }
    ∷ record { early = []; wakes = true }
    ∷ []
