-- ===== src/Pit.antt =====
-- The timer, kernel/drivers/pit.c: its frequency, the ticks and the wait for some of them.
pub mod Waits
pub mod Tests
use black_kernel.Base.{
  ℕ, ◌+◌, ◌-◌, ◌*◌, ◌/◌, ◌%◌, ◌^◌, bit_and, Bool, true, false, Option, none, some, List, [], ◌∷◌,
  ltb, ◌==◌, if◌then◌else◌, u64, u32, add64,
}
use black_kernel.Ports.{Ports}

abbrev pub divisor : ℕ → ℕ
divisor frequency = 1193182 / (if frequency == 0 then 1000 else frequency)

unfoldable pub init : {D : Type 0} → Ports D → D → ℕ → D
init p d frequency =
    let d1 = p.outb d 0x43 0x36 in
    let d2 = p.outb d1 0x40 (bit_and (divisor frequency) 0xFF) in
    p.outb d2 0x40 (bit_and (divisor frequency / 2 ^ 8) 0xFF)

-- `pit_irq_tick`
unfoldable pub irq_tick : ℕ → ℕ
irq_tick ticks = add64 ticks 1

-- One round of the loop of `pit_wait`: the interrupts between the comparison and the `hlt`, and the one
-- that ends the `hlt`; `true` stands for one of the timer.
pub record Round : Type 0 where
  pub early : List Bool
  pub wakes : Bool

unfoldable pub take_interrupts : List Bool → ℕ → ℕ
take_interrupts [] ticks = ticks
take_interrupts (timer ∷ interrupts) ticks =
    take_interrupts interrupts (if timer then irq_tick ticks else ticks)

unfoldable pub pass : Round → ℕ → ℕ
pass r ticks =
    let halted = take_interrupts r.early ticks in if r.wakes then irq_tick halted else halted

-- None where a `hlt` is not ended, since the list has no round for it, and else the ticks at the return
-- and the rounds that are left.
unfoldable pub wait_until : List Round → ℕ → ℕ → Option (ℕ × List Round)
wait_until [] ticks target = if ltb ticks target then none else some (ticks, [])
wait_until (r ∷ rounds) ticks target =
    let rest = wait_until rounds (pass r ticks) target in
    if ltb ticks target then rest else some (ticks, r ∷ rounds)

unfoldable pub wait : List Round → ℕ → ℕ → Option (ℕ × List Round)
wait rounds ticks milliseconds = wait_until rounds ticks (add64 ticks milliseconds)
