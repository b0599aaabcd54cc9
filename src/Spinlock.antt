-- ===== src/Spinlock.antt =====
-- Spinlocks, kernel/core/spinlock.c, on the atomic operations of include/kernel/atomic.h: each
-- atomic access is one step of one of the processors, in any order. The barriers order accesses that
-- this model has in program order anyway.
pub mod Tests
pub mod Mutex
use black_kernel.Base.{ℕ, zero, suc, ◌+◌, Bool, true, false, ◌≡◌, ◌==◌, if◌then◌else◌, update}

-- Where a processor is: not in the lock's code, before the compare-and-swap of `spinlock_acquire`,
-- in the loop that reads the lock, and in the critical section.
pub data Place : Type 0 where
  outside : Place
  swapping : Place
  waiting : Place
  holding : Place

pub record Lock : Type 0 where
  pub locked : ℕ
  pub places : ℕ → Place

-- `spinlock_init`, before any processor uses the lock.
unfoldable pub init : Lock
init = record { locked = 0; places = λ cpu. outside }

unfoldable pub move : Lock → ℕ → Place → Lock
move l cpu place = record l { places = update l.places cpu place }

-- The compare-and-swap of `spinlock_acquire`: 0 becomes 1, any other value stays.
unfoldable pub try_swap : Lock → ℕ → Place → Lock
unfolding move
try_swap l cpu failed =
    if l.locked == 0 then move (record l { locked = 1 }) cpu holding else move l cpu failed

-- `atomic_load(&lock->locked) != 0` of the inner loop.
unfoldable pub read : Lock → ℕ → Lock
unfolding move
read l cpu = if l.locked == 0 then move l cpu swapping else move l cpu waiting

unfoldable pub release : Lock → ℕ → Lock
unfolding move
release l cpu = move (record l { locked = 0 }) cpu outside

pub data Step : Lock → Lock → Type 0 where
  begin : (l : Lock) (cpu : ℕ) → l.places cpu ≡ outside → Step l (move l cpu swapping)
  acquire : (l : Lock) (cpu : ℕ) → l.places cpu ≡ swapping → Step l (try_swap l cpu waiting)
  spin : (l : Lock) (cpu : ℕ) → l.places cpu ≡ waiting → Step l (read l cpu)
  try : (l : Lock) (cpu : ℕ) → l.places cpu ≡ outside → Step l (try_swap l cpu outside)
  leave : (l : Lock) (cpu : ℕ) → l.places cpu ≡ holding → Step l (release l cpu)

-- The states that some interleaving of the processors leads to.
pub data Reach : Lock → Type 0 where
  start : Reach init
  step : (l l' : Lock) → Reach l → Step l l' → Reach l'
