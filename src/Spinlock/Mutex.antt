-- ===== src/Spinlock/Mutex.antt =====
-- Mutual exclusion of the spinlock (kernel/core/spinlock.c).
use black_kernel.Base.{ℕ, ◌≡◌, refl, ◌≢◌, arith, ◌==◌, Bool-cases, inl, inr, sym, ◌∙◌}
use black_kernel.Spinlock.{
  Place, outside, swapping, waiting, holding, Lock, init, move, try_swap, read, release, Step,
  begin, acquire, spin, try, leave, Reach, start, step,
}

-- At most one processor holds the lock, and none does while the word is 0.
pub record IsExclusive (l : Lock) : Type 0 where
  pub only : (a b : ℕ) → l.places a ≡ holding → l.places b ≡ holding → a ≡ b
  pub idle : l.locked ≡ 0 → (a : ℕ) → l.places a ≢ holding

holding_before :
    (l : Lock) (cpu : ℕ) (place : Place) (a : ℕ)
    → place ≢ holding
    → (move l cpu place).places a ≡ holding
    → l.places a ≡ holding
unfolding move
holding_before l cpu place a ne h = ground arith

locked-move : (l : Lock) (cpu : ℕ) (place : Place) → (move l cpu place).locked ≡ 0 → l.locked ≡ 0
unfolding move
locked-move l cpu place e = e

move-IsExclusive :
    (l : Lock) (cpu : ℕ) (place : Place)
    → place ≢ holding
    → IsExclusive l
    → IsExclusive (move l cpu place)
move-IsExclusive l cpu place ne valid = record {
  only = λ a b ha hb.
      valid.only a b (holding_before l cpu place a ne ha) (holding_before l cpu place b ne hb);
  idle = λ e a ha. valid.idle (locked-move l cpu place e) a (holding_before l cpu place a ne ha);
}

-- The winner of the compare-and-swap found nobody in the critical section.
holder_is :
    (l : Lock) (cpu a : ℕ)
    → ((b : ℕ) → l.places b ≢ holding)
    → (move (record l { locked = 1 }) cpu holding).places a ≡ holding
    → cpu ≡ a
unfolding move
holder_is l cpu a nobody h = ground (arith, nobody a)

locked_one : (l : Lock) (cpu : ℕ) → (move (record l { locked = 1 }) cpu holding).locked ≡ 1
unfolding move
locked_one l cpu = refl

try_swap-IsExclusive :
    (l : Lock) (cpu : ℕ) (failed : Place)
    → failed ≢ holding
    → IsExclusive l
    → IsExclusive (try_swap l cpu failed)
unfolding try_swap
try_swap-IsExclusive l cpu failed ne valid = elim (Bool-cases (l.locked == 0)) [
  | inl e ↦
      let nobody = valid.idle (ground (arith, e)) in
      rw e (record {
        only = λ a b ha hb. sym (holder_is l cpu a nobody ha) ∙ holder_is l cpu b nobody hb;
        idle = λ z a ha. ground (arith, locked_one l cpu, z);
      })
  | inr e ↦ rw e (move-IsExclusive l cpu failed ne valid)
]

read-IsExclusive : (l : Lock) (cpu : ℕ) → IsExclusive l → IsExclusive (read l cpu)
unfolding read
read-IsExclusive l cpu valid = elim (Bool-cases (l.locked == 0)) [
  | inl e ↦ rw e (move-IsExclusive l cpu swapping (λ q. ground arith) valid)
  | inr e ↦ rw e (move-IsExclusive l cpu waiting (λ q. ground arith) valid)
]

released :
    (l : Lock) (cpu a : ℕ)
    → ((b : ℕ) → l.places b ≡ holding → cpu ≡ b)
    → (release l cpu).places a ≢ holding
unfolding release move
released l cpu a only h = ground (arith, only a)

release-IsExclusive :
    (l : Lock) (cpu : ℕ) → l.places cpu ≡ holding → IsExclusive l → IsExclusive (release l cpu)
release-IsExclusive l cpu held valid = record {
  only = λ a b ha hb. absurd (released l cpu a (λ b. valid.only cpu b held) ha);
  idle = λ e a. released l cpu a (λ b. valid.only cpu b held);
}

Step-IsExclusive : {l l' : Lock} → Step l l' → IsExclusive l → IsExclusive l'
Step-IsExclusive (begin l cpu e) valid = move-IsExclusive l cpu swapping (λ q. ground arith) valid
Step-IsExclusive (acquire l cpu e) valid =
    try_swap-IsExclusive l cpu waiting (λ q. ground arith) valid
Step-IsExclusive (spin l cpu e) valid = read-IsExclusive l cpu valid
Step-IsExclusive (try l cpu e) valid = try_swap-IsExclusive l cpu outside (λ q. ground arith) valid
Step-IsExclusive (leave l cpu e) valid = release-IsExclusive l cpu e valid

init-IsExclusive : IsExclusive init
unfolding init
init-IsExclusive = record { only = λ a b ha hb. ground arith; idle = λ e a ha. ground arith }

-- In every state that any interleaving of `spinlock_acquire`, `spinlock_try_acquire` and
-- `spinlock_release` reaches from the initial one, at most one processor holds the lock, and none does
-- while the lock's word is 0. A processor releases only a lock that it holds.
pub Reach-IsExclusive : {l : Lock} → Reach l → IsExclusive l
Reach-IsExclusive start = init-IsExclusive
Reach-IsExclusive (step l l' reach s) = Step-IsExclusive s (Reach-IsExclusive reach)
