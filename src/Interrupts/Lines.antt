-- ===== src/Interrupts/Lines.antt =====
-- From a line of the interrupt controllers to its stub (kernel/core/interrupts_init.c,
-- kernel/drivers/pic.c, kernel/drivers/pit.c).
use black_kernel.Base.{
  ℕ, ◌+◌, ◌-◌, ◌*◌, ◌≤◌, ◌<◌, ◌≡◌, refl, ◌∙◌, ap, arith, ltb, u64, Bool-cases, inl, inr,
}
use black_kernel.Ports.{Ports}
use black_kernel.Pic.{line}
use black_kernel.Pic
use black_kernel.Pic.Chips.{Chip, Which, primary, secondary, IsPic, vector_of, init-chip}
use black_kernel.Pic.Masks.{which}
use black_kernel.Pit
use black_kernel.Interrupts.{Machine, init}
use black_kernel.Interrupts.Gates.{target, stub, target-init}

module _ {D : Type 0} (p : Ports D) (chip : D → Which → Chip) (pic : IsPic p chip) where
  pub pit-chip : (d : D) (frequency : ℕ) (w : Which) → chip (Pit.init p d frequency) w ≡ chip d w
  unfolding Pit.init
  pit-chip d frequency primary =
      pic.apart _ 0x40 _ primary (omega arith) (omega arith)
      ∙ pic.apart _ 0x40 _ primary (omega arith) (omega arith)
      ∙ pic.apart _ 0x43 _ primary (omega arith) (omega arith)
  pit-chip d frequency secondary =
      pic.apart _ 0x40 _ secondary (omega arith) (omega arith)
      ∙ pic.apart _ 0x40 _ secondary (omega arith) (omega arith)
      ∙ pic.apart _ 0x43 _ secondary (omega arith) (omega arith)

  module _ (isr irq : ℕ → ℕ) (address : ℕ) (m : Machine D) where
    pub device-init :
        (init p isr irq address m).console.device ≡ Pit.init p (Pic.init p m.console.device) 1000
    unfolding init
    device-init = refl

    vector_at :
        (w : Which) → (chip (init p isr irq address m).console.device w).vector ≡ vector_of w
    vector_at w = rw device-init (
        ap (λ c. c.vector)
          (pit-chip (Pic.init p m.console.device) 1000 w ∙ init-chip p chip pic m.console.device w))

    -- The vector that the controllers give for a line.
    abbrev pub vector : ℕ → ℕ
    vector l = (chip (init p isr irq address m).console.device (which l)).vector + line l

    vector-line : (l : ℕ) → l < 16 → vector l ≡ 32 + l
    unfolding line
    vector-line l h = elim (Bool-cases (ltb l 8)) [
      | inl e ↦ rw (e, line) (omega (arith, vector_at primary))
      | inr e ↦ rw (e, line) (ground (arith, vector_at secondary))
    ]

    limit_covers : (l : ℕ) → l < 16 → (32 + l) * 16 + 15 ≤ (init p isr irq address m).loaded.limit
    unfolding init
    limit_covers l h = omega arith

    -- After `interrupts_init` each of the sixteen lines raises the vector of its own gate: the gate at
    -- the vector that the controllers give for the line leads to the stub of that line.
    pub target-vector :
        (l : ℕ)
        → l < 16
        → ((i : ℕ) → isr i < u64)
        → ((i : ℕ) → irq i < u64)
        → target ((init p isr irq address m).idt (vector l)) ≡ irq l
    target-vector l h low low' =
        let at = (target-init p isr irq address m (32 + l) low low' (limit_covers l h)).0 in
        rw (vector-line l h) (at ∙ stub_of l h)
      where
        stub_of : (k : ℕ) → k < 16 → stub isr irq (32 + k) ≡ irq k
        stub_of k h = let back : 32 + k - 32 ≡ k = omega arith in ground (arith, ap irq back)
