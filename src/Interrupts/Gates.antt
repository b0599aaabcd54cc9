-- ===== src/Interrupts/Gates.antt =====
-- Where the gates of the interrupt table lead (kernel/core/interrupts_init.c).
use black_kernel.Base.{
  ℕ, zero, suc, ◌+◌, ◌-◌, ◌*◌, ◌/◌, ◌^◌, ◌≤◌, ◌<◌, ◌≡◌, refl, ◌∙◌, ap, arith, bit_and_mask, ltb,
  leb, ◌==◌, ◌&&◌, if◌then◌else◌, u64, Bool-cases, inl, inr,
}
use black_kernel.Ports.{Ports}
use black_kernel.Interrupts.{IdtEntry, gate, set_gate, set_gates, Machine, init}

-- The address that the processor jumps to through a gate.
unfoldable pub target : IdtEntry → ℕ
target e = e.offset_low + e.offset_mid * 2 ^ 16 + e.offset_high * 2 ^ 32

target-gate : (handler sel flags : ℕ) → handler < u64 → target (gate handler sel flags) ≡ handler
unfolding target gate
target-gate handler sel flags h = omega (
  arith,
  bit_and_mask 16 handler,
  bit_and_mask 16 (handler / 2 ^ 16),
  bit_and_mask 32 (handler / 2 ^ 32),
)

-- The loop writes its own gates and no others.
set_gates_lem :
    (rounds i base : ℕ) (handlers : ℕ → ℕ) (idt : ℕ → IdtEntry) (n : ℕ)
    → set_gates rounds i base handlers idt n ≡ (
        if leb (base + i) n && ltb n (base + i + rounds)
        then gate (handlers (n - base)) 0x08 0x8E
        else idt n)
unfolding set_gates set_gate
set_gates_lem zero i base handlers idt n = ground arith
set_gates_lem (suc rounds) i base handlers idt n =
    set_gates_lem rounds (i + 1) base handlers _ n ∙ elim (Bool-cases (base + i == n)) [
      | inl e ↦ let at : n - base ≡ i = ground (arith, e) in ground (arith, ap handlers at, e)
      | inr e ↦ ground (arith, e)
    ]

-- The stub that a vector is for: one of an exception, of a line, or none.
abbrev pub stub : (ℕ → ℕ) → (ℕ → ℕ) → ℕ → ℕ
stub isr irq n = if ltb n 32 then isr n else if ltb n 48 then irq (n - 32) else 0

stub-lt :
    (isr irq : ℕ → ℕ) (n : ℕ)
    → ((i : ℕ) → isr i < u64)
    → ((i : ℕ) → irq i < u64)
    → stub isr irq n < u64
stub-lt isr irq n h h' = ground (arith, h n, h' (n - 32))

module _ {D : Type 0} (p : Ports D) (isr irq : ℕ → ℕ) (address : ℕ) (m : Machine D) where
  idt-init : (n : ℕ) → n < 256 → (init p isr irq address m).idt n ≡ gate (stub isr irq n) 0x08 0x8E
  unfolding init
  idt-init n h =
      let blank = set_gates 256 0 0 (λ i. 0) m.idt in
      let exceptions = set_gates 32 0 0 isr blank in
      rw
        (
          set_gates_lem 16 0 32 irq exceptions n,
          set_gates_lem 32 0 0 isr blank n,
          set_gates_lem 256 0 0 (λ i. 0) m.idt n,
        )
        (let zero : isr (n - 0) ≡ isr n = ap isr (omega arith) in ground (arith, zero))

  limit-init : (init p isr irq address m).loaded.limit ≡ 4095
  unfolding init
  limit-init = refl

  -- After `interrupts_init` each of the 256 vectors below the limit that is loaded leads through an
  -- interrupt gate of the kernel's code segment: the vectors 0 to 31 to the stub of the exception, 32
  -- to 47 to the stub of the line, the others to address 0. The stubs are at addresses below 2^64.
  pub target-init :
      (n : ℕ)
      → ((i : ℕ) → isr i < u64)
      → ((i : ℕ) → irq i < u64)
      → n * 16 + 15 ≤ (init p isr irq address m).loaded.limit
      → (target ((init p isr irq address m).idt n) ≡ stub isr irq n)
        × (((init p isr irq address m).idt n).selector ≡ 0x08)
        × (((init p isr irq address m).idt n).type_attr ≡ 0x8E)
  unfolding gate
  target-init n h h' within =
      rw (idt-init n (omega (arith, limit-init)))
        (target-gate (stub isr irq n) 0x08 0x8E (stub-lt isr irq n h h'), refl, refl)
