-- ===== src/Interrupts/Dispatch.antt =====
-- What the interrupt handler does (kernel/core/interrupts.c).
use black_kernel.Base.{
  ℕ, ◌-◌, ◌≤◌, ◌≡◌, refl, arith, true, false, some, List, ◌∷◌, ltb, leb, ◌==◌, if◌then◌else◌, add64,
  inl, inr, Bool-cases, ◌∙◌, ap,
}
use black_kernel.Ports.{Ports}
use black_kernel.Keyboard.{Keyboard}
use black_kernel.Keyboard
use black_kernel.Pic
use black_kernel.Pit
use black_kernel.Pic.Chips.{Which, primary, secondary, command_port}
use black_kernel.Interrupts.{Machine, Frame, returned, keyboard_irq, serve, interrupt_handler}

-- The commands that end an interrupt, the latest first: documented of the 8259A is that each chip
-- takes the command 0x20 so, and that a read of a port is none.
pub record Ends {D : Type 0} (p : Ports D) (ended : D → List Which) : Type 0 where
  pub end : (d : D) (w : Which) → ended (p.outb d (command_port w) 0x20) ≡ w ∷ ended d
  pub read : (d : D) (port : ℕ) → ended (p.inb d port).1 ≡ ended d

-- The chips that are told of the end of the interrupt of a line.
abbrev pub told : ℕ → List Which → List Which
told irq before = if leb 8 irq then primary ∷ secondary ∷ before else primary ∷ before

module _ {D : Type 0} (p : Ports D) (ended : D → List Which) (ends : Ends p ended) where
  ended-send_eoi : (d : D) (irq : ℕ) → ended (Pic.send_eoi p d irq) ≡ told irq (ended d)
  unfolding Pic.send_eoi
  ended-send_eoi d irq = elim (Bool-cases (leb 8 irq)) [
    | inl e ↦
        rw (e, Pic.send_eoi) (ends.end _ primary ∙ ap (λ l. primary ∷ l) (ends.end d secondary))
    | inr e ↦ rw (e, Pic.send_eoi) (ends.end d primary)
  ]

  ended-keyboard_irq :
      (m : Machine D) → ended (keyboard_irq p m).console.device ≡ ended m.console.device
  unfolding keyboard_irq
  ended-keyboard_irq m = ends.read m.console.device 0x60

  -- What the work for a line leaves: the ticks, the keyboard and the end of the interrupt.
  pub record IsServed (m after : Machine D) (irq : ℕ) : Type 0 where
    pub ticks : after.ticks ≡ (if irq == 0 then add64 m.ticks 1 else m.ticks)
    pub keyboard : after.keyboard ≡ (
        if irq == 1
        then Keyboard.irq_handler m.keyboard (p.inb m.console.device 0x60).0
        else m.keyboard)
    pub ended_is : ended after.console.device ≡ told irq (ended m.console.device)
    pub table : after.idt ≡ m.idt
    pub shown : after.console.screen ≡ m.console.screen

  serve-IsServed : (m : Machine D) (irq : ℕ) → IsServed m (serve p m irq) irq
  unfolding serve keyboard_irq Pit.irq_tick
  serve-IsServed m irq = elim (Bool-cases (irq == 0)) [
    | inl e ↦
        let ne : (irq == 1) ≡ false = ground arith in
        rw (serve, e, ne)
          (record {
            ticks = rw e;
            keyboard = rw ne;
            ended_is = ended-send_eoi m.console.device irq;
            table = refl;
            shown = refl;
          })
    | inr e ↦ elim (Bool-cases (irq == 1)) [
      | inl k ↦
          rw (serve, e, k)
            (record {
              ticks = rw e;
              keyboard = rw k;
              ended_is = ended-send_eoi _ irq ∙ ap (told irq) (ended-keyboard_irq m);
              table = refl;
              shown = refl;
            })
      | inr k ↦
          rw (serve, e, k)
            (record {
              ticks = rw e;
              keyboard = rw k;
              ended_is = ended-send_eoi m.console.device irq;
              table = refl;
              shown = refl;
            })
    ]
  ]

  -- Called with the number of one of the vectors 32 to 47, which the stubs do not pass, the handler
  -- returns: the ticks grow by one for line 0 alone, the keyboard takes the scan code for line 1 alone,
  -- and the end of the interrupt goes to the second controller, for the lines 8 to 15, and then to the
  -- first. A number above 47 changes nothing.
  pub interrupt_handler-IsServed :
      (fuel : ℕ) (buf : ℕ → ℕ) (m : Machine D) (frame : Frame)
      → 32 ≤ frame.int_no
      → (after : Machine D) × (interrupt_handler p fuel buf m frame ≡ some (returned after))
        × (if leb frame.int_no 47 then IsServed m after (frame.int_no - 32) else (after ≡ m))
  unfolding interrupt_handler
  interrupt_handler-IsServed fuel buf m frame le =
      let line : ltb frame.int_no 32 ≡ false = ground arith in
      let line' : leb 32 frame.int_no ≡ true = ground arith in
      elim (Bool-cases (leb frame.int_no 47)) [
        | inl e ↦ (
          serve p m (frame.int_no - 32),
          rw (line, line', e),
          rw e (serve-IsServed m (frame.int_no - 32)),
        )
        | inr e ↦ (m, rw (line, line', e), rw e refl)
      ]
