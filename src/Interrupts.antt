-- ===== src/Interrupts.antt =====
-- Interrupts: the table of kernel/core/interrupts_init.c and include/kernel/idt.h, and the handler of
-- kernel/core/interrupts.c that all its stubs lead to. The stubs are assembly: their addresses are
-- parameters.
pub mod Gates
pub mod Dispatch
pub mod Lines
pub mod Stubs
pub mod Tests
use black_kernel.Base.{
  ℕ, zero, suc, ◌+◌, ◌-◌, ◌*◌, ◌/◌, ◌%◌, ◌^◌, bit_and, Bool, true, Option, none, some, List, [],
  ◌∷◌, ltb, leb, ◌==◌, ◌&&◌, if◌then◌else◌, update, ◌>>=◌,
}
use black_kernel.Ports.{Ports}
use black_kernel.Stdio.{number}
use black_kernel.Console.{Console, kprintf}
use black_kernel.Keyboard.{Keyboard}
use black_kernel.Keyboard
use black_kernel.Pic
use black_kernel.Pit

pub record IdtEntry : Type 0 where
  pub offset_low : ℕ
  pub selector : ℕ
  pub ist : ℕ
  pub type_attr : ℕ
  pub offset_mid : ℕ
  pub offset_high : ℕ
  pub zero_word : ℕ

-- `idt_ptr_t`
pub record IdtPtr : Type 0 where
  pub limit : ℕ
  pub base : ℕ

unfoldable pub gate : ℕ → ℕ → ℕ → IdtEntry
gate handler sel flags = record {
  offset_low = bit_and handler 0xFFFF;
  selector = sel;
  ist = 0;
  type_attr = flags;
  offset_mid = bit_and (handler / 2 ^ 16) 0xFFFF;
  offset_high = bit_and (handler / 2 ^ 32) 0xFFFFFFFF;
  zero_word = 0;
}

unfoldable pub set_gate : (ℕ → IdtEntry) → ℕ → ℕ → ℕ → ℕ → ℕ → IdtEntry
set_gate idt n handler sel flags = update idt n (gate handler sel flags)

-- `for (int i...)`: gate `base + i` leads to `handlers i`.
unfoldable pub set_gates : ℕ → ℕ → ℕ → (ℕ → ℕ) → (ℕ → IdtEntry) → ℕ → IdtEntry
set_gates zero i base handlers idt = idt
set_gates (suc rounds) i base handlers idt =
    set_gates rounds (i + 1) base handlers (set_gate idt (base + i) (handlers i) 0x08 0x8E)

-- `loaded` is what `lidt` was given, `interrupts` whether the processor takes interrupts.
pub record Machine (D : Type 0) : Type 0 where
  pub idt : ℕ → IdtEntry
  pub loaded : IdtPtr
  pub interrupts : Bool
  pub ticks : ℕ
  pub keyboard : Keyboard
  pub console : Console D

-- The interrupt frame's number and error code.
pub record Frame : Type 0 where
  pub int_no : ℕ
  pub err_code : ℕ

-- What the macro `ISR_NOERR` of kernel/arch/x86_64/idt.asm pushes for the handler: 0, and `%0`, which in a
-- macro of one parameter is 1, whatever the vector.
abbrev pub noerr_frame : Frame
noerr_frame = record { int_no = 1; err_code = 0 }

-- The handler returns, or halts the processor for good.
pub data Outcome (D : Type 0) : Type 0 where
  returned : Machine D → Outcome D
  halted : Console D → Outcome D

module _ {D : Type 0} (p : Ports D) where
  abbrev pub with_device : Machine D → D → Machine D
  with_device m d = record m { console = record { screen = m.console.screen; device = d } }

  -- `interrupts_init`; `isr` and `irq` are the addresses of the stubs, `address` that of the table.
  unfoldable pub init : (ℕ → ℕ) → (ℕ → ℕ) → ℕ → Machine D → Machine D
  init isr irq address m =
      let idt = set_gates 256 0 0 (λ i. 0) m.idt in
      let idt' = set_gates 16 0 32 irq (set_gates 32 0 0 isr idt) in
      let d = Pit.init p (Pic.init p m.console.device) 1000 in
      record (with_device m d) {
        idt = idt';
        loaded = record { limit = 256 * 16 - 1; base = address };
        interrupts = true;
      }

  -- `keyboard_irq_handler` reads the scan code.
  unfoldable pub keyboard_irq : Machine D → Machine D
  keyboard_irq m =
      let (sc, d) = p.inb m.console.device 0x60 in
      record (with_device m d) { keyboard = Keyboard.irq_handler m.keyboard sc }

  -- The work for one of the sixteen lines.
  unfoldable pub serve : Machine D → ℕ → Machine D
  serve m irq =
      let m1 = if irq == 0 then record m { ticks = Pit.irq_tick m.ticks } else m in
      let m2 = if irq == 1 then keyboard_irq m1 else m1 in
      with_device m2 (Pic.send_eoi p m2.console.device irq)

  -- `"Exception %u err=%u\n"`
  abbrev pub exception_format : List ℕ
  exception_format =
      69 ∷ 120 ∷ 99 ∷ 101 ∷ 112 ∷ 116 ∷ 105 ∷ 111 ∷ 110 ∷ 32 ∷ 37 ∷ 117 ∷ 32 ∷ 101 ∷ 114 ∷ 114 ∷ 61
      ∷ 37 ∷ 117 ∷ 10 ∷ []

  -- None is a serial line that does not take a character in `fuel` reads of its status.
  unfoldable pub interrupt_handler : ℕ → (ℕ → ℕ) → Machine D → Frame → Option (Outcome D)
  interrupt_handler fuel buf m frame =
      let printed =
        kprintf p fuel m.console buf exception_format
          (number frame.int_no ∷ number frame.err_code ∷ []) in
      let halt : Option (Outcome D) = printed >>= λ r. some (halted r.1) in
      if ltb frame.int_no 32
      then halt
      else if leb 32 frame.int_no && leb frame.int_no 47
      then some (returned (serve m (frame.int_no - 32)))
      else some (returned m)
