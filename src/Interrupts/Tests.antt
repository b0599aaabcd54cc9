-- ===== src/Interrupts/Tests.antt =====
-- The interrupt table and the handler (kernel/core) on a machine with two 8259A, and on one with a slow
-- serial line.
use black_kernel.Base.{ℕ, ◌≡◌, arith, some, List, [], ◌++◌, false}
use black_kernel.Pic.Tests.{ports, pic, chips}
use black_kernel.Interrupts.{IdtEntry, Machine, init, halted, noerr_frame, interrupt_handler}
use black_kernel.Interrupts.Gates.{target}
use black_kernel.Interrupts.Lines.{vector, target-vector}
use black_kernel.Interrupts.Stubs.{first_exception, interrupt_handler-halts}
use black_kernel.Serial.Tests.{uart}
use black_kernel.Serial.Tests
use black_kernel.Vga.{write}

abbrev pub blank : IdtEntry
blank = record {
  offset_low = 0;
  selector = 0;
  ist = 0;
  type_attr = 0;
  offset_mid = 0;
  offset_high = 0;
  zero_word = 0;
}

module _ {D : Type 0} where
  abbrev pub machine : D → Machine D
  machine d = record {
    idt = λ n. blank;
    loaded = record { limit = 0; base = 0 };
    interrupts = false;
    ticks = 7;
    keyboard = record { kbd_buf = λ i. 0; kbd_head = 0; kbd_tail = 0; shift = 0; caps = 0 };
    console = record {
      screen = record { buffer = λ i. 0; color = 7; cursor_x = 0; cursor_y = 3 };
      device = d;
    };
  }

abbrev pub isr : ℕ → ℕ
isr i = 0x101000

abbrev pub irq : ℕ → ℕ
irq i = 0x102000

target-vector_example :
    target (
      (init ports isr irq 0x8000 (machine chips)).idt
        (vector ports (λ d. d) pic isr irq 0x8000 (machine chips) 9))
    ≡ 0x102000
target-vector_example =
    target-vector ports (λ d. d) pic isr irq 0x8000 (machine chips) 9 (omega arith)
      (λ i. omega arith) (λ i. omega arith)

abbrev slow_machine : Machine (List ℕ × ℕ)
slow_machine = machine ([], 0)

-- The stub of the timer, on a machine whose serial line needs three reads of its status.
interrupt_handler-halts_example :
    (d : List ℕ × ℕ) × (d.0 ≡ [] ++ first_exception)
    × (interrupt_handler Tests.ports 4 (λ i. 0) slow_machine noerr_frame
        ≡ some (
            halted
              (record { screen = write slow_machine.console.screen first_exception; device = d })))
interrupt_handler-halts_example =
    interrupt_handler-halts Tests.ports (λ d. d.0) (λ d. d.1) 3 uart 4 (λ i. 0) slow_machine
      (omega arith) (omega arith)
