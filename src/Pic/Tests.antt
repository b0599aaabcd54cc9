-- ===== src/Pic/Tests.antt =====
-- Two 8259A (kernel/drivers/pic.c) as a function from the chip to its state.
use black_kernel.Base.{ℕ, ◌≡◌, ◌≢◌, refl, arith, ◌==◌, if◌then◌else◌}
use black_kernel.Ports.{Ports}
use black_kernel.Pic.{icw1}
use black_kernel.Pic.Chips.{
  Chip, Which, primary, secondary, command_port, data_of, started, after_data, IsPic, vector_of,
}
use black_kernel.Pic.{mask_irq, unmask_irq}
use black_kernel.Pic.Masks.{AreReady, masked, masked-mask_irq}

abbrev pub ports : Ports (Which → Chip)
ports = record {
  inb = λ d port. (if port == 0x21 then (d primary).mask else (d secondary).mask, d);
  outb = λ d port value w.
      if command_port w == port
      then (if value == icw1 then started (d w) else d w)
      else if data_of w == port
      then after_data (d w) value
      else d w;
}

pub start_ports :
    (d : Which → Chip) (w : Which) → ports.outb d (command_port w) icw1 w ≡ started (d w)
start_ports d primary = refl
start_ports d secondary = refl

pub end_ports : (d : Which → Chip) (w : Which) → ports.outb d (command_port w) 0x20 w ≡ d w
end_ports d primary = refl
end_ports d secondary = refl

pub read_ports : (d : Which → Chip) (w : Which) → (ports.inb d (data_of w)).0 ≡ (d w).mask
read_ports d primary = refl
read_ports d secondary = refl

pub write_ports :
    (d : Which → Chip) (w : Which) (value : ℕ)
    → ports.outb d (data_of w) value w ≡ after_data (d w) value
write_ports d primary value = refl
write_ports d secondary value = refl

pub apart_ports :
    (d : Which → Chip) (port value : ℕ) (w : Which)
    → command_port w ≢ port
    → data_of w ≢ port
    → ports.outb d port value w ≡ d w
apart_ports d port value w ne ne' = ground arith

abbrev pub pic : IsPic ports (λ d. d)
pic = record {
  read_mask = read_ports;
  read_keeps = λ d port w. refl;
  start = start_ports;
  end = end_ports;
  write = write_ports;
  apart = apart_ports;
}

-- Controllers in the middle of an initialisation, with some lines masked.
abbrev pub chips : Which → Chip
chips w = record { mask = 0xB8; vector = 8; expects = 2 }

abbrev pub ready_chips : Which → Chip
ready_chips w = record { mask = 0xFF; vector = vector_of w; expects = 0 }

ready : AreReady ready_chips
ready = record { initialised = λ w. refl; bytes = λ w. omega arith }

-- The line of the mouse, and that of the keyboard.
masked-mask_irq_example :
    (masked (mask_irq ports ready_chips 12) 1 ≡ masked ready_chips 1)
    × (masked (unmask_irq ports ready_chips 12) 1 ≡ masked ready_chips 1)
masked-mask_irq_example =
    masked-mask_irq ports (λ d. d) pic ready_chips ready 12 1 (omega arith) (omega arith)
