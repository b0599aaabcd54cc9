-- ===== src/Serial/Tests.antt =====
-- The serial port (kernel/drivers/serial.c) with a line that needs three reads of its status.
use black_kernel.Base.{
  ℕ, ◌-◌, ◌≡◌, ◌++◌, refl, arith, bit_and, List, [], ◌∷◌, ltb, ◌==◌, if◌then◌else◌,
}
use black_kernel.Ports.{Ports}
use black_kernel.Serial.Sent.{IsUart}

-- The bytes sent, and the reads until the next one can be.
abbrev pub ports : Ports (List ℕ × ℕ)
ports = record {
  inb = λ d port. (if d.1 == 0 then 0x20 else 0, (d.0, d.1 - 1));
  outb = λ d port value. (d.0 ++ value ∷ [], 3);
}

pub status_ports : (d : List ℕ × ℕ) → (bit_and (if d.1 == 0 then 0x20 else 0) 0x20 == 0) ≡ ltb 0 d.1
status_ports d = ground arith

abbrev pub uart : IsUart ports (λ d. d.0) (λ d. d.1) 3
uart = record {
  status = status_ports;
  read_left = λ d. refl;
  read_sent = λ d. refl;
  write_sent = λ d c. refl;
  write_left = λ d c. omega arith;
}
