-- ===== src/Ports.antt =====
-- Port input and output, kernel/lib/port.c. The two instructions are what the devices make of them:
-- a parameter of all that drives a device.
use black_kernel.Base.{ℕ}

-- A state of the devices `D`; a read may change it.
pub record Ports (D : Type 0) : Type 0 where
  pub inb : D → ℕ → ℕ × D
  pub outb : D → ℕ → ℕ → D

-- `io_wait_internal`
unfoldable pub io_wait : {D : Type 0} → Ports D → D → D
io_wait p d = p.outb d 0x80 0
