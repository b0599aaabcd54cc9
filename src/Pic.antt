-- ===== src/Pic.antt =====
-- The interrupt controllers, kernel/drivers/pic.c: two 8259A, the second behind line 2 of the first.
pub mod Chips
pub mod Masks
pub mod Tests
use black_kernel.Base.{ℕ, ◌+◌, ◌-◌, ◌%◌, ◌^◌, bit_and, bit_or, ltb, leb, if◌then◌else◌, u32}
use black_kernel.Ports.{Ports, io_wait}

abbrev pub pic1_command : ℕ
pic1_command = 0x20

abbrev pub pic1_data : ℕ
pic1_data = 0x21

abbrev pub pic2_command : ℕ
pic2_command = 0xA0

abbrev pub pic2_data : ℕ
pic2_data = 0xA1

-- `ICW1_INIT | ICW1_ICW4`
abbrev pub icw1 : ℕ
icw1 = 0x11

abbrev pub icw4_8086 : ℕ
icw4_8086 = 0x01

-- The data port of the controller, and the line's number there.
unfoldable pub data_port : ℕ → ℕ
data_port irq = if ltb irq 8 then pic1_data else pic2_data

unfoldable pub line : ℕ → ℕ
line irq = if ltb irq 8 then irq else irq - 8

module _ {D : Type 0} (p : Ports D) where
  -- `outb(port, value); io_wait();`
  unfoldable pub out_and_wait : D → ℕ → ℕ → D
  unfolding io_wait
  out_and_wait d port value = io_wait p (p.outb d port value)

  -- The eight writes of the initialisation words.
  unfoldable pub send_words : D → D
  unfolding out_and_wait
  send_words d =
      let d1 = out_and_wait d pic1_command icw1 in
      let d2 = out_and_wait d1 pic2_command icw1 in
      let d3 = out_and_wait d2 pic1_data 0x20 in
      let d4 = out_and_wait d3 pic2_data 0x28 in
      let d5 = out_and_wait d4 pic1_data 4 in
      let d6 = out_and_wait d5 pic2_data 2 in
      let d7 = out_and_wait d6 pic1_data icw4_8086 in out_and_wait d7 pic2_data icw4_8086

  unfoldable pub init : D → D
  init d =
      let (a1, d1) = p.inb d pic1_data in
      let (a2, d2) = p.inb d1 pic2_data in p.outb (p.outb (send_words d2) pic1_data a1) pic2_data a2

  unfoldable pub send_eoi : D → ℕ → D
  send_eoi d irq = p.outb (if leb 8 irq then p.outb d pic2_command 0x20 else d) pic1_command 0x20

  unfoldable pub mask_irq : D → ℕ → D
  unfolding data_port line
  mask_irq d irq =
      let (val, d1) = p.inb d (data_port irq) in
      p.outb d1 (data_port irq) (bit_or val (2 ^ line irq) % 256)

  -- The complement is that of a 32-bit `int`.
  unfoldable pub unmask_irq : D → ℕ → D
  unfolding data_port line
  unmask_irq d irq =
      let (val, d1) = p.inb d (data_port irq) in
      p.outb d1 (data_port irq) (bit_and val (u32 - 1 - 2 ^ line irq) % 256)
