-- ===== src/Serial.antt =====
-- The serial port, kernel/drivers/serial.c. The loops that read the line status run on fuel: none is
-- a loop that has not ended by then.
pub mod Sent
pub mod Tests
use black_kernel.Base.{
  ℕ, zero, suc, ◌+◌, bit_and, Option, none, some, List, [], ◌∷◌, ◌==◌, if◌then◌else◌, ◌>>=◌,
}
use black_kernel.Ports.{Ports}

abbrev pub com1_port : ℕ
com1_port = 0x3F8

module _ {D : Type 0} (p : Ports D) where
  unfoldable pub init : D → D
  init d =
      let d1 = p.outb d (com1_port + 1) 0x00 in
      let d2 = p.outb d1 (com1_port + 3) 0x80 in
      let d3 = p.outb d2 (com1_port + 0) 0x03 in
      let d4 = p.outb d3 (com1_port + 1) 0x00 in
      let d5 = p.outb d4 (com1_port + 3) 0x03 in
      let d6 = p.outb d5 (com1_port + 2) 0xC7 in p.outb d6 (com1_port + 4) 0x0B

  unfoldable pub received : D → ℕ × D
  received d = let (status, d1) = p.inb d (com1_port + 5) in (bit_and status 1, d1)

  unfoldable pub read_char : ℕ → D → Option (ℕ × D)
  read_char zero d = none
  read_char (suc fuel) d =
      let (ready, d1) = received d in
      let again = read_char fuel d1 in if ready == 0 then again else some (p.inb d1 com1_port)

  unfoldable pub is_transmit_empty : D → ℕ × D
  is_transmit_empty d = let (status, d1) = p.inb d (com1_port + 5) in (bit_and status 0x20, d1)

  unfoldable pub write_char : ℕ → D → ℕ → Option D
  write_char zero d c = none
  write_char (suc fuel) d c =
      let (empty, d1) = is_transmit_empty d in
      let again = write_char fuel d1 c in if empty == 0 then again else some (p.outb d1 com1_port c)

  -- The characters before the null character, as bytes. A null pointer is left to the callers.
  unfoldable pub write_string : ℕ → D → List ℕ → Option D
  write_string fuel d [] = some d
  write_string fuel d (c ∷ str) = write_char fuel d c >>= λ d1. write_string fuel d1 str
