-- ===== src/Serial/Sent.antt =====
-- What reaches the line of the serial port (kernel/drivers/serial.c).
use black_kernel.Base.{
  ℕ, zero, suc, ◌+◌, ◌-◌, ◌≤◌, ◌<◌, ◌≡◌, ◌++◌, refl, some, List, [], ◌∷◌, arith, ltb, ◌==◌, bit_and,
  Bool-cases, inl, inr, ◌∙◌, sym,
}
use mathlib.Core.List.{append_assoc, append-nil}
use black_kernel.Ports.{Ports}
use black_kernel.Serial.{com1_port, is_transmit_empty, write_char, write_string}

-- What the code relies on of the serial port: a byte written to its data port is sent, and the
-- transmitter shows that it can take the next one after the line status was read at most `slow` times.
pub record IsUart {D : Type 0} (p : Ports D) (sent : D → List ℕ) (left : D → ℕ) (slow : ℕ)
    : Type 0 where
  pub status : (d : D) → (bit_and (p.inb d (com1_port + 5)).0 0x20 == 0) ≡ ltb 0 (left d)
  pub read_left : (d : D) → left (p.inb d (com1_port + 5)).1 ≡ left d - 1
  pub read_sent : (d : D) → sent (p.inb d (com1_port + 5)).1 ≡ sent d
  pub write_sent : (d : D) (c : ℕ) → sent (p.outb d com1_port c) ≡ sent d ++ c ∷ []
  pub write_left : (d : D) (c : ℕ) → left (p.outb d com1_port c) ≤ slow

module _ {D : Type 0} (p : Ports D) (sent : D → List ℕ) (left : D → ℕ) (slow : ℕ)
    (uart : IsUart p sent left slow) where
  write_char-sent :
      (fuel : ℕ) (d : D) (c : ℕ)
      → left d < fuel
      → (d' : D) × (write_char p fuel d c ≡ some d')
        × (sent d' ≡ sent d ++ c ∷ [])
        × (left d' ≤ slow)
  unfolding write_char is_transmit_empty
  write_char-sent zero d c lt = absurd (omega arith)
  write_char-sent (suc fuel) d c lt = elim (Bool-cases (ltb 0 (left d))) [
    | inl busy ↦
        let (d', e, all, more) =
          write_char-sent fuel (p.inb d (com1_port + 5)).1 c (ground (arith, uart.read_left d)) in
        (d', rw (uart.status d, busy) e, all ∙ rw (uart.read_sent d), more)
    | inr empty ↦ (
      p.outb (p.inb d (com1_port + 5)).1 com1_port c,
      rw (uart.status d, empty),
      uart.write_sent _ c ∙ rw (uart.read_sent d),
      uart.write_left _ c,
    )
  ]

  -- `serial_write_string` ends and sends the characters of the string in their order behind what was
  -- sent, where the transmitter takes a byte after the line status was read at most `slow` times: more
  -- rounds than that for each loop are enough.
  pub write_string-sent :
      (fuel : ℕ) (d : D) (str : List ℕ)
      → left d ≤ slow
      → slow < fuel
      → (d' : D) × (write_string p fuel d str ≡ some d') × (sent d' ≡ sent d ++ str)
  unfolding write_string
  write_string-sent fuel d [] le lt = (d, refl, sym (append-nil (sent d)))
  write_string-sent fuel d (c ∷ str) le lt =
      let (d1, e, one, le1) = write_char-sent fuel d c (omega arith) in
      let (d2, e2, rest) = write_string-sent fuel d1 str le1 lt in
      (d2, rw e e2, rest ∙ rw (one, append_assoc (sent d)))
