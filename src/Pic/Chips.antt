-- ===== src/Pic/Chips.antt =====
-- The initialisation of the interrupt controllers (kernel/drivers/pic.c), on two 8259A.
use black_kernel.Base.{ℕ, ◌-◌, ◌≡◌, ◌≢◌, ◌∙◌, ap, arith, ◌==◌, if◌then◌else◌}
use black_kernel.Ports.{Ports, io_wait}
use black_kernel.Pic.{
  pic1_command, pic1_data, pic2_command, pic2_data, icw1, icw4_8086, out_and_wait, send_words, init,
}

-- One 8259A: its mask, the vector of its line 0, and how many words of the initialisation it
-- expects on its data port.
pub record Chip : Type 0 where
  pub mask : ℕ
  pub vector : ℕ
  pub expects : ℕ

pub data Which : Type 0 where
  primary : Which
  secondary : Which

abbrev pub command_port : Which → ℕ
command_port primary = pic1_command
command_port secondary = pic2_command

abbrev pub data_of : Which → ℕ
data_of primary = pic1_data
data_of secondary = pic2_data

-- The word 0x11 on the command port clears the mask and starts the initialisation, three words to
-- follow.
abbrev pub started : Chip → Chip
started c = record c { mask = 0; expects = 3 }

-- The word that follows is the vector of line 0; outside the initialisation a write sets the mask.
abbrev pub after_data : Chip → ℕ → Chip
after_data c value =
    if c.expects == 0
    then record c { mask = value }
    else if c.expects == 3
    then record c { vector = value; expects = 2 }
    else record c { expects = c.expects - 1 }

-- What the documentation of the 8259A says of the ports of the two chips. The command 0x20 is the
-- end of an interrupt.
pub record IsPic {D : Type 0} (p : Ports D) (chip : D → Which → Chip) : Type 0 where
  pub read_mask : (d : D) (w : Which) → (p.inb d (data_of w)).0 ≡ (chip d w).mask
  pub read_keeps : (d : D) (port : ℕ) (w : Which) → chip (p.inb d port).1 w ≡ chip d w
  pub start : (d : D) (w : Which) → chip (p.outb d (command_port w) icw1) w ≡ started (chip d w)
  pub end : (d : D) (w : Which) → chip (p.outb d (command_port w) 0x20) w ≡ chip d w
  pub write :
      (d : D) (w : Which) (value : ℕ)
      → chip (p.outb d (data_of w) value) w ≡ after_data (chip d w) value
  pub apart :
      (d : D) (port value : ℕ) (w : Which)
      → command_port w ≢ port
      → data_of w ≢ port
      → chip (p.outb d port value) w ≡ chip d w

-- The vectors that the two chips are given.
abbrev pub vector_of : Which → ℕ
vector_of primary = 0x20
vector_of secondary = 0x28

module _ {D : Type 0} (p : Ports D) (chip : D → Which → Chip) (pic : IsPic p chip) where
  waited :
      (d : D) (port value : ℕ) (w : Which)
      → chip (out_and_wait p d port value) w ≡ chip (p.outb d port value) w
  unfolding out_and_wait io_wait
  waited d port value primary = pic.apart _ 0x80 0 primary (omega arith) (omega arith)
  waited d port value secondary = pic.apart _ 0x80 0 secondary (omega arith) (omega arith)

  start_wait :
      (d : D) (w : Which) → chip (out_and_wait p d (command_port w) icw1) w ≡ started (chip d w)
  start_wait d w = waited d (command_port w) icw1 w ∙ pic.start d w

  write_wait :
      (d : D) (w : Which) (value : ℕ) {c : Chip}
      → chip d w ≡ c
      → chip (out_and_wait p d (data_of w) value) w ≡ after_data c value
  write_wait d w value e =
      waited d (data_of w) value w ∙ pic.write d w value ∙ ap (λ c. after_data c value) e

  apart_wait :
      (d : D) (port value : ℕ) (w : Which) {c : Chip}
      → command_port w ≢ port
      → data_of w ≢ port
      → chip d w ≡ c
      → chip (out_and_wait p d port value) w ≡ c
  apart_wait d port value w ne ne' e = waited d port value w ∙ pic.apart d port value w ne ne' ∙ e

  send_words-chip :
      (d : D) (w : Which)
      → chip (send_words p d) w ≡ record { mask = 0; vector = vector_of w; expects = 0 }
  unfolding send_words
  send_words-chip d primary = apart_wait _ pic2_data icw4_8086 primary (omega arith) (omega arith) (
      write_wait _ primary icw4_8086 (
        apart_wait _ pic2_data 2 primary (omega arith) (omega arith) (
          write_wait _ primary 4 (
            apart_wait _ pic2_data 0x28 primary (omega arith) (omega arith) (
              write_wait _ primary 0x20 (
                apart_wait _ pic2_command icw1 primary (omega arith) (omega arith)
                  (start_wait d primary)))))))
  send_words-chip d secondary = write_wait _ secondary icw4_8086 (
      apart_wait _ pic1_data icw4_8086 secondary (omega arith) (omega arith) (
        write_wait _ secondary 2 (
          apart_wait _ pic1_data 4 secondary (omega arith) (omega arith) (
            write_wait _ secondary 0x28 (
              apart_wait _ pic1_data 0x20 secondary (omega arith) (omega arith)
                (start_wait _ secondary))))))

  restored :
      (w : Which) {m n : ℕ}
      → m ≡ n
      → (let c : Chip = record { mask = m; vector = vector_of w; expects = 0 } in c)
        ≡ record { mask = n; vector = vector_of w; expects = 0 }
  restored w e = ap (λ k. record { mask = k; vector = vector_of w; expects = 0 }) e

  -- After `pic_init` the lines 0 to 7 have the vectors 0x20 to 0x27 and the lines 8 to 15 the vectors
  -- 0x28 to 0x2F, the masks of both chips are what they were, and both chips are initialised, in
  -- whatever state they were found.
  pub init-chip :
      (d : D) (w : Which)
      → chip (init p d) w ≡ record { mask = (chip d w).mask; vector = vector_of w; expects = 0 }
  unfolding init
  init-chip d primary =
      pic.apart _ pic2_data _ primary (omega arith) (omega arith)
      ∙ pic.write _ primary _
      ∙ ap (λ c. after_data c (p.inb d pic1_data).0) (send_words-chip _ primary)
      ∙ restored primary (pic.read_mask d primary)
  init-chip d secondary =
      let d1 = (p.inb d pic1_data).1 in
      pic.write _ secondary _
      ∙ ap (λ c. after_data c (p.inb d1 pic2_data).0)
          (pic.apart _ pic1_data _ secondary (omega arith) (omega arith)
            ∙ send_words-chip _ secondary)
      ∙ restored secondary
          (pic.read_mask d1 secondary ∙ ap (λ c. c.mask) (pic.read_keeps d pic1_data secondary))
