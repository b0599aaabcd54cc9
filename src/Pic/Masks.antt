-- ===== src/Pic/Masks.antt =====
-- The masks of the interrupt controllers (kernel/drivers/pic.c).
use black_kernel.Base.{
  ℕ, ◌-◌, ◌%◌, ◌^◌, ◌<◌, ◌≡◌, ◌∙◌, ap, sym, subst, inl, inr, Bool, true, false, arith, bit_and,
  bit_or, bit_of, ◌&&◌, ltb, ◌==◌, if◌then◌else◌, Bool-cases, set_byte, clear_byte_in_word,
}
use black_kernel.Ports.{Ports}
use black_kernel.Pic.{pic1_data, pic2_data, data_port, line, mask_irq, unmask_irq}
use black_kernel.Pic.Chips.{Chip, Which, primary, secondary, data_of, after_data, IsPic}

abbrev pub which : ℕ → Which
which irq = if ltb irq 8 then primary else secondary

-- The bit of the mask for the line, 1 where it is masked.
abbrev pub masked : (Which → Chip) → ℕ → ℕ
masked chips irq = bit_of (chips (which irq)).mask (line irq)

-- Both chips are initialised, and their masks are bytes.
pub record AreReady (chips : Which → Chip) : Type 0 where
  pub initialised : (w : Which) → (chips w).expects ≡ 0
  pub bytes : (w : Which) → (chips w).mask < 256

abbrev same : Which → Which → Bool
same primary primary = true
same secondary secondary = true
same _ _ = false

abbrev written : Which → Which → ℕ → Chip → Chip
written primary primary value c = record c { mask = value }
written secondary secondary value c = record c { mask = value }
written _ _ value c = c

expects-written :
    (w other : Which) (value : ℕ) (c : Chip) → c.expects ≡ 0 → (written w other value c).expects ≡ 0
expects-written primary primary value c e = e
expects-written primary secondary value c e = e
expects-written secondary primary value c e = e
expects-written secondary secondary value c e = e

mask-written :
    (w other : Which) (value : ℕ) (c : Chip)
    → value < 256
    → c.mask < 256
    → (written w other value c).mask < 256
mask-written primary primary value c h h' = h
mask-written primary secondary value c h h' = h'
mask-written secondary primary value c h h' = h'
mask-written secondary secondary value c h h' = h

module _ {D : Type 0} (p : Ports D) (chip : D → Which → Chip) (pic : IsPic p chip) (d : D)
    (ready : AreReady (chip d)) where
  written-chip :
      (port value : ℕ) (w other : Which)
      → chip (p.outb (p.inb d port).1 (data_of w) value) other
        ≡ written w other value (chip d other)
  written-chip port value primary primary =
      pic.write _ primary value
      ∙ ap (λ c. after_data c value) (pic.read_keeps d port primary)
      ∙ rw (ready.initialised primary)
  written-chip port value primary secondary =
      pic.apart _ pic1_data value secondary (omega arith) (omega arith)
      ∙ pic.read_keeps d port secondary
  written-chip port value secondary primary =
      pic.apart _ pic2_data value primary (omega arith) (omega arith)
      ∙ pic.read_keeps d port primary
  written-chip port value secondary secondary =
      pic.write _ secondary value
      ∙ ap (λ c. after_data c value) (pic.read_keeps d port secondary)
      ∙ rw (ready.initialised secondary)

  written-AreReady :
      (port value : ℕ) (w : Which)
      → value < 256
      → AreReady (chip (p.outb (p.inb d port).1 (data_of w) value))
  written-AreReady port value w byte = record {
    initialised = λ other.
        ap (λ c. c.expects) (written-chip port value w other)
        ∙ expects-written w other value (chip d other) (ready.initialised other);
    bytes = λ other.
        subst (λ c. c.mask < 256) (sym (written-chip port value w other))
          (mask-written w other value (chip d other) byte (ready.bytes other));
  }

  pub unmask_irq-AreReady : (irq : ℕ) → AreReady (chip (unmask_irq p d irq))
  unfolding unmask_irq data_port
  unmask_irq-AreReady irq = elim (Bool-cases (ltb irq 8)) [
    | inl e ↦ rw (e, unmask_irq, data_port) (written-AreReady pic1_data _ primary (omega arith))
    | inr e ↦ rw (e, unmask_irq, data_port) (written-AreReady pic2_data _ secondary (omega arith))
  ]

  -- Bit `j` of a mask after a write that changes bit `k` of the mask of `w`.
  changed :
      (w other : Which) (k j r value : ℕ)
      → bit_of value j ≡ (if k == j then r else bit_of (chip d w).mask j)
      → bit_of (chip (p.outb (p.inb d (data_of w)).1 (data_of w) value) other).mask j
        ≡ (if same w other && k == j then r else bit_of (chip d other).mask j)
  changed primary primary k j r value e = rw (written-chip pic1_data value primary primary) e
  changed primary secondary k j r value e = rw (written-chip pic1_data value primary secondary)
  changed secondary primary k j r value e = rw (written-chip pic2_data value secondary primary)
  changed secondary secondary k j r value e =
      rw (written-chip pic2_data value secondary secondary) e

  -- The mask of `w` with bit `k` set, and with it cleared, written back.
  abbrev with_line : Which → ℕ → D
  with_line w k =
      let (value, d1) = p.inb d (data_of w) in p.outb d1 (data_of w) (bit_or value (2 ^ k) % 256)

  abbrev without_line : Which → ℕ → D
  without_line w k =
      let (value, d1) = p.inb d (data_of w) in
      p.outb d1 (data_of w) (bit_and value (0xFFFFFFFF - 2 ^ k) % 256)

  lines :
      (w other : Which) (k j : ℕ)
      → k < 8
      → j < 8
      → (bit_of (chip (with_line w k) other).mask j
          ≡ (if same w other && k == j then 1 else bit_of (chip d other).mask j))
        × (bit_of (chip (without_line w k) other).mask j
            ≡ (if same w other && k == j then 0 else bit_of (chip d other).mask j))
  lines w other k j hk hj = (
    changed w other k j 1 _
        (rw (pic.read_mask d w) (set_byte (chip d w).mask k j (ready.bytes w) hk hj)),
    changed w other k j 0 _
        (rw (pic.read_mask d w) (clear_byte_in_word (chip d w).mask k j (ready.bytes w) hk hj)),
  )

  -- For two of the sixteen lines and chips that are ready: `pic_mask_irq` masks its own line and
  -- leaves every other line as it was, and `pic_unmask_irq` clears the mask of its own line alone.
  pub masked-mask_irq :
      (irq q : ℕ)
      → irq < 16
      → q < 16
      → (masked (chip (mask_irq p d irq)) q ≡ (if irq == q then 1 else masked (chip d) q))
        × (masked (chip (unmask_irq p d irq)) q ≡ (if irq == q then 0 else masked (chip d) q))
  unfolding mask_irq unmask_irq data_port line
  masked-mask_irq irq q lt lt' = elim (Bool-cases (ltb irq 8)) [
    | inl i ↦ elim (Bool-cases (ltb q 8)) [
      | inl j ↦
          rw (i, mask_irq, unmask_irq, data_port, line, j)
            (lines primary primary irq q (ground arith) (ground arith))
      | inr j ↦
          let ne : (irq == q) ≡ false = ground arith in
          rw (i, mask_irq, unmask_irq, data_port, line, j, ne)
            (lines primary secondary irq (q - 8) (ground arith) (ground arith))
    ]
    | inr i ↦ elim (Bool-cases (ltb q 8)) [
      | inl j ↦
          let ne : (irq == q) ≡ false = ground arith in
          rw (i, mask_irq, unmask_irq, data_port, line, j, ne)
            (lines secondary primary (irq - 8) q (ground arith) (ground arith))
      | inr j ↦
          let eq : (irq == q) ≡ (irq - 8 == q - 8) = ground arith in
          rw (i, mask_irq, unmask_irq, data_port, line, j, eq)
            (lines secondary secondary (irq - 8) (q - 8) (ground arith) (ground arith))
    ]
  ]
