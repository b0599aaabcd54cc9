-- ===== src/Vga.antt =====
-- The text screen, kernel/drivers/vga.c: 80 columns and 25 rows of cells. The cursor registers of
-- the hardware are left out.
pub mod Tests
pub mod Bounds
use black_kernel.Base.{
  ℕ, zero, suc, ◌+◌, ◌-◌, ◌*◌, ◌/◌, ◌%◌, ◌^◌, bit_and, bit_or, Bool, true, false, not, List, [],
  ◌∷◌, ltb, leb, ◌==◌, ◌&&◌, ◌||◌, if◌then◌else◌, update,
}

pub record Screen : Type 0 where
  pub buffer : ℕ → ℕ
  pub color : ℕ
  pub cursor_x : ℕ
  pub cursor_y : ℕ

abbrev pub width : ℕ
width = 80

abbrev pub height : ℕ
height = 25

-- A `char` is signed: as a `uint16_t` one above 127 has its upper byte set. The colour goes there.
unfoldable pub entry : ℕ → ℕ → ℕ
entry c color = bit_or (if ltb c 128 then c else c + 0xFF00) (color * 2 ^ 8 % 2 ^ 16)

unfoldable pub clear_cells : ℕ → ℕ → (ℕ → ℕ) → ℕ → ℕ → ℕ
clear_cells zero i buffer e = buffer
clear_cells (suc rounds) i buffer e = clear_cells rounds (i + 1) (update buffer i e) e

-- The cells are cleared row by row.
unfoldable pub clear : Screen → Screen
clear s = record s {
  buffer = clear_cells 2000 0 s.buffer (entry 32 s.color);
  cursor_x = 0;
  cursor_y = 0;
}

unfoldable pub init : Screen → Screen
init s = clear (record s { cursor_x = 0; cursor_y = 0; color = 0x07 })

unfoldable pub set_color : Screen → ℕ → ℕ → Screen
set_color s foreground background = record s {
  color = bit_or (background * 2 ^ 4) (bit_and foreground 0x0F) % 256;
}

-- The cells of row y go to row y - 1, from the second row on.
unfoldable pub copy_cells : ℕ → ℕ → (ℕ → ℕ) → ℕ → ℕ
copy_cells zero i buffer = buffer
copy_cells (suc rounds) i buffer = copy_cells rounds (i + 1) (update buffer i (buffer (i + width)))

unfoldable pub scroll : Screen → Screen
scroll s = if ltb s.cursor_y height then s else record s {
  buffer = clear_cells 80 1920 (copy_cells 1920 0 s.buffer) (entry 32 s.color);
  cursor_y = height - 1;
}

-- The cell that the next character goes to.
unfoldable pub cell : Screen → ℕ
cell s = s.cursor_y * width + s.cursor_x

-- The cursor and the cell, before the screen is scrolled. The cursor is in bytes.
unfoldable pub place : Screen → ℕ → Screen
place s c =
    let written : Screen = record s { buffer = update s.buffer (cell s) (entry c s.color) } in
    let x = (s.cursor_x + 1) % 256 in
    if c == 10
    then record s { cursor_x = 0; cursor_y = (s.cursor_y + 1) % 256 }
    else if c == 13
    then record s { cursor_x = 0 }
    else if c == 9
    then record s { cursor_x = bit_and (s.cursor_x + 8) 0xF8 }
    else if leb width x
    then record written { cursor_x = 0; cursor_y = (s.cursor_y + 1) % 256 }
    else record written { cursor_x = x }

unfoldable pub putchar : Screen → ℕ → Screen
putchar s c = scroll (place s c)

unfoldable pub write : Screen → List ℕ → Screen
write s [] = s
write s (c ∷ str) = write (putchar s c) str

unfoldable pub set_cursor : Screen → ℕ → ℕ → Screen
set_cursor s x y = record s {
  cursor_x = if leb width x then width - 1 else x;
  cursor_y = if leb height y then height - 1 else y;
}
