-- ===== src/Vga/Bounds.antt =====
-- The cells that kernel/drivers/vga.c writes.
use black_kernel.Base.{
  ℕ, zero, suc, ◌+◌, ◌*◌, ◌/◌, ◌^◌, ◌≤◌, ◌<◌, ◌≡◌, refl, ◌≢◌, bit_and, true, Bool-cases, inl, inr,
  arith, ltb, List, [], ◌∷◌, update, update_self, update_ne, bit_and_shift, bit_and_mask, sym, ap,
  ◌∙◌, subst,
}
use black_kernel.Vga.{
  Screen, clear_cells, copy_cells, entry, cell, place, scroll, putchar, write, width, height,
}

-- The cursor is on the screen.
pub record IsValid (s : Screen) : Type 0 where
  pub column : s.cursor_x < 80
  pub row : s.cursor_y < 25

-- A tab moves to the next multiple of eight.
tab_stop : (x : ℕ) → x < 80 → bit_and (x + 8) 0xF8 ≡ (x + 8) / 8 * 8
tab_stop x h = rw (bit_and_shift 3 31 (x + 8), bit_and_mask 5 ((x + 8) / 2 ^ 3)) (omega arith)

clear_cells-beyond :
    (rounds i : ℕ) (buffer : ℕ → ℕ) (e j : ℕ)
    → i + rounds ≤ j
    → clear_cells rounds i buffer e j ≡ buffer j
unfolding clear_cells
clear_cells-beyond zero i buffer e j h = refl
clear_cells-beyond (suc rounds) i buffer e j h =
    clear_cells-beyond rounds (i + 1) (update buffer i e) e j (omega arith)
    ∙ update_ne buffer i e j (λ q. absurd (omega arith))

copy_cells-beyond :
    (rounds i : ℕ) (buffer : ℕ → ℕ) (j : ℕ)
    → i + rounds ≤ j
    → copy_cells rounds i buffer j ≡ buffer j
unfolding copy_cells
copy_cells-beyond zero i buffer j h = refl
copy_cells-beyond (suc rounds) i buffer j h =
    copy_cells-beyond rounds (i + 1) (update buffer i (buffer (i + width))) j (omega arith)
    ∙ update_ne buffer i (buffer (i + width)) j (λ q. absurd (omega arith))

scroll-row : (s : Screen) → (scroll s).cursor_y < 25
unfolding scroll
scroll-row s = ground arith

scroll-column : (s : Screen) → (scroll s).cursor_x ≡ s.cursor_x
unfolding scroll
scroll-column s = ground arith

scroll-beyond : (s : Screen) (j : ℕ) → 2000 ≤ j → (scroll s).buffer j ≡ s.buffer j
unfolding scroll
scroll-beyond s j h = elim (Bool-cases (ltb s.cursor_y height)) [
  | inl e ↦ rw e
  | inr e ↦ rw e (
      clear_cells-beyond 80 1920 (copy_cells 1920 0 s.buffer) (entry 32 s.color) j (omega arith)
      ∙ copy_cells-beyond 1920 0 s.buffer j (omega arith))
]

place-column : (s : Screen) (c : ℕ) → c ≢ 9 → IsValid s → (place s c).cursor_x < 80
unfolding place
place-column s c ne valid = ground (arith, valid.column)

place-beyond : (s : Screen) (c j : ℕ) → IsValid s → 2000 ≤ j → (place s c).buffer j ≡ s.buffer j
unfolding place cell
place-beyond s c j valid h =
    let same =
      update_ne s.buffer (cell s) (entry c s.color) j
        (λ q. absurd (omega (arith, valid.column, valid.row))) in
    ground (arith, same)

-- `vga_putchar` of anything but a tab keeps the cursor on the screen.
putchar-IsValid : (s : Screen) (c : ℕ) → c ≢ 9 → IsValid s → IsValid (putchar s c)
unfolding putchar
putchar-IsValid s c ne valid = record {
  column = subst (λ x. x < 80) (sym (scroll-column (place s c))) (place-column s c ne valid);
  row = scroll-row (place s c);
}

-- A text without a tab.
unfoldable pub NoTab : List ℕ → Type 0
NoTab [] = Unit {0}
NoTab (c ∷ str) = (c ≢ 9) × NoTab str

-- With the cursor on the screen, `vga_write` of a text without a tab leaves it on the screen, and
-- writes no cell beyond the 2000 of the screen.
pub write-IsValid :
    (s : Screen) (str : List ℕ)
    → IsValid s
    → NoTab str
    → IsValid (write s str) × ((j : ℕ) → 2000 ≤ j → (write s str).buffer j ≡ s.buffer j)
unfolding write NoTab putchar
write-IsValid s [] valid text = (valid, λ j h. refl)
write-IsValid s (c ∷ str) valid (ne, text) =
    let (kept, same) = write-IsValid (putchar s c) str (putchar-IsValid s c ne valid) text in
    (kept, λ j h. same j h ∙ putchar-beyond s c j valid h)
  where
    putchar-beyond :
        (s : Screen) (c j : ℕ) → IsValid s → 2000 ≤ j → (putchar s c).buffer j ≡ s.buffer j
    putchar-beyond s c j valid h = scroll-beyond (place s c) j h ∙ place-beyond s c j valid h

place-tab : (s : Screen) → place s 9 ≡ record s { cursor_x = bit_and (s.cursor_x + 8) 0xF8 }
unfolding place
place-tab s = refl

place-written :
    (s : Screen) (c : ℕ) → c ≢ 9 → c ≢ 10 → c ≢ 13 → (place s c).buffer (cell s) ≡ entry c s.color
unfolding place
place-written s c tab line return =
    let written = update_self s.buffer (cell s) (entry c s.color) in ground (arith, written)

putchar-late_tab :
    (s : Screen)
    → 72 ≤ s.cursor_x
    → s.cursor_x < 80
    → s.cursor_y ≡ 24
    → putchar s 9 ≡ record s { cursor_x = 80 }
unfolding putchar scroll
putchar-late_tab s late on last =
    let stop : bit_and (s.cursor_x + 8) 0xF8 ≡ 80 = tab_stop s.cursor_x on ∙ omega arith in
    let in_screen : ltb s.cursor_y 25 ≡ true = ground arith in rw (place-tab s, in_screen, stop)

putchar-written :
    (s : Screen) (c j : ℕ)
    → cell s ≡ j
    → 2000 ≤ j
    → c ≢ 9
    → c ≢ 10
    → c ≢ 13
    → (putchar s c).buffer j ≡ entry c s.color
unfolding putchar
putchar-written s c j e h tab line return =
    scroll-beyond (place s c) j h
    ∙ ap (λ i. (place s c).buffer i) (sym e)
    ∙ place-written s c tab line return

cell_lem : (s : Screen) → cell s ≡ s.cursor_y * 80 + s.cursor_x
unfolding cell
cell_lem s = refl

-- A tab in the last eight columns of the last row, followed by a character that is none of tab, line
-- feed and carriage return: the character is written to cell 2000, the first beyond the screen.
pub putchar-tab_past_end :
    (s : Screen) (c : ℕ)
    → 72 ≤ s.cursor_x
    → s.cursor_x < 80
    → s.cursor_y ≡ 24
    → c ≢ 9
    → c ≢ 10
    → c ≢ 13
    → (putchar (putchar s 9) c).buffer 2000 ≡ entry c s.color
putchar-tab_past_end s c late on last tab line return =
    let t : Screen = record s { cursor_x = 80 } in
    ap (λ u. (putchar u c).buffer 2000) (putchar-late_tab s late on last)
    ∙ putchar-written t c 2000 (cell_lem t ∙ omega arith) (omega arith) tab line return
