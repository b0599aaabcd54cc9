-- ===== src/Keyboard.antt =====
-- The keyboard, kernel/drivers/keyboard.c: the interrupt handler turns scan codes into characters and
-- puts them into a ring of 256 bytes, from which `keyboard_get_char` takes them.
pub mod Tests
pub mod Ring
use black_kernel.Base.{
  ℕ, zero, suc, ◌+◌, ◌-◌, ◌*◌, ◌/◌, ◌%◌, ◌^◌, bit_and, bit_xor, Bool, true, false, not, List, [],
  ◌∷◌, ltb, leb, ◌==◌, ◌&&◌, ◌||◌, if◌then◌else◌, update, Option, none, some, get_elem?,
}

pub record Keyboard : Type 0 where
  pub kbd_buf : ℕ → ℕ
  pub kbd_head : ℕ
  pub kbd_tail : ℕ
  pub shift : ℕ
  pub caps : ℕ

-- The letters and signs of `map_norm` up to the space bar; the other entries are 0.
abbrev pub map_norm : List ℕ
map_norm =
    0 ∷ 27 ∷ 49 ∷ 50 ∷ 51 ∷ 52 ∷ 53 ∷ 54 ∷ 55 ∷ 56 ∷ 57 ∷ 48 ∷ 45 ∷ 61 ∷ 8 ∷ 9 ∷ 113 ∷ 119 ∷ 101
    ∷ 114 ∷ 116 ∷ 121 ∷ 117 ∷ 105 ∷ 111 ∷ 112 ∷ 91 ∷ 93 ∷ 10 ∷ 0 ∷ 97 ∷ 115 ∷ 100 ∷ 102 ∷ 103 ∷ 104
    ∷ 106 ∷ 107 ∷ 108 ∷ 59 ∷ 39 ∷ 96 ∷ 0 ∷ 92 ∷ 122 ∷ 120 ∷ 99 ∷ 118 ∷ 98 ∷ 110 ∷ 109 ∷ 44 ∷ 46 ∷ 47
    ∷ 0 ∷ 42 ∷ 0 ∷ 32 ∷ []

abbrev pub map_shift : List ℕ
map_shift =
    0 ∷ 27 ∷ 33 ∷ 64 ∷ 35 ∷ 36 ∷ 37 ∷ 94 ∷ 38 ∷ 42 ∷ 40 ∷ 41 ∷ 95 ∷ 43 ∷ 8 ∷ 9 ∷ 81 ∷ 87 ∷ 69 ∷ 82
    ∷ 84 ∷ 89 ∷ 85 ∷ 73 ∷ 79 ∷ 80 ∷ 123 ∷ 125 ∷ 10 ∷ 0 ∷ 65 ∷ 83 ∷ 68 ∷ 70 ∷ 71 ∷ 72 ∷ 74 ∷ 75 ∷ 76
    ∷ 58 ∷ 34 ∷ 126 ∷ 0 ∷ 124 ∷ 90 ∷ 88 ∷ 67 ∷ 86 ∷ 66 ∷ 78 ∷ 77 ∷ 60 ∷ 62 ∷ 63 ∷ 0 ∷ 42 ∷ 0 ∷ 32
    ∷ []

unfoldable pub entry_of : List ℕ → ℕ → ℕ
entry_of map sc = elim (get_elem? map sc) [ none ↦ 0 | some c ↦ c ]

unfoldable pub push : Keyboard → ℕ → Keyboard
push k c =
    let next = (k.kbd_head + 1) % 256 in
    if next == k.kbd_tail
    then k
    else record k { kbd_buf = update k.kbd_buf k.kbd_head c; kbd_head = next }

-- The character of a scan code below 0x80; `shift` and `caps` are 0 or 1.
unfoldable pub translate : Keyboard → ℕ → ℕ
translate k sc =
    let c = if k.shift == 0 then entry_of map_norm sc else entry_of map_shift sc in
    if leb 97 c && leb c 122 && not (k.caps == k.shift) then c - 32 else c

-- `sc` is the byte read from port 0x60.
unfoldable pub irq_handler : Keyboard → ℕ → Keyboard
irq_handler k sc =
    if sc == 0x2A || sc == 0x36
    then record k { shift = 1 }
    else if sc == 0xAA || sc == 0xB6
    then record k { shift = 0 }
    else if sc == 0x3A
    then record k { caps = bit_xor k.caps 1 }
    else if leb 0x80 sc
    then k
    else if translate k sc == 0
    then k
    else push k (translate k sc)

-- The character, 0 where there is none.
unfoldable pub get_char : Keyboard → ℕ × Keyboard
get_char k =
    if k.kbd_head == k.kbd_tail
    then (0, k)
    else (k.kbd_buf k.kbd_tail, record k { kbd_tail = (k.kbd_tail + 1) % 256 })

unfoldable pub has_input : Keyboard → Bool
has_input k = not (k.kbd_head == k.kbd_tail)
