-- ===== src/Keyboard/Tests.antt =====
-- The keyboard's ring (kernel/drivers/keyboard.c) at the end of its buffer.
use black_kernel.Base.{◌≡◌, arith, ◌⊎◌, [], ◌∷◌, ◌++◌, length, ◌==◌, if◌then◌else◌}
use black_kernel.Keyboard.{Keyboard, push, get_char}
use black_kernel.Keyboard.Ring.{IsValid, queue, queue-push, queue-get_char}

abbrev keyboard : Keyboard
keyboard = record { kbd_buf = λ i. 97; kbd_head = 255; kbd_tail = 254; shift = 0; caps = 0 }

keyboard-IsValid : IsValid keyboard
keyboard-IsValid = record { head = omega arith; tail = omega arith }

queue-push_example :
    queue (push keyboard 98)
    ≡ (if length (queue keyboard) == 255 then queue keyboard else queue keyboard ++ (98 ∷ []))
queue-push_example = queue-push keyboard 98 keyboard-IsValid

queue-get_char_example :
    ((queue keyboard ≡ []) × (get_char keyboard ≡ (0, keyboard)))
    ⊎ (queue keyboard ≡ (get_char keyboard).0 ∷ queue (get_char keyboard).1)
queue-get_char_example = queue-get_char keyboard keyboard-IsValid
