-- ===== src/Keyboard/Ring.antt =====
-- The keyboard's ring as a queue (`kbd_push`, `keyboard_get_char` of kernel/drivers/keyboard.c).
use black_kernel.Base.{
  ℕ, zero, suc, ◌+◌, ◌-◌, ◌%◌, ◌≤◌, ◌<◌, ◌≡◌, refl, true, false, Bool-cases, inl, inr, ◌⊎◌, arith,
  ◌==◌, if◌then◌else◌, List, [], ◌∷◌, ◌++◌, length, ap, ◌∙◌, update, update_self, update_ne,
}
use black_kernel.Keyboard.{Keyboard, push, get_char}

pub record IsValid (k : Keyboard) : Type 0 where
  pub head : k.kbd_head < 256
  pub tail : k.kbd_tail < 256

-- The characters of `n` slots of the ring, from slot `i` on.
unfoldable pub slots : ℕ → (ℕ → ℕ) → ℕ → List ℕ
slots zero buf i = []
slots (suc n) buf i = buf i ∷ slots n buf ((i + 1) % 256)

-- How many characters the ring holds.
unfoldable pub count : Keyboard → ℕ
count k = (k.kbd_head + 256 - k.kbd_tail) % 256

-- The characters that wait, the oldest first.
unfoldable pub queue : Keyboard → List ℕ
unfolding count
queue k = slots (count k) k.kbd_buf k.kbd_tail

-- One more slot, at the other end.
slots-suc :
    (n : ℕ) (buf : ℕ → ℕ) (i : ℕ)
    → i < 256
    → slots (suc n) buf i ≡ slots n buf i ++ (buf ((i + n) % 256) ∷ [])
unfolding slots
slots-suc zero buf i lt = ap (λ j. buf j ∷ []) (omega arith)
slots-suc (suc n) buf i lt =
    ap (λ l. buf i ∷ l)
      (slots-suc n buf ((i + 1) % 256) (omega arith)
        ∙ ap (λ j. slots n buf ((i + 1) % 256) ++ (buf j ∷ [])) (omega arith))

-- A write behind the slots is not seen.
slots-update :
    (n : ℕ) (buf : ℕ → ℕ) (i h c : ℕ)
    → i < 256
    → h < 256
    → n ≤ (h + 256 - i) % 256
    → slots n (update buf h c) i ≡ slots n buf i
unfolding slots
slots-update zero buf i h c ilt hlt room = refl
slots-update (suc n) buf i h c ilt hlt room = rw (
  update_ne buf h c i (λ e. absurd (omega arith)),
  slots-update n buf ((i + 1) % 256) h c (omega arith) hlt (omega arith),
)

length-slots : (n : ℕ) (buf : ℕ → ℕ) (i : ℕ) → length (slots n buf i) ≡ n
unfolding slots
length-slots zero buf i = refl
length-slots (suc n) buf i = ap suc (length-slots n buf ((i + 1) % 256))

pub length-queue : (k : Keyboard) → length (queue k) ≡ count k
unfolding queue
length-queue k = length-slots (count k) k.kbd_buf k.kbd_tail

push-full : (k : Keyboard) (c : ℕ) → IsValid k → (count k == 255) ≡ true → push k c ≡ k
unfolding push count
push-full k c valid e =
    let full : ((k.kbd_head + 1) % 256 == k.kbd_tail) ≡ true =
      ground (arith, valid.head, valid.tail, e) in
    rw full

push-room :
    (k : Keyboard) (c : ℕ)
    → IsValid k
    → (count k == 255) ≡ false
    → queue (push k c) ≡ queue k ++ (c ∷ [])
unfolding push queue count
push-room k c valid e =
    let room : ((k.kbd_head + 1) % 256 == k.kbd_tail) ≡ false =
      ground (arith, valid.head, valid.tail, e) in
    let more : ((k.kbd_head + 1) % 256 + 256 - k.kbd_tail) % 256 ≡ suc (count k) =
      ground (arith, valid.head, valid.tail, e) in
    let at : (k.kbd_tail + count k) % 256 ≡ k.kbd_head = omega (arith, valid.head, valid.tail) in
    let buf = update k.kbd_buf k.kbd_head c in
    rw room (
      ap (λ n. slots n buf k.kbd_tail) more
      ∙ slots-suc (count k) buf k.kbd_tail valid.tail
      ∙ rw
          (slots-update (count k) k.kbd_buf k.kbd_tail k.kbd_head c valid.tail valid.head
            (omega arith))
          (ap (λ j. slots (count k) k.kbd_buf k.kbd_tail ++ (buf j ∷ [])) at
            ∙ rw (update_self k.kbd_buf k.kbd_head c)))

-- With both indices below 256, `kbd_push` puts the character behind those that wait, and drops it
-- where 255 of them wait.
pub queue-push :
    (k : Keyboard) (c : ℕ)
    → IsValid k
    → queue (push k c) ≡ (if length (queue k) == 255 then queue k else queue k ++ (c ∷ []))
queue-push k c valid = rw (length-queue k) (elim (Bool-cases (count k == 255)) [
  | inl e ↦ rw e (ap queue (push-full k c valid e))
  | inr e ↦ rw e (push-room k c valid e)
])

queue-empty : (k : Keyboard) → IsValid k → (k.kbd_head == k.kbd_tail) ≡ true → queue k ≡ []
unfolding queue count slots
queue-empty k valid e =
    let none : (k.kbd_head + 256 - k.kbd_tail) % 256 ≡ 0 =
      ground (arith, valid.head, valid.tail, e) in
    ap (λ n. slots n k.kbd_buf k.kbd_tail) none

get_char-empty : (k : Keyboard) → (k.kbd_head == k.kbd_tail) ≡ true → get_char k ≡ (0, k)
unfolding get_char
get_char-empty k e = rw e

get_char-some :
    (k : Keyboard)
    → IsValid k
    → (k.kbd_head == k.kbd_tail) ≡ false
    → queue k ≡ (get_char k).0 ∷ queue (get_char k).1
unfolding queue count slots get_char
get_char-some k valid e =
    let more : (k.kbd_head + 256 - k.kbd_tail) % 256
        ≡ suc ((k.kbd_head + 256 - (k.kbd_tail + 1) % 256) % 256) =
      ground (arith, valid.head, valid.tail, e) in
    ap (λ n. slots n k.kbd_buf k.kbd_tail) more ∙ rw e

-- With both indices below 256, `keyboard_get_char` takes the oldest character that waits; where
-- none waits it returns 0 and changes nothing.
pub queue-get_char :
    (k : Keyboard)
    → IsValid k
    → ((queue k ≡ []) × (get_char k ≡ (0, k))) ⊎ (queue k ≡ (get_char k).0 ∷ queue (get_char k).1)
queue-get_char k valid = elim (Bool-cases (k.kbd_head == k.kbd_tail)) [
  | inl e ↦ inl (queue-empty k valid e, get_char-empty k e)
  | inr e ↦ inr (get_char-some k valid e)
]
