-- ===== src/Bytes/Strings.antt =====
-- `memcmp` and `strlen` against what they decide or measure.
use black_kernel.Base.{
  ℕ, zero, suc, ◌+◌, ◌≤◌, ◌<◌, ◌≡◌, refl, ap, ◌≢◌, ◌↔◌, inl, inr, arith, ◌==◌, Bool-cases, some,
  pos,
}
use black_kernel.Bytes.{Memory, memcmp_from, memcmp, strlen_from, strlen}

memcmp_from-zero :
    (rounds i : ℕ) (mem : Memory) (a b j : ℕ)
    → memcmp_from rounds i mem a b ≡ pos 0
    → i ≤ j
    → j < i + rounds
    → mem (a + j) ≡ mem (b + j)
unfolding memcmp_from
memcmp_from-zero zero i mem a b j e from below = absurd (omega arith)
memcmp_from-zero (suc rounds) i mem a b j e from below = elim (Bool-cases (i == j)) [
  | inl c ↦ ground (arith, here)
  | inr c ↦ ground (arith, memcmp_from-zero rounds (i + 1) mem a b j)
]
  where
    here : i ≡ j → (mem (a + i) ≡ mem (a + j)) × (mem (b + i) ≡ mem (b + j))
    here q = (ap (λ k. mem (a + k)) q, ap (λ k. mem (b + k)) q)

memcmp_from-same :
    (rounds i : ℕ) (mem : Memory) (a b : ℕ)
    → ((j : ℕ) → j < i + rounds → mem (a + j) ≡ mem (b + j))
    → memcmp_from rounds i mem a b ≡ pos 0
unfolding memcmp_from
memcmp_from-same zero i mem a b same = refl
memcmp_from-same (suc rounds) i mem a b same = ground (
  arith,
  same i (omega arith),
  memcmp_from-same rounds (i + 1) mem a b (λ j h. same j (omega arith)),
)

-- `memcmp` returns 0 exactly when the two areas hold the same bytes.
pub memcmp-eq_iff :
    (mem : Memory) (s1 s2 n : ℕ)
    → (memcmp mem s1 s2 n ≡ pos 0) ↔ ((j : ℕ) → j < n → mem (s1 + j) ≡ mem (s2 + j))
unfolding memcmp
memcmp-eq_iff mem s1 s2 n = (
  (λ e j h. memcmp_from-zero n 0 mem s1 s2 j e (omega arith) (omega arith)),
  (λ same. memcmp_from-same n 0 mem s1 s2 (λ j h. same j (omega arith))),
)

-- The first `n` bytes of the string are not NUL, and the next one is.
pub record IsString (mem : Memory) (str n : ℕ) : Type 0 where
  pub body : (j : ℕ) → j < n → mem (str + j) ≢ 0
  pub end : mem (str + n) ≡ 0

strlen_from_lem :
    (fuel l : ℕ) (mem : Memory) (str n : ℕ)
    → str ≢ 0
    → IsString mem str n
    → l ≤ n
    → n < l + fuel
    → strlen_from fuel l mem str ≡ some n
unfolding strlen_from
strlen_from_lem zero l mem str n ne s from h = absurd (omega arith)
strlen_from_lem (suc fuel) l mem str n ne s from h = elim (Bool-cases (l == n)) [
  | inl c ↦ ground (arith, here, s.end)
  | inr c ↦ ground (arith, s.body l (ground arith), strlen_from_lem fuel (l + 1) mem str n ne s)
]
  where
    here : l ≡ n → mem (str + l) ≡ mem (str + n)
    here q = ap (λ k. mem (str + k)) q

-- For a pointer other than 0 to a string of n bytes and a NUL, and more than n rounds of fuel,
-- `strlen` returns n.
pub strlen_lem :
    (fuel : ℕ) (mem : Memory) (str n : ℕ)
    → str ≢ 0
    → IsString mem str n
    → n < fuel
    → strlen fuel mem str ≡ some n
unfolding strlen
strlen_lem fuel mem str n ne s h = strlen_from_lem fuel 0 mem str n ne s (omega arith) (omega arith)
