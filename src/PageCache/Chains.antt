-- ===== src/PageCache/Chains.antt =====
-- The chains and the list of the page cache (kernel/mm/page_cache.c): what is on them, and what the walk
-- along a chain finds.
use black_kernel.Base.{
  ℕ, ◌+◌, ◌-◌, ◌≤◌, ◌≡◌, refl, sym, ap, subst, true, false, Bool-cases, inl, inr, arith, ◌==◌,
  ==_iff, if◌then◌else◌, List, [], ◌∷◌, Option, none, some,
}
use black_kernel.Buddy.{list_remove}
use black_kernel.PageCache.{Entry, is_for, find}

-- How often an address is on a list.
unfoldable pub count : ℕ → List ℕ → ℕ
count a [] = 0
count a (x ∷ l) = (if x == a then 1 else 0) + count a l

pub count-list_remove :
    (a b : ℕ) (l : List ℕ)
    → count a (list_remove l b) ≡ (if b == a then count a l - 1 else count a l)
unfolding count list_remove
count-list_remove a b [] = ground arith
count-list_remove a b (x ∷ l) = ground (arith, count-list_remove a b l)

pub count-removed : (a b : ℕ) (l : List ℕ) → 1 ≤ count a (list_remove l b) → 1 ≤ count a l
count-removed a b l on = ground (arith, count-list_remove a b l, on)

pub count_self : (a : ℕ) (l : List ℕ) → 1 ≤ count a (a ∷ l)
unfolding count
count_self a l = ground arith

some-injective : {a b : ℕ} → ◌≡◌ {A = Option ℕ} (some a) (some b) → a ≡ b
some-injective {a = a} e = ap (λ (o : Option ℕ). elim o [ none ↦ a | some x ↦ x ]) e

pub find-none :
    (entries : ℕ → Entry) (chain : List ℕ) (file_id offset a : ℕ)
    → find entries chain file_id offset ≡ none
    → 1 ≤ count a chain
    → is_for (entries a) file_id offset ≡ false
unfolding find count
find-none entries [] file_id offset a e some_a = absurd (omega (arith, some_a))
find-none entries (x ∷ chain) file_id offset a e some_a =
    elim (Bool-cases (is_for (entries x) file_id offset)) [
      | inl f ↦ absurd (ground (arith, rw (find, f) at e))
      | inr f ↦ elim (Bool-cases (x == a)) [
        | inl g ↦ subst (λ y. is_for (entries y) file_id offset ≡ false) ((==_iff x a).0 g) f
        | inr g ↦
            find-none entries chain file_id offset a (rw (find, f) at e)
              (omega (arith, rw (count, g) at some_a))
      ]
    ]

pub none-find :
    (entries : ℕ → Entry) (chain : List ℕ) (file_id offset : ℕ)
    → ((a : ℕ) → 1 ≤ count a chain → is_for (entries a) file_id offset ≡ false)
    → find entries chain file_id offset ≡ none
unfolding find count
none-find entries [] file_id offset h = refl
none-find entries (x ∷ chain) file_id offset h =
    let first : is_for (entries x) file_id offset ≡ false = h x (ground arith) in
    rw (find, first) (none-find entries chain file_id offset (λ a on. h a (omega (arith, on))))

pub find-some :
    (entries : ℕ → Entry) (chain : List ℕ) (file_id offset a : ℕ)
    → find entries chain file_id offset ≡ some a
    → (1 ≤ count a chain) × (is_for (entries a) file_id offset ≡ true)
unfolding find count
find-some entries [] file_id offset a e = absurd (ground arith)
find-some entries (x ∷ chain) file_id offset a e =
    elim (Bool-cases (is_for (entries x) file_id offset)) [
      | inl f ↦
          let same : x ≡ a = some-injective (rw (find, f) at e) in
          subst (λ y. (1 ≤ count y (x ∷ chain)) × (is_for (entries y) file_id offset ≡ true)) same
            (count_self x chain, f)
      | inr f ↦
          let rest = find-some entries chain file_id offset a (rw (find, f) at e) in
          (omega (arith, rest.0), rest.1)
    ]

-- A walk for another page does not see that an entry was taken out.
pub find-list_remove :
    (entries : ℕ → Entry) (chain : List ℕ) (file_id offset x : ℕ)
    → is_for (entries x) file_id offset ≡ false
    → find entries (list_remove chain x) file_id offset ≡ find entries chain file_id offset
unfolding find list_remove
find-list_remove entries [] file_id offset x other = refl
find-list_remove entries (y ∷ chain) file_id offset x other = elim (Bool-cases (y == x)) [
  | inl e ↦
      let first : is_for (entries y) file_id offset ≡ false =
        subst (λ z. is_for (entries z) file_id offset ≡ false) (sym ((==_iff y x).0 e)) other in
      rw (e, find, first) refl
  | inr e ↦ elim (Bool-cases (is_for (entries y) file_id offset)) [
    | inl f ↦ rw (e, find, f) refl
    | inr f ↦ rw (e, find, f) (find-list_remove entries chain file_id offset x other)
  ]
]
