-- ===== src/Stdio/Output.antt =====
-- What `kvsnprintf` (kernel/lib/stdio.c) leaves in the buffer.
use black_kernel.Base.{
  ℕ, suc, ◌+◌, ◌-◌, ◌^◌, ◌≤◌, ◌<◌, ◌≡◌, refl, true, ◌&&◌, ◌||◌, Bool-cases, inl, inr, arith, leb,
  ltb, ◌==◌, if◌then◌else◌, List, [], ◌∷◌, ◌++◌, length, get_or, Option, none, some, sym, ap, ◌∙◌,
  min, pos,
}
use black_kernel.Stdio.{
  Sink, Arg, text, number, put, put_all, number_text, string_text, convert, scan, terminate,
  kvsnprintf, to_int,
}

-- The text of one conversion, and the arguments left.
unfoldable pub expand_one : ℕ → List Arg → Option (List ℕ × List Arg)
expand_one c args =
    if c == 37
    then some (37 ∷ [], args)
    else if c == 115
    then elim args [
      | [] ↦ none
      | a ∷ args ↦ elim a [ text t ↦ some (string_text t, args) | number n ↦ none ]
    ]
    else if c == 99 || c == 100 || c == 117 || c == 120 || c == 88 || c == 112
    then elim args [
      | [] ↦ none
      | a ∷ args ↦ elim a [
        | text t ↦ none
        | number n ↦ elim (number_text c n) [ none ↦ none | some t ↦ some (t, args) ]
      ]
    ]
    else some ([], args)

-- The whole text of a format, whatever the size of the buffer.
unfoldable pub expand : List ℕ → List Arg → Option (List ℕ)
expand [] args = some []
expand (c ∷ []) args = if c == 37 then none else some (c ∷ [])
expand (c ∷ d ∷ fmt) args =
    let plain : Option (List ℕ) = elim (expand (d ∷ fmt) args) [
      | none ↦ none
      | some t ↦ some (c ∷ t)
    ] in
    let converted : Option (List ℕ) = elim (expand_one d args) [
      | none ↦ none
      | some r ↦ elim (expand fmt r.1) [ none ↦ none | some t ↦ some (r.0 ++ t) ]
    ] in
    if c == 37 then converted else plain

put_all-append :
    (xs : List ℕ) (s : Sink) (ys : List ℕ) → put_all s (xs ++ ys) ≡ put_all (put_all s xs) ys
unfolding put_all
put_all-append [] s ys = refl
put_all-append (x ∷ xs) s ys = put_all-append xs (put s x) ys

-- A conversion writes its text.
convert-expand_one :
    (s : Sink) (c : ℕ) (args : List Arg)
    → convert s c args
      ≡ elim (expand_one c args) [ none ↦ none | some r ↦ some (put_all s r.0, r.1) ]
unfolding convert expand_one put_all
convert-expand_one s c args = elim args [
  | [] ↦ ground arith
  | a ∷ args ↦ elim a [
    | text t ↦ ground arith
    | number n ↦ elim (number_text c n) [ none ↦ ground arith | some t ↦ ground arith ]
  ]
]

unfoldable written : Sink → Option (List ℕ) → Option Sink
written s none = none
written s (some t) = some (put_all s t)

written-plain :
    (s : Sink) (c : ℕ) (t : Option (List ℕ))
    → written (put s c) t ≡ written s (elim t [ none ↦ none | some t ↦ some (c ∷ t) ])
unfolding written put_all
written-plain s c none = refl
written-plain s c (some t) = refl

written-append :
    (s : Sink) (xs : List ℕ) (t : Option (List ℕ))
    → written (put_all s xs) t ≡ written s (elim t [ none ↦ none | some t ↦ some (xs ++ t) ])
unfolding written
written-append s xs none = refl
written-append s xs (some t) = ap some (sym (put_all-append xs s t))

scan-converted :
    (s : Sink) (fmt : List ℕ) (one : Option (List ℕ × List Arg))
    → ((s : Sink) (args : List Arg) → scan fmt s args ≡ written s (expand fmt args))
    → elim (elim one as (λ _. Option (Sink × List Arg)) [
      | none ↦ none
      | some r ↦ some (put_all s r.0, r.1)
    ])
        as (λ _. Option Sink) [ none ↦ none | some r ↦ scan fmt r.0 r.1 ]
      ≡ written s (elim one [
        | none ↦ none
        | some r ↦ elim (expand fmt r.1) [ none ↦ none | some t ↦ some (r.0 ++ t) ]
      ])
unfolding written
scan-converted s fmt none again = refl
scan-converted s fmt (some (xs, rest)) again =
    again (put_all s xs) rest ∙ written-append s xs (expand fmt rest)

-- The loop writes the whole text.
scan-expand :
    (fmt : List ℕ) (s : Sink) (args : List Arg) → scan fmt s args ≡ written s (expand fmt args)
unfolding scan expand written put_all
scan-expand [] s args = refl
scan-expand (c ∷ []) s args = ground arith
scan-expand (c ∷ d ∷ fmt) s args = elim (Bool-cases (c == 37)) [
  | inl e ↦
      rw (e, convert-expand_one s d args)
        (scan-converted s fmt (expand_one d args) (λ s args. scan-expand fmt s args))
  | inr e ↦ rw (e, scan-expand (d ∷ fmt) (put s c) args) (written-plain s c (expand (d ∷ fmt) args))
]

put_all-pos : (t : List ℕ) (s : Sink) → (put_all s t).pos ≡ s.pos + length t
unfolding put_all put
put_all-pos [] s = omega arith
put_all-pos (c ∷ t) s = put_all-pos t (put s c) ∙ omega arith

put_all-sink :
    (t : List ℕ) (s : Sink)
    → ((put_all s t).out_sz ≡ s.out_sz) × ((put_all s t).has_out ≡ s.has_out)
unfolding put_all put
put_all-sink [] s = (refl, refl)
put_all-sink (c ∷ t) s = put_all-sink t (put s c)

get_or_here : (c : ℕ) (t : List ℕ) (i j : ℕ) → i ≡ j → get_or (c ∷ t) (j - i) 0 ≡ c
get_or_here c t i j e = let at : j - i ≡ 0 = omega arith in ap (λ k. get_or (c ∷ t) k 0) at

get_or_later :
    (c : ℕ) (t : List ℕ) (i j : ℕ) → i < j → get_or (c ∷ t) (j - i) 0 ≡ get_or t (j - (i + 1)) 0
get_or_later c t i j h =
    let at : j - i ≡ suc (j - (i + 1)) = omega arith in ap (λ k. get_or (c ∷ t) k 0) at

-- The characters of the text that fit in the buffer stand in it, and the others are not written.
put_all-out :
    (t : List ℕ) (s : Sink) (j : ℕ)
    → s.has_out ≡ true
    → (put_all s t).out j ≡ (
        if leb s.pos j && ltb j (s.pos + length t) && ltb (j + 1) s.out_sz
        then get_or t (j - s.pos) 0
        else s.out j)
unfolding put_all put
put_all-out [] s j h = ground arith
put_all-out (c ∷ t) s j h = put_all-out t (put s c) j h ∙ elim (Bool-cases (s.pos == j)) [
  | inl e ↦ ground (arith, get_or_here c t s.pos j (ground (arith, e)), h, e)
  | inr e ↦ ground (arith, get_or_later c t s.pos j, h, e)
]

-- What the buffer holds after `kvsnprintf` of a text that is as long as `total`.
pub record Holds (before after : Sink) (total : List ℕ) : Type 0 where
  pub kept : (j : ℕ) → j < length total → j + 1 < before.out_sz → after.out j ≡ get_or total j 0
  pub ended : after.out (min (length total) (before.out_sz - 1)) ≡ 0
  pub beyond : (j : ℕ) → before.out_sz ≤ j → after.out j ≡ before.out j

terminate-put_all :
    (s : Sink) (total : List ℕ)
    → s.has_out ≡ true
    → 1 ≤ s.out_sz
    → s.pos ≡ 0
    → Holds s (terminate (put_all s total)) total
unfolding terminate
terminate-put_all s total h size at =
    let n = (put_all s total).pos in
    let pos : n ≡ length total = put_all-pos total s ∙ omega arith in
    let (sz, has) = put_all-sink total s in
    let out = λ (j : ℕ). put_all-out total s j h in
    record {
      kept = λ j lt fits. ground (arith, out j, pos, sz, has, at);
      ended = ground (arith, pos, sz, has, at);
      beyond = λ j le. ground (arith, out j, pos, sz, has, at);
    }

Holds-same :
    (s after : Sink) (total : List ℕ)
    → Holds (record s { pos = 0 }) after total
    → Holds s after total
Holds-same s after total holds = record {
  kept = holds.kept;
  ended = holds.ended;
  beyond = holds.beyond;
}

-- `(int)pos` of a text below 2^31 characters is its length.
to_int-length : (n len : ℕ) → n ≡ len → len < 2 ^ 31 → to_int n ≡ pos len
unfolding to_int
to_int-length n len e small = ground (arith, e)

-- `kvsnprintf` into a buffer of at least one byte, where every conversion of the format has an argument
-- of its kind, the format does not end in a percent sign and the whole text has less than 2^31
-- characters: it returns the length of the whole text, the buffer holds as much of the text as leaves
-- room for the null character, the null character stands behind it, and no byte from `out_sz` on is
-- written.
pub kvsnprintf_lem :
    (s : Sink) (fmt : List ℕ) (args : List Arg) (total : List ℕ)
    → expand fmt args ≡ some total
    → length total < 2 ^ 31
    → s.has_out ≡ true
    → 1 ≤ s.out_sz
    → (after : Sink) × (kvsnprintf s fmt args ≡ some (pos (length total), after))
      × Holds s after total
unfolding kvsnprintf written
kvsnprintf_lem s fmt args total e small h size =
    let t : Sink = record s { pos = 0 } in
    let n : to_int (put_all t total).pos ≡ pos (length total) =
      to_int-length (put_all t total).pos (length total) (put_all-pos total t ∙ omega arith)
        small in
    (
      terminate (put_all t total),
      rw (kvsnprintf, scan-expand fmt t args, e, n) refl,
      Holds-same s (terminate (put_all t total)) total (terminate-put_all t total h size refl),
    )
