-- ===== src/Cow/Counts.antt =====
-- The reference counts of kernel/mm/cow.c.
use black_kernel.Base.{
  ℕ, ◌≡◌, refl, ◌≢◌, true, false, Bool-cases, inl, inr, arith, ◌==◌, if◌then◌else◌, List, [], ◌∷◌,
  none, some, Option-cases, sym, ap, ◌∙◌, subst, update, update_self, add32,
}
use black_kernel.Buddy.{Buddy, alloc_pages, zone_unmovable}
use black_kernel.Cow.{
  PageRef, Cow, page_of, hash, find, find_ref, get_ref, set_count, increment_ref, get_ref_count,
}

same_page :
    (refs : ℕ → PageRef) (ref n a : ℕ)
    → (update refs ref (record (refs ref) { ref_count = n }) a).physical_address
      ≡ (refs a).physical_address
same_page refs ref n a = elim (Bool-cases (ref == a)) [
  | inl e ↦ rw e (ap (λ j. (refs j).physical_address) (ground (arith, e)))
  | inr e ↦ rw e
]

-- The search does not read the counts.
find-count :
    (refs : ℕ → PageRef) (ref n : ℕ) (chain : List ℕ) (phys : ℕ)
    → find (update refs ref (record (refs ref) { ref_count = n })) chain phys ≡ find refs chain phys
unfolding find
find-count refs ref n [] phys = refl
find-count refs ref n (a ∷ chain) phys =
    rw (same_page refs ref n a, find-count refs ref n chain phys)

find_ref-set_count :
    (c : Cow) (ref n phys : ℕ) → find_ref (set_count c ref n) phys ≡ find_ref c phys
unfolding find_ref set_count
find_ref-set_count c ref n phys = find-count c.refs ref n (c.hash_table (hash phys)) phys

get_ref_count-found :
    (c : Cow) (phys ref : ℕ)
    → find_ref c (page_of phys) ≡ some ref
    → get_ref_count c phys ≡ (c.refs ref).ref_count
unfolding get_ref_count
get_ref_count-found c phys ref e = rw (get_ref_count, e)

get_ref_count-missing :
    (c : Cow) (phys : ℕ) → find_ref c (page_of phys) ≡ none → get_ref_count c phys ≡ 0
unfolding get_ref_count
get_ref_count-missing c phys e = rw (get_ref_count, e)

get_ref-known :
    (c : Cow) (phys ref : ℕ) → find_ref c (page_of phys) ≡ some ref → get_ref c phys ≡ (ref, c)
unfolding get_ref
get_ref-known c phys ref e = rw (get_ref, e)

-- The entry that `cow_get_ref` makes: in front of its chain, with the count 0.
add_ref : Cow → ℕ → ℕ → Buddy → Cow
add_ref c phys ref buddy = record c {
  buddy = buddy;
  refs = update c.refs ref (record { physical_address = page_of phys; ref_count = 0 });
  hash_table = update c.hash_table (hash (page_of phys)) (ref ∷ c.hash_table (hash (page_of phys)));
}

get_ref-unknown :
    (c : Cow) (phys : ℕ)
    → find_ref c (page_of phys) ≡ none
    → get_ref c phys ≡ (
        if (alloc_pages c.buddy 0 zone_unmovable).0 == 0
        then (0, record c { buddy = (alloc_pages c.buddy 0 zone_unmovable).1 })
        else (
          (alloc_pages c.buddy 0 zone_unmovable).0,
          add_ref c phys
              (alloc_pages c.buddy 0 zone_unmovable).0
              (alloc_pages c.buddy 0 zone_unmovable).1,
        ))
unfolding get_ref add_ref
get_ref-unknown c phys e = rw (get_ref, e)

find_ref-add_ref :
    (c : Cow) (phys ref : ℕ) (buddy : Buddy)
    → find_ref (add_ref c phys ref buddy) (page_of phys) ≡ some ref
unfolding find_ref add_ref find
find_ref-add_ref c phys ref buddy =
    let same : (page_of phys == page_of phys) ≡ true = ground arith in
    rw (
      update_self c.hash_table (hash (page_of phys)) (ref ∷ c.hash_table (hash (page_of phys))),
      update_self c.refs ref (record { physical_address = page_of phys; ref_count = 0 }),
      same,
    )

new_count :
    (c : Cow) (phys ref : ℕ) (buddy : Buddy) → ((add_ref c phys ref buddy).refs ref).ref_count ≡ 0
unfolding add_ref
new_count c phys ref buddy =
    ap (λ r. r.ref_count)
      (update_self c.refs ref (record { physical_address = page_of phys; ref_count = 0 }))

set_count-ref_count : (c : Cow) (ref n : ℕ) → ((set_count c ref n).refs ref).ref_count ≡ n
unfolding set_count
set_count-ref_count c ref n =
    ap (λ r. r.ref_count) (update_self c.refs ref (record (c.refs ref) { ref_count = n }))

-- An entry for the page, with the count that the page has.
Refers : Cow → ℕ → ℕ × Cow → Type 0
Refers c phys r =
    r.0 ≢ 0
    → (find_ref r.1 (page_of phys) ≡ some r.0) × ((r.1.refs r.0).ref_count ≡ get_ref_count c phys)

get_ref-Refers : (c : Cow) (phys : ℕ) → Refers c phys (get_ref c phys)
unfolding Refers
get_ref-Refers c phys = elim (Option-cases (find_ref c (page_of phys))) [
  | inr (ref, e) ↦
      subst (Refers c phys) (sym (get_ref-known c phys ref e))
        (λ ne. (e, sym (get_ref_count-found c phys ref e)))
  | inl e ↦
      subst (Refers c phys) (sym (get_ref-unknown c phys e))
        (elim (Bool-cases ((alloc_pages c.buddy 0 zone_unmovable).0 == 0)) [
          | inl f ↦ rw f (λ ne. absurd (ne refl))
          | inr f ↦ rw f (λ ne. (
            find_ref-add_ref c phys (alloc_pages c.buddy 0 zone_unmovable).0
                (alloc_pages c.buddy 0 zone_unmovable).1,
            new_count c phys (alloc_pages c.buddy 0 zone_unmovable).0
                  (alloc_pages c.buddy 0 zone_unmovable).1
                ∙ sym (get_ref_count-missing c phys e),
          ))
        ])
]

-- `cow_increment_ref` counts one more reference to the page, in 32 bits, where there is an entry for
-- the page or memory for one.
pub get_ref_count-increment_ref :
    (c : Cow) (phys : ℕ)
    → (get_ref c phys).0 ≢ 0
    → get_ref_count (increment_ref c phys) phys ≡ add32 (get_ref_count c phys) 1
unfolding increment_ref Refers
get_ref_count-increment_ref c phys ne =
    let (ref, c1) = get_ref c phys in
    let (found, count) = get_ref-Refers c phys ne in
    let some_ref : (ref == 0) ≡ false = ground (arith, ne) in
    let n = add32 (c1.refs ref).ref_count 1 in
    rw some_ref (
      get_ref_count-found (set_count c1 ref n) phys ref
        (find_ref-set_count c1 ref n (page_of phys) ∙ found)
      ∙ set_count-ref_count c1 ref n
      ∙ ap (λ k. add32 k 1) count)
