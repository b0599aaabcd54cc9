-- ===== src/PageCache/Coherent.antt =====
-- The hash table and the list of the page cache (kernel/mm/page_cache.c) hold the same entries.
use black_kernel.Base.{
  ℕ, ◌≤◌, ◌≡◌, refl, subst, Bool, true, false, Bool-cases, Option-cases, inl, inr, arith, ◌==◌,
  ==_iff, if◌then◌else◌, update, none, some,
}
use black_kernel.Buddy.{Buddy, list_remove}
use black_kernel.PageCache.{
  PageCache, hash_function, is_for, find_entry, lru_tail, lru_remove, unlink, evict_lru, remove,
}
use black_kernel.PageCache.Chains.{count, count-list_remove, count-removed, find-none, find-some}

-- The chain that the entry belongs to.
abbrev pub hash_of : PageCache → ℕ → ℕ
hash_of c a = hash_function (c.entries a).file_id (c.entries a).offset

-- Every entry of the list is on it once, on the chain of its page once and on no other chain, and no two
-- entries are for the same page.
pub record IsCoherent (c : PageCache) : Type 0 where
  pub once : (a : ℕ) → count a c.lru ≤ 1
  pub chains :
      (h a : ℕ) → count a (c.hash_table h) ≡ (if hash_of c a == h then count a c.lru else 0)
  pub keys :
      (a b : ℕ)
      → 1 ≤ count a c.lru
      → 1 ≤ count b c.lru
      → is_for (c.entries a) (c.entries b).file_id (c.entries b).offset ≡ true
      → a ≡ b

pub hash_of-is_for :
    (c : PageCache) (a file_id offset : ℕ)
    → is_for (c.entries a) file_id offset ≡ true
    → ((c.entries a).file_id ≡ file_id) × ((c.entries a).offset ≡ offset)
unfolding is_for
hash_of-is_for c a file_id offset e = ground arith

same_hash : {f g o p : ℕ} → f ≡ g → o ≡ p → hash_function f o ≡ hash_function g p
same_hash e k = λ i. hash_function (e i) (k i)

-- The entry that is found is on the list and belongs to the chain of the page.
pub find_entry-on_list :
    (c : PageCache) (file_id offset a : ℕ)
    → IsCoherent c
    → find_entry c file_id offset ≡ some a
    → (1 ≤ count a c.lru)
      × (hash_of c a ≡ hash_function file_id offset)
      × (is_for (c.entries a) file_id offset ≡ true)
unfolding find_entry
find_entry-on_list c file_id offset a i e =
    let (on, found) = find-some c.entries _ file_id offset a e in
    let (f, o) = hash_of-is_for c a file_id offset found in
    (
      ground (arith, on, i.chains (hash_function file_id offset) a, same_hash f o),
      same_hash f o,
      found,
    )

-- No entry of the list is for a page that is not found.
pub find_entry-none :
    (c : PageCache) (file_id offset a : ℕ)
    → IsCoherent c
    → find_entry c file_id offset ≡ none
    → 1 ≤ count a c.lru
    → is_for (c.entries a) file_id offset ≡ false
unfolding find_entry
find_entry-none c file_id offset a i e on =
    elim (Bool-cases (is_for (c.entries a) file_id offset)) [
      | inr f ↦ f
      | inl f ↦
          let (g, o) = hash_of-is_for c a file_id offset f in
          find-none c.entries _ file_id offset a e
            (ground (arith, on, i.chains (hash_function file_id offset) a, same_hash g o))
    ]

unlink-IsCoherent :
    (c : PageCache) (h a : ℕ) → IsCoherent c → hash_of c a ≡ h → IsCoherent (unlink c h a)
unfolding unlink lru_remove
unlink-IsCoherent c h a i e = record {
  once = λ x. ground (arith, count-list_remove x a c.lru, i.once x);
  chains = λ k x. unlinked k x;
  keys = λ x y on_x on_y same.
      i.keys x y (count-removed x a c.lru on_x) (count-removed y a c.lru on_y) same;
}
  where
    unlinked :
        (k x : ℕ)
        → count x (update c.hash_table h (list_remove (c.hash_table h) a) k)
          ≡ (if hash_of c x == k then count x (list_remove c.lru a) else 0)
    unlinked k x =
        let chain = count-list_remove x a (c.hash_table h) in
        let list = count-list_remove x a c.lru in
        elim (Bool-cases (h == k)) [
          | inl f ↦ elim (Bool-cases (a == x)) [
            | inl g ↦ rw f (ground (arith, chain, list, i.chains h x, f, same g))
            | inr g ↦ rw f (ground (arith, chain, list, i.chains h x, f, g))
          ]
          | inr f ↦ elim (Bool-cases (a == x)) [
            | inl g ↦ rw f (ground (arith, list, i.chains k x, f, same g))
            | inr g ↦ rw f (ground (arith, list, i.chains k x, f, g))
          ]
        ]
      where
        same : (a == x) ≡ true → hash_of c x ≡ h
        same g = subst (λ y. hash_of c y ≡ h) ((==_iff a x).0 g) e

pub buddy-IsCoherent :
    (c : PageCache) (b : Buddy) → IsCoherent c → IsCoherent (record c { buddy = b })
buddy-IsCoherent c b i = record { once = i.once; chains = i.chains; keys = i.keys }

-- What holds of both branches of a test holds of the test.
pub either :
    (P : PageCache → Type 0) (b : Bool) (c d : PageCache) → P c → P d → P (if b then c else d)
either P true c d p q = p
either P false c d p q = q

pub evict_lru-IsCoherent : (c : PageCache) → IsCoherent c → IsCoherent (evict_lru c)
unfolding evict_lru
evict_lru-IsCoherent c i = elim (Option-cases (lru_tail c.lru)) [
  | inl e ↦ rw (evict_lru, e) (either IsCoherent c.has_table c c i i)
  | inr (victim, e) ↦
      rw (evict_lru, e)
        (either IsCoherent c.has_table _ c
          (buddy-IsCoherent (unlink c (hash_of c victim) victim) _
            (unlink-IsCoherent c _ victim i refl))
          i)
]

pub remove-IsCoherent :
    (c : PageCache) (file_id offset : ℕ) → IsCoherent c → IsCoherent (remove c file_id offset)
unfolding remove
remove-IsCoherent c file_id offset i = elim (Option-cases (find_entry c file_id offset)) [
  | inl e ↦ rw (remove, e) (either IsCoherent c.has_table c c i i)
  | inr (a, e) ↦
      let (on, hash, found) = find_entry-on_list c file_id offset a i e in
      rw (remove, e)
        (either IsCoherent c.has_table _ c
          (buddy-IsCoherent (unlink c (hash_function file_id offset) a) _
            (unlink-IsCoherent c (hash_function file_id offset) a i hash))
          i)
]
