-- ===== src/PageCache/Reach.antt =====
-- The states that the operations of the page cache (kernel/mm/page_cache.c) reach, next to other clients
-- of the page allocator.
use black_kernel.Base.{
  ℕ, ◌+◌, ◌≤◌, ◌≡◌, refl, sym, subst, Bool, true, false, Bool-cases, Option-cases, inl, inr, arith,
  ◌==◌, ==_iff, if◌then◌else◌, update, List, [], ◌∷◌,
}
use black_kernel.Buddy.{Buddy}
use black_kernel.Buddy.Valid.{IsBlock}
use black_kernel.Buddy.Coverage.{covers}
use black_kernel.Buddy.Page.{IsPaged}
use black_kernel.PageCache.{
  Entry, PageCache, is_for, find_entry, get_timestamp, lookup, evict_lru, insert, remove,
}
use black_kernel.PageCache.Coherent.{buddy-IsCoherent, evict_lru-IsCoherent}
use black_kernel.PageCache.Owned.{pages, kept}
use black_kernel.PageCache.Sound.{IsSound, evict_lru-Shrinks, insert-IsSound, remove-IsSound}

-- The entries are for the same pages.
record AreSame (d e : ℕ → Entry) : Type 0 where
  file : (a : ℕ) → (d a).file_id ≡ (e a).file_id
  offset : (a : ℕ) → (d a).offset ≡ (e a).offset
  page : (a : ℕ) → (d a).physical_address ≡ (e a).physical_address

pages-AreSame : (d e : ℕ → Entry) (l : List ℕ) (p : ℕ) → AreSame d e → pages d l p ≡ pages e l p
unfolding pages
pages-AreSame d e [] p s = refl
pages-AreSame d e (a ∷ l) p s =
    λ k. covers p 0 a + covers p 0 (s.page a k) + pages-AreSame d e l p s k

update-field :
    (field : Entry → ℕ) (e : ℕ → Entry) (a : ℕ) (v : Entry) (x : ℕ)
    → field v ≡ field (e a)
    → field (update e a v x) ≡ field (e x)
update-field field e a v x same = elim (Bool-cases (a == x)) [
  | inl g ↦ rw g (subst (λ y. field v ≡ field (e y)) ((==_iff a x).0 g) same)
  | inr g ↦ rw g refl
]

touched :
    (e : ℕ → Entry) (a time : ℕ) → AreSame (update e a (record (e a) { last_access = time })) e
touched e a time = record {
  file = λ x. update-field (λ d. d.file_id) e a _ x refl;
  offset = λ x. update-field (λ d. d.offset) e a _ x refl;
  page = λ x. update-field (λ d. d.physical_address) e a _ x refl;
}

either_state :
    (P : PageCache → Type 0) (b : Bool) (x y : ℕ × PageCache)
    → P x.1
    → P y.1
    → P (if b then x else y).1
either_state P true x y p q = p
either_state P false x y p q = q

module _ {start limit : ℕ} where
  entries-IsSound :
      (c : PageCache) (d : ℕ → Entry) (counter hits misses : ℕ)
      → AreSame d c.entries
      → IsSound start limit c
      → IsSound start limit
          (record c { entries = d; counter = counter; cache_hits = hits; cache_misses = misses })
  unfolding kept is_for
  entries-IsSound c d counter hits misses s i = record {
    coherent = record {
      once = i.coherent.once;
      chains = λ h a. rw (s.file a, s.offset a) (i.coherent.chains h a);
      keys = λ a b on_a on_b same.
          i.coherent.keys a b on_a on_b
            (ground (arith, same, s.file a, s.offset a, s.file b, s.offset b));
    };
    owned = record {
      paged = i.owned.paged;
      blocks = λ a on. (
        (i.owned.blocks a on).0,
        subst (IsBlock start limit 0) (sym (s.page a)) (i.owned.blocks a on).1,
      );
      apart = λ p. omega (arith, pages-AreSame d c.entries c.lru p s, i.owned.apart p);
    };
  }

  lookup-IsSound :
      (c : PageCache) (file_id offset : ℕ)
      → IsSound start limit c
      → IsSound start limit (lookup c file_id offset).1
  unfolding lookup get_timestamp
  lookup-IsSound c file_id offset i =
      let P = IsSound start limit in
      elim (Option-cases (find_entry c file_id offset)) [
        | inl e ↦
            rw (lookup, e)
              (either_state P c.has_table _ _
                (entries-IsSound c c.entries c.counter c.cache_hits _ same_entries i) i)
        | inr (a, e) ↦
            rw (lookup, e)
              (either_state P c.has_table _ _
                (entries-IsSound c _ _ _ c.cache_misses (touched c.entries a c.counter) i) i)
      ]
    where
      same_entries : AreSame c.entries c.entries
      same_entries = record { file = λ a. refl; offset = λ a. refl; page = λ a. refl }

-- The calls of the page cache, and what other clients make of the page allocator: it stays in order, and
-- they neither free nor take what the cache keeps.
pub data Step (start limit : ℕ) : PageCache → PageCache → Type 0 where
  lookup_step :
      (c : PageCache) (file_id offset : ℕ) → Step start limit c (lookup c file_id offset).1
  insert_step :
      (c : PageCache) (file_id offset phys_addr : ℕ)
      → IsBlock start limit 0 phys_addr
      → ((p : ℕ) → covers p 0 phys_addr + kept c p ≤ 1)
      → Step start limit c (insert c file_id offset phys_addr).1
  remove_step : (c : PageCache) (file_id offset : ℕ) → Step start limit c (remove c file_id offset)
  evict_step : (c : PageCache) → Step start limit c (evict_lru c)
  client_step :
      (c : PageCache) (b : Buddy)
      → IsPaged start limit b
      → ((p : ℕ) → kept (record c { buddy = b }) p ≤ 1)
      → Step start limit c (record c { buddy = b })

pub data Reach (start limit : ℕ) (c : PageCache) : PageCache → Type 0 where
  here : Reach start limit c c
  next : {d e : PageCache} → Reach start limit c d → Step start limit d e → Reach start limit c e

Step-IsSound :
    {start limit : ℕ} {c d : PageCache}
    → Step start limit c d
    → IsSound start limit c
    → IsSound start limit d
Step-IsSound (lookup_step c file_id offset) i = lookup-IsSound c file_id offset i
Step-IsSound (insert_step c file_id offset phys_addr block apart) i =
    insert-IsSound c file_id offset phys_addr i block apart
Step-IsSound (remove_step c file_id offset) i = remove-IsSound c file_id offset i
Step-IsSound (evict_step c) i = record {
  coherent = evict_lru-IsCoherent c i.coherent;
  owned = (evict_lru-Shrinks c i.owned).owned;
}
Step-IsSound (client_step c b paged apart) i = record {
  coherent = buddy-IsCoherent c b i.coherent;
  owned = record { paged = paged; blocks = i.owned.blocks; apart = apart };
}

-- Every state that the calls of the page cache reach from a sound one is sound, in any order and next to
-- other clients of the page allocator that leave the pages of the cache alone and hand over pages
-- that are theirs: the chains and the list hold the same entries, no two of them for the same page,
-- and no address is at once in two of the free blocks, the two pages under the hash table, the entries
-- and the cached pages. A sound state is one where no one else has the page behind the table's own.
pub Reach-IsSound :
    {start limit : ℕ} {c d : PageCache}
    → Reach start limit c d
    → IsSound start limit c
    → IsSound start limit d
Reach-IsSound here i = i
Reach-IsSound (next r s) i = Step-IsSound s (Reach-IsSound r i)
