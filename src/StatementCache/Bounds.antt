-- ===== src/StatementCache/Bounds.antt =====
-- The cache never holds more statements than its size.
use oro.Base.{
  ℕ, suc, ◌≤◌, ◌<◌, String, List, [], ◌∷◌, ◌++◌, none, ◌≡◌, refl, sym, ap, inl, inr, arith,
  Option-cases, leb, length, length-append, Bool-cases, subst, Distinct, Distinct-snoc,
}
use oro.Base.Dict.{
  lookup, insert, keys, keys-insert_new, ne_of_lookup-none, delete_head, lookup_head, length-keys,
}
use oro.Base.Text.{str_discrete}
use oro.StatementCache.{
  Entry, Cache, entry_of, item, drop_statement, evict_locked, add_statement, release,
  acquire_cached, acquire_prepared,
}
use oro.StatementCache.Safety.{start}
use oro.StatementCache.Steps.{System, hit, prepare, release_one, Reach, here, next}

abbrev Fits : ℕ → List String → List (String × ℕ) → Type 0
Fits max_size order items =
    (order ≡ keys items) × Distinct (keys items) × (0 < max_size) × (length items ≤ max_size)

-- After the eviction there is room, and a text that was not cached still is not.
abbrev HasRoom : ℕ → String → List String × List (String × ℕ) × List (ℕ × Entry) → Type 0
HasRoom max_size query (order, items, entries) =
    (order ≡ keys items)
    × Distinct (keys items)
    × (length items < max_size)
    × (item query items ≡ none)

evict_locked-HasRoom :
    (max_size : ℕ) (query : String) (items : List (String × ℕ)) (entries : List (ℕ × Entry))
    → Distinct (keys items)
    → 0 < max_size
    → item query items ≡ none
    → HasRoom max_size query (evict_locked max_size (keys items) items entries)
unfolding evict_locked lookup
evict_locked-HasRoom max_size query [] entries d p new = (refl, tt, p, new)
evict_locked-HasRoom max_size query ((k, v) ∷ m) entries d p new =
    elim (Bool-cases (leb max_size (suc (length m)))) [
      | inr room ↦ rw (evict_locked, room) (refl, d, ground arith, new)
      | inl full ↦
          rw
            (evict_locked, full, lookup_head str_discrete k v m, delete_head str_discrete k v m d.0)
            (evict_locked-HasRoom max_size query m (drop_statement v entries) d.1 p (ground arith))
    ]

added-Fits :
    (query : String) (stmt : ℕ) (cache : Cache)
    → Fits cache.max_size cache.order cache.items
    → item query cache.items ≡ none
    → Fits cache.max_size
        (add_statement query stmt cache).order
        (add_statement query stmt cache).items
unfolding add_statement
added-Fits query stmt cache (ordered, distinct, positive, bounded) new =
    subst
      (λ order.
        Fits cache.max_size
          ((evict_locked cache.max_size order cache.items cache.entries).0 ++ query ∷ [])
          (insert str_discrete query stmt
            (evict_locked cache.max_size order cache.items cache.entries).1))
      (sym ordered)
      (grown (evict_locked cache.max_size (keys cache.items) cache.items cache.entries)
        (evict_locked-HasRoom cache.max_size query cache.items cache.entries distinct positive new))
  where
    grown :
        (left : List String × List (String × ℕ) × List (ℕ × Entry))
        → HasRoom cache.max_size query left
        → Fits cache.max_size (left.0 ++ query ∷ []) (insert str_discrete query stmt left.1)
    grown (order, items, entries) (ordered, distinct, room, new) =
        let e = keys-insert_new str_discrete query stmt items new in
        (
          rw (e, ordered) refl,
          rw e (
              Distinct-snoc (keys items) query distinct
                (ne_of_lookup-none str_discrete query items new)),
          positive,
          omega (
            arith,
            length-keys (insert str_discrete query stmt items),
            length-keys items,
            ap length e,
            length-append (keys items) (query ∷ []),
          ),
        )

abbrev CacheFits : Cache → Type 0
CacheFits cache = Fits cache.max_size cache.order cache.items

acquire_cached-Fits :
    (query : String) (cache : Cache) → CacheFits cache → CacheFits (acquire_cached query cache).0
unfolding acquire_cached
acquire_cached-Fits query cache fits = elim (Option-cases (item query cache.items)) [
  | inl absent ↦ rw (acquire_cached, absent) fits
  | inr (stmt, there) ↦ rw (acquire_cached, there) fits
]

acquire_prepared-Fits :
    (query : String) (stmt : ℕ) (cache : Cache)
    → CacheFits cache
    → CacheFits (acquire_prepared query stmt cache).0
unfolding acquire_prepared add_statement
acquire_prepared-Fits query stmt cache fits = elim (Option-cases (item query cache.items)) [
  | inl absent ↦ rw (acquire_prepared, absent) (added-Fits query stmt cache fits absent)
  | inr (old, there) ↦ rw (acquire_prepared, there) fits
]

release-Fits : (stmt : ℕ) (cache : Cache) → CacheFits cache → CacheFits (release stmt cache)
unfolding release
release-Fits stmt cache fits = elim (Option-cases (entry_of stmt cache.entries)) [
  | inl absent ↦ rw (release, absent) fits
  | inr (entry, there) ↦ rw (release, there) fits
]

Reach-Fits : {s t : System} → CacheFits s.cache → Reach s t → CacheFits t.cache
Reach-Fits fits here = fits
Reach-Fits fits (next {t = t} r (hit query stmt found)) =
    acquire_cached-Fits query t.cache (Reach-Fits fits r)
Reach-Fits fits (next {t = t} r (prepare query stmt fresh)) =
    acquire_prepared-Fits query stmt t.cache (Reach-Fits fits r)
Reach-Fits fits (next {t = t} r (release_one stmt used)) =
    release-Fits stmt t.cache (Reach-Fits fits r)

max_size-kept : {s t : System} → Reach s t → t.cache.max_size ≡ s.cache.max_size
unfolding acquire_cached acquire_prepared add_statement release
max_size-kept here = refl
max_size-kept (next r (hit query stmt found)) = ground (arith, max_size-kept r)
max_size-kept (next r (prepare query stmt fresh)) = ground (arith, max_size-kept r)
max_size-kept (next r (release_one stmt used)) = ground (arith, max_size-kept r)

-- Whatever the users of a new cache of a positive size do and in whatever order, the cache never holds
-- more statements than that size, and its order lists their texts, each once.
pub reached-Fits :
    (size : ℕ) (s : System)
    → 0 < size
    → Reach (start size) s
    → (length s.cache.items ≤ size)
      × (s.cache.order ≡ keys s.cache.items)
      × Distinct (keys s.cache.items)
reached-Fits size s positive r =
    let (ordered, distinct, _, bounded) = Reach-Fits (refl, tt, positive, omega arith) r in
    (omega (arith, bounded, max_size-kept r), ordered, distinct)
