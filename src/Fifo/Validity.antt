-- ===== src/Fifo/Validity.antt =====
-- What every method keeps: the order lists the keys of the items, and the size stays bounded.
use oro.Base.{
  suc, ◌≤◌, ◌<◌, ◌≡◌, refl, sym, ap, subst, Option-cases, none, some, inl, inr, List, [], ◌∷◌,
  Distinct, Distinct-snoc, arith, length, length-append, if_cases, leb, Option,
}
use oro.Base.Dict.{
  lookup, insert, keys, keys-insert_new, keys-insert_old, ne_of_lookup-none, delete_head,
  length-keys, lookup-delete,
}
use oro.Fifo.{Cache, evict, add, set_new, set_locked, set, set_if_absent}

pub record IsValid {ℓ} {K V : Type ℓ} (cache : Cache K V) : Type ℓ where
  pub ordered : cache.order ≡ keys cache.items
  pub distinct : Distinct (keys cache.items)
  pub positive : 0 < cache.max_size
  pub bounded : length cache.items ≤ cache.max_size

-- A nil cache holds nothing.
abbrev pub IsValid? {ℓ} : {K V : Type ℓ} → Option (Cache K V) → Type ℓ
IsValid? none = Unit
IsValid? (some cache) = IsValid cache

module _ {ℓ} {K V : Type ℓ} where
  -- the cache that a valid one is, its order spelled by the items
  abbrev pub of_items : Cache K V → List (K × V) → Cache K V
  of_items cache items = record cache { items = items; order = keys items }

  pub of_items_self :
      (cache : Cache K V) → cache.order ≡ keys cache.items → cache ≡ of_items cache cache.items
  of_items_self cache e = λ i. record cache { order = e i }

module _ {ℓ} {K V : Type ℓ} (dec : Discrete K) where
  abbrev evicted : Cache K V → List (K × V) → Cache K V
  evicted cache items = (evict dec (of_items cache items) (keys items)).0

  -- After the eviction the cache is valid and has room.
  evicted-IsValid :
      (cache : Cache K V) (items : List (K × V))
      → Distinct (keys items)
      → 0 < cache.max_size
      → length items ≤ cache.max_size
      → IsValid (evicted cache items)
        × (length (evicted cache items).items < (evicted cache items).max_size)
  unfolding evict
  evicted-IsValid cache [] d p b =
      (record { ordered = refl; distinct = tt; positive = p; bounded = b }, p)
  evicted-IsValid cache ((k, v) ∷ m) d p b =
      if_cases (λ (r : Cache K V × List V). IsValid r.0 × (length r.0.items < r.0.max_size))
        (leb cache.max_size (suc (length m)))
        (λ full. rw (delete_head dec k v m d.0) (
          record { ordered = refl; distinct = d.1; positive = p; bounded = omega arith },
          omega arith,
        ))
        (λ room. (record { ordered = refl; distinct = d; positive = p; bounded = b }, ground arith))

  evicted_absent :
      (cache : Cache K V) (items : List (K × V)) (key : K)
      → lookup dec key items ≡ none
      → lookup dec key (evicted cache items).items ≡ none
  unfolding evict
  evicted_absent cache [] key h = h
  evicted_absent cache ((k, v) ∷ m) key h = ground (arith, lookup-delete dec k key ((k, v) ∷ m))

  add-IsValid :
      (cache : Cache K V) (key : K) (value : V)
      → IsValid cache
      → length cache.items < cache.max_size
      → lookup dec key cache.items ≡ none
      → IsValid (add dec cache key value)
  unfolding add
  add-IsValid cache key value h room absent =
      let e = keys-insert_new dec key value cache.items absent in
      record {
        ordered = rw (e, h.ordered) refl;
        distinct = rw e (
            Distinct-snoc (keys cache.items) key h.distinct
              (ne_of_lookup-none dec key cache.items absent));
        positive = h.positive;
        bounded = omega (
          arith,
          length-keys (insert dec key value cache.items),
          length-keys cache.items,
          ap length e,
          length-append (keys cache.items) (key ∷ []),
        );
      }

  set_new-IsValid :
      (cache : Cache K V) (key : K) (value : V)
      → IsValid cache
      → lookup dec key cache.items ≡ none
      → IsValid (set_new dec cache key value).0
  unfolding set_new
  set_new-IsValid cache key value h absent =
      subst (λ (c : Cache K V). IsValid (add dec (evict dec c c.order).0 key value))
        (sym (of_items_self cache h.ordered))
        (let (v, room) = evicted-IsValid cache cache.items h.distinct h.positive h.bounded in
          add-IsValid (evicted cache cache.items) key value v room
            (evicted_absent cache cache.items key absent))

  set_locked-IsValid :
      (cache : Cache K V) (key : K) (value : V)
      → IsValid cache
      → IsValid (set_locked dec cache key value).0
  unfolding set_locked
  set_locked-IsValid cache key value h = elim (Option-cases (lookup dec key cache.items)) [
    | inl absent ↦ rw (absent, set_locked) (set_new-IsValid cache key value h absent)
    | inr (w, found) ↦
        let e = keys-insert_old dec key value w cache.items found in
        rw (found, set_locked)
          (record {
            ordered = rw e h.ordered;
            distinct = rw e h.distinct;
            positive = h.positive;
            bounded = omega (
              arith,
              h.bounded,
              ap length e,
              length-keys cache.items,
              length-keys (insert dec key value cache.items),
            );
          })
  ]

  -- `Set` keeps a cache valid: its order lists exactly the keys of its items, with no key twice, and
  -- there are never more items than the maximal size.
  pub set-IsValid :
      (cache : Option (Cache K V)) (key : K) (value : V)
      → IsValid? cache
      → IsValid? (set dec cache key value).0
  unfolding set
  set-IsValid none key value h = tt
  set-IsValid (some cache) key value h = set_locked-IsValid cache key value h

  -- `SetIfAbsent` keeps a cache valid in the same sense.
  pub set_if_absent-IsValid :
      (cache : Option (Cache K V)) (key : K) (value : V)
      → IsValid? cache
      → IsValid? (set_if_absent dec cache key value).0
  unfolding set_if_absent
  set_if_absent-IsValid none key value h = tt
  set_if_absent-IsValid (some cache) key value h =
      elim (Option-cases (lookup dec key cache.items)) [
        | inl absent ↦ rw (absent, set_if_absent, IsValid?) (set_locked-IsValid cache key value h)
        | inr (w, found) ↦ rw (found, set_if_absent, IsValid?) h
      ]
