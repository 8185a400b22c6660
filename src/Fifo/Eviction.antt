-- ===== src/Fifo/Eviction.antt =====
-- What a reader and the callback see of `Set`: a full cache loses its oldest key, and no other.
use oro.Base.{
  suc, ◌≤◌, ◌≡◌, ◌≢◌, refl, sym, ap, subst, Option-cases, none, some, inl, inr, List, [], ◌∷◌, ◌++◌,
  arith, length, if_cases, ◌∙◌, leb, if◌then◌else◌, ◌⊎◌,
}
use oro.Base.Dict.{lookup, lookup-insert, lookup-delete, delete_head, insert_new, keys-append}
use oro.Fifo.{Cache, evict, add, set_new, set_locked, set, get}
use oro.Fifo.Validity.{IsValid, of_items, of_items_self}

module _ {ℓ} {K V : Type ℓ} (dec : Discrete K) where
  -- The key was evicted: a new key came into a full cache, and it was the oldest.
  pub record IsEvicted (cache : Cache K V) (key j : K) : Type ℓ where
    pub fresh : lookup dec key cache.items ≡ none
    pub full : cache.max_size ≤ length cache.items
    pub rest : List K
    pub oldest : cache.order ≡ j ∷ rest

  lookup-evict :
      (cache : Cache K V) (order : List K) (j : K)
      → (lookup dec j (evict dec cache order).0.items ≡ lookup dec j cache.items)
        ⊎ ((lookup dec j (evict dec cache order).0.items ≡ none)
            × (cache.max_size ≤ length cache.items)
            × ((rest : List K) × (order ≡ j ∷ rest)))
  unfolding evict
  lookup-evict cache [] j = inl refl
  lookup-evict cache (oldest ∷ rest) j =
      if_cases
        (λ (r : Cache K V × List V).
          (lookup dec j r.0.items ≡ lookup dec j cache.items)
          ⊎ ((lookup dec j r.0.items ≡ none)
              × (cache.max_size ≤ length cache.items)
              × ((tail : List K) × (oldest ∷ rest ≡ j ∷ tail))))
        (leb cache.max_size (length cache.items))
        (λ full. elim (dec oldest j) [
          | yes p ↦ inr (
            ground (arith, lookup-delete dec oldest j cache.items),
            ground arith,
            (rest, ap (λ (x : K). x ∷ rest) p),
          )
          | no p ↦ inl (ground (arith, lookup-delete dec oldest j cache.items))
        ])
        (λ room. inl refl)

  -- After `Set` the key has the given value, whether it was there or not.
  pub get-set_self :
      (cache : Cache K V) (key : K) (value : V)
      → get dec (set dec (some cache) key value).0 key ≡ some value
  unfolding get set set_locked set_new add
  get-set_self cache key value = elim (Option-cases (lookup dec key cache.items)) [
    | inl absent ↦
        ground (arith, lookup-insert dec key key value (evict dec cache cache.order).0.items)
    | inr (w, found) ↦ ground (arith, lookup-insert dec key key value cache.items)
  ]

  -- `Set` of one key leaves what is stored under any other, unless that was the oldest key of a full
  -- cache and the key that is set was new: then it is gone.
  pub get-set_ne :
      (cache : Cache K V) (key j : K) (value : V)
      → key ≢ j
      → (get dec (set dec (some cache) key value).0 j ≡ get dec (some cache) j)
        ⊎ ((get dec (set dec (some cache) key value).0 j ≡ none) × IsEvicted cache key j)
  unfolding get set set_locked set_new add
  get-set_ne cache key j value ne = elim (Option-cases (lookup dec key cache.items)) [
    | inr (w, found) ↦ inl (ground (arith, lookup-insert dec key j value cache.items))
    | inl absent ↦ elim (lookup-evict cache cache.order j) [
      | inl same ↦
          inl (ground (arith, lookup-insert dec key j value (evict dec cache cache.order).0.items))
      | inr (gone, full, (rest, oldest)) ↦ inr (
        ground (arith, lookup-insert dec key j value (evict dec cache cache.order).0.items),
        record { fresh = absent; full = full; rest = rest; oldest = oldest },
      )
    ]
  ]

  -- the queue that a full cache is: the oldest entry leaves, the new one joins at the end
  set_full_items :
      (cache : Cache K V) (oldest : K) (old_value : V) (m : List (K × V)) (key : K) (value : V)
      → IsValid (of_items cache ((oldest, old_value) ∷ m))
      → cache.max_size ≤ suc (length m)
      → lookup dec key ((oldest, old_value) ∷ m) ≡ none
      → set_locked dec (of_items cache ((oldest, old_value) ∷ m)) key value
        ≡ (of_items cache (m ++ (key, value) ∷ []), if cache.on_evict then old_value ∷ [] else [])
  unfolding set_locked set_new evict add lookup
  set_full_items cache oldest old_value m key value v full absent = ground (
    arith,
    delete_head dec oldest old_value m v.distinct.0,
    insert_new dec key value m,
    keys-append m key value,
  )

  -- `Set` of a new key on a valid cache that is full takes the oldest entry from the front, adds the
  -- new one at the end, and calls the callback, if there is one, with the oldest value and no other.
  pub set_full-Queue :
      (cache : Cache K V) (oldest : K) (old_value : V) (m : List (K × V)) (key : K) (value : V)
      → IsValid cache
      → cache.items ≡ (oldest, old_value) ∷ m
      → cache.max_size ≤ length cache.items
      → lookup dec key cache.items ≡ none
      → set dec (some cache) key value ≡ (
        some (of_items cache (m ++ (key, value) ∷ [])),
        if cache.on_evict then old_value ∷ [] else [],
      )
  unfolding set
  set_full-Queue cache oldest old_value m key value v e full absent =
      let self = of_items_self cache v.ordered ∙ ap (of_items cache) e in
      let now =
        set_full_items cache oldest old_value m key value (subst IsValid self v)
          (omega (arith, full, ap length e)) (sym (ap (lookup dec key) e) ∙ absent) in
      ap (λ (c : Cache K V). set dec (some c) key value) self
      ∙ ap (λ (r : Cache K V × List V). (some r.0, r.1)) now
