-- ===== src/MemCache/Index.antt =====
-- The tags of the items and the index of the tags say the same.
use oro.Base.{
  Bool, true, false, Option, none, some, List, [], ◌∷◌, if◌then◌else◌, ite, String, ◌≡◌, ◌≢◌, refl,
  sym, ap, ◌∙◌, arith, Bool-cases, Option-cases, inl, inr,
}
use oro.Base.Dict.{lookup, insert, delete, lookup-insert, lookup-delete}
use text.Mathlib.TextEquality.{eq_iff}
use oro.Base.Text.{str_discrete, ◌==◌}
use oro.MemCache.{
  Item, Store, leave_tag, leave_tags, forget_locked, join_tag, join_tags, store_item,
}

abbrev pub contains : String → List String → Bool
contains t [] = false
contains t (x ∷ xs) = let rest = contains t xs in ite (str_discrete x t) true rest

abbrev pub is_some {ℓ} : {A : Type ℓ} → Option A → Bool
is_some none = false
is_some (some a) = true

-- whether the set of the tag has the key
abbrev pub indexed : String → String → List (String × List (String × Bool)) → Bool
indexed tag key tags = elim (lookup str_discrete tag tags) [
  | none ↦ false
  | some members ↦ is_some (lookup str_discrete key members)
]

-- whether the item of the key has the tag
abbrev pub carries : String → String → List (String × Item) → Bool
carries tag key items = elim (lookup str_discrete key items) [
  | none ↦ false
  | some item ↦ contains tag item.tags
]

indexed-insert :
    (tag : String) (members : List (String × Bool)) (tags : List (String × List (String × Bool)))
    (t k : String)
    → indexed t k (insert str_discrete tag members tags)
      ≡ ite (str_discrete tag t) (is_some (lookup str_discrete k members)) (indexed t k tags)
indexed-insert tag members tags t k = elim (str_discrete tag t) [
  | yes p ↦ ground (arith, lookup-insert str_discrete tag t members tags)
  | no p ↦ ground (arith, lookup-insert str_discrete tag t members tags)
]

pub indexed-delete :
    (tag : String) (tags : List (String × List (String × Bool))) (t k : String)
    → indexed t k (delete str_discrete tag tags) ≡ ite (str_discrete tag t) false (indexed t k tags)
indexed-delete tag tags t k = elim (str_discrete tag t) [
  | yes p ↦ ground (arith, lookup-delete str_discrete tag t tags)
  | no p ↦ ground (arith, lookup-delete str_discrete tag t tags)
]

-- a set that is put back, or taken out where it is empty
indexed-left :
    (tag : String) (members : List (String × Bool)) (tags : List (String × List (String × Bool)))
    (t k : String)
    → indexed t k (elim members [
      | [] ↦ delete str_discrete tag tags
      | m ∷ rest ↦ insert str_discrete tag (m ∷ rest) tags
    ])
      ≡ ite (str_discrete tag t) (is_some (lookup str_discrete k members)) (indexed t k tags)
unfolding lookup
indexed-left tag [] tags t k = indexed-delete tag tags t k
indexed-left tag (m ∷ rest) tags t k = indexed-insert tag (m ∷ rest) tags t k

indexed-leave_tag :
    (key tag : String) (tags : List (String × List (String × Bool))) (t k : String)
    → indexed t k (leave_tag key tag tags)
      ≡ ite
          (str_discrete tag t)
          (ite (str_discrete key k) false (indexed t k tags))
          (indexed t k tags)
unfolding leave_tag
indexed-leave_tag key tag tags t k = elim (Option-cases (lookup str_discrete tag tags)) [
  | inl absent ↦
      rw (leave_tag, absent)
        (elim (str_discrete tag t) [ yes p ↦ ground arith | no p ↦ ground arith ])
  | inr (members, found) ↦
      ap (indexed t k) (rw (leave_tag, found) refl)
      ∙ indexed-left tag (delete str_discrete key members) tags t k
      ∙ (elim (str_discrete tag t) [
        | yes p ↦ ground (arith, lookup-delete str_discrete key k members)
        | no p ↦ ground arith
      ])
]

==-ne : (s t : String) → s ≢ t → (s == t) ≡ false
==-ne s t ne = elim (Bool-cases (s == t)) [
  | inl same ↦ absurd (ne ((eq_iff s t).0 same))
  | inr other ↦ other
]

-- the set that a key joins
members_of : String → List (String × List (String × Bool)) → List (String × Bool)
members_of tag tags = elim (lookup str_discrete tag tags) [ none ↦ [] | some members ↦ members ]

indexed-members_of :
    (tag k : String) (tags : List (String × List (String × Bool)))
    → is_some (lookup str_discrete k (members_of tag tags)) ≡ indexed tag k tags
unfolding members_of lookup
indexed-members_of tag k tags = go (lookup str_discrete tag tags)
  where
    go :
        (found : Option (List (String × Bool)))
        → is_some (lookup str_discrete k (elim found [ none ↦ [] | some members ↦ members ]))
          ≡ elim found [ none ↦ false | some members ↦ is_some (lookup str_discrete k members) ]
    go none = refl
    go (some members) = refl

indexed-join_tag :
    (key tag : String) (tags : List (String × List (String × Bool))) (t k : String)
    → (tag ≢ "")
    → indexed t k (join_tag key tag tags)
      ≡ ite
          (str_discrete tag t)
          (ite (str_discrete key k) true (indexed t k tags))
          (indexed t k tags)
unfolding join_tag members_of
indexed-join_tag key tag tags t k ne =
    ap (indexed t k) (rw (join_tag, ==-ne tag "" ne) refl)
    ∙ indexed-insert tag (insert str_discrete key true (members_of tag tags)) tags t k
    ∙ (elim (str_discrete tag t) [
      | yes p ↦ ground (
        arith,
        lookup-insert str_discrete key k true (members_of tag tags),
        indexed-members_of tag k tags,
      )
      | no p ↦ ground arith
    ])

indexed-join_tag_any :
    (key tag : String) (tags : List (String × List (String × Bool))) (t k : String)
    → t ≢ ""
    → indexed t k (join_tag key tag tags)
      ≡ ite
          (str_discrete tag t)
          (ite (str_discrete key k) true (indexed t k tags))
          (indexed t k tags)
unfolding join_tag
indexed-join_tag_any key tag tags t k ne = elim (str_discrete tag "") [
  | no named ↦ indexed-join_tag key tag tags t k named
  | yes empty ↦
      ap (indexed t k) {y = tags} (rw (join_tag, (eq_iff tag "").1 empty) refl)
      ∙ (elim (str_discrete tag t) [ yes p ↦ absurd (ne (sym p ∙ empty)) | no p ↦ ground arith ])
]

indexed-leave_tags :
    (key : String) (more : List String) (tags : List (String × List (String × Bool))) (t k : String)
    → indexed t k (leave_tags key more tags)
      ≡ ite
          (str_discrete key k)
          (if contains t more then false else indexed t k tags)
          (indexed t k tags)
unfolding leave_tags
indexed-leave_tags key [] tags t k = elim (str_discrete key k) [
  | yes p ↦ ground arith
  | no p ↦ ground arith
]
indexed-leave_tags key (tag ∷ more) tags t k =
    indexed-leave_tags key more (leave_tag key tag tags) t k
    ∙ ground (arith, indexed-leave_tag key tag tags t k)

indexed-join_tags :
    (key : String) (more : List String) (tags : List (String × List (String × Bool))) (t k : String)
    → t ≢ ""
    → indexed t k (join_tags key more tags)
      ≡ ite
          (str_discrete key k)
          (if contains t more then true else indexed t k tags)
          (indexed t k tags)
unfolding join_tags
indexed-join_tags key [] tags t k ne = elim (str_discrete key k) [
  | yes p ↦ ground arith
  | no p ↦ ground arith
]
indexed-join_tags key (tag ∷ more) tags t k ne =
    indexed-join_tags key more (join_tag key tag tags) t k ne
    ∙ ground (arith, indexed-join_tag_any key tag tags t k ne)

carries-insert :
    (key : String) (item : Item) (items : List (String × Item)) (t k : String)
    → carries t k (insert str_discrete key item items)
      ≡ ite (str_discrete key k) (contains t item.tags) (carries t k items)
carries-insert key item items t k = elim (str_discrete key k) [
  | yes p ↦ ground (arith, lookup-insert str_discrete key k item items)
  | no p ↦ ground (arith, lookup-insert str_discrete key k item items)
]

carries-delete :
    (key : String) (items : List (String × Item)) (t k : String)
    → carries t k (delete str_discrete key items)
      ≡ ite (str_discrete key k) false (carries t k items)
carries-delete key items t k = elim (str_discrete key k) [
  | yes p ↦ ground (arith, lookup-delete str_discrete key k items)
  | no p ↦ ground (arith, lookup-delete str_discrete key k items)
]

-- The set of a tag has just the keys of the items with the tag.
abbrev pub IsIndexed : Store → Type 0
IsIndexed store = (t k : String) → t ≢ "" → indexed t k store.tags ≡ carries t k store.items

indexed-forget_locked :
    (key : String) (store : Store) (t k : String)
    → t ≢ ""
    → IsIndexed store
    → indexed t k (forget_locked key store).tags
      ≡ ite (str_discrete key k) false (indexed t k store.tags)
unfolding forget_locked
indexed-forget_locked key store t k ne h =
    elim (Option-cases (lookup str_discrete key store.items)) [
      | inl absent ↦
          ap (indexed t k) {y = store.tags} (rw (forget_locked, absent) refl)
          ∙ (elim (str_discrete key k) [ yes p ↦ ground (arith, h t k ne) | no p ↦ ground arith ])
      | inr (item, found) ↦
          ap (indexed t k) {y = leave_tags key item.tags store.tags}
            (rw (forget_locked, found) refl)
          ∙ indexed-leave_tags key item.tags store.tags t k
          ∙ (elim (str_discrete key k) [ yes p ↦ ground (arith, h t k ne) | no p ↦ ground arith ])
    ]

pub forget_locked-IsIndexed :
    (key : String) (store : Store) → IsIndexed store → IsIndexed (forget_locked key store)
unfolding forget_locked
forget_locked-IsIndexed key store h t k ne =
    indexed-forget_locked key store t k ne h
    ∙ ground (arith, carries-delete key store.items t k, h t k ne)

pub store_item-IsIndexed :
    (key : String) (item : Item) (store : Store)
    → IsIndexed store
    → IsIndexed (store_item key item store)
unfolding store_item forget_locked
store_item-IsIndexed key item store h t k ne =
    indexed-join_tags key item.tags (forget_locked key store).tags t k ne
    ∙ ground (
      arith,
      carries-insert key item (delete str_discrete key store.items) t k,
      forget_locked-IsIndexed key store h t k ne,
      carries-delete key store.items t k,
    )
