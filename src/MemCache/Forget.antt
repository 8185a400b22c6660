-- ===== src/MemCache/Forget.antt =====
-- ForgetTag, through the index of the tags.
use oro.Base.{
  Bool, false, Option, none, some, List, [], ◌∷◌, if◌then◌else◌, String, ◌≡◌, ◌≢◌, refl, ◌∙◌, arith,
}
use oro.Base.Dict.{lookup, delete, keys, lookup-delete}
use oro.Base.Text.{str_discrete}
use oro.MemCache.{Item, Store, forget_locked, forget_keys}
use oro.MemCache.Index.{
  contains, is_some, indexed, IsIndexed, forget_locked-IsIndexed, indexed-delete,
}

contains-keys :
    (k : String) (members : List (String × Bool))
    → contains k (keys members) ≡ is_some (lookup str_discrete k members)
unfolding lookup
contains-keys k [] = refl
contains-keys k ((j, b) ∷ members) = ground (arith, contains-keys k members)

-- the keys that ForgetTag forgets
abbrev pub tagged_keys : String → Store → List String
tagged_keys tag store = elim (lookup str_discrete tag store.tags) [
  | none ↦ []
  | some members ↦ keys members
]

contains-tagged_keys :
    (tag k : String) (store : Store) → contains k (tagged_keys tag store) ≡ indexed tag k store.tags
contains-tagged_keys tag k store = go (lookup str_discrete tag store.tags)
  where
    go :
        (found : Option (List (String × Bool)))
        → contains k (elim found [ none ↦ [] | some members ↦ keys members ])
          ≡ elim found [ none ↦ false | some members ↦ is_some (lookup str_discrete k members) ]
    go none = refl
    go (some members) = contains-keys k members

lookup-forget_keys :
    (names : List String) (store : Store) (k : String)
    → lookup str_discrete k (forget_keys names store).items
      ≡ (if contains k names then none else lookup str_discrete k store.items)
unfolding forget_keys forget_locked
lookup-forget_keys [] store k = refl
lookup-forget_keys (key ∷ names) store k =
    lookup-forget_keys names (forget_locked key store) k
    ∙ ground (arith, lookup-delete str_discrete key k store.items)

forget_keys-IsIndexed :
    (names : List String) (store : Store) → IsIndexed store → IsIndexed (forget_keys names store)
unfolding forget_keys
forget_keys-IsIndexed [] store h = h
forget_keys-IsIndexed (key ∷ names) store h =
    forget_keys-IsIndexed names (forget_locked key store) (forget_locked-IsIndexed key store h)

-- what ForgetTag leaves of an entry
abbrev pub untagged : String → Option Item → Option Item
untagged tag none = none
untagged tag (some item) = if contains tag item.tags then none else some item

abbrev pub forgotten : String → Store → Store
forgotten tag store =
    let cleared = forget_keys (tagged_keys tag store) store in
    record cleared { tags = delete str_discrete tag cleared.tags }

pub lookup-forgotten :
    (tag : String) (store : Store) (k : String)
    → tag ≢ ""
    → IsIndexed store
    → lookup str_discrete k (forgotten tag store).items
      ≡ untagged tag (lookup str_discrete k store.items)
lookup-forgotten tag store k ne h =
    lookup-forget_keys (tagged_keys tag store) store k
    ∙ ground (arith, contains-tagged_keys tag k store, h tag k ne)

pub forgotten-IsIndexed :
    (tag : String) (store : Store) → tag ≢ "" → IsIndexed store → IsIndexed (forgotten tag store)
forgotten-IsIndexed tag store ne h t k nt =
    indexed-delete tag (forget_keys (tagged_keys tag store) store).tags t k
    ∙ ground (
      arith,
      forget_keys-IsIndexed (tagged_keys tag store) store h t k nt,
      lookup-forgotten tag store k ne h,
    )
