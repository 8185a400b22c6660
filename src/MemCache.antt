-- ===== src/MemCache.antt =====
-- internal/memcache/store.go. A time is a number of nanoseconds, 0 being the zero time, and `now` an
-- argument; a set of keys is a map to true, as in the code. Get locks twice, so that it is two functions;
-- each other method is one critical section.
pub mod Index
mod Forget
mod Refined
mod Tests
use oro.Base.{
  ℕ, zero, suc, ◌+◌, ◌≤◌, Bool, true, false, not, ◌&&◌, Option, none, some, List, [], ◌∷◌, ◌++◌,
  if◌then◌else◌, ite, leb, eqb, String, Result, ok, err, ErrorKind, cache_key_required,
  invalid_argument,
}
use oro.Base.Int.{ℤ, pos, negsuc}
use oro.Base.Dict.{lookup, insert, delete, keys}
use oro.Base.Text.{str_discrete, ◌==◌}

pub record Item : Type 0 where
  pub value : List ℕ
  pub expires_at : ℕ
  pub tags : List String

pub record Store : Type 0 where
  pub items : List (String × Item)
  pub tags : List (String × List (String × Bool))

abbrev pub new_store : Store
new_store = record { items = []; tags = [] }

-- one tag of an item that is forgotten
pub leave_tag :
    String → String → List (String × List (String × Bool)) → List (String × List (String × Bool))
leave_tag key tag tags = elim (lookup str_discrete tag tags) [
  | none ↦ tags
  | some members ↦ elim (delete str_discrete key members) [
    | [] ↦ delete str_discrete tag tags
    | m ∷ rest ↦ insert str_discrete tag (m ∷ rest) tags
  ]
]

pub leave_tags :
    String
    → List String
    → List (String × List (String × Bool))
    → List (String × List (String × Bool))
unfolding leave_tag
leave_tags key [] tags = tags
leave_tags key (tag ∷ more) tags = leave_tags key more (leave_tag key tag tags)

pub forget_locked : String → Store → Store
unfolding leave_tags
forget_locked key store = record {
  items = delete str_discrete key store.items;
  tags = elim (lookup str_discrete key store.items) [
    | none ↦ store.tags
    | some item ↦ leave_tags key item.tags store.tags
  ];
}

-- one tag of an item that is stored
pub join_tag :
    String → String → List (String × List (String × Bool)) → List (String × List (String × Bool))
join_tag key tag tags =
    if tag == ""
    then tags
    else insert str_discrete tag
        (insert str_discrete key true
          (elim (lookup str_discrete tag tags) [ none ↦ [] | some members ↦ members ]))
        tags

pub join_tags :
    String
    → List String
    → List (String × List (String × Bool))
    → List (String × List (String × Bool))
unfolding join_tag
join_tags key [] tags = tags
join_tags key (tag ∷ more) tags = join_tags key more (join_tag key tag tags)

-- Set once its arguments are checked
pub store_item : String → Item → Store → Store
unfolding forget_locked join_tags
store_item key item store =
    let cleared = forget_locked key store in
    record {
      items = insert str_discrete key item cleared.items;
      tags = join_tags key item.tags cleared.tags;
    }

pub set : ℕ → String → List ℕ → ℤ → List String → Store → Store × Option ErrorKind
unfolding store_item
set now key value (pos (suc ttl)) tags store =
    if key == "" then (store, some cache_key_required) else (
      store_item key (record { value = value; expires_at = now + suc ttl; tags = tags }) store,
      none,
    )
set now key value _ tags store =
    if key == "" then (store, some cache_key_required) else (store, some invalid_argument)

pub forget : String → Store → Store × Option ErrorKind
unfolding forget_locked
forget key store =
    if key == "" then (store, some cache_key_required) else (forget_locked key store, none)

-- `!item.expiresAt.IsZero() && !now.Before(item.expiresAt)`
pub is_expired : ℕ → Item → Bool
is_expired now item = not (eqb item.expires_at 0) && leb item.expires_at now

-- Get up to the point where it knows its answer, from the item that it reads under the read lock: that
-- answer, and whether a Forget of the key follows, which takes the lock again.
pub get_read : ℕ → String → Store → Result ErrorKind (Option (List ℕ)) × Bool
unfolding is_expired
get_read now key store =
    if key == ""
    then (err cache_key_required, false)
    else elim (lookup str_discrete key store.items) [
      | none ↦ (ok none, false)
      | some item ↦ if is_expired now item then (ok none, true) else (ok (some item.value), false)
    ]

-- the rest of a Get that found its item expired
pub get_forget : String → Store → Store
unfolding forget
get_forget key store = (forget key store).0

pub forget_keys : List String → Store → Store
unfolding forget_locked
forget_keys [] store = store
forget_keys (key ∷ more) store = forget_keys more (forget_locked key store)

-- forgetLocked takes out of the set that the loop runs over only the key that it is at.
pub forget_tag : String → Store → Store × Option ErrorKind
unfolding forget_keys
forget_tag tag store =
    if tag == ""
    then (store, some cache_key_required)
    else let cleared =
        forget_keys
          (elim (lookup str_discrete tag store.tags) [ none ↦ [] | some members ↦ keys members ])
          store in
      (record cleared { tags = delete str_discrete tag cleared.tags }, none)
