-- ===== src/Fifo.antt =====
-- internal/fifocache/cache.go: a bounded cache that evicts the oldest key. A method runs under the
-- cache's mutex, so it is one step; a nil cache is `none`. Calls of `onEvict` are returned as a list.
mod Validity
pub mod Eviction
mod Tests
use oro.Base.{
  ℕ, zero, suc, Bool, true, false, Option, none, some, List, [], ◌∷◌, ◌++◌, length, leb,
  if◌then◌else◌,
}
use oro.Base.Int.{ℤ, pos, negsuc}
use oro.Base.Dict.{lookup, insert, delete, values}

pub record Cache {ℓ} (K V : Type ℓ) : Type ℓ where
  pub max_size : ℕ
  pub items : List (K × V)
  pub order : List K
  -- whether a callback was given
  pub on_evict : Bool

unfoldable pub new {ℓ} : {K V : Type ℓ} → ℤ → Bool → Option (Cache K V)
new (pos (suc n)) on_evict =
    some (record { max_size = suc n; items = []; order = []; on_evict = on_evict })
new (pos zero) on_evict = none
new (negsuc n) on_evict = none

module _ {ℓ} {K V : Type ℓ} (dec : Discrete K) where
  unfoldable pub get : Option (Cache K V) → K → Option V
  get none key = none
  get (some cache) key = lookup dec key cache.items

  -- the values that the callback receives for an evicted key
  notify : Bool → Option V → List V
  notify on_evict none = []
  notify on_evict (some old_value) = if on_evict then old_value ∷ [] else []

  add : Cache K V → K → V → Cache K V
  add cache key value = record cache {
    items = insert dec key value cache.items;
    order = cache.order ++ key ∷ [];
  }

  -- the eviction of `setLocked`, whose guard holds only if the order is not empty
  evict : Cache K V → List K → Cache K V × List V
  unfolding notify
  evict cache [] = (cache, [])
  evict cache (oldest ∷ rest) =
      if leb cache.max_size (length cache.items)
      then (
        record cache { items = delete dec oldest cache.items; order = rest },
        notify cache.on_evict (lookup dec oldest cache.items),
      )
      else (cache, [])

  set_new : Cache K V → K → V → Cache K V × List V
  unfolding evict add
  set_new cache key value =
      let (evicted, calls) = evict cache cache.order in (add evicted key value, calls)

  pub set_locked : Cache K V → K → V → Cache K V × List V
  unfolding set_new
  set_locked cache key value = elim (lookup dec key cache.items) [
    | some _ ↦ (record cache { items = insert dec key value cache.items }, [])
    | none ↦ set_new cache key value
  ]

  -- A nil cache stays nil.
  pub set : Option (Cache K V) → K → V → Option (Cache K V) × List V
  set none key value = (none, [])
  set (some cache) key value =
      let (cache', calls) = set_locked cache key value in (some cache', calls)

  -- The new cache, the values passed to the callback, the value that the caller gets (`none` is Go's
  -- zero value) and whether the key was there.
  pub set_if_absent : Option (Cache K V) → K → V → Option (Cache K V) × List V × Option V × Bool
  set_if_absent none key value = (none, [], none, false)
  set_if_absent (some cache) key value = elim (lookup dec key cache.items) [
    | some existing ↦ (some cache, [], some existing, true)
    | none ↦
        let (cache', calls) = set_locked cache key value in (some cache', calls, some value, false)
  ]

pub clear {ℓ} : {K V : Type ℓ} → Option (Cache K V) → Option (Cache K V) × List V
clear none = (none, [])
clear (some cache) = (some (record cache { items = []; order = [] }), values cache.items)
