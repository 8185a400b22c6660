-- ===== src/Base/Dict.antt =====
-- Go's maps as association lists: a new key goes to the end, so that the list also shows the order
-- of insertion where a component's invariant speaks of it.
use Prim.Native.Nat.{suc}
use mathlib.Core.Path.{◌≡◌, refl, ap}
use mathlib.Core.Logic.{◌≢◌, ite, ◌⊎◌, inl, inr}
use mathlib.Core.Option.{Option, none, some}
use mathlib.Core.List.{List, [], ◌∷◌, ◌++◌}
use native.Mathlib.Omega.{arith}
use oro.Base.Lists.{length, All}

module _ {ℓ} {K V : Type ℓ} where
  abbrev pub keys : List (K × V) → List K
  keys [] = []
  keys ((k, v) ∷ m) = k ∷ keys m

  abbrev pub values : List (K × V) → List V
  values [] = []
  values ((k, v) ∷ m) = v ∷ values m

module _ {ℓ} {K V : Type ℓ} (dec : Discrete K) where
  -- m[k]
  unfoldable pub lookup : K → List (K × V) → Option V
  lookup k [] = none
  lookup k ((j, v) ∷ m) = ite (dec j k) (some v) (lookup k m)

  -- m[k] = v
  unfoldable pub insert : K → V → List (K × V) → List (K × V)
  insert k v [] = (k, v) ∷ []
  insert k v ((j, w) ∷ m) = ite (dec j k) ((j, v) ∷ m) ((j, w) ∷ insert k v m)

  -- delete(m, k)
  unfoldable pub delete : K → List (K × V) → List (K × V)
  delete k [] = []
  delete k ((j, w) ∷ m) = let rest = delete k m in ite (dec j k) rest ((j, w) ∷ rest)

  pub lookup-insert :
      (k j : K) (v : V) (m : List (K × V))
      → lookup j (insert k v m) ≡ ite (dec k j) (some v) (lookup j m)
  unfolding lookup insert
  lookup-insert k j v [] = ground arith
  lookup-insert k j v ((i, w) ∷ m) = ground (arith, lookup-insert k j v m)

  pub lookup-delete :
      (k j : K) (m : List (K × V)) → lookup j (delete k m) ≡ ite (dec k j) none (lookup j m)
  unfolding lookup delete
  lookup-delete k j [] = ground arith
  lookup-delete k j ((i, w) ∷ m) = ground (arith, lookup-delete k j m)

  pub keys-insert_new :
      (k : K) (v : V) (m : List (K × V))
      → lookup k m ≡ none
      → keys (insert k v m) ≡ keys m ++ k ∷ []
  unfolding lookup insert
  keys-insert_new k v [] h = refl
  keys-insert_new k v ((j, w) ∷ m) h = ground (arith, keys-insert_new k v m)

  pub keys-insert_old :
      (k : K) (v w : V) (m : List (K × V)) → lookup k m ≡ some w → keys (insert k v m) ≡ keys m
  unfolding lookup insert
  keys-insert_old k v w [] h = cc
  keys-insert_old k v w ((j, u) ∷ m) h = ground (arith, keys-insert_old k v w m)

  pub delete_absent : (k : K) (m : List (K × V)) → lookup k m ≡ none → delete k m ≡ m
  unfolding lookup delete
  delete_absent k [] h = refl
  delete_absent k ((j, w) ∷ m) h = ground (arith, delete_absent k m)

pub length-keys {ℓ} : {K V : Type ℓ} (m : List (K × V)) → length (keys m) ≡ length m
length-keys [] = refl
length-keys ((k, v) ∷ m) = ap suc (length-keys m)

module _ {ℓ} {K V : Type ℓ} (dec : Discrete K) where
  pub ne_of_lookup-none :
      (k : K) (m : List (K × V)) → lookup dec k m ≡ none → All (λ j. j ≢ k) (keys m)
  unfolding lookup
  ne_of_lookup-none k [] h = tt
  ne_of_lookup-none k ((j, v) ∷ m) h = elim (dec j k) [
    | yes p ↦ absurd (ground arith)
    | no p ↦ (p, ne_of_lookup-none k m (ground arith))
  ]

  pub lookup_of_ne : (k : K) (m : List (K × V)) → All (λ j. j ≢ k) (keys m) → lookup dec k m ≡ none
  unfolding lookup
  lookup_of_ne k [] h = refl
  lookup_of_ne k ((j, v) ∷ m) h = ground (arith, lookup_of_ne k m h.1)

  pub delete_head :
      (k : K) (v : V) (m : List (K × V)) → All (λ j. j ≢ k) (keys m) → delete dec k ((k, v) ∷ m) ≡ m
  unfolding delete
  delete_head k v m h = ground (arith, delete_absent dec k m, lookup_of_ne k m h)

  pub lookup_head : (k : K) (v : V) (m : List (K × V)) → lookup dec k ((k, v) ∷ m) ≡ some v
  unfolding lookup
  lookup_head k v m = ground arith

  pub insert_new :
      (k : K) (v : V) (m : List (K × V))
      → lookup dec k m ≡ none
      → insert dec k v m ≡ m ++ (k, v) ∷ []
  unfolding lookup insert
  insert_new k v [] h = refl
  insert_new k v ((j, w) ∷ m) h = ground (arith, insert_new k v m)

  -- What a lookup after an update found was put there or was there before.
  pub insert-cases :
      (k j : K) (v : V) (m : List (K × V)) (w : V)
      → lookup dec j (insert dec k v m) ≡ some w
      → ((k ≡ j) × (v ≡ w)) ⊎ ((k ≢ j) × (lookup dec j m ≡ some w))
  insert-cases k j v m w h = elim (dec k j) [
    | yes p ↦ inl (p, ground (arith, lookup-insert dec k j v m))
    | no p ↦ inr (p, ground (arith, lookup-insert dec k j v m))
  ]

  pub delete-cases :
      (k j : K) (m : List (K × V)) (w : V)
      → lookup dec j (delete dec k m) ≡ some w
      → (k ≢ j) × (lookup dec j m ≡ some w)
  delete-cases k j m w h = elim (dec k j) [
    | yes p ↦ absurd (ground (arith, lookup-delete dec k j m))
    | no p ↦ (p, ground (arith, lookup-delete dec k j m))
  ]

  pub lookup-insert_self :
      (k : K) (v : V) (m : List (K × V)) → lookup dec k (insert dec k v m) ≡ some v
  lookup-insert_self k v m = ground (arith, lookup-insert dec k k v m)

  pub lookup-insert_ne :
      (k j : K) (v : V) (m : List (K × V))
      → k ≢ j
      → lookup dec j (insert dec k v m) ≡ lookup dec j m
  lookup-insert_ne k j v m ne = ground (arith, lookup-insert dec k j v m)

  pub lookup-delete_ne :
      (k j : K) (m : List (K × V)) → k ≢ j → lookup dec j (delete dec k m) ≡ lookup dec j m
  lookup-delete_ne k j m ne = ground (arith, lookup-delete dec k j m)

pub keys-append {ℓ} :
    {K V : Type ℓ} (m : List (K × V)) (k : K) (v : V) → keys (m ++ (k, v) ∷ []) ≡ keys m ++ k ∷ []
keys-append [] k v = refl
keys-append ((j, w) ∷ m) k v = ap (◌∷◌ j) (keys-append m k v)
