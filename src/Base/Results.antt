-- ===== src/Base/Results.antt =====
-- The results of fallible functions, and the kinds of error that the program returns (errors.go).
use mathlib.Core.Path.{◌≡◌, refl}

-- The sentinel errors of errors.go.
pub data ErrorKind : Type 0 where
  invalid_argument invalid_query unknown_field unknown_relation relation_not_loaded : ErrorKind
  unsafe_update unsafe_delete scan hook event conflict constraint : ErrorKind
  transaction_required transaction_connection stale_data unknown_connection : ErrorKind
  cross_connection_query tenant_required unknown_tenant shard_required : ErrorKind
  shard_not_found shard_conflict cross_shard_join cross_shard_transaction : ErrorKind
  cache_store_required cache_key_required order_required closed deadlock : ErrorKind
  serialization_failure unsafe_schema_change ambiguous_schema_change unsupported : ErrorKind

pub data Result {ℓ κ} (Failure : Type ℓ) (Value : Type κ) : Type (ℓ ⊔ κ) where
  err : Failure → Result Failure Value
  ok : Value → Result Failure Value

module _ {ℓ κ μ} {Failure : Type ℓ} {Value : Type κ} {Next : Type μ} where
  infixl 5 ◌>>=◌
  -- What Go spells `if err != nil { return err }`.
  abbrev pub ◌>>=◌ : Result Failure Value → (Value → Result Failure Next) → Result Failure Next
  err failure >>= next = err failure
  ok value >>= next = next value

  -- A chain that succeeds has two links that do.
  pub >>=-eq-ok :
      (first : Result Failure Value) (next : Value → Result Failure Next) {final : Next}
      → (first >>= next) ≡ ok final
      → (value : Value) × (next value ≡ ok final) × (first ≡ ok value)
  >>=-eq-ok (err failure) next e = cc
  >>=-eq-ok (ok value) next e = (value, e, refl)
