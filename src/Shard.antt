-- ===== src/Shard.antt =====
-- internal/shardstrategy/strategy.go: how a write or a query picks its shard. The map of values is an
-- association list; `fmt.Sprint` followed by FNV-1a of 64 bits is the parameter `sum64`.
mod Laws
mod Tests
use oro.Base.{
  ℕ, zero, suc, Bool, true, false, String, Option, none, some, List, [], ◌∷◌, get_elem?, length,
  Result, ok, err, ErrorKind, ◌>>=◌, ◌%◌, ◌^◌, ◌≤◌, ◌<◌, if◌then◌else◌, ltb, leb, ◌&&◌, ◌||◌,
}
use oro.Base.Int.{ℤ, pos, negsuc, ltb_ℤ, ◌≤ℤ◌, ◌<ℤ◌}
use oro.Base.Dict.{lookup}
use oro.Base.Text.{◌==◌, str_discrete}

-- The dynamic types that the switches of `Uint` and `Int` name, and any other.
pub data Value : Type 0 where
  null : Value
  uint uint8 uint16 uint32 uint64 : ℕ → Value
  int int8 int16 int32 int64 : ℤ → Value
  other : ℕ → Value

-- `Errors`: the two errors that the strategies return.
pub data PickError : Type 0 where
  required not_found : PickError

abbrev pub max_int64 : ℕ
max_int64 = 9223372036854775807

unsigned : ℤ → Result PickError ℕ
unsigned (pos n) = ok n
unsigned (negsuc n) = err not_found

pub to_uint : Value → Result PickError ℕ
unfolding unsigned
to_uint (uint n) = ok n
to_uint (uint8 n) = ok n
to_uint (uint16 n) = ok n
to_uint (uint32 n) = ok n
to_uint (uint64 n) = ok n
to_uint (int i) = unsigned i
to_uint (int8 i) = unsigned i
to_uint (int16 i) = unsigned i
to_uint (int32 i) = unsigned i
to_uint (int64 i) = unsigned i
to_uint null = err not_found
to_uint (other id) = err not_found

signed : ℕ → Result PickError ℤ
signed n = if ltb max_int64 n then err not_found else ok (pos n)

pub to_int : Value → Result PickError ℤ
unfolding signed
to_int (int i) = ok i
to_int (int8 i) = ok i
to_int (int16 i) = ok i
to_int (int32 i) = ok i
to_int (int64 i) = ok i
to_int (uint n) = signed n
to_int (uint8 n) = ok (pos n)
to_int (uint16 n) = ok (pos n)
to_int (uint32 n) = ok (pos n)
to_int (uint64 n) = signed n
to_int null = err not_found
to_int (other id) = err not_found

-- `value, ok := values[field]`, where a missing key and a nil value are the same error
pub field_value : String → List (String × Value) → Result PickError Value
field_value field values = elim (lookup str_discrete field values) [
  | none ↦ err required
  | some null ↦ err required
  | some value ↦ ok value
]

-- `shards[int(n%uint64(len(shards)))]`, after the test of an empty list
pub shard_at : ℕ → List String → Result PickError String
shard_at n [] = err not_found
shard_at n (shard ∷ shards) = elim (get_elem? (shard ∷ shards) (n % length (shard ∷ shards))) [
  | some picked ↦ ok picked
  | none ↦ err not_found
]

pub pick_mod : String → List (String × Value) → List String → Result PickError String
unfolding shard_at field_value to_uint
pick_mod field values shards = field_value field values >>= λ value. elim shards [
  | [] ↦ err not_found
  | shard ∷ rest ↦ to_uint value >>= λ integer. shard_at integer (shard ∷ rest)
]

pub pick_hash : (Value → ℕ) → String → List (String × Value) → List String → Result PickError String
unfolding shard_at field_value
pick_hash sum64 field values shards =
    field_value field values >>= λ value. shard_at (sum64 value) shards

pub record Range : Type 0 where
  pub min : ℤ
  pub max : ℤ
  pub connection : String

pub has_shard : String → List String → Bool
has_shard shard [] = false
has_shard shard (s ∷ shards) = shard == s || has_shard shard shards

-- the loop over the ranges
pub pick_in : ℤ → List String → List Range → Result PickError String
unfolding has_shard
pick_in integer shards [] = err not_found
pick_in integer shards (item ∷ ranges) =
    let rest = pick_in integer shards ranges in
    if ltb_ℤ integer item.min || ltb_ℤ item.max integer
    then rest
    else if has_shard item.connection shards
    then ok item.connection
    else err not_found

pub pick_range : String → List Range → List (String × Value) → List String → Result PickError String
unfolding field_value to_int pick_in
pick_range field ranges values shards =
    field_value field values >>= λ value. to_int value >>= λ integer. pick_in integer shards ranges
