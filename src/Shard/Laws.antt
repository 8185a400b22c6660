-- ===== src/Shard/Laws.antt =====
-- Which shard the strategies of internal/shardstrategy/strategy.go pick.
use text.Mathlib.TextEquality.{eq_iff}
use native.Mathlib.Nat.{mod-lt}
use oro.Base.{
  ℕ, true, String, some, List, [], ◌∷◌, get_elem?, get_elem?_below, length, Result, ok, ◌>>=◌,
  >>=-eq-ok, ◌%◌, ◌≤◌, ◌<◌, ◌≡◌, refl, ◌≢◌, ◌⊎◌, inl, inr, Member, arith, if_cases, ◌||◌,
  Bool-cases, subst,
}
use oro.Base.Int.{ℤ, pos, ltb_ℤ, ◌≤ℤ◌, ◌<ℤ◌}
use oro.Base.Dict.{lookup}
use oro.Base.Text.{◌==◌, str_discrete}
use oro.Shard.{
  Value, null, uint, uint8, uint16, uint32, uint64, int, int8, int16, int32, int64, other,
  PickError, max_int64, to_uint, to_int, field_value, shard_at, pick_mod, pick_hash, Range,
  has_shard, pick_in, pick_range,
}

-- The shard of a list that is not empty at a number is the one at its remainder.
abbrev pub PicksAt : ℕ → List String → Result PickError String → Type 0
PicksAt n shards picked =
    (shard : String) × (picked ≡ ok shard) × (get_elem? shards (n % length shards) ≡ some shard)

shard_at-PicksAt :
    (n : ℕ) (shards : List String) → 0 < length shards → PicksAt n shards (shard_at n shards)
unfolding shard_at
shard_at-PicksAt n [] h = elim h [ ]
shard_at-PicksAt n (s ∷ rest) h =
    let (shard, e) = get_elem?_below (s ∷ rest) (n % length (s ∷ rest)) (mod-lt n h) in
    (shard, rw (shard_at, e) refl, e)

field_value-present :
    (field : String) (values : List (String × Value)) (value : Value)
    → lookup str_discrete field values ≡ some value
    → value ≢ null
    → field_value field values ≡ ok value
unfolding field_value
field_value-present field values null found given = elim (given refl) [ ]
field_value-present field values (uint n) found given = rw (field_value, found) refl
field_value-present field values (uint8 n) found given = rw (field_value, found) refl
field_value-present field values (uint16 n) found given = rw (field_value, found) refl
field_value-present field values (uint32 n) found given = rw (field_value, found) refl
field_value-present field values (uint64 n) found given = rw (field_value, found) refl
field_value-present field values (int i) found given = rw (field_value, found) refl
field_value-present field values (int8 i) found given = rw (field_value, found) refl
field_value-present field values (int16 i) found given = rw (field_value, found) refl
field_value-present field values (int32 i) found given = rw (field_value, found) refl
field_value-present field values (int64 i) found given = rw (field_value, found) refl
field_value-present field values (other id) found given = rw (field_value, found) refl

-- a value of any of the ten integer types that holds the number `n`
pub data IsNumber (n : ℕ) : Value → Type 0 where
  is_uint : IsNumber n (uint n)
  is_uint8 : IsNumber n (uint8 n)
  is_uint16 : IsNumber n (uint16 n)
  is_uint32 : IsNumber n (uint32 n)
  is_uint64 : IsNumber n (uint64 n)
  is_int : IsNumber n (int (pos n))
  is_int8 : IsNumber n (int8 (pos n))
  is_int16 : IsNumber n (int16 (pos n))
  is_int32 : IsNumber n (int32 (pos n))
  is_int64 : IsNumber n (int64 (pos n))

IsNumber-to_uint : {n : ℕ} {value : Value} → IsNumber n value → to_uint value ≡ ok n
unfolding to_uint
IsNumber-to_uint is_uint = refl
IsNumber-to_uint is_uint8 = refl
IsNumber-to_uint is_uint16 = refl
IsNumber-to_uint is_uint32 = refl
IsNumber-to_uint is_uint64 = refl
IsNumber-to_uint is_int = refl
IsNumber-to_uint is_int8 = refl
IsNumber-to_uint is_int16 = refl
IsNumber-to_uint is_int32 = refl
IsNumber-to_uint is_int64 = refl

number_given : (value : Value) {n : ℕ} → to_uint value ≡ ok n → value ≢ null
unfolding to_uint
number_given value number e = cc

-- For a field that holds a number that is not negative, in any of the ten integer types, and at least
-- one shard, `Mod` picks the shard at the number's remainder by the number of shards.
pub pick_mod-PicksAt :
    (field : String) (values : List (String × Value)) (shards : List String) {value : Value} {n : ℕ}
    → lookup str_discrete field values ≡ some value
    → IsNumber n value
    → 0 < length shards
    → PicksAt n shards (pick_mod field values shards)
unfolding pick_mod
pick_mod-PicksAt field values [] found number h = elim h [ ]
pick_mod-PicksAt field values (s ∷ rest) {value} {n} found holds h =
    let number = IsNumber-to_uint holds in
    rw (field_value-present field values value found (number_given value number), number)
      (shard_at-PicksAt n (s ∷ rest) h)

-- `Hash` never fails for a value that is there: with at least one shard and a value that is not nil,
-- the pick succeeds with the shard at the remainder of the hash.
pub pick_hash-PicksAt :
    (sum64 : Value → ℕ) (field : String) (values : List (String × Value)) (shards : List String)
    {value : Value}
    → lookup str_discrete field values ≡ some value
    → value ≢ null
    → 0 < length shards
    → PicksAt (sum64 value) shards (pick_hash sum64 field values shards)
unfolding pick_hash
pick_hash-PicksAt sum64 field values shards {value} found given h =
    rw (field_value-present field values value found given)
      (shard_at-PicksAt (sum64 value) shards h)

-- The first range that holds a number, with its connection.
pub data FirstRange (integer : ℤ) : List Range → String → Type 0 where
  here :
      {item : Range} {ranges : List Range}
      → item.min ≤ℤ integer
      → integer ≤ℤ item.max
      → FirstRange integer (item ∷ ranges) item.connection
  later :
      {item : Range} {ranges : List Range} {connection : String}
      → (integer <ℤ item.min) ⊎ (item.max <ℤ integer)
      → FirstRange integer ranges connection
      → FirstRange integer (item ∷ ranges) connection

has_shard-Member :
    (shard : String) (shards : List String) → has_shard shard shards ≡ true → Member shard shards
unfolding has_shard
has_shard-Member shard [] h = cc
has_shard-Member shard (s ∷ shards) h = elim (Bool-cases (shard == s)) [
  | inl e ↦ inl ((eq_iff shard s).0 e)
  | inr e ↦
      inr (has_shard-Member shard shards (subst (λ b. (b || has_shard shard shards) ≡ true) e h))
]

connection_of : (s t : String) {E : Type 0} → ◌≡◌ {A = Result E String} (ok s) (ok t) → s ≡ t
connection_of s t e = cc

module _ (integer : ℤ) (shards : List String) where
  pick_in-FirstRange :
      (ranges : List Range) (shard : String)
      → pick_in integer shards ranges ≡ ok shard
      → FirstRange integer ranges shard × Member shard shards
  unfolding pick_in
  pick_in-FirstRange [] shard h = cc
  pick_in-FirstRange (item ∷ ranges) shard h =
      if_cases (λ r. r ≡ ok shard → FirstRange integer (item ∷ ranges) shard × Member shard shards)
        (ltb_ℤ integer item.min || ltb_ℤ item.max integer)
        (λ outside picked.
          let (first, m) = pick_in-FirstRange ranges shard picked in
          (later (ground arith) first, m))
        (λ inside.
          if_cases
            (λ r. r ≡ ok shard → FirstRange integer (item ∷ ranges) shard × Member shard shards)
            (has_shard item.connection shards)
            (λ known picked.
              subst (λ s. FirstRange integer (item ∷ ranges) s × Member s shards)
                (connection_of item.connection shard picked)
                (here (ground arith) (ground arith), has_shard-Member item.connection shards known))
            (λ _ picked. cc))
        h

-- `RangeStrategy` picks the connection of the first range that holds the value, and that connection is
-- one of the shards: any pick that succeeds is of this form.
pub pick_range-FirstRange :
    (field : String) (ranges : List Range) (values : List (String × Value)) (shards : List String)
    {shard : String}
    → pick_range field ranges values shards ≡ ok shard
    → (value : Value) × (integer : ℤ) × (field_value field values ≡ ok value)
      × (to_int value ≡ ok integer)
      × FirstRange integer ranges shard
      × Member shard shards
unfolding pick_range
pick_range-FirstRange field ranges values shards {shard} h =
    let (value, h', found) =
      >>=-eq-ok (field_value field values) (λ value. to_int value >>= λ i. pick_in i shards ranges)
        h in
    let (integer, picked, number) = >>=-eq-ok (to_int value) (λ i. pick_in i shards ranges) h' in
    let (first, m) = pick_in-FirstRange integer shards ranges shard picked in
    (value, integer, found, number, first, m)

-- The two conversions agree: a value that `Uint` reads as a number that an int64 holds is read by `Int`
-- as the same number.
pub to_int-to_uint :
    (value : Value) (n : ℕ) → to_uint value ≡ ok n → n ≤ max_int64 → to_int value ≡ ok (pos n)
unfolding to_uint to_int
to_int-to_uint value n h b = ground arith
