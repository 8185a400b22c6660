-- ===== src/Shard/Tests.antt =====
-- Picks among three shards.
use oro.Base.{String, List, [], ◌∷◌, ◌≡◌, refl, arith, Member, ok}
use oro.Base.Int.{ℤ, pos}
use oro.Base.Dict.{lookup}
use oro.Base.Text.{str_discrete}
use oro.Shard.{
  Value, int, uint64, to_uint, to_int, field_value, pick_mod, pick_hash, pick_range, pick_in,
  has_shard, Range,
}
use oro.Shard.Laws.{
  is_int, PicksAt, pick_mod-PicksAt, pick_hash-PicksAt, FirstRange, pick_range-FirstRange,
  to_int-to_uint,
}

abbrev three : List String
three = "a" ∷ "b" ∷ "c" ∷ []

abbrev values : List (String × Value)
values = ("id", int (pos 7)) ∷ []

pick_mod_example : PicksAt 7 three (pick_mod "id" values three)
unfolding lookup str_discrete
pick_mod_example =
    pick_mod-PicksAt "id" values three {value = int (pos 7)} {n = 7} refl is_int (omega arith)

pick_hash_example : PicksAt 5 three (pick_hash (λ v. 5) "id" values three)
unfolding lookup str_discrete
pick_hash_example =
    pick_hash-PicksAt (λ v. 5) "id" values three {value = int (pos 7)} refl (λ e. cc) (omega arith)

abbrev ranges : List Range
ranges =
    record { min = pos 0; max = pos 5; connection = "a" }
    ∷ record { min = pos 6; max = pos 9; connection = "b" }
    ∷ []

pick_range_example :
    (value : Value) × (integer : ℤ) × (field_value "id" values ≡ ok value)
    × (to_int value ≡ ok integer)
    × FirstRange integer ranges "b"
    × Member "b" three
unfolding str_discrete pick_range lookup to_int pick_in has_shard field_value
pick_range_example = pick_range-FirstRange "id" ranges values three {shard = "b"} refl

to_int-to_uint_example : to_int (uint64 7) ≡ ok (pos 7)
unfolding to_uint
to_int-to_uint_example = to_int-to_uint (uint64 7) 7 refl (omega arith)
