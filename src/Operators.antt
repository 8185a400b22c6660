-- ===== src/Operators.antt =====
-- where.go: the operators that a comparison may use.
use oro.Base.{Bool, false, String, List, [], ◌∷◌, ◌||◌}
use oro.Base.Text.{◌==◌, join, fields, to_lower, trim_space}

unfoldable pub normalize_condition_operator : String → String
unfolding join fields to_lower trim_space
normalize_condition_operator op = join " " (fields (to_lower (trim_space op)))

-- the `case` of a switch over texts
unfoldable pub one_of : String → List String → Bool
one_of s [] = false
one_of s (t ∷ ts) = s == t || one_of s ts

unfoldable pub is_safe_condition_operator : String → Bool
unfolding one_of normalize_condition_operator
is_safe_condition_operator op = one_of (normalize_condition_operator op) (
    "=" ∷ "!=" ∷ "<>" ∷ "<" ∷ "<=" ∷ ">" ∷ ">=" ∷ "like" ∷ "not like" ∷ "ilike" ∷ "not ilike" ∷ "is"
    ∷ "is not" ∷ [])

unfoldable pub is_safe_column_operator : String → Bool
unfolding one_of normalize_condition_operator
is_safe_column_operator op =
    one_of (normalize_condition_operator op) ("=" ∷ "!=" ∷ "<>" ∷ "<" ∷ "<=" ∷ ">" ∷ ">=" ∷ [])
