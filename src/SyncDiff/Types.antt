-- ===== src/SyncDiff/Types.antt =====
-- compatibleColumnType and columnTypeKind of internal/syncdiff/diff.go.
use oro.Base.{Bool, false, ◌||◌, String, List, [], ◌∷◌, if◌then◌else◌}
use oro.Base.Text.{◌==◌, contains, to_lower, trim_space}
use package.text.Mathlib.Text.{starts_with}

contains_any : String → List String → Bool
unfolding contains
contains_any s [] = false
contains_any s (t ∷ ts) = contains s t || contains_any s ts

is_any : String → List String → Bool
is_any s [] = false
is_any s (t ∷ ts) = s == t || is_any s ts

-- columnTypeKind, past the lower case and the trimming
kind_of : String → String
unfolding contains_any is_any
kind_of typ =
    if typ == ""
    then ""
    else if is_any typ ("bool" ∷ "boolean" ∷ "tinyint(1)" ∷ [])
    then "bool"
    else if typ == "point"
    then "point"
    else if is_any typ ("json" ∷ "jsonb" ∷ "oro.jsonraw" ∷ "string_array" ∷ "int_array" ∷ [])
    then "json"
    else if contains_any typ ("time.time" ∷ [])
        || (typ == "datetime"
            || (starts_with typ "timestamp" || (typ == "date" || starts_with typ "time ")))
    then "time"
    else if contains_any typ ("json" ∷ [])
    then "json"
    else if contains_any typ ("decimal" ∷ "numeric" ∷ [])
    then "decimal"
    else if contains_any typ ("blob" ∷ "bytea" ∷ "binary" ∷ [])
    then "binary"
    else if contains_any typ (
        "char" ∷ "text" ∷ "clob" ∷ "enum" ∷ "email" ∷ "url" ∷ "uuid" ∷ "ip" ∷ "mac" ∷ "phone"
        ∷ "slug" ∷ "color" ∷ [])
    then "string"
    else if contains_any typ ("uint" ∷ "int" ∷ "serial" ∷ [])
    then "integer"
    else if contains_any typ ("float" ∷ "double" ∷ "real" ∷ [])
    then "float"
    else typ

unfoldable pub column_type_kind : String → String
unfolding kind_of to_lower trim_space
column_type_kind typ = kind_of (to_lower (trim_space typ))

unfoldable pub compatible_column_type : String → String → Bool
compatible_column_type current target =
    if column_type_kind current == "" || column_type_kind target == ""
    then current == target
    else column_type_kind current == column_type_kind target
