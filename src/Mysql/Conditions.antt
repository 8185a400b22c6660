-- ===== src/Mysql/Conditions.antt =====
-- compileWhere of driver/mysql/dialect.go, one condition at a time: what it makes of the SQL of the
-- queries inside the condition, which Select.antt compiles. `marshal` is json.Marshal.
pub mod Bound
use oro.Base.{
  Bool, true, false, String, List, [], ◌∷◌, ◌++◌, Option, none, some, Result, ok, err, ◌>>=◌,
  invalid_argument, if◌then◌else◌, ◌≡◌, refl,
}
use oro.Base.Text.{◌⋄◌, ◌==◌, to_lower, trim_space}
use oro.QueryAst.{
  OroError, Any, Anys, nil, cons, slice, null, bool, int, str, other, error, increment, decrement,
  raw_expr, source_ptr, source_val, column_condition, count_condition, json_condition, full_text,
  aggregate, to_list,
}
use oro.Mysql.Ident.{error_of, quote_ident, json_path}
use oro.Mysql.Clauses.{
  Piece, Compiled, compile_column_condition, compile_in_values_condition, compile_between_condition,
  compile_full_text_condition,
}
use oro.Operators.{normalize_condition_operator, is_safe_condition_operator}

-- The cases of the switch over the operator.
pub data OpKind : Type 0 where
  invalid group not_group raw json fulltext column in_query in_values not_in_values : OpKind
  between exists count is_null is_not_null comparison : OpKind

kind_in : String → List (String × OpKind) → OpKind
kind_in op [] = comparison
kind_in op ((name, kind) ∷ rest) = if op == name then kind else kind_in op rest

unfoldable pub op_kind : String → OpKind
unfolding kind_in
op_kind op = kind_in op (
    ("invalid", invalid)
    ∷ ("group", group)
    ∷ ("not", not_group)
    ∷ ("raw", raw)
    ∷ ("json", json)
    ∷ ("fulltext", fulltext)
    ∷ ("column", column)
    ∷ ("in", in_query)
    ∷ ("in_values", in_values)
    ∷ ("not_in_values", not_in_values)
    ∷ ("between", between)
    ∷ ("exists", exists)
    ∷ ("count", count)
    ∷ ("is null", is_null)
    ∷ ("is not null", is_not_null)
    ∷ [])

module _ (marshal : Any → Option String) where
  unfoldable pub json_condition_argument : Any → Result OroError String
  json_condition_argument value = elim (marshal value) [
    | some bytes ↦ ok bytes
    | none ↦ err (error_of "mysql.json" invalid_argument "")
  ]

  unfoldable pub json_with_value : String → String → String → Any → Compiled
  unfolding json_condition_argument
  json_with_value before after path value = do
    argument ← json_condition_argument value
    ok (before ⋄ after, str path ∷ str argument ∷ [])

  -- the switch of compileJSONCondition, at the lower-case operator
  unfoldable pub json_sql : String → String → String → Any → Compiled
  unfolding json_with_value
  json_sql field path op value =
      let expr = "json_extract(" ⋄ quote_ident field ⋄ ", ?)" in
      if op == "="
      then json_with_value expr " = cast(? as json)" path value
      else if op == "!="
      then json_with_value expr " != cast(? as json)" path value
      else if op == "is null"
      then ok (expr ⋄ " is null", str path ∷ [])
      else if op == "is not null"
      then ok (expr ⋄ " is not null", str path ∷ [])
      else if op == "exists"
      then ok ("json_contains_path(" ⋄ quote_ident field ⋄ ", 'one', ?) = 1", str path ∷ [])
      else if op == "contains"
      then json_with_value ("json_contains(" ⋄ expr) ", cast(? as json)) = 1" path value
      else if op == "like"
      then ok ("json_unquote(" ⋄ expr ⋄ ") like ?", str path ∷ value ∷ [])
      else err (error_of "mysql.json" invalid_argument "")

  unfoldable pub compile_json_condition : Any → Compiled
  unfolding json_sql
  compile_json_condition (json_condition field parts op value) =
      json_sql field (json_path parts) (to_lower op) value
  compile_json_condition _ = err (error_of "mysql.json" invalid_argument "")

-- what a raw condition's value binds
unfoldable pub raw_args : Any → List Any
raw_args (slice values) = to_list values
raw_args _ = []

invalid_error : Any → String → OroError
invalid_error (error e) field = e
invalid_error _ field = error_of "mysql.where" invalid_argument field

-- a bracketed group; one that compiles to nothing is skipped
unfoldable pub grouped : String → Piece → Option Piece
grouped opening (sql, args) = if sql == "" then none else some (opening ⋄ sql ⋄ ")", args)

unfoldable pub prefixed : String → Piece → Option Piece
prefixed prefix (sql, args) = some (prefix ⋄ sql, args)

-- a comparison with a bound value
unfoldable pub compare_value :
    String → String → String → Any → String → Result OroError (Option Piece)
compare_value prefix field op value escape =
    let sql = prefix ⋄ quote_ident field ⋄ " " ⋄ normalize_condition_operator op ⋄ " ?" in
    if escape == ""
    then ok (some (sql, value ∷ []))
    else if escape == "\\"
    then ok (some (sql ⋄ " escape '\\'", value ∷ []))
    else err (error_of "mysql.where" invalid_argument field)

unfoldable pub compare_with :
    Option Compiled → String → String → String → Any → String → Result OroError (Option Piece)
unfolding compare_value
compare_with (some compiled) prefix field op value escape = do
  (sql, args) ← compiled
  ok (some (prefix ⋄ quote_ident field ⋄ " " ⋄ normalize_condition_operator op ⋄ " " ⋄ sql, args))
compare_with none prefix field op value escape = compare_value prefix field op value escape

or_invalid : Option Compiled → String → Compiled
or_invalid (some compiled) field = compiled
or_invalid none field = err (error_of "mysql.where" invalid_argument field)

-- The SQL of the queries inside a condition: of the group, of a `*SourceAST` value and of a count.
pub record Inner : Type 0 where
  pub nested : Compiled
  pub source : Option Compiled
  pub counted : Compiled

-- The body of the loop in compileWhere; `none` is `continue`.
unfoldable pub condition_piece :
    (Any → Option String)
    → OpKind
    → String
    → String
    → String
    → Any
    → String
    → Inner
    → Result OroError (Option Piece)
unfolding raw_args invalid_error grouped prefixed compare_with or_invalid
condition_piece marshal invalid prefix field op value escape inner = err (invalid_error value field)
condition_piece marshal group prefix field op value escape inner = do
  piece ← inner.nested
  ok (grouped (prefix ⋄ "(") piece)
condition_piece marshal not_group prefix field op value escape inner = do
  piece ← inner.nested
  ok (grouped (prefix ⋄ "not (") piece)
condition_piece marshal raw prefix field op value escape inner =
    ok (some (prefix ⋄ field, raw_args value))
condition_piece marshal json prefix field op value escape inner = do
  piece ← compile_json_condition marshal value
  ok (prefixed prefix piece)
condition_piece marshal fulltext prefix field op value escape inner = do
  piece ← compile_full_text_condition value
  ok (prefixed prefix piece)
condition_piece marshal column prefix field op value escape inner = do
  sql ← compile_column_condition field value
  ok (some (prefix ⋄ sql, []))
condition_piece marshal in_query prefix field op value escape inner = do
  (sql, args) ← or_invalid inner.source field
  ok (some (prefix ⋄ quote_ident field ⋄ " in " ⋄ sql, args))
condition_piece marshal in_values prefix field op value escape inner = do
  piece ← compile_in_values_condition field value false
  ok (prefixed prefix piece)
condition_piece marshal not_in_values prefix field op value escape inner = do
  piece ← compile_in_values_condition field value true
  ok (prefixed prefix piece)
condition_piece marshal between prefix field op value escape inner = do
  piece ← compile_between_condition field value
  ok (prefixed prefix piece)
condition_piece marshal exists prefix field op value escape inner = do
  (sql, args) ← or_invalid inner.source ""
  ok (some (prefix ⋄ "exists " ⋄ sql, args))
condition_piece marshal count prefix field op value escape inner = do
  piece ← inner.counted
  ok (prefixed prefix piece)
condition_piece marshal is_null prefix field op value escape inner =
    ok (some (prefix ⋄ quote_ident field ⋄ " is null", []))
condition_piece marshal is_not_null prefix field op value escape inner =
    ok (some (prefix ⋄ quote_ident field ⋄ " is not null", []))
condition_piece marshal comparison prefix field op value escape inner =
    if is_safe_condition_operator op
    then compare_with inner.source prefix field op value escape
    else err (error_of "mysql.where" invalid_argument field)

-- the word in front of every condition but the first
unfoldable pub prefix_of : Bool → String → String
prefix_of first word =
    if first then "" else if to_lower (trim_space word) == "or" then " or " else " and "
