-- ===== src/SqlCache/Args.antt =====
-- The arguments of a hit are those that driver/mysql/dialect.go compiles.
use oro.Base.{
  ◌<◌, Bool, true, false, Option, none, some, String, List, [], ◌∷◌, map, ok, ◌≡◌, refl, subst, ap,
  ◌∙◌, arith,
}
use text.Mathlib.TextEquality.{eq_iff}
use oro.Base.Text.{◌⋄◌, ◌==◌, to_lower, join}
use oro.Mysql.Ident.{json_path, quote_ident}
use text.Mathlib.TextLemmas.{length-append}
use Prim.Native.String.{count as size}
use oro.QueryAst.{
  Any, slice, null, bool, int, str, other, error, increment, decrement, raw_expr, source_ptr,
  source_val, column_condition, count_condition, json_condition, full_text, aggregate, to_list,
}
use oro.Mysql.Clauses.{
  Piece, compile_in_values_condition, in_values_sql, compile_between_condition,
  compile_column_condition,
}
use oro.Operators.{normalize_condition_operator}
use oro.Mysql.Conditions.{
  json_sql, json_with_value, json_condition_argument, compile_json_condition,
}
use oro.Mysql.Select.{value_source}
use oro.SqlCache.Conditions.{
  simple_json_op, json_value, simple_json, simple_json_path, simple_values, simple_value,
}

-- two texts are not both equal to a third
pub ==-other :
    (op lit word : String) → (lit == word) ≡ false → (op == lit) ≡ true → (op == word) ≡ false
==-other op lit word ne same = ap (λ o. o == word) ((eq_iff op lit).0 same) ∙ ne

module _ (marshal : Any → Option String) where
  json_sql-filled :
      (field path op : String) (value : Any) (p : Piece)
      → json_sql marshal field path op value ≡ ok p
      → 0 < size p.0
  unfolding json_sql json_with_value json_condition_argument
  json_sql-filled field path op value p compiled =
      let expr : String = "json_extract(" ⋄ quote_ident field ⋄ ", ?)" in
      ground (
        arith,
        length-append expr " = cast(? as json)",
        length-append expr " != cast(? as json)",
        length-append expr " is null",
        length-append expr " is not null",
        length-append "json_contains_path(" (quote_ident field ⋄ ", 'one', ?) = 1"),
        length-append ("json_contains(" ⋄ expr) ", cast(? as json)) = 1",
        length-append "json_unquote(" (expr ⋄ ") like ?"),
      )

  json_sql-args :
      (field path op : String) (value : Any) (p : Piece) (args : List Any)
      → json_sql marshal field path op value ≡ ok p
      → simple_json_op marshal "mysql" path op value ≡ some args
      → p.1 ≡ args
  unfolding json_sql json_with_value json_condition_argument simple_json_op json_value
  json_sql-args field path op value p args compiled simple = ground (
    arith,
    ==-other op "is null" "contains" refl,
    ==-other op "is not null" "contains" refl,
    ==-other op "exists" "contains" refl,
  )

  pub json-args :
      (field : String) (value : Any) (p : Piece) (args : List Any) (shape : String)
      → compile_json_condition marshal value ≡ ok p
      → simple_json marshal "mysql" field value ≡ some (args, shape)
      → p.1 ≡ args
  unfolding compile_json_condition simple_json simple_json_path
  json-args field (json_condition f parts op value) p args shape compiled simple =
      ground (arith, json_sql-args f (json_path parts) (to_lower op) value p args)
  json-args field null p args shape compiled simple = absurd cc
  json-args field (bool b) p args shape compiled simple = absurd cc
  json-args field (int n) p args shape compiled simple = absurd cc
  json-args field (str s) p args shape compiled simple = absurd cc
  json-args field (other n) p args shape compiled simple = absurd cc
  json-args field (slice v) p args shape compiled simple = absurd cc
  json-args field (error e) p args shape compiled simple = absurd cc
  json-args field (increment v) p args shape compiled simple = absurd cc
  json-args field (decrement v) p args shape compiled simple = absurd cc
  json-args field (raw_expr s v) p args shape compiled simple = absurd cc
  json-args field (source_ptr s) p args shape compiled simple = absurd cc
  json-args field (source_val s) p args shape compiled simple = absurd cc
  json-args field (column_condition o r) p args shape compiled simple = absurd cc
  json-args field (count_condition s o v) p args shape compiled simple = absurd cc
  json-args field (full_text f w) p args shape compiled simple = absurd cc
  json-args field (aggregate f g) p args shape compiled simple = absurd cc

  in_values_sql-args :
      (field : String) (negated : Bool) (values : List Any) (p : Piece)
      → in_values_sql field negated values ≡ ok p
      → p.1 ≡ values
  unfolding in_values_sql
  in_values_sql-args field negated [] p compiled = ground arith
  in_values_sql-args field negated (v ∷ vs) p compiled = ground arith

  pub in_values-args :
      (field word : String) (negated : Bool) (value : Any) (p : Piece) (args : List Any)
      (shape : String)
      → compile_in_values_condition field value negated ≡ ok p
      → simple_values field word value ≡ some (args, shape)
      → p.1 ≡ args
  unfolding compile_in_values_condition simple_values in_values_sql
  in_values-args field word negated (slice v) p args shape compiled simple =
      ground (arith, in_values_sql-args field negated (to_list v) p)
  in_values-args field word negated null p args shape compiled simple = absurd cc
  in_values-args field word negated (bool b) p args shape compiled simple = absurd cc
  in_values-args field word negated (int n) p args shape compiled simple = absurd cc
  in_values-args field word negated (str s) p args shape compiled simple = absurd cc
  in_values-args field word negated (other n) p args shape compiled simple = absurd cc
  in_values-args field word negated (error e) p args shape compiled simple = absurd cc
  in_values-args field word negated (increment v) p args shape compiled simple = absurd cc
  in_values-args field word negated (decrement v) p args shape compiled simple = absurd cc
  in_values-args field word negated (raw_expr s v) p args shape compiled simple = absurd cc
  in_values-args field word negated (source_ptr s) p args shape compiled simple = absurd cc
  in_values-args field word negated (source_val s) p args shape compiled simple = absurd cc
  in_values-args field word negated (column_condition o r) p args shape compiled simple = absurd cc
  in_values-args field word negated (count_condition s o v) p args shape compiled simple = absurd cc
  in_values-args field word negated (json_condition f l o v) p args shape compiled simple =
      absurd cc
  in_values-args field word negated (full_text f w) p args shape compiled simple = absurd cc
  in_values-args field word negated (aggregate f g) p args shape compiled simple = absurd cc

  pub between-args :
      (field word : String) (value : Any) (p : Piece) (args : List Any) (shape : String)
      → compile_between_condition field value ≡ ok p
      → simple_values field word value ≡ some (args, shape)
      → p.1 ≡ args
  unfolding compile_between_condition simple_values
  between-args field word value p args shape compiled simple = ground arith

  -- a bound value is no query
  pub value-args :
      (field op : String) (value : Any) (args : List Any) (shape : String)
      → simple_value field op value ≡ some (args, shape)
      → (args ≡ value ∷ []) × (value_source marshal value ≡ none)
  unfolding simple_value value_source
  value-args field op null args shape simple = (ground arith, refl)
  value-args field op (bool b) args shape simple = (ground arith, refl)
  value-args field op (int n) args shape simple = (ground arith, refl)
  value-args field op (str s) args shape simple = (ground arith, refl)
  value-args field op (other n) args shape simple = (ground arith, refl)
  value-args field op (error e) args shape simple = (ground arith, refl)
  value-args field op (increment v) args shape simple = (ground arith, refl)
  value-args field op (decrement v) args shape simple = (ground arith, refl)
  value-args field op (raw_expr s v) args shape simple = (ground arith, refl)
  value-args field op (source_val s) args shape simple = (ground arith, refl)
  value-args field op (column_condition o r) args shape simple = (ground arith, refl)
  value-args field op (count_condition s o v) args shape simple = (ground arith, refl)
  value-args field op (json_condition f l o v) args shape simple = (ground arith, refl)
  value-args field op (full_text f w) args shape simple = (ground arith, refl)
  value-args field op (aggregate f g) args shape simple = (ground arith, refl)
  value-args field op (slice v) args shape simple = (ground arith, refl)
  value-args field op (source_ptr s) args shape simple = absurd cc

  pub json-filled :
      (value : Any) (p : Piece) → compile_json_condition marshal value ≡ ok p → 0 < size p.0
  unfolding compile_json_condition
  json-filled (json_condition f parts op value) p compiled =
      json_sql-filled f (json_path parts) (to_lower op) value p compiled
  json-filled null p compiled = absurd cc
  json-filled (bool b) p compiled = absurd cc
  json-filled (int n) p compiled = absurd cc
  json-filled (str s) p compiled = absurd cc
  json-filled (other n) p compiled = absurd cc
  json-filled (error e) p compiled = absurd cc
  json-filled (increment v) p compiled = absurd cc
  json-filled (decrement v) p compiled = absurd cc
  json-filled (raw_expr s v) p compiled = absurd cc
  json-filled (source_ptr s) p compiled = absurd cc
  json-filled (source_val s) p compiled = absurd cc
  json-filled (column_condition o r) p compiled = absurd cc
  json-filled (count_condition s o v) p compiled = absurd cc
  json-filled (full_text f w) p compiled = absurd cc
  json-filled (aggregate f g) p compiled = absurd cc
  json-filled (slice v) p compiled = absurd cc

  in_values_sql-filled :
      (field : String) (negated : Bool) (values : List Any) (p : Piece)
      → in_values_sql field negated values ≡ ok p
      → 0 < size p.0
  unfolding in_values_sql
  in_values_sql-filled field true [] p compiled =
      let e : ("1 = 1", []) ≡ p = cc in subst (λ (q : Piece). 0 < size q.0) e (omega arith)
  in_values_sql-filled field false [] p compiled =
      let e : ("1 = 0", []) ≡ p = cc in subst (λ (q : Piece). 0 < size q.0) e (omega arith)
  in_values_sql-filled field true (v ∷ vs) p compiled =
      let rest : String = "(" ⋄ join ", " (map (λ _. "?") (v ∷ vs)) ⋄ ")" in
      ground (
        arith,
        length-append (quote_ident field) (" not in " ⋄ rest),
        length-append " not in " rest,
      )
  in_values_sql-filled field false (v ∷ vs) p compiled =
      let rest : String = "(" ⋄ join ", " (map (λ _. "?") (v ∷ vs)) ⋄ ")" in
      ground (arith, length-append (quote_ident field) (" in " ⋄ rest), length-append " in " rest)

  pub in_values-filled :
      (field : String) (negated : Bool) (value : Any) (p : Piece)
      → compile_in_values_condition field value negated ≡ ok p
      → 0 < size p.0
  unfolding compile_in_values_condition
  in_values-filled field negated (slice v) p compiled =
      in_values_sql-filled field negated (to_list v) p compiled
  in_values-filled field negated null p compiled = absurd cc
  in_values-filled field negated (bool b) p compiled = absurd cc
  in_values-filled field negated (int n) p compiled = absurd cc
  in_values-filled field negated (str s) p compiled = absurd cc
  in_values-filled field negated (other n) p compiled = absurd cc
  in_values-filled field negated (error e) p compiled = absurd cc
  in_values-filled field negated (increment v) p compiled = absurd cc
  in_values-filled field negated (decrement v) p compiled = absurd cc
  in_values-filled field negated (raw_expr s v) p compiled = absurd cc
  in_values-filled field negated (source_ptr s) p compiled = absurd cc
  in_values-filled field negated (source_val s) p compiled = absurd cc
  in_values-filled field negated (column_condition o r) p compiled = absurd cc
  in_values-filled field negated (count_condition s o v) p compiled = absurd cc
  in_values-filled field negated (json_condition f l o v) p compiled = absurd cc
  in_values-filled field negated (full_text f w) p compiled = absurd cc
  in_values-filled field negated (aggregate f g) p compiled = absurd cc

  pub between-filled :
      (field : String) (value : Any) (p : Piece)
      → compile_between_condition field value ≡ ok p
      → 0 < size p.0
  unfolding compile_between_condition
  between-filled field value p compiled =
      ground (arith, length-append (quote_ident field) " between ? and ?")

  pub column-filled :
      (field : String) (value : Any) (sql : String)
      → compile_column_condition field value ≡ ok sql
      → 0 < size sql
  unfolding compile_column_condition
  column-filled field (column_condition op right) sql compiled =
      let rest : String = normalize_condition_operator op ⋄ " " ⋄ quote_ident right in
      ground (arith, length-append (quote_ident field) (" " ⋄ rest), length-append " " rest)
  column-filled field null sql compiled = absurd cc
  column-filled field (bool b) sql compiled = absurd cc
  column-filled field (int n) sql compiled = absurd cc
  column-filled field (str s) sql compiled = absurd cc
  column-filled field (other n) sql compiled = absurd cc
  column-filled field (error e) sql compiled = absurd cc
  column-filled field (increment v) sql compiled = absurd cc
  column-filled field (decrement v) sql compiled = absurd cc
  column-filled field (raw_expr s v) sql compiled = absurd cc
  column-filled field (source_ptr s) sql compiled = absurd cc
  column-filled field (source_val s) sql compiled = absurd cc
  column-filled field (count_condition s o v) sql compiled = absurd cc
  column-filled field (json_condition f l o v) sql compiled = absurd cc
  column-filled field (full_text f w) sql compiled = absurd cc
  column-filled field (aggregate f g) sql compiled = absurd cc
  column-filled field (slice v) sql compiled = absurd cc
