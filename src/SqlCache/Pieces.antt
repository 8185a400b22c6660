-- ===== src/SqlCache/Pieces.antt =====
-- What one condition binds, in the key and in driver/mysql/dialect.go.
use oro.Base.{
  ◌<◌, true, false, Option, none, some, String, List, [], ◌∷◌, Result, ok, err, ◌>>=◌, ◌≡◌, refl,
  sym, subst, ap, ◌∙◌, arith, if_cases,
}
use oro.Base.Text.{◌⋄◌, ◌==◌}
use oro.Mysql.Ident.{quote_ident}
use text.Mathlib.TextLemmas.{length-append}
use Prim.Native.String.{count as size}
use oro.QueryAst.{OroError, Any}
use oro.Mysql.Clauses.{
  Piece, Compiled, compile_in_values_condition, compile_between_condition, compile_column_condition,
}
use oro.Operators.{normalize_condition_operator, is_safe_condition_operator}
use oro.Mysql.Conditions.{
  compile_json_condition, OpKind, invalid, group, not_group, raw, json, fulltext, column, in_query,
  in_values, not_in_values, between, exists, count, is_null, is_not_null, comparison, Inner,
  condition_piece, grouped, prefixed, compare_with, compare_value,
}
use oro.Mysql.Select.{value_source}
use oro.SqlCache.Args.{
  json-args, in_values-args, between-args, value-args, json-filled, in_values-filled,
  between-filled, column-filled,
}
use oro.SqlCache.Conditions.{simple_group, simple_column, simple_condition}

-- the arguments of what a condition compiles to, which is some text or nothing
abbrev pub Binds : Option Piece → List Any → Type 0
Binds none args = args ≡ []
Binds (some p) args = (p.1 ≡ args) × (0 < size p.0)

-- what is known of the conditions inside
abbrev pub Nested : Compiled → Option (List Any × String) → Type 0
Nested nested shapes =
    (p : Piece) (args : List Any) (shape : String)
    → nested ≡ ok p
    → shapes ≡ some (args, shape)
    → (p.1 ≡ args) × ((p.0 == "") ≡ true → args ≡ [])

module _ (marshal : Any → Option String) where
  prefixed-filled : (prefix sql : String) → 0 < size sql → 0 < size (prefix ⋄ sql)
  prefixed-filled prefix sql filled = omega (arith, length-append prefix sql)

  group-Binds :
      (opening : String) (p : Piece) (args : List Any)
      → p.1 ≡ args
      → ((p.0 == "") ≡ true → args ≡ [])
      → Binds (grouped opening p) args
  unfolding grouped
  group-Binds opening (sql, as') args same empty =
      if_cases (λ q. Binds q args) (sql == "") (λ e. empty e)
        (λ e. (same, omega (arith, length-append opening (sql ⋄ ")"), length-append sql ")")))

  grouped-Binds :
      (opening word : String) (nested : Compiled) (shapes : Option (List Any × String))
      (piece : Option Piece) (args : List Any) (shape : String)
      → Nested nested shapes
      → (nested >>= (λ p. ok (grouped opening p))) ≡ ok piece
      → simple_group word shapes ≡ some (args, shape)
      → Binds piece args
  unfolding simple_group
  grouped-Binds opening word (err e) shapes piece args shape inside compiled simple = absurd cc
  grouped-Binds opening word (ok p) none piece args shape inside compiled simple = absurd cc
  grouped-Binds opening word (ok p) (some (as', s)) piece args shape inside compiled simple =
      let (same, empty) = inside p as' s refl refl in
      let pieces : grouped opening p ≡ piece = cc in
      let bound : as' ≡ args = cc in
      subst (λ q. Binds q args) pieces
        (group-Binds opening p args (same ∙ bound) (λ e. sym bound ∙ empty e))

  -- a text that a prefix is put in front of
  ran-Binds :
      (prefix : String) (compiled : Compiled) (piece : Option Piece) (args : List Any)
      → (compiled >>= (λ p. ok (prefixed prefix p))) ≡ ok piece
      → ((p : Piece) → compiled ≡ ok p → (p.1 ≡ args) × (0 < size p.0))
      → Binds piece args
  unfolding prefixed
  ran-Binds prefix (err e) piece args done known = absurd cc
  ran-Binds prefix (ok (sql, as')) piece args done known =
      let (same, filled) = known (sql, as') refl in
      let made : some (prefix ⋄ sql, as') ≡ piece = cc in
      subst (λ q. Binds q args) made (same, prefixed-filled prefix sql filled)

  made-Binds :
      (q : Piece) (piece : Option Piece) (args : List Any)
      → ◌≡◌ {A = Result OroError (Option Piece)} (ok (some q)) (ok piece)
      → q.1 ≡ args
      → 0 < size q.0
      → Binds piece args
  made-Binds q piece args made same filled =
      let e : some q ≡ piece = cc in subst (λ o. Binds o args) e (same, filled)

  column-Binds :
      (prefix : String) (result : Result OroError String) (piece : Option Piece)
      → (result >>= (λ sql. ok (some (prefix ⋄ sql, [])))) ≡ ok piece
      → ((sql : String) → result ≡ ok sql → 0 < size sql)
      → Binds piece []
  column-Binds prefix (err e) piece compiled known = absurd cc
  column-Binds prefix (ok sql) piece compiled known =
      made-Binds (prefix ⋄ sql, []) piece [] compiled refl
        (prefixed-filled prefix sql (known sql refl))

  column-args :
      (field : String) (value : Any) (args : List Any) (shape : String)
      → simple_column field value ≡ some (args, shape)
      → args ≡ []
  unfolding simple_column
  column-args field value args shape simple = ground arith

  -- a test of the field with no argument
  test-Binds :
      (prefix field word : String) (piece : Option Piece)
      → ◌≡◌ {A = Result OroError (Option Piece)}
          (ok (some (prefix ⋄ quote_ident field ⋄ word, [])))
          (ok piece)
      → 0 < size word
      → Binds piece []
  test-Binds prefix field word piece compiled filled =
      made-Binds (prefix ⋄ quote_ident field ⋄ word, []) piece [] compiled refl
        (prefixed-filled prefix (quote_ident field ⋄ word)
          (prefixed-filled (quote_ident field) word filled))

  -- a comparison with a bound value
  compare-Binds :
      (prefix field op : String) (value : Any) (escape : String) (piece : Option Piece)
      → compare_value prefix field op value escape ≡ ok piece
      → Binds piece (value ∷ [])
  unfolding compare_value
  compare-Binds prefix field op value escape piece compiled =
      let sql : String =
        prefix ⋄ quote_ident field ⋄ " " ⋄ normalize_condition_operator op ⋄ " ?" in
      let filled : 0 < size sql =
        prefixed-filled prefix (quote_ident field ⋄ " " ⋄ normalize_condition_operator op ⋄ " ?") (
          prefixed-filled (quote_ident field) (" " ⋄ normalize_condition_operator op ⋄ " ?")
            (omega (arith, length-append " " (normalize_condition_operator op ⋄ " ?")))) in
      if_cases (λ r. r ≡ ok piece → Binds piece (value ∷ [])) (escape == "")
        (λ _ e. made-Binds (sql, value ∷ []) piece (value ∷ []) e refl filled)
        (λ _.
          if_cases (λ r. r ≡ ok piece → Binds piece (value ∷ [])) (escape == "\\")
            (λ _ e.
              made-Binds (sql ⋄ " escape '\\'", value ∷ []) piece (value ∷ []) e refl
                (prefixed-filled sql " escape '\\'" (omega arith)))
            (λ _ e. absurd cc))
        compiled

  pub condition_piece-Binds :
      (kind : OpKind) (prefix word op field : String) (value : Any) (escape : String)
      (inner : Inner) (shapes : Option (List Any × String)) (piece : Option Piece) (args : List Any)
      (shape : String)
      → inner.source ≡ value_source marshal value
      → Nested inner.nested shapes
      → condition_piece marshal kind prefix field op value escape inner ≡ ok piece
      → simple_condition marshal "mysql" kind word op field value shapes ≡ some (args, shape)
      → Binds piece args
  unfolding condition_piece simple_condition prefixed compare_with
  condition_piece-Binds group prefix word op field value escape inner shapes piece args shape src
        inside compiled simple =
      grouped-Binds (prefix ⋄ "(") word inner.nested shapes piece args shape inside compiled simple
  condition_piece-Binds not_group prefix word op field value escape inner shapes piece args shape
        src inside compiled simple =
      grouped-Binds (prefix ⋄ "not (") word inner.nested shapes piece args shape inside compiled
        simple
  condition_piece-Binds column prefix word op field value escape inner shapes piece args shape src
        inside compiled simple =
      subst (Binds piece) (sym (column-args field value args shape simple)) (
        column-Binds prefix (compile_column_condition field value) piece compiled
          (λ sql e. column-filled marshal field value sql e))
  condition_piece-Binds json prefix word op field value escape inner shapes piece args shape src
        inside compiled simple =
      ran-Binds prefix (compile_json_condition marshal value) piece args compiled (λ p e.
        (json-args marshal field value p args shape e simple, json-filled marshal value p e))
  condition_piece-Binds in_values prefix word op field value escape inner shapes piece args shape
        src inside compiled simple =
      ran-Binds prefix (compile_in_values_condition field value false) piece args compiled (λ p e. (
        in_values-args marshal field word false value p args shape e simple,
        in_values-filled marshal field false value p e,
      ))
  condition_piece-Binds not_in_values prefix word op field value escape inner shapes piece args
        shape src inside compiled simple =
      ran-Binds prefix (compile_in_values_condition field value true) piece args compiled (λ p e. (
        in_values-args marshal field word true value p args shape e simple,
        in_values-filled marshal field true value p e,
      ))
  condition_piece-Binds between prefix word op field value escape inner shapes piece args shape src
        inside compiled simple =
      ran-Binds prefix (compile_between_condition field value) piece args compiled (λ p e. (
        between-args marshal field word value p args shape e simple,
        between-filled marshal field value p e,
      ))
  condition_piece-Binds is_null prefix word op field value escape inner shapes piece args shape src
        inside compiled simple =
      let none_ : [] ≡ args = cc in
      subst (Binds piece) none_ (test-Binds prefix field " is null" piece compiled (omega arith))
  condition_piece-Binds is_not_null prefix word op field value escape inner shapes piece args shape
        src inside compiled simple =
      let none_ : [] ≡ args = cc in
      subst (Binds piece) none_
        (test-Binds prefix field " is not null" piece compiled (omega arith))
  condition_piece-Binds comparison prefix word op field value escape inner shapes piece args shape
        src inside compiled simple =
      if_cases (λ r. r ≡ some (args, shape) → Binds piece args) (word == "") (λ _ e. absurd cc)
        (λ _ e.
          let (bound, plain) = value-args marshal field op value args shape e in
          if_cases (λ r. r ≡ ok piece → Binds piece args) (is_safe_condition_operator op)
            (λ _ made. subst (Binds piece) (sym bound) (
              compare-Binds prefix field op value escape piece
                (ap (λ o. compare_with o prefix field op value escape) (sym (src ∙ plain)) ∙ made)))
            (λ _ made. absurd cc) compiled)
        simple
  condition_piece-Binds invalid prefix word op field value escape inner shapes piece args shape src
        inside compiled simple =
      absurd cc
  condition_piece-Binds raw prefix word op field value escape inner shapes piece args shape src
        inside compiled simple =
      absurd cc
  condition_piece-Binds fulltext prefix word op field value escape inner shapes piece args shape src
        inside compiled simple =
      absurd cc
  condition_piece-Binds in_query prefix word op field value escape inner shapes piece args shape src
        inside compiled simple =
      absurd cc
  condition_piece-Binds exists prefix word op field value escape inner shapes piece args shape src
        inside compiled simple =
      absurd cc
  condition_piece-Binds count prefix word op field value escape inner shapes piece args shape src
        inside compiled simple =
      absurd cc
