-- ===== src/Mysql/Conditions/Bound.antt =====
-- A condition binds one argument for each of its placeholders, if the queries inside it do.
use oro.Base.{
  ◌≡◌, refl, Bool, true, false, String, [], ◌∷◌, length, Option, none, some, Result, ok, err, ◌>>=◌,
  arith, if_cases,
}
use oro.Base.Text.{◌⋄◌, ◌==◌, to_lower, trim_space}
use oro.QueryAst.{OroError, Any, null, str, json_condition}
use oro.Mysql.Scan.{Frag, lit, ◌▹◌, Frag-count, quote_ident-Frag, scan}
use oro.Mysql.Ident.{quote_ident, json_path}
use oro.Mysql.Clauses.{Piece, Compiled}
use oro.Mysql.Clauses.Bound.{
  Bound, BoundText, column_condition-Bound, in_values-Bound, between-Bound, full_text-Bound,
  safe_condition-Frag,
}
use oro.Operators.{is_safe_condition_operator}
use oro.Mysql.Conditions.{
  OpKind, invalid, group, not_group, raw, json, fulltext, column, in_query, in_values,
  not_in_values, between, exists, count, is_null, is_not_null, comparison, json_condition_argument,
  json_with_value, json_sql, compile_json_condition, raw_args, grouped, prefixed, compare_value,
  compare_with, or_invalid, Inner, condition_piece, prefix_of,
}

abbrev pub BoundPiece : Result OroError (Option Piece) → Type 0
BoundPiece (ok none) = Unit
BoundPiece (ok (some (sql, args))) = Frag sql (length args)
BoundPiece (err e) = Unit

abbrev pub BoundOption : Option Compiled → Type 0
BoundOption none = Unit
BoundOption (some compiled) = Bound compiled

pub record BoundInner (inner : Inner) : Type 0 where
  pub nested : Bound inner.nested
  pub source : BoundOption inner.source
  pub counted : Bound inner.counted

-- Raw SQL has a placeholder for each of its arguments; a comparison has no ESCAPE clause.
abbrev pub PlainCondition : OpKind → String → Any → String → Type 0
PlainCondition raw field value escape = Frag field (length (raw_args value))
PlainCondition comparison field value escape = escape ≡ ""
PlainCondition _ field value escape = Unit

module _ (marshal : Any → Option String) where
  json_with_value-Bound :
      (before after path : String) (value : Any)
      → Frag before 1
      → Frag after 1
      → Bound (json_with_value marshal before after path value)
  unfolding json_with_value json_condition_argument
  json_with_value-Bound before after path value f g = go (json_condition_argument marshal value)
    where
      go :
          (r : Result OroError String)
          → Bound (do argument ← r; ok (before ⋄ after, str path ∷ str argument ∷ []))
      go (ok argument) = Frag-count (omega arith) (f ▹ g)
      go (err e) = tt

  extract-Frag : (field : String) → Frag ("json_extract(" ⋄ quote_ident field ⋄ ", ?)") 1
  unfolding scan
  extract-Frag field = lit "json_extract(" refl ▹ quote_ident-Frag field ▹ lit ", ?)" refl

  json_sql-Bound :
      (field path op : String) (value : Any) → Bound (json_sql marshal field path op value)
  unfolding json_sql scan
  json_sql-Bound field path op value =
      let expr = extract-Frag field in
      if_cases Bound (op == "=")
        (λ _.
          json_with_value-Bound _ " = cast(? as json)" path value expr
            (lit " = cast(? as json)" refl))
        λ _.
          if_cases Bound (op == "!=")
            (λ _.
              json_with_value-Bound _ " != cast(? as json)" path value expr
                (lit " != cast(? as json)" refl))
            λ _.
              if_cases Bound (op == "is null") (λ _. expr ▹ lit " is null" refl)
                λ _.
                  if_cases Bound (op == "is not null") (λ _. expr ▹ lit " is not null" refl)
                    λ _.
                      if_cases Bound (op == "exists")
                        (λ _. Frag-count (omega arith) (
                          lit "json_contains_path(" refl
                          ▹ quote_ident-Frag field
                          ▹ lit ", 'one', ?) = 1" refl))
                        λ _.
                          if_cases Bound (op == "contains")
                            (λ _.
                              json_with_value-Bound _ ", cast(? as json)) = 1" path value
                                (lit "json_contains(" refl ▹ expr)
                                (lit ", cast(? as json)) = 1" refl))
                            λ _.
                              if_cases Bound (op == "like")
                                (λ _.
                                  Frag-count (omega arith)
                                    (lit "json_unquote(" refl ▹ expr ▹ lit ") like ?" refl))
                                (λ _. tt)

  json-Bound : (value : Any) → Bound (compile_json_condition marshal value)
  unfolding compile_json_condition
  json-Bound (json_condition field parts op value) =
      json_sql-Bound field (json_path parts) (to_lower op) value
  json-Bound null = tt
  json-Bound _ = tt

module _ {prefix : String} (p : Frag prefix 0) where
  grouped-Bound :
      (opening : String) (m : Compiled)
      → Frag opening 0
      → Bound m
      → BoundPiece (do piece ← m; ok (grouped (prefix ⋄ opening) piece))
  unfolding grouped scan
  grouped-Bound opening (ok (sql, args)) f h =
      if_cases (λ (o : Option Piece). BoundPiece (ok o)) (sql == "") (λ _. tt)
        (λ _. Frag-count (omega arith) ((p ▹ f) ▹ h ▹ lit ")" refl))
  grouped-Bound opening (err e) f h = tt

  prefixed-Bound : (m : Compiled) → Bound m → BoundPiece (do piece ← m; ok (prefixed prefix piece))
  unfolding prefixed
  prefixed-Bound (ok (sql, args)) h = Frag-count (omega arith) (p ▹ h)
  prefixed-Bound (err e) h = tt

  -- text in front of an inner query
  framed-Bound :
      (frame : String) (m : Compiled)
      → Frag frame 0
      → Bound m
      → BoundPiece (do (sql, args) ← m; ok (some (prefix ⋄ frame ⋄ sql, args)))
  framed-Bound frame (ok (sql, args)) f h = Frag-count (omega arith) (p ▹ f ▹ h)
  framed-Bound frame (err e) f h = tt

  in_query-Bound :
      (field : String) (m : Compiled)
      → Bound m
      → BoundPiece (do (sql, args) ← m; ok (some (prefix ⋄ quote_ident field ⋄ " in " ⋄ sql, args)))
  unfolding scan
  in_query-Bound field (ok (sql, args)) h =
      Frag-count (omega arith) (p ▹ quote_ident-Frag field ▹ lit " in " refl ▹ h)
  in_query-Bound field (err e) h = tt

  column-Bound :
      (m : Result OroError String)
      → BoundText m
      → BoundPiece (do sql ← m; ok (some (prefix ⋄ sql, [])))
  column-Bound (ok sql) h = p ▹ h
  column-Bound (err e) h = tt

  null_test-Bound :
      (field test : String)
      → Frag test 0
      → BoundPiece (ok (some (prefix ⋄ quote_ident field ⋄ test, [])))
  null_test-Bound field test h = p ▹ quote_ident-Frag field ▹ h

  module _ (field op : String) (value : Any) (safe : is_safe_condition_operator op ≡ true) where
    compare_value-Bound :
        (escape : String) → escape ≡ "" → BoundPiece (compare_value prefix field op value escape)
    unfolding compare_value scan
    compare_value-Bound escape e = rw e (
        Frag-count (omega arith)
          (p ▹ quote_ident-Frag field ▹ lit " " refl ▹ safe_condition-Frag op safe ▹ lit " ?" refl))

    compare_with-Bound :
        (source : Option Compiled) (escape : String)
        → BoundOption source
        → escape ≡ ""
        → BoundPiece (compare_with source prefix field op value escape)
    unfolding compare_with scan
    compare_with-Bound none escape h e = compare_value-Bound escape e
    compare_with-Bound (some (ok (sql, args))) escape h e =
        Frag-count (omega arith) (
          p
          ▹ quote_ident-Frag field
          ▹ lit " " refl
          ▹ safe_condition-Frag op safe
          ▹ lit " " refl
          ▹ h)
    compare_with-Bound (some (err _)) escape h e = tt

or_invalid-Bound :
    (source : Option Compiled) (field : String)
    → BoundOption source
    → Bound (or_invalid source field)
unfolding or_invalid
or_invalid-Bound none field h = tt
or_invalid-Bound (some compiled) field h = h

pub condition_piece-Bound :
    (marshal : Any → Option String) (kind : OpKind) (prefix field op : String) (value : Any)
    (escape : String) (inner : Inner)
    → Frag prefix 0
    → PlainCondition kind field value escape
    → BoundInner inner
    → BoundPiece (condition_piece marshal kind prefix field op value escape inner)
unfolding condition_piece scan
condition_piece-Bound marshal invalid prefix field op value escape inner p w h = tt
condition_piece-Bound marshal group prefix field op value escape inner p w h =
    grouped-Bound p "(" inner.nested (lit "(" refl) h.nested
condition_piece-Bound marshal not_group prefix field op value escape inner p w h =
    grouped-Bound p "not (" inner.nested (lit "not (" refl) h.nested
condition_piece-Bound marshal raw prefix field op value escape inner p w h =
    Frag-count (omega arith) (p ▹ w)
condition_piece-Bound marshal json prefix field op value escape inner p w h =
    prefixed-Bound p _ (json-Bound marshal value)
condition_piece-Bound marshal fulltext prefix field op value escape inner p w h =
    prefixed-Bound p _ (full_text-Bound value)
condition_piece-Bound marshal column prefix field op value escape inner p w h =
    column-Bound p _ (column_condition-Bound field value)
condition_piece-Bound marshal in_query prefix field op value escape inner p w h =
    in_query-Bound p field _ (or_invalid-Bound inner.source field h.source)
condition_piece-Bound marshal in_values prefix field op value escape inner p w h =
    prefixed-Bound p _ (in_values-Bound field value false)
condition_piece-Bound marshal not_in_values prefix field op value escape inner p w h =
    prefixed-Bound p _ (in_values-Bound field value true)
condition_piece-Bound marshal between prefix field op value escape inner p w h =
    prefixed-Bound p _ (between-Bound field value)
condition_piece-Bound marshal exists prefix field op value escape inner p w h =
    framed-Bound p "exists " _ (lit "exists " refl) (or_invalid-Bound inner.source "" h.source)
condition_piece-Bound marshal count prefix field op value escape inner p w h =
    prefixed-Bound p _ h.counted
condition_piece-Bound marshal is_null prefix field op value escape inner p w h =
    null_test-Bound p field " is null" (lit " is null" refl)
condition_piece-Bound marshal is_not_null prefix field op value escape inner p w h =
    null_test-Bound p field " is not null" (lit " is not null" refl)
condition_piece-Bound marshal comparison prefix field op value escape inner p w h =
    if_cases BoundPiece (is_safe_condition_operator op)
      (λ safe. compare_with-Bound p field op value safe inner.source escape h.source w) (λ _. tt)

pub prefix_of-Frag : (first : Bool) (word : String) → Frag (prefix_of first word) 0
unfolding prefix_of scan
prefix_of-Frag first word =
    if_cases (λ s. Frag s 0) first (λ _. lit "" refl)
      λ _.
        if_cases (λ s. Frag s 0) (to_lower (trim_space word) == "or") (λ _. lit " or " refl)
          (λ _. lit " and " refl)
