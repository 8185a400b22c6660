-- ===== src/Mysql/Select/Begins.antt =====
-- How the parts of a WHERE begin: with the word in front of their condition.
use text.Mathlib.TextLemmas.{append_assoc}
use oro.Base.{
  false, String, List, [], ◌∷◌, Option, none, some, Result, ok, err, ◌>>=◌, ◌≡◌, refl, ◌⊎◌, inl,
  inr, if_cases,
}
use oro.Base.Text.{◌⋄◌, ◌==◌, to_lower, trim_space}
use oro.QueryAst.{OroError, Any, condition, Conditions, no_conditions, more_conditions}
use oro.Operators.{normalize_condition_operator, is_safe_condition_operator}
use oro.Mysql.Ident.{quote_ident}
use oro.Mysql.Clauses.{Piece, Compiled}
use oro.Mysql.Select.{condition_inner, where_parts, more_pieces}
use oro.Mysql.Conditions.{
  Inner, condition_piece, prefix_of, op_kind, OpKind, invalid, group, not_group, raw, json,
  fulltext, column, in_query, in_values, not_in_values, between, exists, count, is_null,
  is_not_null, comparison, grouped, prefixed, compare_with, compare_value,
}

abbrev pub Begins : String → String → Type 0
Begins prefix sql = (tail : String) × (sql ≡ prefix ⋄ tail)

abbrev BeginsPiece : String → Result OroError (Option Piece) → Type 0
BeginsPiece prefix (ok (some (sql, args))) = Begins prefix sql
BeginsPiece prefix (ok none) = Unit
BeginsPiece prefix (err e) = Unit

module _ (prefix : String) where
  then-Begins :
      (f : String → String) (m : Compiled)
      → BeginsPiece prefix (do (sql, args) ← m; ok (some (prefix ⋄ f sql, args)))
  then-Begins f (ok (sql, args)) = (f sql, refl)
  then-Begins f (err e) = tt

  text-Begins :
      (m : Result OroError String) → BeginsPiece prefix (do sql ← m; ok (some (prefix ⋄ sql, [])))
  text-Begins (ok sql) = (sql, refl)
  text-Begins (err e) = tt

  prefixed-Begins : (m : Compiled) → BeginsPiece prefix (do piece ← m; ok (prefixed prefix piece))
  unfolding prefixed
  prefixed-Begins (ok (sql, args)) = (sql, refl)
  prefixed-Begins (err e) = tt

  grouped-Begins :
      (opening : String) (m : Compiled)
      → BeginsPiece prefix (do piece ← m; ok (grouped (prefix ⋄ opening) piece))
  unfolding grouped
  grouped-Begins opening (err e) = tt
  grouped-Begins opening (ok (sql, args)) =
      if_cases (λ o. BeginsPiece prefix (ok o)) (sql == "") (λ _. tt)
        (λ _. (opening ⋄ sql ⋄ ")", append_assoc prefix opening (sql ⋄ ")")))

  compare_value-Begins :
      (field op : String) (value : Any) (escape : String)
      → BeginsPiece prefix (compare_value prefix field op value escape)
  unfolding compare_value
  compare_value-Begins field op value escape =
      let body = quote_ident field ⋄ " " ⋄ normalize_condition_operator op ⋄ " ?" in
      if_cases (BeginsPiece prefix) (escape == "") (λ _. (body, refl))
        (λ _.
          if_cases (BeginsPiece prefix) (escape == "\\")
            (λ _. (body ⋄ " escape '\\'", append_assoc prefix body " escape '\\'")) (λ _. tt))

  compare_with-Begins :
      (source : Option Compiled) (field op : String) (value : Any) (escape : String)
      → BeginsPiece prefix (compare_with source prefix field op value escape)
  unfolding compare_with
  compare_with-Begins none field op value escape = compare_value-Begins field op value escape
  compare_with-Begins (some m) field op value escape =
      then-Begins (λ sql. quote_ident field ⋄ " " ⋄ normalize_condition_operator op ⋄ " " ⋄ sql) m

condition_piece-Begins :
    (marshal : Any → Option String) (kind : OpKind) (prefix field op : String) (value : Any)
    (escape : String) (inside : Inner)
    → BeginsPiece prefix (condition_piece marshal kind prefix field op value escape inside)
unfolding condition_piece
condition_piece-Begins marshal invalid prefix field op value escape inside = tt
condition_piece-Begins marshal group prefix field op value escape inside =
    grouped-Begins prefix "(" inside.nested
condition_piece-Begins marshal not_group prefix field op value escape inside =
    grouped-Begins prefix "not (" inside.nested
condition_piece-Begins marshal raw prefix field op value escape inside = (field, refl)
condition_piece-Begins marshal json prefix field op value escape inside = prefixed-Begins prefix _
condition_piece-Begins marshal fulltext prefix field op value escape inside =
    prefixed-Begins prefix _
condition_piece-Begins marshal column prefix field op value escape inside = text-Begins prefix _
condition_piece-Begins marshal in_query prefix field op value escape inside =
    then-Begins prefix (λ sql. quote_ident field ⋄ " in " ⋄ sql) _
condition_piece-Begins marshal in_values prefix field op value escape inside =
    prefixed-Begins prefix _
condition_piece-Begins marshal not_in_values prefix field op value escape inside =
    prefixed-Begins prefix _
condition_piece-Begins marshal between prefix field op value escape inside =
    prefixed-Begins prefix _
condition_piece-Begins marshal exists prefix field op value escape inside =
    then-Begins prefix (λ sql. "exists " ⋄ sql) _
condition_piece-Begins marshal count prefix field op value escape inside =
    prefixed-Begins prefix inside.counted
condition_piece-Begins marshal is_null prefix field op value escape inside =
    (quote_ident field ⋄ " is null", refl)
condition_piece-Begins marshal is_not_null prefix field op value escape inside =
    (quote_ident field ⋄ " is not null", refl)
condition_piece-Begins marshal comparison prefix field op value escape inside =
    if_cases (BeginsPiece prefix) (is_safe_condition_operator op)
      (λ _. compare_with-Begins prefix inside.source field op value escape) (λ _. tt)

-- The text begins with a word that joins two conditions.
abbrev pub Headless : String → Type 0
Headless sql = Begins " and " sql ⊎ Begins " or " sql

abbrev pub HeadlessParts : Result OroError (List String × List Any) → Type 0
HeadlessParts (ok ([], args)) = Unit
HeadlessParts (ok (part ∷ parts, args)) = Headless part
HeadlessParts (err e) = Unit

prefix_of-Headless :
    (word : String) (piece : Result OroError (Option Piece))
    → BeginsPiece (prefix_of false word) piece
    → BeginsPiece " and " piece ⊎ BeginsPiece " or " piece
unfolding prefix_of
prefix_of-Headless word piece =
    if_cases (λ p. BeginsPiece p piece → BeginsPiece " and " piece ⊎ BeginsPiece " or " piece)
      (to_lower (trim_space word) == "or") (λ _ h. inr h) (λ _ h. inl h)

more_pieces-Headless :
    (piece : Result OroError (Option Piece)) (rest : Result OroError (List String × List Any))
    → BeginsPiece " and " piece ⊎ BeginsPiece " or " piece
    → HeadlessParts rest
    → HeadlessParts (more_pieces piece rest)
unfolding more_pieces
more_pieces-Headless (err e) rest h g = tt
more_pieces-Headless (ok piece) (err e) h g = tt
more_pieces-Headless (ok none) (ok (parts, args)) h g = g
more_pieces-Headless (ok (some (sql, args))) (ok (parts, more)) h g = h

module _ (marshal : Any → Option String) where
  pub where_parts-Headless : (cs : Conditions) → HeadlessParts (where_parts marshal cs false)
  unfolding where_parts condition_inner
  where_parts-Headless no_conditions = tt
  where_parts-Headless (more_conditions (condition word field op value nested escape) cs) =
      more_pieces-Headless _ _
        (prefix_of-Headless word _ (
          condition_piece-Begins marshal (op_kind (to_lower (trim_space op))) (prefix_of false word)
            field op value escape _))
        (where_parts-Headless cs)
