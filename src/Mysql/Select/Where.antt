-- ===== src/Mysql/Select/Where.antt =====
-- Two texts that compileWhere of driver/mysql/dialect.go writes and MySQL does not accept.
use text.Mathlib.TextLemmas.{append_assoc}
use oro.Base.{
  true, false, ◌≡◌, refl, sym, ap, ◌∙◌, subst, ◌⊎◌, inl, inr, String, Option, none, Result, ok, err,
  List, [], ◌∷◌,
}
use oro.Base.Text.{◌==◌, ◌⋄◌, to_lower, trim_space, join}
use oro.Mysql.Select.Begins.{Headless, HeadlessParts, where_parts-Headless}
use oro.QueryAst.{
  OroError, Conditions, Any, null, str, Condition, condition, no_conditions, more_conditions,
}
use oro.Mysql.Ident.{quote_ident}
use oro.Mysql.Scan.{scan, scan-append, plain, string, quote_ident-Frag}
use oro.Mysql.Select.{condition_inner, clause, compile_where, joined, where_parts, more_pieces}
use oro.Mysql.Conditions.{
  OpKind, group, not_group, Inner, grouped, condition_piece, prefix_of, op_kind,
}
use oro.Operators.{normalize_condition_operator, is_safe_condition_operator}

abbrev pub empty_group : Condition
empty_group = condition "" "" "group" null no_conditions ""

abbrev pub is_null_of : String → Condition
is_null_of field = condition "and" field "is null" null no_conditions ""

abbrev pub escaped_like : String → Any → Condition
escaped_like field value = condition "" field "like" value no_conditions "\\"

no_piece : (rest : Result OroError (List String × List Any)) → more_pieces (ok none) rest ≡ rest
unfolding more_pieces
no_piece (ok (parts, args)) = refl
no_piece (err e) = refl

Headless-append : (s t : String) → Headless s → Headless (s ⋄ t)
Headless-append s t (inl (tail, e)) =
    inl (tail ⋄ t, ap (λ s. s ⋄ t) e ∙ append_assoc " and " tail t)
Headless-append s t (inr (tail, e)) = inr (tail ⋄ t, ap (λ s. s ⋄ t) e ∙ append_assoc " or " tail t)

-- a WHERE made of parts that begin with a word, or of none
joined-Headless :
    (parts : Result OroError (List String × List Any)) (sql : String) (args : List Any)
    → HeadlessParts parts
    → joined parts ≡ ok (sql, args)
    → (sql ≡ "") ⊎ Headless sql
unfolding joined join
joined-Headless (err e) sql args h made = cc
joined-Headless (ok ([], more)) sql args h made = inl cc
joined-Headless (ok (part ∷ [], more)) sql args h made =
    let same : part ≡ sql = cc in inr (subst Headless same h)
joined-Headless (ok (part ∷ q ∷ parts, more)) sql args h made =
    let same : part ⋄ ("" ⋄ join "" (q ∷ parts)) ≡ sql = cc in
    inr (subst Headless same (Headless-append part ("" ⋄ join "" (q ∷ parts)) h))

skipped :
    (marshal : Any → Option String) (prefix field op : String) (value : Any) (escape : String)
    (kind : OpKind) (inside : Inner) (args : List Any)
    → (kind ≡ group) ⊎ (kind ≡ not_group)
    → inside.nested ≡ ok ("", args)
    → condition_piece marshal kind prefix field op value escape inside ≡ ok none
unfolding condition_piece grouped
skipped marshal prefix field op value escape kind inside args (inl e) empty = rw (e, empty) refl
skipped marshal prefix field op value escape kind inside args (inr e) empty = rw (e, empty) refl

-- If the first condition of a WHERE is a group (or the negation of one) whose conditions compile to
-- nothing, then whatever conditions follow, the WHERE that they compile to is empty or begins with the
-- word `and` or `or` that should stand between two conditions.
pub compile_where-empty_group :
    (marshal : Any → Option String) (word field op : String) (value : Any) (nested : Conditions)
    (escape : String) (cs : Conditions) (none_args args : List Any) (sql : String)
    → (op_kind (to_lower (trim_space op)) ≡ group)
      ⊎ (op_kind (to_lower (trim_space op)) ≡ not_group)
    → compile_where marshal nested ≡ ok ("", none_args)
    → compile_where marshal (more_conditions (condition word field op value nested escape) cs)
      ≡ ok (sql, args)
    → (sql ≡ "") ⊎ Headless sql
unfolding compile_where where_parts condition_inner
compile_where-empty_group marshal word field op value nested escape cs none_args args sql kind empty
      made =
    joined-Headless (where_parts marshal cs false) sql args (where_parts-Headless marshal cs) (
      sym (
        ap (λ p. joined (more_pieces p (where_parts marshal cs false)))
          (skipped marshal (prefix_of true word) field op value escape _ _ none_args kind empty)
        ∙ ap joined (no_piece (where_parts marshal cs false)))
      ∙ made)

-- The comparison by LIKE with the escape character `\` compiles to a text that ends inside a string,
-- where backslashes hide the character behind them.
pub compile_where-escape :
    (marshal : Any → Option String) (field : String) (value : String)
    → (sql : String) × (compile_where marshal
          (more_conditions (escaped_like field (str value)) no_conditions)
        ≡ ok (sql, str value ∷ []))
      × (scan plain sql ≡ (string, 1))
unfolding compile_where joined where_parts more_pieces condition_piece prefix_of op_kind
    normalize_condition_operator is_safe_condition_operator scan
compile_where-escape marshal field value = (
  ("" ⋄ quote_ident field ⋄ " like ?") ⋄ " escape '\\'",
  refl,
  rw (scan-append, scan-append, scan-append, (quote_ident-Frag field).at) refl,
)

-- a comparison by LIKE, alone in its WHERE
abbrev pub like_sql : String → String
like_sql field = "" ⋄ quote_ident field ⋄ " like ?"

pub compile_where-like :
    (marshal : Any → Option String) (field : String) (value : String)
    → compile_where marshal
        (more_conditions (condition "" field "like" (str value) no_conditions "") no_conditions)
      ≡ ok (like_sql field, str value ∷ [])
unfolding compile_where joined where_parts more_pieces condition_piece prefix_of op_kind
    normalize_condition_operator is_safe_condition_operator
compile_where-like marshal field value = refl

pub compile_where-like_escape :
    (marshal : Any → Option String) (field : String) (value : String)
    → compile_where marshal (more_conditions (escaped_like field (str value)) no_conditions)
      ≡ ok (like_sql field ⋄ " escape '\\'", str value ∷ [])
unfolding compile_where joined where_parts more_pieces condition_piece prefix_of op_kind
    normalize_condition_operator is_safe_condition_operator
compile_where-like_escape marshal field value = refl

pub clause-ne : (keyword sql : String) → (sql == "") ≡ false → clause keyword sql ≡ keyword ⋄ sql
unfolding clause
clause-ne keyword sql ne = rw (clause, ne) refl
