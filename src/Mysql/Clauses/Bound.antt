-- ===== src/Mysql/Clauses/Bound.antt =====
-- The clauses bind one argument for each of their placeholders.
use Prim.Native.String.{String}
use oro.Base.{
  ℕ, ◌≡◌, refl, sym, subst, Bool, true, false, List, [], ◌∷◌, map, length, length-append, Result,
  ok, err, arith, if_cases, ◌||◌, Bool-cases, inl, inr,
}
use oro.Base.Text.{◌==◌}
use text.Mathlib.TextEquality.{eq_iff}
use oro.QueryAst.{
  OroError, Any, Anys, LockMode, LockSpec, lock_none, lock_update, lock_share, other_lock, nil,
  cons, slice, null, column_condition, full_text, aggregate, Orders, OrderExpr, order_expr,
  no_orders, more_orders, to_list,
}
use oro.Operators.{
  one_of, normalize_condition_operator, is_safe_column_operator, is_safe_condition_operator,
}
use oro.Mysql.Scan.{
  Frag, Parts, none_left, part, lit, ◌▹◌, Frag-count, Parts-count, join-Frag, quote_ident-Frag,
  quoted-Parts, scan,
}
use oro.Mysql.Ident.{aggregate_select_sql}
use oro.Mysql.Clauses.{
  Compiled, compile_lock_options, compile_lock, lock_sql, compile_group, compile_order, order_sql,
  order_args, order_parts, compile_column_condition, in_values_sql, compile_in_values_condition,
  compile_between_condition, compile_full_text_condition, compile_full_text_score,
  compile_aggregate_select,
}

-- A result that is no error has as many placeholders as arguments.
abbrev pub Bound : Compiled → Type 0
Bound (ok (sql, args)) = Frag sql (length args)
Bound (err e) = Unit

-- The same of a text that binds nothing, and of collected parts.
abbrev pub BoundText : Result OroError String → Type 0
BoundText (ok sql) = Frag sql 0
BoundText (err e) = Unit

abbrev pub BoundParts : Result OroError (List String × List Any) → Type 0
BoundParts (ok (parts, args)) = Parts parts (length args)
BoundParts (err e) = Unit

pub lock_options-Frag :
    (sql : String) (lock : LockSpec) → Frag sql 0 → Frag (compile_lock_options sql lock) 0
unfolding compile_lock_options scan
lock_options-Frag sql lock h =
    h
    ▹ if_cases (λ s. Frag s 0) lock.no_wait (λ _. lit " nowait" refl) (λ _. lit "" refl)
    ▹ if_cases (λ s. Frag s 0) lock.skip_locked (λ _. lit " skip locked" refl) (λ _. lit "" refl)

lock_sql-Bound : (m : LockMode) (lock : LockSpec) → BoundText (lock_sql m lock)
unfolding lock_sql scan
lock_sql-Bound lock_none lock = lit "" refl
lock_sql-Bound lock_update lock = lock_options-Frag " for update" lock (lit " for update" refl)
lock_sql-Bound lock_share lock = lock_options-Frag " for share" lock (lit " for share" refl)
lock_sql-Bound other_lock lock = tt

pub compile_lock-Bound : (lock : LockSpec) → BoundText (compile_lock lock)
unfolding compile_lock
compile_lock-Bound lock = lock_sql-Bound lock.mode lock

pub compile_group-Frag : (fields : List String) → Frag (compile_group fields) 0
unfolding compile_group scan
compile_group-Frag fields = join-Frag (lit ", " refl) (quoted-Parts fields)

-- A raw order binds its arguments; a field has none.
abbrev pub BoundOrder : OrderExpr → Type 0
BoundOrder (order_expr expr desc true args) = Frag expr (length (to_list args))
BoundOrder (order_expr expr desc false args) = length (to_list args) ≡ 0

abbrev pub BoundOrders : Orders → Type 0
BoundOrders no_orders = Unit
BoundOrders (more_orders item items) = BoundOrder item × BoundOrders items

order_sql-Frag :
    (item : OrderExpr) → BoundOrder item → Frag (order_sql item) (length (order_args item))
unfolding order_sql order_args scan
order_sql-Frag (order_expr expr true true args) h = Frag-count (omega arith) (h ▹ lit " desc" refl)
order_sql-Frag (order_expr expr false true args) h = Frag-count (omega arith) (h ▹ lit "" refl)
order_sql-Frag (order_expr expr true false args) h =
    Frag-count (omega arith) (quote_ident-Frag expr ▹ lit " desc" refl)
order_sql-Frag (order_expr expr false false args) h =
    Frag-count (omega arith) (quote_ident-Frag expr ▹ lit " asc" refl)

order_parts-Parts :
    (items : Orders)
    → BoundOrders items
    → Parts (order_parts items).0 (length (order_parts items).1)
unfolding order_parts
order_parts-Parts no_orders h = none_left
order_parts-Parts (more_orders item items) h =
    Parts-count (omega (arith, length-append (order_args item) (order_parts items).1))
      (part (order_sql-Frag item h.0) (order_parts-Parts items h.1))

pub compile_order-Frag :
    (items : Orders)
    → BoundOrders items
    → Frag (compile_order items).0 (length (compile_order items).1)
unfolding compile_order scan
compile_order-Frag items h = join-Frag (lit ", " refl) (order_parts-Parts items h)

-- An operator of a list of texts without placeholders has none.
one_of-Frag :
    {ts : List String} {n : ℕ} → Parts ts n → n ≡ 0 → (s : String) → one_of s ts ≡ true → Frag s 0
unfolding one_of
one_of-Frag none_left e s h = cc
one_of-Frag (part {p = t} {ps = ts} f r) e s h = elim (Bool-cases (s == t)) [
  | inl same ↦
      subst (λ (u : String). Frag u 0) (sym ((eq_iff s t).0 same)) (Frag-count (omega arith) f)
  | inr differs ↦ one_of-Frag r (omega arith) s (ground (arith, h, differs))
]

comparisons-Parts : Parts ("=" ∷ "!=" ∷ "<>" ∷ "<" ∷ "<=" ∷ ">" ∷ ">=" ∷ []) 0
unfolding scan
comparisons-Parts = part (lit "=" refl) (
    part (lit "!=" refl) (
      part (lit "<>" refl) (
        part (lit "<" refl)
          (part (lit "<=" refl) (part (lit ">" refl) (part (lit ">=" refl) none_left))))))

pub safe_column-Frag :
    (op : String) → is_safe_column_operator op ≡ true → Frag (normalize_condition_operator op) 0
unfolding is_safe_column_operator
safe_column-Frag op h = one_of-Frag comparisons-Parts refl (normalize_condition_operator op) h

pub safe_condition-Frag :
    (op : String) → is_safe_condition_operator op ≡ true → Frag (normalize_condition_operator op) 0
unfolding is_safe_condition_operator scan
safe_condition-Frag op h =
    one_of-Frag
      (part (lit "=" refl) (
        part (lit "!=" refl) (
          part (lit "<>" refl) (
            part (lit "<" refl) (
              part (lit "<=" refl) (
                part (lit ">" refl) (
                  part (lit ">=" refl) (
                    part (lit "like" refl) (
                      part (lit "not like" refl) (
                        part (lit "ilike" refl) (
                          part (lit "not ilike" refl)
                            (part (lit "is" refl) (part (lit "is not" refl) none_left)))))))))))))
      refl (normalize_condition_operator op) h

pub column_condition-Bound :
    (field : String) (value : Any) → BoundText (compile_column_condition field value)
unfolding compile_column_condition scan
column_condition-Bound field (column_condition op rhs) =
    if_cases BoundText (rhs == "") (λ _. tt)
      λ _.
        if_cases BoundText (is_safe_column_operator op)
          (λ safe.
            quote_ident-Frag field
            ▹ lit " " refl
            ▹ safe_column-Frag op safe
            ▹ lit " " refl
            ▹ quote_ident-Frag rhs)
          (λ _. tt)
column_condition-Bound field null = tt
column_condition-Bound field _ = tt

placeholders-Parts : (vs : List Any) → Parts (map (λ _. "?") vs) (length vs)
unfolding scan
placeholders-Parts [] = none_left
placeholders-Parts (v ∷ vs) =
    Parts-count (omega arith) (part (lit "?" refl) (placeholders-Parts vs))

in_values_sql-Bound :
    (field : String) (negated : Bool) (vs : List Any) → Bound (in_values_sql field negated vs)
unfolding in_values_sql scan
in_values_sql-Bound field true [] = lit "1 = 1" refl
in_values_sql-Bound field false [] = lit "1 = 0" refl
in_values_sql-Bound field negated (v ∷ vs) = Frag-count (omega arith) (
    quote_ident-Frag field
    ▹ if_cases (λ s. Frag s 0) negated (λ _. lit " not in " refl) (λ _. lit " in " refl)
    ▹ lit "(" refl
    ▹ join-Frag (lit ", " refl) (placeholders-Parts (v ∷ vs))
    ▹ lit ")" refl)

pub in_values-Bound :
    (field : String) (value : Any) (negated : Bool)
    → Bound (compile_in_values_condition field value negated)
unfolding compile_in_values_condition
in_values-Bound field (slice vs) negated = in_values_sql-Bound field negated (to_list vs)
in_values-Bound field null negated = tt
in_values-Bound field _ negated = tt

pub between-Bound : (field : String) (value : Any) → Bound (compile_between_condition field value)
unfolding compile_between_condition scan
between-Bound field (slice (cons low (cons high nil))) =
    Frag-count (omega arith) (quote_ident-Frag field ▹ lit " between ? and ?" refl)
between-Bound field (slice nil) = tt
between-Bound field (slice (cons low nil)) = tt
between-Bound field (slice (cons low (cons high (cons more rest)))) = tt
between-Bound field null = tt
between-Bound field _ = tt

pub full_text-Bound : (value : Any) → Bound (compile_full_text_condition value)
unfolding compile_full_text_condition scan
full_text-Bound (full_text [] words) = tt
full_text-Bound (full_text (f ∷ fs) words) = Frag-count (omega arith) (
    lit "match(" refl
    ▹ join-Frag (lit ", " refl) (quoted-Parts (f ∷ fs))
    ▹ lit ") against (?)" refl)
full_text-Bound null = tt
full_text-Bound _ = tt

pub score-Bound : (args : Anys) → Bound (compile_full_text_score args)
unfolding compile_full_text_score
score-Bound nil = tt
score-Bound (cons value rest) = full_text-Bound value

-- The function name of an aggregate is written as it is given.
abbrev pub PlainFunc : Anys → Type 0
PlainFunc (cons (aggregate func field) rest) = Frag func 0
PlainFunc _ = Unit

aggregate_sql-Bound :
    (func field : String) → Frag func 0 → BoundText (aggregate_select_sql func field)
unfolding aggregate_select_sql scan
aggregate_sql-Bound func field h =
    if_cases BoundText (func == "" || field == "") (λ _. tt)
      λ _.
        if_cases BoundText (field == "*") (λ _. h ▹ lit "(*)" refl)
          (λ _. h ▹ lit "(" refl ▹ quote_ident-Frag field ▹ lit ")" refl)

pub aggregate-Bound : (args : Anys) → PlainFunc args → BoundText (compile_aggregate_select args)
unfolding compile_aggregate_select
aggregate-Bound (cons (aggregate func field) rest) h = aggregate_sql-Bound func field h
aggregate-Bound nil h = tt
aggregate-Bound (cons null rest) h = tt
aggregate-Bound (cons _ rest) h = tt
