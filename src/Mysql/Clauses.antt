-- ===== src/Mysql/Clauses.antt =====
-- The clauses of driver/mysql/dialect.go that hold no query of their own.
pub mod Bound
use oro.Base.{
  ℕ, suc, Bool, true, false, ◌&&◌, ◌||◌, String, List, [], ◌∷◌, ◌++◌, map, Option, none, some,
  Result, ok, err, ◌>>=◌, invalid_argument, if◌then◌else◌, leb, eqb, length, not,
}
use oro.Base.Int.{ℤ, pos, negsuc}
use oro.Base.Text.{◌⋄◌, ◌==◌, join, itoa, to_lower, repeat}
use oro.QueryAst.{
  OroError, Any, Anys, LockMode, LockSpec, lock_none, lock_update, lock_share, other_lock, nil,
  cons, slice, null, bool, int, str, other, error, increment, decrement, raw_expr, source_ptr,
  source_val, column_condition, count_condition, json_condition, full_text, aggregate, Orders,
  OrderExpr, order_expr, no_orders, more_orders, JoinCondition, JoinConditions, join_condition, end,
  also, to_list,
}
use oro.Mysql.Ident.{error_of, quote_ident, json_path, aggregate_select_sql}
use oro.Operators.{normalize_condition_operator, is_safe_column_operator}

-- SQL text with the arguments of its placeholders
abbrev pub Piece : Type 0
Piece = String × List Any

abbrev pub Compiled : Type 0
Compiled = Result OroError Piece

unfoldable pub compile_lock_options : String → LockSpec → String
compile_lock_options sql lock =
    sql
    ⋄ (if lock.no_wait then " nowait" else "")
    ⋄ (if lock.skip_locked then " skip locked" else "")

lock_sql : LockMode → LockSpec → Result OroError String
lock_sql lock_none lock = ok ""
lock_sql lock_update lock = ok (compile_lock_options " for update" lock)
lock_sql lock_share lock = ok (compile_lock_options " for share" lock)
lock_sql other_lock lock = err (error_of "mysql.lock" invalid_argument "")

unfoldable pub compile_lock : LockSpec → Result OroError String
unfolding lock_sql compile_lock_options
compile_lock lock = lock_sql lock.mode lock

unfoldable pub compile_group : List String → String
compile_group fields = join ", " (map quote_ident fields)

order_sql : OrderExpr → String
order_sql (order_expr expr desc raw args) =
    (if raw then expr else quote_ident expr)
    ⋄ (if desc then " desc" else if raw then "" else " asc")

unfoldable pub order_args : OrderExpr → List Any
order_args (order_expr expr desc raw args) = to_list args

unfoldable pub order_parts : Orders → List String × List Any
unfolding order_sql order_args
order_parts no_orders = ([], [])
order_parts (more_orders item items) =
    let (parts, args) = order_parts items in (order_sql item ∷ parts, order_args item ++ args)

unfoldable pub compile_order : Orders → Piece
unfolding order_parts
compile_order items = let (parts, args) = order_parts items in (join ", " parts, args)

unfoldable pub compile_column_condition : String → Any → Result OroError String
compile_column_condition field (column_condition op right) =
    if right == ""
    then err (error_of "mysql.where" invalid_argument field)
    else if is_safe_column_operator op
    then ok (quote_ident field ⋄ " " ⋄ normalize_condition_operator op ⋄ " " ⋄ quote_ident right)
    else err (error_of "mysql.where" invalid_argument field)
compile_column_condition field _ = err (error_of "mysql.where" invalid_argument field)

unfoldable pub in_values_sql : String → Bool → List Any → Compiled
in_values_sql field negated [] = ok (if negated then "1 = 1" else "1 = 0", [])
in_values_sql field negated (v ∷ vs) = ok (
  quote_ident field
      ⋄ (if negated then " not in " else " in ")
      ⋄ "("
      ⋄ join ", " (map (λ _. "?") (v ∷ vs))
      ⋄ ")",
  v ∷ vs,
)

unfoldable pub compile_in_values_condition : String → Any → Bool → Compiled
unfolding in_values_sql
compile_in_values_condition field (slice values) negated =
    in_values_sql field negated (to_list values)
compile_in_values_condition field _ negated = err (error_of "mysql.where" invalid_argument field)

unfoldable pub compile_between_condition : String → Any → Compiled
compile_between_condition field (slice (cons low (cons high nil))) =
    ok (quote_ident field ⋄ " between ? and ?", low ∷ high ∷ [])
compile_between_condition field _ = err (error_of "mysql.where" invalid_argument field)

unfoldable pub match_against : List String → String → Compiled
match_against [] words = err (error_of "mysql.fulltext" invalid_argument "")
match_against (f ∷ fs) words =
    ok ("match(" ⋄ join ", " (map quote_ident (f ∷ fs)) ⋄ ") against (?)", str words ∷ [])

unfoldable pub compile_full_text_condition : Any → Compiled
unfolding match_against
compile_full_text_condition (full_text fields words) = match_against fields words
compile_full_text_condition _ = err (error_of "mysql.fulltext" invalid_argument "")

-- A score reads its first argument; the builders always give one (Go panics without it).
unfoldable pub compile_full_text_score : Anys → Compiled
unfolding compile_full_text_condition
compile_full_text_score nil = err (error_of "mysql.fulltext" invalid_argument "")
compile_full_text_score (cons value rest) = compile_full_text_condition value

unfoldable pub compile_aggregate_select : Anys → Result OroError String
unfolding aggregate_select_sql
compile_aggregate_select (cons (aggregate func field) rest) = aggregate_select_sql func field
compile_aggregate_select _ = err (error_of "mysql.select" invalid_argument "")
