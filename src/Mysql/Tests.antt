-- ===== src/Mysql/Tests.antt =====
-- Statements of the MySQL dialect.
use oro.Base.{◌⊎◌, inl, false, String, [], ◌∷◌, Option, none, some, ◌≡◌, refl, ok}
use oro.Base.Int.{pos}
use oro.Base.Text.{◌⋄◌, join, to_lower, trim_space}
use oro.QueryAst.{
  Any, nil, cons, slice, int, str, no_query, no_raw, source_ast, no_joins, condition, no_conditions,
  Conditions, more_conditions, select_expr, no_exprs, more_exprs, no_source, no_orders, SelectAst,
  select_ast, lock_none, select, null,
}
use oro.Mysql.Ident.{quote_ident}
use oro.Mysql.Scan.{Frag, lit, scan, quote_ident-Frag, plain, string}
use oro.Mysql.Clauses.Bound.{Bound}
use oro.Mysql.Conditions.{condition_piece, grouped, prefix_of, op_kind, raw_args}
use oro.Mysql.Select.{compile_where, where_parts, joined, more_pieces, condition_inner}
use oro.Mysql.Select.Begins.{Headless}
use oro.Mysql.Select.Ready.{SelectReady, ConditionsReady}
use oro.Mysql.Select.Where.{
  is_null_of, escaped_like, compile_where-empty_group, compile_where-escape,
}
use oro.Meta.{SchemaChange, add_column, named, no_column, no_index}
use oro.Mysql.Schema.{compile_schema}
use oro.Mysql.Schema.Bound.{Closed, has_backslash, compile_schema-Closed}
use oro.Mysql.Write.{compile}
use oro.Mysql.Write.Bound.{compile-Bound}

abbrev encode : Any → Option String
encode (int i) = some "0"
encode (str s) = some s
encode _ = none

abbrev by_name : Conditions
by_name = more_conditions (condition "" "na`me" "=" (str "x?") no_conditions "") (
    more_conditions
      (condition "or" "age > ?" "raw" (slice (cons (int (pos 3)) nil)) no_conditions "")
      no_conditions)

abbrev users : SelectAst
users =
    select_ast "users" "" (source_ast "" "" no_query no_raw) no_joins by_name
      (more_exprs (select_expr "id" "" false nil no_source) no_exprs) [] no_conditions no_orders
      (some (pos 5)) none (record { mode = lock_none; no_wait = false; skip_locked = false })

by_name-ready : ConditionsReady by_name
unfolding op_kind raw_args to_lower trim_space scan
by_name-ready = ((refl, tt, tt), ((lit "age > ?" refl, tt, tt), tt))

users-ready : SelectReady users
users-ready = (((tt, tt, tt), tt), (tt, tt), tt, by_name-ready, tt, tt)

compile-Bound_example : Bound (compile encode (select users))
compile-Bound_example = compile-Bound encode (select users) users-ready

quote_ident-Frag_example : Frag (quote_ident "a`?.b") 0
quote_ident-Frag_example = quote_ident-Frag "a`?.b"

compile_where-empty_group_example :
    (" and " ⋄ quote_ident "deleted_at" ⋄ " is null" ≡ "")
    ⊎ Headless (" and " ⋄ quote_ident "deleted_at" ⋄ " is null")
unfolding compile_where where_parts joined join more_pieces condition_inner condition_piece grouped
    prefix_of op_kind to_lower trim_space
compile_where-empty_group_example =
    compile_where-empty_group encode "" "" "group" null no_conditions ""
      (more_conditions (is_null_of "deleted_at") no_conditions) [] [] _ (inl refl) refl refl

compile_where-escape_example :
    (sql : String) × (compile_where encode
        (more_conditions (escaped_like "code" (str "%a%")) no_conditions)
      ≡ ok (sql, str "%a%" ∷ []))
    × (scan plain sql ≡ (string, 1))
compile_where-escape_example = compile_where-escape encode "code" "%a%"

abbrev comment_column : SchemaChange
comment_column = record {
  kind = add_column;
  table = named "users";
  column = record no_column {
    field_name = "Note";
    column_name = "no`te";
    type = "string";
    comment = "it's ?";
    default = some (record { value = str "it's"; expr = "" });
  };
  current = no_column;
  index = no_index;
}

compile_schema-Closed_example :
    Closed encode (λ value. "0") (compile_schema encode (λ value. "0") comment_column)
unfolding has_backslash
compile_schema-Closed_example =
    compile_schema-Closed encode (λ value. "0") comment_column (tt, ((refl, refl)))
