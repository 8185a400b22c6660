-- ===== src/Mysql/Select.antt =====
-- compileSelect, compileSource, compileJoins and compileWhere of driver/mysql/dialect.go. The block
-- follows the block of types in QueryAst.antt; `marshal` is json.Marshal.
pub mod Ready
mod Layout
mod OnClauses
mod Pieces
pub mod Bound
pub mod Begins
pub mod Where
use oro.Base.{
  ℕ, zero, suc, Bool, true, false, ◌&&◌, String, List, [], ◌∷◌, ◌++◌, Option, none, some, Result,
  ok, err, ◌>>=◌, invalid_argument, if◌then◌else◌,
}
use oro.Base.Int.{ℤ, pos, negsuc}
use oro.Base.Text.{◌⋄◌, ◌==◌, join, to_lower, trim_space, itoa}
use oro.QueryAst.{
  OroError, Any, Anys, nil, cons, slice, null, bool, int, str, other, error, increment, decrement,
  raw_expr, source_ptr, source_val, column_condition, count_condition, json_condition, full_text,
  aggregate, MaybeRaw, no_raw, raw_spec, MaybeQuery, no_query, query, MaybeSource, no_source,
  some_source, SourceAst, source_ast, JoinType, inner, left, right, full, cross, other_join,
  JoinCondition, join_condition, JoinConditions, end, also, JoinAst, join_ast, Joins, no_joins,
  more_joins, Condition, condition, Conditions, no_conditions, more_conditions, SelectExpr,
  select_expr, SelectExprs, no_exprs, more_exprs, SelectAst, select_ast, to_list, LockSpec,
}
use oro.Mysql.Ident.{error_of, quote_ident}
use oro.Mysql.Clauses.{
  Piece, Compiled, compile_lock, compile_group, compile_order, compile_full_text_score,
  compile_aggregate_select,
}
use oro.Mysql.Conditions.{Inner, condition_piece, op_kind, prefix_of}

-- `sql += keyword + clause` if the clause is not empty
pub clause : String → String → String
clause keyword sql = if sql == "" then "" else keyword ⋄ sql

-- the arguments that go with such a clause
unfoldable pub clause_args : Piece → List Any
clause_args (sql, args) = if sql == "" then [] else args

pub limit_sql : Option ℤ → Result OroError String
limit_sql none = ok ""
limit_sql (some (pos n)) = ok (" limit " ⋄ itoa n)
limit_sql (some (negsuc n)) = err (error_of "mysql.select" invalid_argument "Limit")

pub offset_sql : Option ℤ → Option ℤ → Result OroError String
offset_sql limit none = ok ""
offset_sql none (some (pos n)) = ok (" limit 18446744073709551615" ⋄ " offset " ⋄ itoa n)
offset_sql (some limit) (some (pos n)) = ok (" offset " ⋄ itoa n)
offset_sql limit (some (negsuc n)) = err (error_of "mysql.select" invalid_argument "Offset")

-- what `join.Type` puts in front; `none` has no case in the switch
join_keyword : JoinType → Option String
join_keyword inner = some "join"
join_keyword left = some "left join"
join_keyword right = some "right join"
join_keyword full = some "full join"
join_keyword _ = none

pub aliased : String → String → String
aliased sql alias = if alias == "" then sql else sql ⋄ " as " ⋄ quote_ident alias

has_query : MaybeQuery → Bool
has_query no_query = false
has_query (query q) = true

has_raw : MaybeRaw → Bool
has_raw no_raw = false
has_raw (raw_spec sql args) = true

is_empty_source : SourceAst → Bool
unfolding has_query has_raw
is_empty_source (source_ast table alias q r) = elim (table == "") [
  | true ↦ elim (has_query q) [
    | true ↦ false
    | false ↦ elim (has_raw r) [ true ↦ false | false ↦ true ]
  ]
  | false ↦ false
]

source_table : SourceAst → String
source_table (source_ast table alias q r) = table

source_alias : SourceAst → String
source_alias (source_ast table alias q r) = alias

-- the table and the alias that compileSelectSource hands on
pub select_table : String → SourceAst → String
unfolding is_empty_source source_table
select_table table from = if is_empty_source from then table else source_table from

pub select_alias : String → SourceAst → String
unfolding is_empty_source source_alias
select_alias alias from =
    if is_empty_source from
    then alias
    else if source_alias from == ""
    then alias
    else source_alias from

-- the table and the alias that compileJoinSource hands on
pub join_table : String → SourceAst → String
unfolding is_empty_source source_table
join_table table source = if is_empty_source source then table else source_table source

pub join_alias : String → SourceAst → String
unfolding source_alias
join_alias alias source = if alias == "" then source_alias source else alias

-- compileJoinConditions; `first` holds at index 0
mutual
  pub join_condition_sql : Bool → JoinCondition → Piece
  join_condition_sql first (join_condition word lhs op rhs value column group) =
      let prefix = if first then "" else to_lower word ⋄ " " in
      let inner_parts = join_condition_parts true group in
      let plain : Piece =
        if column
        then (prefix ⋄ quote_ident lhs ⋄ " " ⋄ op ⋄ " " ⋄ quote_ident rhs, [])
        else (prefix ⋄ quote_ident lhs ⋄ " " ⋄ op ⋄ " ?", value ∷ []) in
      elim group [
        | end ↦ plain
        | also c cs ↦ (prefix ⋄ "(" ⋄ join " " inner_parts.0 ⋄ ")", inner_parts.1)
      ]

  pub join_condition_parts : Bool → JoinConditions → List String × List Any
  join_condition_parts first end = ([], [])
  join_condition_parts first (also c cs) =
      let (sql, args) = join_condition_sql first c in
      let (parts, more) = join_condition_parts false cs in (sql ∷ parts, args ++ more)

pub with_alias : String → Piece → Compiled
with_alias alias (sql, args) =
    if alias == ""
    then err (error_of "mysql.select" invalid_argument "")
    else ok (sql ⋄ " as " ⋄ quote_ident alias, args)

-- one item of the select list, from the SQL of the queries inside it
unfoldable pub select_item : String → String → Bool → Anys → Option Compiled → Compiled → Compiled
select_item expr alias raw args (some source) first_arg = do piece ← source; with_alias alias piece
select_item expr alias raw args none first_arg =
    if expr == "__oro_relation_exists__"
    then (do (sql, source_args) ← first_arg; with_alias alias ("exists " ⋄ sql, source_args))
    else if expr == "__oro_fulltext_score__"
    then (do (sql, score_args) ← compile_full_text_score args; ok (aliased sql alias, score_args))
    else if expr == "__oro_aggregate__"
    then (do sql ← compile_aggregate_select args; ok (aliased sql alias, []))
    else if raw
    then ok (aliased expr alias, to_list args)
    else ok (aliased (quote_ident expr) alias, [])

-- the first part of compileSource's switch
unfoldable pub table_or : String → String → Compiled → Compiled
table_or table alias compiled =
    if table == "" then compiled else ok (aliased (quote_ident table) alias, [])

-- a bracketed query or raw text, which must have an alias
pub bracketed : String → Compiled → Compiled
bracketed alias compiled =
    if alias == ""
    then err (error_of "mysql.source" invalid_argument "")
    else (do (sql, args) ← compiled; ok ("(" ⋄ sql ⋄ ") as " ⋄ quote_ident alias, args))

pub scalar : Compiled → Compiled
scalar compiled = do (sql, args) ← compiled; ok ("(" ⋄ sql ⋄ ")", args)

-- the rest of compileSource's switch
unfoldable pub source_body : String → Option Compiled → MaybeRaw → Compiled
source_body alias (some compiled) r = bracketed alias compiled
source_body alias none (raw_spec sql args) = bracketed alias (ok (sql, to_list args))
source_body alias none no_raw = err (error_of "mysql.source" invalid_argument "")

pub scalar_body : String → Option Compiled → MaybeRaw → Compiled
scalar_body op (some compiled) r = scalar compiled
scalar_body op none (raw_spec sql args) = scalar (ok (sql, to_list args))
scalar_body op none no_raw = err (error_of op invalid_argument "")

pub raw_or : MaybeRaw → Compiled → Compiled
raw_or no_raw compiled = compiled
raw_or (raw_spec sql args) compiled = ok (sql, to_list args)

pub compile_join_conditions : JoinConditions → Piece
compile_join_conditions conditions =
    let (parts, args) = join_condition_parts true conditions in (join " " parts, args)

-- the loops that collect parts and arguments
unfoldable pub more_parts :
    Compiled → Result OroError (List String × List Any) → Result OroError (List String × List Any)
more_parts compiled rest = do
  (sql, args) ← compiled
  (parts, more) ← rest
  ok (sql ∷ parts, args ++ more)

unfoldable pub more_pieces :
    Result OroError (Option Piece)
    → Result OroError (List String × List Any)
    → Result OroError (List String × List Any)
more_pieces compiled rest = do
  piece ← compiled
  (parts, more) ← rest
  ok (elim piece [ none ↦ (parts, more) | some (sql, args) ↦ (sql ∷ parts, args ++ more) ])

unfoldable pub joined : Result OroError (List String × List Any) → Compiled
joined result = do (parts, args) ← result; ok (join "" parts, args)

pub join_sql : JoinType → Piece → Compiled → Bool → Compiled
join_sql cross conditions source has_conditions = do
  (sql, args) ← source
  ok ("cross join " ⋄ sql, args)
join_sql kind conditions source has_conditions = elim (join_keyword kind) [
  | none ↦ err (error_of "mysql.join" invalid_argument "")
  | some keyword ↦
      if has_conditions
      then (do
        (sql, args) ← source
        ok (keyword ⋄ " " ⋄ sql ⋄ " on " ⋄ conditions.0, args ++ conditions.1))
      else err (error_of "mysql.join" invalid_argument "")
]

pub any_conditions : JoinConditions → Bool
any_conditions end = false
any_conditions (also c cs) = true

pub count_sql : String → ℤ → Compiled → Compiled
count_sql op value compiled = do
  (sql, args) ← compiled
  ok (sql ⋄ " " ⋄ op ⋄ " ?", args ++ int value ∷ [])

-- compileSelect, from its compiled parts
unfoldable pub select_sql :
    Result OroError (List String × List Any)
    → Compiled
    → Result OroError (List String × List Any)
    → Compiled
    → List String
    → Compiled
    → Piece
    → Option ℤ
    → Option ℤ
    → LockSpec
    → Compiled
select_sql items from joins conditions group having order limit offset lock = do
  (parts, select_args) ← items
  (source, source_args) ← from
  (join_parts, join_args) ← joins
  where_piece ← conditions
  having_piece ← having
  limited ← limit_sql limit
  skipped ← offset_sql limit offset
  locked ← compile_lock lock
  ok (
    "select "
        ⋄ (elim parts [ [] ↦ "*" | p ∷ ps ↦ join ", " (p ∷ ps) ])
        ⋄ " from "
        ⋄ source
        ⋄ (elim join_parts [ [] ↦ "" | p ∷ ps ↦ " " ⋄ join " " (p ∷ ps) ])
        ⋄ clause " where " where_piece.0
        ⋄ clause " group by " (compile_group group)
        ⋄ clause " having " having_piece.0
        ⋄ clause " order by " order.0
        ⋄ limited
        ⋄ skipped
        ⋄ locked,
    select_args
        ++ source_args
        ++ join_args
        ++ clause_args where_piece
        ++ clause_args having_piece
        ++ clause_args order,
  )

module _ (marshal : Any → Option String) where
  unfoldable mutual
    pub compile_select : SelectAst → Compiled
    compile_select
          (select_ast table alias from joins conditions items group having order limit offset
            lock) =
        select_sql (item_parts items)
          (compile_source (select_table table from) (select_alias alias from) from)
          (join_parts joins) (joined (where_parts conditions true)) group
          (joined (where_parts having true)) (compile_order order) limit offset lock

    pub compile_query : MaybeQuery → Option Compiled
    compile_query no_query = none
    compile_query (query q) = some (compile_select q)

    -- compileSource, with the table and the alias that its caller may have replaced
    pub compile_source : String → String → SourceAst → Compiled
    compile_source table alias (source_ast _ _ q r) =
        table_or table alias (source_body alias (compile_query q) r)

    -- compileScalarSource; `op` is the operation that its error names
    compile_scalar : String → SourceAst → Compiled
    compile_scalar op (source_ast _ _ q r) = scalar_body op (compile_query q) r

    pub compile_maybe_scalar : MaybeSource → Option Compiled
    compile_maybe_scalar no_source = none
    compile_maybe_scalar (some_source s) = some (compile_scalar "mysql.select" s)

    -- a value that is a *SourceAST
    pub value_source : Any → Option Compiled
    value_source (source_ptr s) = some (compile_scalar "mysql.where" s)
    value_source _ = none

    -- the one argument of a relation's existence, which is a SourceAST
    pub sole_source : Anys → Compiled
    sole_source (cons (source_val s) nil) = compile_scalar "mysql.select" s
    sole_source _ = err (error_of "mysql.select" invalid_argument "")

    count_source : MaybeSource → Compiled
    count_source no_source = err (error_of "mysql.where" invalid_argument "")
    count_source (some_source s) = compile_scalar "mysql.where" s

    compile_count : Any → Compiled
    compile_count (count_condition source op value) = count_sql op value (count_source source)
    compile_count _ = err (error_of "mysql.where" invalid_argument "")

    pub item_parts : SelectExprs → Result OroError (List String × List Any)
    item_parts no_exprs = ok ([], [])
    item_parts (more_exprs item items) = more_parts (compile_select_expr item) (item_parts items)

    pub compile_select_expr : SelectExpr → Compiled
    compile_select_expr (select_expr expr alias raw args source) =
        select_item expr alias raw args (compile_maybe_scalar source) (sole_source args)

    join_parts : Joins → Result OroError (List String × List Any)
    join_parts no_joins = ok ([], [])
    join_parts (more_joins j js) = more_parts (compile_join j) (join_parts js)

    compile_join : JoinAst → Compiled
    compile_join (join_ast kind table alias source r conditions) = raw_or r (
        join_sql kind (compile_join_conditions conditions)
          (compile_source (join_table table source) (join_alias alias source) source)
          (any_conditions conditions))

    pub condition_inner : Condition → Bool → Result OroError (Option Piece)
    condition_inner (condition word field op value nested escape) first =
        condition_piece marshal (op_kind (to_lower (trim_space op))) (prefix_of first word) field op
          value escape
          (record {
            nested = joined (where_parts nested true);
            source = value_source value;
            counted = compile_count value;
          })

    pub where_parts : Conditions → Bool → Result OroError (List String × List Any)
    where_parts no_conditions first = ok ([], [])
    where_parts (more_conditions c cs) first =
        more_pieces (condition_inner c first) (where_parts cs false)

  unfoldable pub compile_where : Conditions → Compiled
  compile_where conditions = joined (where_parts conditions true)
