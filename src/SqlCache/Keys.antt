-- ===== src/SqlCache/Keys.antt =====
-- The keys of statements in sql_cache.go, with the arguments that go with a hit.
use oro.Base.{
  suc, Bool, true, false, ◌&&◌, ◌||◌, not, String, List, [], ◌∷◌, ◌++◌, Option, none, some,
  if◌then◌else◌, length, eqb,
}
use oro.Base.Int.{ℤ, pos, negsuc}
use oro.Base.Text.{◌⋄◌, ◌==◌, itoa, sort, str_discrete}
use oro.Base.Dict.{lookup, keys}
use oro.QueryAst.{
  Any, Anys, nil, cons, null, increment, decrement, raw_expr, aggregate, no_raw, no_query,
  MaybeSource, no_source, some_source, SourceAst, source_ast, no_joins, no_conditions, select_expr,
  SelectExprs, no_exprs, more_exprs, order_expr, Orders, no_orders, more_orders, SelectAst,
  select_ast, LockMode, lock_none, Map, InsertAst, UpdateAst, DeleteAst, Statement, select, insert,
  update, delete, other_statement, to_list,
}
use oro.SqlCache.Conditions.{simple_conditions_args}

-- intString
pub int_string : ℤ → String
int_string (pos n) = itoa n
int_string (negsuc n) = "-" ⋄ itoa (suc n)

-- simpleSetValueArgs
unfoldable pub simple_set_value : Any → Option (List Any × String)
simple_set_value (increment value) = some (value ∷ [], "inc")
simple_set_value (decrement value) = some (value ∷ [], "dec")
simple_set_value (raw_expr sql args) =
    if sql == ""
    then none
    else some (to_list args, "raw:" ⋄ sql ⋄ ":" ⋄ itoa (length (to_list args)))
simple_set_value value = some (value ∷ [], "value")

unfoldable pub sorted_sql_map_keys : Map → List String
sorted_sql_map_keys row = sort (keys row)

unfoldable pub column_value : String → Map → Any
column_value column row = elim (lookup str_discrete column row) [ none ↦ null | some value ↦ value ]

unfoldable pub more_sets :
    String → Option (List Any × String) → Option (List Any × String) → Option (List Any × String)
more_sets column none rest = none
more_sets column (some first) none = none
more_sets column (some (args, shape)) (some (more, shapes)) =
    some (args ++ more, "|" ⋄ column ⋄ ":" ⋄ shape ⋄ shapes)

-- the loop of updateSQLCacheKey over the columns
unfoldable pub set_shapes : List String → Map → Option (List Any × String)
unfolding simple_set_value column_value more_sets
set_shapes [] row = some ([], "")
set_shapes (column ∷ columns) row =
    more_sets column (simple_set_value (column_value column row)) (set_shapes columns row)

-- the loops of insertSQLCacheKey over the rows
unfoldable pub row_values : List String → Map → Option (List Any)
row_values [] row = some []
row_values (column ∷ columns) row =
    let rest = row_values columns row in
    elim (lookup str_discrete column row) [
      | none ↦ none
      | some item ↦ elim rest [ none ↦ none | some items ↦ some (item ∷ items) ]
    ]

unfoldable pub rows_values : List String → List Map → Option (List Any)
unfolding row_values
rows_values columns [] = some []
rows_values columns (row ∷ rows) =
    let rest = rows_values columns rows in
    if eqb (length row) (length columns)
    then elim (row_values columns row) [
      | none ↦ none
      | some items ↦ elim rest [ none ↦ none | some more ↦ some (items ++ more) ]
    ]
    else none

columns_shape : List String → String
columns_shape [] = ""
columns_shape (column ∷ columns) = "|" ⋄ column ⋄ columns_shape columns

unfoldable pub insert_sql_cache_key : String → InsertAst → Option (String × List Any)
unfolding rows_values sorted_sql_map_keys columns_shape
insert_sql_cache_key dialect stmt = elim stmt.rows [
  | [] ↦ none
  | row ∷ rows ↦ elim stmt.conflict.columns [
    | c ∷ cs ↦ none
    | [] ↦ elim (rows_values (sorted_sql_map_keys row) (row ∷ rows)) [
      | none ↦ none
      | some args ↦ some (
        "i|"
            ⋄ dialect
            ⋄ "|"
            ⋄ stmt.table
            ⋄ "|r:"
            ⋄ (if stmt.returning then "1" else "0")
            ⋄ "|n:"
            ⋄ itoa (length (row ∷ rows))
            ⋄ columns_shape (sorted_sql_map_keys row),
        args,
      )
    ]
  ]
]

pub no_aggregate : Anys → Bool
no_aggregate (cons (aggregate func field) nil) = false
no_aggregate _ = true

unfoldable pub is_source : MaybeSource → Bool
is_source no_source = false
is_source (some_source source) = true

-- hasRawSelectOrOrder
unfoldable pub raw_select : SelectExprs → Bool
unfolding no_aggregate is_source
raw_select no_exprs = false
raw_select (more_exprs (select_expr expr alias raw args from) items) =
    let rest = raw_select items in
    if expr == "__oro_aggregate__"
    then no_aggregate args || rest
    else (raw
        || (is_source from
            || ((expr == "__oro_relation_exists__") || (expr == "__oro_fulltext_score__"))))
      || rest

unfoldable pub has_args : Anys → Bool
has_args nil = false
has_args (cons a more) = true

unfoldable pub raw_order : Orders → Bool
unfolding has_args
raw_order no_orders = false
raw_order (more_orders (order_expr expr desc raw args) items) =
    (raw || has_args args) || raw_order items

aggregate_shape : Anys → String
aggregate_shape (cons (aggregate func field) nil) = "(" ⋄ func ⋄ ":" ⋄ field ⋄ ")"
aggregate_shape _ = ""

-- appendSelectShape
select_shape : SelectExprs → String
unfolding aggregate_shape
select_shape no_exprs = ""
select_shape (more_exprs (select_expr expr alias raw args from) items) =
    "|"
    ⋄ expr
    ⋄ (if expr == "__oro_aggregate__" then aggregate_shape args else "")
    ⋄ ":"
    ⋄ alias
    ⋄ select_shape items

-- appendOrderShape
order_shape : Orders → String
order_shape no_orders = ""
order_shape (more_orders (order_expr expr desc raw args) items) =
    "|" ⋄ expr ⋄ (if desc then ":d" else ":a") ⋄ order_shape items

-- appendIntPointerShape
int_pointer_shape : Option ℤ → String
unfolding int_string
int_pointer_shape none = "-"
int_pointer_shape (some value) = "v:" ⋄ int_string value

unfoldable pub is_plain_source : SourceAst → Bool
is_plain_source (source_ast table alias no_query no_raw) = table == ""
is_plain_source _ = false

pub is_unlocked : LockMode → Bool
is_unlocked lock_none = true
is_unlocked _ = false

-- the first two guards of selectSQLCacheKey
unfoldable pub is_simple_select : SelectAst → Bool
unfolding is_plain_source is_unlocked raw_select raw_order
is_simple_select
      (select_ast table alias from no_joins filters items [] no_conditions order limit offset
        lock) =
    (is_plain_source from && is_unlocked lock.mode) && not (raw_select items || raw_order order)
is_simple_select _ = false

module _ (marshal : Any → Option String) (dialect : String) where
  unfoldable pub select_sql_cache_key : SelectAst → Option (String × List Any)
  unfolding is_simple_select select_shape order_shape int_pointer_shape
  select_sql_cache_key
        (select_ast table alias from joins filters items grouping having order limit offset lock) =
      if is_simple_select
        (select_ast table alias from joins filters items grouping having order limit offset lock)
      then elim (simple_conditions_args marshal dialect filters) [
        | none ↦ none
        | some (args, shape) ↦ some (
          "s|"
              ⋄ dialect
              ⋄ "|"
              ⋄ table
              ⋄ "|"
              ⋄ alias
              ⋄ "|sel:"
              ⋄ select_shape items
              ⋄ "|w:"
              ⋄ shape
              ⋄ "|o:"
              ⋄ order_shape order
              ⋄ "|l:"
              ⋄ int_pointer_shape limit
              ⋄ "|f:"
              ⋄ int_pointer_shape offset,
          args,
        )
      ]
      else none

  unfoldable pub update_sql_cache_key : UpdateAst → Option (String × List Any)
  unfolding set_shapes sorted_sql_map_keys
  update_sql_cache_key stmt = elim stmt.row [
    | [] ↦ none
    | e ∷ es ↦ elim (set_shapes (sorted_sql_map_keys stmt.row) stmt.row) [
      | none ↦ none
      | some (set_args, sets) ↦ elim (simple_conditions_args marshal dialect stmt.conditions) [
        | none ↦ none
        | some (where_args, shape) ↦ some (
          "u|" ⋄ dialect ⋄ "|" ⋄ stmt.table ⋄ "|set:" ⋄ sets ⋄ "|w:" ⋄ shape,
          set_args ++ where_args,
        )
      ]
    ]
  ]

  unfoldable pub delete_sql_cache_key : DeleteAst → Option (String × List Any)
  delete_sql_cache_key stmt = elim (simple_conditions_args marshal dialect stmt.conditions) [
    | none ↦ none
    | some (args, shape) ↦ some ("d|" ⋄ dialect ⋄ "|" ⋄ stmt.table ⋄ "|w:" ⋄ shape, args)
  ]

  unfoldable pub lightweight_sql_cache_key : Statement → Option (String × List Any)
  unfolding select_sql_cache_key insert_sql_cache_key update_sql_cache_key delete_sql_cache_key
  lightweight_sql_cache_key (select stmt) = select_sql_cache_key stmt
  lightweight_sql_cache_key (insert stmt) = insert_sql_cache_key dialect stmt
  lightweight_sql_cache_key (update stmt) = update_sql_cache_key stmt
  lightweight_sql_cache_key (delete stmt) = delete_sql_cache_key stmt
  lightweight_sql_cache_key other_statement = none
