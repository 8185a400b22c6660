-- ===== src/Mysql/Write.antt =====
-- INSERT, upsert, UPDATE and DELETE of driver/mysql/dialect.go. A map's entries are read in the order
-- of its sorted keys, as the code reads them.
mod Rows
mod Sets
pub mod Likes
pub mod Bound
use oro.Base.{
  ℕ, zero, suc, Bool, true, false, ◌&&◌, ◌||◌, not, String, List, [], ◌∷◌, ◌++◌, map, Option, none,
  some, Result, ok, err, ◌>>=◌, invalid_argument, if◌then◌else◌, length, eqb, unsupported,
}
use Prim.Native.Char.{Char, code}
use oro.Base.Text.{◌⋄◌, ◌==◌, join, repeat, trim_right, sort, str_discrete}
use oro.Base.Dict.{lookup, keys}
use oro.QueryAst.{
  OroError, Any, Anys, nil, cons, slice, null, bool, int, str, other, error, increment, decrement,
  raw_expr, source_ptr, source_val, column_condition, count_condition, json_condition, full_text,
  aggregate, to_list, Map, ConflictSpec, InsertAst, UpdateAst, DeleteAst, Statement, select, insert,
  update, delete, other_statement,
}
use oro.Operators.{one_of}
use oro.Mysql.Ident.{error_of, quote_ident}
use oro.Mysql.Clauses.{Piece, Compiled}
use oro.Mysql.Select.{compile_select, compile_where, clause}

unfoldable pub sorted_keys : Map → List String
sorted_keys row = sort (keys row)

-- value[column], and the zero `any` on a missing key
unfoldable pub get : String → Map → Option Any
unfolding lookup
get column row = lookup str_discrete column row

abbrev comma_or_space : Char → Bool
comma_or_space c = eqb (code c) b',' || eqb (code c) b' '

-- "(?, ?, …)", one placeholder for each column
pub row_placeholder : ℕ → String
unfolding repeat trim_right
row_placeholder n = "(" ⋄ trim_right comma_or_space (repeat "?, " n) ⋄ ")"

unfoldable pub row_arg : Option Any → Result OroError (List Any) → Result OroError (List Any)
row_arg none rest = err (error_of "mysql.insert" invalid_argument "")
row_arg (some item) rest = do more ← rest; ok (item ∷ more)

-- the values of one row, in the order of the columns
unfoldable pub row_args : List String → Map → Result OroError (List Any)
row_args [] row = ok []
row_args (column ∷ columns) row = row_arg (get column row) (row_args columns row)

-- the loop over the rows
unfoldable pub insert_rows : List String → List Map → Result OroError (List String × List Any)
insert_rows columns [] = ok ([], [])
insert_rows columns (row ∷ rows) =
    let rest = insert_rows columns rows in
    if eqb (length row) (length columns)
    then (do
      args ← row_args columns row
      (parts, more) ← rest
      ok (row_placeholder (length columns) ∷ parts, args ++ more))
    else err (error_of "mysql.insert" invalid_argument "")

unfoldable pub plain_insert : String → List Map → Bool → Compiled
plain_insert table [] returning = err (error_of "mysql.insert" invalid_argument "")
plain_insert table (row ∷ rows) returning = do
  (parts, args) ← insert_rows (sorted_keys row) (row ∷ rows)
  ok (
    "insert into "
        ⋄ quote_ident table
        ⋄ " ("
        ⋄ join ", " (map quote_ident (sorted_keys row))
        ⋄ ") values "
        ⋄ join ", " parts
        ⋄ (if returning then " returning *" else ""),
    args,
  )

unfoldable pub compile_set : String → Any → Piece
compile_set column (increment value) =
    (quote_ident column ⋄ " = " ⋄ quote_ident column ⋄ " + ?", value ∷ [])
compile_set column (decrement value) =
    (quote_ident column ⋄ " = " ⋄ quote_ident column ⋄ " - ?", value ∷ [])
compile_set column (raw_expr sql args) = (quote_ident column ⋄ " = " ⋄ sql, to_list args)
compile_set column value = (quote_ident column ⋄ " = ?", value ∷ [])

-- values[column] of a map: Go gives nil for a missing key
unfoldable pub value_of : String → Map → Any
value_of column row = elim (get column row) [ none ↦ null | some value ↦ value ]

unfoldable pub set_parts : List String → Map → List String × List Any
set_parts [] row = ([], [])
set_parts (column ∷ columns) row =
    let (sql, args) = compile_set column (value_of column row) in
    let (parts, more) = set_parts columns row in (sql ∷ parts, args ++ more)

pub keep_unless : (String → Bool) → List String → List String
keep_unless drop [] = []
keep_unless drop (c ∷ cs) = let rest = keep_unless drop cs in if drop c then rest else c ∷ rest

pub conflict_update_all_columns : Map → List String → List String → List String
conflict_update_all_columns row conflict except =
    keep_unless (λ column. one_of column conflict || one_of column except) (sorted_keys row)

pub conflict_update_columns : List String → Map → List String
conflict_update_columns columns row = keep_unless (λ column. not (one_of column (keys row))) columns

-- " on duplicate key update c = c", which changes nothing
pub keep_row : List String → Compiled
keep_row [] = err (error_of "mysql.upsert" invalid_argument "")
keep_row (column ∷ rest) =
    ok (" on duplicate key update " ⋄ quote_ident column ⋄ " = " ⋄ quote_ident column, [])

pub take_new : String → String
take_new column = quote_ident column ⋄ " = VALUES(" ⋄ quote_ident column ⋄ ")"

pub update_fields : List String → List String → Compiled
update_fields [] columns = keep_row columns
update_fields (f ∷ fs) columns =
    ok (" on duplicate key update " ⋄ join ", " (map take_new (sort (f ∷ fs))), [])

pub update_mapped : ConflictSpec → Map → Compiled
update_mapped conflict row = elim conflict.update_map [
  | [] ↦
      update_fields
        (if conflict.update_all
          then conflict_update_all_columns row conflict.columns conflict.update_except
          else conflict_update_columns conflict.update row)
        conflict.columns
  | e ∷ es ↦
      let (sets, args) = set_parts (sorted_keys (e ∷ es)) (e ∷ es) in
      ok (" on duplicate key update " ⋄ join ", " sets, args)
]

pub compile_conflict_update : ConflictSpec → Map → Compiled
compile_conflict_update conflict row =
    if conflict.do_nothing then keep_row conflict.columns else update_mapped conflict row

pub first_row : List Map → Map
first_row [] = []
first_row (row ∷ rows) = row

pub compile_upsert : InsertAst → Compiled
compile_upsert stmt = do
  (sql, args) ← plain_insert stmt.table stmt.rows false
  (update_sql, update_args) ← compile_conflict_update stmt.conflict (first_row stmt.rows)
  ok (sql ⋄ update_sql, args ++ update_args)

-- With no rows both branches give the same error.
unfoldable pub compile_insert : InsertAst → Compiled
compile_insert stmt = elim stmt.conflict.columns [
  | [] ↦ plain_insert stmt.table stmt.rows stmt.returning
  | c ∷ cs ↦ compile_upsert stmt
]

module _ (marshal : Any → Option String) where
  unfoldable pub compile_update : UpdateAst → Compiled
  compile_update stmt = elim stmt.row [
    | [] ↦ err (error_of "mysql.update" invalid_argument "")
    | e ∷ es ↦ (do
      (where_sql, where_args) ← compile_where marshal stmt.conditions
      ok (
        "update "
            ⋄ quote_ident stmt.table
            ⋄ " set "
            ⋄ join ", " (set_parts (sorted_keys stmt.row) stmt.row).0
            ⋄ clause " where " where_sql,
        (set_parts (sorted_keys stmt.row) stmt.row).1 ++ where_args,
      ))
  ]

  unfoldable pub compile_delete : DeleteAst → Compiled
  compile_delete stmt = do
    (where_sql, where_args) ← compile_where marshal stmt.conditions
    ok ("delete from " ⋄ quote_ident stmt.table ⋄ clause " where " where_sql, where_args)

  unfoldable pub compile : Statement → Compiled
  compile (select statement) = compile_select marshal statement
  compile (insert statement) = compile_insert statement
  compile (update statement) = compile_update statement
  compile (delete statement) = compile_delete statement
  compile other_statement = err (error_of "mysql.compile" unsupported "")
