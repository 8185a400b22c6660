-- ===== src/Mysql/Schema.antt =====
-- CompileSchema and DataType of driver/mysql/dialect.go, and internal/sqlformat/default.go, which writes
-- a default value of type `any` as SQL. Of the values that `Any` does not tell apart, `spelled` is the
-- text of a []byte, a time.Time or a fmt.Stringer, and `sprint` is fmt.Sprint of the rest.
pub mod Bound
use oro.Base.{
  suc, Bool, true, false, not, ◌&&◌, String, List, [], ◌∷◌, map, Option, none, some, Result, ok,
  err, ◌>>=◌, if◌then◌else◌, unsafe_schema_change, unsupported, invalid_argument,
}
use oro.Base.Int.{ℤ, pos, negsuc, ltb_ℤ}
use oro.Base.Text.{◌⋄◌, ◌==◌, join, replace_all, contains, itoa}
use oro.Operators.{one_of}
use oro.QueryAst.{OroError, Any, null, bool, str, int}
use oro.Meta.{
  DefaultSpec, ColumnSpec, IndexSpec, TableSpec, SchemaChangeKind, create_table, add_column,
  create_index, unsafe_change, rename_column, other_change, SchemaChange,
}
use oro.Mysql.Ident.{error_of, quote_ident}

-- `fmt` with %d
abbrev pub format_int : ℤ → String
format_int (pos n) = itoa n
format_int (negsuc n) = "-" ⋄ itoa (suc n)

abbrev is_positive : ℤ → Bool
is_positive = ltb_ℤ (pos 0)

pub varchar : ℤ → String
varchar size = if is_positive size then "varchar(" ⋄ format_int size ⋄ ")" else "varchar(255)"

pub decimal_type : ℤ → ℤ → String
decimal_type precision scale =
    if is_positive precision
    then "decimal(" ⋄ format_int precision ⋄ "," ⋄ format_int scale ⋄ ")"
    else "decimal"

-- the default branch of the switch
pub other_type : String → ℤ → ℤ → String
unfolding decimal_type
other_type type precision scale =
    if contains type "time.Time"
    then "datetime"
    else if contains type "Decimal"
    then decimal_type precision scale
    else if contains type "JSON"
    then "json"
    else "text"

-- the first `case` that lists the type
pub case_of : String → List (List String × String) → String → String
unfolding one_of
case_of type [] other = other
case_of type ((names, sql) ∷ cases) other =
    if one_of type names then sql else case_of type cases other

-- the cases of the switch, by the SQL that they return
abbrev pub type_cases : ℤ → ℤ → ℤ → List (List String × String)
type_cases size precision scale =
    ("string" ∷ [], varchar size)
    ∷ ("text" ∷ [], "text")
    ∷ ("bool" ∷ [], "boolean")
    ∷ ("int" ∷ "int32" ∷ [], "int")
    ∷ ("uint" ∷ "uint32" ∷ [], "int unsigned")
    ∷ ("uint64" ∷ [], "bigint unsigned")
    ∷ ("int64" ∷ [], "bigint")
    ∷ ("decimal" ∷ [], decimal_type precision scale)
    ∷ ("float" ∷ [], "float")
    ∷ ("double" ∷ [], "double")
    ∷ ("binary" ∷ [], "blob")
    ∷ ("json" ∷ "string_array" ∷ "int_array" ∷ [], "json")
    ∷ ("uuid" ∷ [], "char(36)")
    ∷ ("time.Time" ∷ [], "datetime")
    ∷ ("date" ∷ [], "date")
    ∷ ("time" ∷ [], "time")
    ∷ ("enum" ∷ "email" ∷ "url" ∷ "ip" ∷ "mac" ∷ "phone" ∷ "slug" ∷ "color" ∷ [], varchar size)
    ∷ ("point" ∷ [], "point")
    ∷ []

-- DataType, which never fails
pub data_type : ColumnSpec → String
unfolding case_of other_type
data_type column =
    case_of column.type (type_cases column.size column.precision column.scale)
      (other_type column.type column.precision column.scale)

pub schema_string : String → String
schema_string value = "'" ⋄ replace_all value b'\'' "''" ⋄ "'"

-- QuoteString of internal/sqlformat/default.go
pub quote_string : String → String
quote_string value = "'" ⋄ replace_all value b'\'' "''" ⋄ "'"

-- DefaultValue of internal/sqlformat/default.go
pub default_value : (Any → Option String) → (Any → String) → Any → String
unfolding quote_string
default_value spelled sprint null = "null"
default_value spelled sprint (bool true) = "true"
default_value spelled sprint (bool false) = "false"
default_value spelled sprint (str value) = quote_string value
default_value spelled sprint (int value) = format_int value
default_value spelled sprint value = elim (spelled value) [
  | some value' ↦ quote_string value'
  | none ↦ sprint value
]

abbrev is_integer_type : String → Bool
is_integer_type type = contains type "int"

abbrev pub when : Bool → String → List String → List String
when b part parts = if b then part ∷ parts else parts

pub compile_create_index : String → IndexSpec → String
compile_create_index table index =
    let columns = join ", " (map quote_ident index.fields) in
    if index.full_text
    then "create fulltext index "
      ⋄ quote_ident index.name
      ⋄ " on "
      ⋄ quote_ident table
      ⋄ " ("
      ⋄ columns
      ⋄ ")"
    else "create "
      ⋄ (if index.unique then "unique " else "")
      ⋄ "index "
      ⋄ quote_ident index.name
      ⋄ " on "
      ⋄ quote_ident table
      ⋄ " ("
      ⋄ columns
      ⋄ ")"

module _ (spelled : Any → Option String) (sprint : Any → String) where
  pub compile_default : DefaultSpec → String
  unfolding default_value
  compile_default default =
      if not (default.expr == "") then default.expr else default_value spelled sprint default.value

  default_part : Option DefaultSpec → List String → List String
  unfolding compile_default
  default_part none parts = parts
  default_part (some default) parts = ("default " ⋄ compile_default default) ∷ parts

  pub column_parts : ColumnSpec → Bool → List String
  unfolding data_type default_part schema_string
  column_parts column allow_primary =
      quote_ident column.column_name
      ∷ data_type column
      ∷ when (allow_primary && column.primary)
          (if is_integer_type column.type then "primary key auto_increment" else "primary key")
          (when (not column.nullable && not column.primary) "not null" (
            default_part column.default
              (when (not (column.comment == "")) ("comment " ⋄ schema_string column.comment) [])))

  pub compile_column : ColumnSpec → Bool → String
  unfolding column_parts
  compile_column column allow_primary = join " " (column_parts column allow_primary)

  pub create_table_columns : List ColumnSpec → List String
  unfolding compile_column
  create_table_columns [] = []
  create_table_columns (column ∷ columns) =
      compile_column column true ∷ create_table_columns columns

  pub compile_create_table : TableSpec → Result OroError (List String)
  unfolding create_table_columns
  compile_create_table table =
      if table.name == ""
      then err (error_of "mysql.schema" invalid_argument "")
      else elim table.columns [
        | [] ↦ err (error_of "mysql.schema" invalid_argument "")
        | c ∷ cs ↦ ok (
            ("create table if not exists "
              ⋄ quote_ident table.name
              ⋄ " ("
              ⋄ join ", " (create_table_columns (c ∷ cs))
              ⋄ ")")
            ∷ [])
      ]

  rename_sql : SchemaChange → Result OroError (List String)
  rename_sql change =
      if change.current.column_name == ""
      then err (error_of "mysql.schema" invalid_argument "")
      else if change.column.column_name == ""
      then err (error_of "mysql.schema" invalid_argument "")
      else ok (
          ("alter table "
            ⋄ quote_ident change.table.name
            ⋄ " rename column "
            ⋄ quote_ident change.current.column_name
            ⋄ " to "
            ⋄ quote_ident change.column.column_name)
          ∷ [])

  -- The statements bind no arguments, so each is its SQL alone.
  schema_of : SchemaChangeKind → SchemaChange → Result OroError (List String)
  unfolding compile_create_table compile_column compile_create_index rename_sql
  schema_of create_table change = compile_create_table change.table
  schema_of add_column change = ok (
      ("alter table "
        ⋄ quote_ident change.table.name
        ⋄ " add column "
        ⋄ compile_column change.column false)
      ∷ [])
  schema_of create_index change = ok (compile_create_index change.table.name change.index ∷ [])
  schema_of rename_column change = rename_sql change
  schema_of unsafe_change change = err (error_of "mysql.schema" unsafe_schema_change "")
  schema_of other_change change = err (error_of "mysql.schema" unsupported "")

  pub compile_schema : SchemaChange → Result OroError (List String)
  unfolding schema_of
  compile_schema change = schema_of change.kind change
