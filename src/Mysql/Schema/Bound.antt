-- ===== src/Mysql/Schema/Bound.antt =====
-- The texts of the schema statements close their quotes.
use oro.Base.{
  ℕ, suc, ◌≡◌, refl, Bool, true, false, not, ◌&&◌, String, List, [], ◌∷◌, Option, none, some,
  Result, ok, err, if◌then◌else◌, if_cases, eqb, arith, All, invalid_argument,
}
use Prim.Native.Char.{code}
use oro.Base.Int.{ℤ, pos, negsuc, ltb_ℤ}
use oro.Base.Text.{◌⋄◌, ◌==◌, join, replace_all, contains}
use oro.Operators.{one_of}
use oro.QueryAst.{
  OroError, Any, null, bool, str, int, other, slice, error, increment, decrement, raw_expr,
  source_ptr, source_val, column_condition, count_condition, json_condition, full_text, aggregate,
}
use oro.Meta.{
  DefaultSpec, ColumnSpec, IndexSpec, TableSpec, SchemaChange, SchemaChangeKind, create_table,
  add_column, create_index, unsafe_change, rename_column, other_change,
}
use oro.Mysql.Ident.{error_of, quote_ident}
use oro.Mysql.Scan.{
  Frag, lit, ◌▹◌, Parts, none_left, part, join-Frag, quote_ident-Frag, quoted-Parts, itoa-Frag,
  scan, scan-append, string,
}
use oro.Mysql.Schema.{
  format_int, varchar, decimal_type, other_type, case_of, type_cases, data_type, schema_string,
  quote_string, default_value, when, compile_default, default_part, column_parts, compile_column,
  create_table_columns, compile_create_table, compile_create_index, rename_sql, schema_of,
  compile_schema,
}

-- Without this, a backslash of the text would hide the quote behind it.
unfoldable pub has_backslash : String → Bool
has_backslash String.[] = false
has_backslash (String.◌∷◌ c s) = if eqb (code c) b'\\' then true else has_backslash s

doubled-scan :
    (s : String) → has_backslash s ≡ false → scan string (replace_all s b'\'' "''") ≡ (string, 0)
unfolding scan replace_all has_backslash
doubled-scan String.[] h = refl
doubled-scan (String.◌∷◌ c s) h =
    if_cases (λ b. b ≡ false → scan string (replace_all (String.◌∷◌ c s) b'\'' "''") ≡ (string, 0))
      (eqb (code c) b'\\') (λ _ e. cc)
      (λ plain_char rest.
        if_cases (λ r. scan string r ≡ (string, 0)) (eqb (code c) b'\'')
          (λ e. rw (scan-append, doubled-scan s rest) refl)
          (λ e. ground (arith, doubled-scan s rest)))
      h

pub schema_string-Frag : (s : String) → has_backslash s ≡ false → Frag (schema_string s) 0
unfolding schema_string scan
schema_string-Frag s h = record { at = rw (scan-append, scan-append, doubled-scan s h) refl }

quote_string-Frag : (s : String) → has_backslash s ≡ false → Frag (quote_string s) 0
unfolding quote_string scan
quote_string-Frag s h = record { at = rw (scan-append, scan-append, doubled-scan s h) refl }

choose : {x y : String} {k : ℕ} (b : Bool) → Frag x k → Frag y k → Frag (if b then x else y) k
choose true f g = f
choose false f g = g

format_int-Frag : (i : ℤ) → Frag (format_int i) 0
unfolding scan
format_int-Frag (pos n) = itoa-Frag n
format_int-Frag (negsuc n) = lit "-" refl ▹ itoa-Frag (suc n)

varchar-Frag : (size : ℤ) → Frag (varchar size) 0
unfolding varchar scan
varchar-Frag size =
    choose (ltb_ℤ (pos 0) size) (lit "varchar(" refl ▹ format_int-Frag size ▹ lit ")" refl)
      (lit "varchar(255)" refl)

decimal_type-Frag : (precision scale : ℤ) → Frag (decimal_type precision scale) 0
unfolding decimal_type scan
decimal_type-Frag precision scale =
    choose (ltb_ℤ (pos 0) precision)
      (lit "decimal(" refl
        ▹ format_int-Frag precision
        ▹ lit "," refl
        ▹ format_int-Frag scale
        ▹ lit ")" refl)
      (lit "decimal" refl)

abbrev AllPlain : List (List String × String) → Type 0
AllPlain cases = All (λ c. Frag c.1 0) cases

case_of-Frag :
    (type : String) (cases : List (List String × String)) (otherwise : String)
    → AllPlain cases
    → Frag otherwise 0
    → Frag (case_of type cases otherwise) 0
unfolding case_of
case_of-Frag type [] otherwise h g = g
case_of-Frag type ((names, sql) ∷ cases) otherwise h g =
    choose (one_of type names) h.0 (case_of-Frag type cases otherwise h.1 g)

other_type-Frag : (type : String) (precision scale : ℤ) → Frag (other_type type precision scale) 0
unfolding other_type scan
other_type-Frag type precision scale = choose (contains type "time.Time") (lit "datetime" refl) (
    choose (contains type "Decimal") (decimal_type-Frag precision scale)
      (choose (contains type "JSON") (lit "json" refl) (lit "text" refl)))

data_type-Frag : (column : ColumnSpec) → Frag (data_type column) 0
unfolding data_type scan
data_type-Frag column =
    let name = varchar-Frag column.size in
    case_of-Frag column.type (type_cases column.size column.precision column.scale) _
      (
        name,
        (
          lit "text" refl,
          (
            lit "boolean" refl,
            (
              lit "int" refl,
              (
                lit "int unsigned" refl,
                (
                  lit "bigint unsigned" refl,
                  (
                    lit "bigint" refl,
                    (
                      decimal_type-Frag column.precision column.scale,
                      (
                        lit "float" refl,
                        (
                          lit "double" refl,
                          (
                            lit "blob" refl,
                            (
                              lit "json" refl,
                              (
                                lit "char(36)" refl,
                                (
                                  lit "datetime" refl,
                                  (
                                    lit "date" refl,
                                    (lit "time" refl, (name, (lit "point" refl, tt))),
                                  ),
                                ),
                              ),
                            ),
                          ),
                        ),
                      ),
                    ),
                  ),
                ),
              ),
            ),
          ),
        ),
      )
      (other_type-Frag column.type column.precision column.scale)

pub create_index-Frag :
    (table : String) (index : IndexSpec) → Frag (compile_create_index table index) 0
unfolding compile_create_index scan
create_index-Frag table index =
    let columns = join-Frag (lit ", " refl) (quoted-Parts index.fields) in
    choose index.full_text
      (lit "create fulltext index " refl
        ▹ quote_ident-Frag index.name
        ▹ lit " on " refl
        ▹ quote_ident-Frag table
        ▹ lit " (" refl
        ▹ columns
        ▹ lit ")" refl)
      (lit "create " refl
        ▹ choose index.unique (lit "unique " refl) (lit "" refl)
        ▹ lit "index " refl
        ▹ quote_ident-Frag index.name
        ▹ lit " on " refl
        ▹ quote_ident-Frag table
        ▹ lit " (" refl
        ▹ columns
        ▹ lit ")" refl)

module _ (spelled : Any → Option String) (sprint : Any → String) where
  -- Text that goes into a string has no backslash, and an expression closes its quotes.
  abbrev pub ValueReady : Any → Type 0
  ValueReady null = Unit
  ValueReady (bool b) = Unit
  ValueReady (int i) = Unit
  ValueReady (str value) = has_backslash value ≡ false
  ValueReady value = Frag (default_value spelled sprint value) 0

  abbrev pub DefaultReady : Option DefaultSpec → Type 0
  DefaultReady none = Unit
  DefaultReady (some default) =
      if not (default.expr == "") then Frag default.expr 0 else ValueReady default.value

  abbrev pub ColumnReady : ColumnSpec → Type 0
  ColumnReady column = DefaultReady column.default × (has_backslash column.comment ≡ false)

  abbrev pub ChangeReady : SchemaChange → Type 0
  ChangeReady change = All ColumnReady change.table.columns × ColumnReady change.column

  abbrev pub Closed : Result OroError (List String) → Type 0
  Closed (ok sqls) = All (λ sql. Frag sql 0) sqls
  Closed (err e) = Unit

  when-Parts :
      {p : String} {ps : List String} (b : Bool) → Frag p 0 → Parts ps 0 → Parts (when b p ps) 0
  when-Parts true f r = part f r
  when-Parts false f r = r

  value-Frag : (value : Any) → ValueReady value → Frag (default_value spelled sprint value) 0
  unfolding default_value scan
  value-Frag null h = lit "null" refl
  value-Frag (bool true) h = lit "true" refl
  value-Frag (bool false) h = lit "false" refl
  value-Frag (int i) h = format_int-Frag i
  value-Frag (str value) h = quote_string-Frag value h
  value-Frag (other id) h = h
  value-Frag (slice values) h = h
  value-Frag (error e) h = h
  value-Frag (increment value) h = h
  value-Frag (decrement value) h = h
  value-Frag (raw_expr sql args) h = h
  value-Frag (source_ptr source) h = h
  value-Frag (source_val source) h = h
  value-Frag (column_condition op rhs) h = h
  value-Frag (count_condition s op value) h = h
  value-Frag (json_condition field parts op value) h = h
  value-Frag (full_text fields text) h = h
  value-Frag (aggregate func field) h = h

  default-Frag :
      (default : DefaultSpec)
      → DefaultReady (some default)
      → Frag (compile_default spelled sprint default) 0
  unfolding compile_default
  default-Frag default h = chosen (not (default.expr == "")) h
    where
      chosen :
          (b : Bool)
          → (if b then Frag default.expr 0 else ValueReady default.value)
          → Frag (if b then default.expr else default_value spelled sprint default.value) 0
      chosen true f = f
      chosen false v = value-Frag default.value v

  default_part-Parts :
      (default : Option DefaultSpec) {ps : List String}
      → DefaultReady default
      → Parts ps 0
      → Parts (default_part spelled sprint default ps) 0
  unfolding default_part scan
  default_part-Parts none h r = r
  default_part-Parts (some default) h r = part (lit "default " refl ▹ default-Frag default h) r

  column-Frag :
      (column : ColumnSpec) (primary : Bool)
      → ColumnReady column
      → Frag (compile_column spelled sprint column primary) 0
  unfolding compile_column column_parts scan
  column-Frag column primary h = join-Frag (lit " " refl) (
      part (quote_ident-Frag column.column_name) (
        part (data_type-Frag column) (
          when-Parts (primary && column.primary)
            (choose (contains column.type "int") (lit "primary key auto_increment" refl)
              (lit "primary key" refl))
            (when-Parts (not column.nullable && not column.primary) (lit "not null" refl) (
              default_part-Parts column.default h.0 (
                when-Parts (not (column.comment == ""))
                  (lit "comment " refl ▹ schema_string-Frag column.comment h.1) none_left))))))

  columns-Parts :
      (columns : List ColumnSpec)
      → All ColumnReady columns
      → Parts (create_table_columns spelled sprint columns) 0
  unfolding create_table_columns
  columns-Parts [] h = none_left
  columns-Parts (c ∷ cs) h = part (column-Frag c true h.0) (columns-Parts cs h.1)

  create_table-Closed :
      (table : TableSpec)
      → All ColumnReady table.columns
      → Closed (compile_create_table spelled sprint table)
  unfolding compile_create_table scan
  create_table-Closed table h =
      if_cases Closed (table.name == "") (λ _. tt) (λ _. some_columns table.columns h)
    where
      some_columns :
          (columns : List ColumnSpec)
          → All ColumnReady columns
          → Closed (elim columns [
            | [] ↦ err (error_of "mysql.schema" invalid_argument "")
            | c ∷ cs ↦ ok (
                ("create table if not exists "
                  ⋄ quote_ident table.name
                  ⋄ " ("
                  ⋄ join ", " (create_table_columns spelled sprint (c ∷ cs))
                  ⋄ ")")
                ∷ [])
          ])
      some_columns [] h = tt
      some_columns (c ∷ cs) h = (
        lit "create table if not exists " refl
            ▹ quote_ident-Frag table.name
            ▹ lit " (" refl
            ▹ join-Frag (lit ", " refl) (columns-Parts (c ∷ cs) h)
            ▹ lit ")" refl,
        tt,
      )

  rename-Closed : (change : SchemaChange) → Closed (rename_sql spelled sprint change)
  unfolding rename_sql scan
  rename-Closed change =
      if_cases Closed (change.current.column_name == "") (λ _. tt)
        (λ _.
          if_cases Closed (change.column.column_name == "") (λ _. tt)
            (λ _. (
              lit "alter table " refl
                  ▹ quote_ident-Frag change.table.name
                  ▹ lit " rename column " refl
                  ▹ quote_ident-Frag change.current.column_name
                  ▹ lit " to " refl
                  ▹ quote_ident-Frag change.column.column_name,
              tt,
            )))

  schema_of-Closed :
      (kind : SchemaChangeKind) (change : SchemaChange)
      → ChangeReady change
      → Closed (schema_of spelled sprint kind change)
  unfolding schema_of scan
  schema_of-Closed create_table change h = create_table-Closed change.table h.0
  schema_of-Closed add_column change h = (
    lit "alter table " refl
        ▹ quote_ident-Frag change.table.name
        ▹ lit " add column " refl
        ▹ column-Frag change.column false h.1,
    tt,
  )
  schema_of-Closed create_index change h = (create_index-Frag change.table.name change.index, tt)
  schema_of-Closed rename_column change h = rename-Closed change
  schema_of-Closed unsafe_change change h = tt
  schema_of-Closed other_change change h = tt

  -- The statements for a schema change close every quote and have no placeholder, if no comment and no
  -- string default of the change's columns contains a backslash and the other default expressions are
  -- such texts themselves. Names of tables, columns and indexes may be any text.
  pub compile_schema-Closed :
      (change : SchemaChange) → ChangeReady change → Closed (compile_schema spelled sprint change)
  unfolding compile_schema
  compile_schema-Closed change h = schema_of-Closed change.kind change h
