-- ===== src/SqlCache/Escape.antt =====
-- The escape character of a LIKE comparison is not part of the key.
use oro.Base.{Option, some, String, [], ◌∷◌, ok, err, ◌≡◌, refl, false, arith}
use oro.Base.Int.{pos}
use text.Mathlib.TextLemmas.{length-append}
use oro.Base.Text.{◌⋄◌, to_lower, trim_space, str_discrete, ◌==◌, count-ne}
use oro.Base.Dict.{lookup}
use oro.QueryAst.{Any, str}
use oro.Mysql.Ident.{quote_ident}
use oro.Mysql.Write.{compile}
use oro.Mysql.Select.Where.{like_sql}
use oro.Mysql.Write.Likes.{delete_like, compile-delete_like, compile-delete_like_escape}
use oro.Mysql.Conditions.{op_kind}
use oro.Fifo.{Cache, get, set, new}
use oro.Fifo.Eviction.{get-set_self}
use oro.SqlCache.{Dialect, compile_statement_sql, compile_fresh, get_sql, set_sql, new_sql_cache}
use oro.SqlCache.Keys.{lightweight_sql_cache_key, delete_sql_cache_key}
use oro.SqlCache.Conditions.{
  simple_condition_args, simple_conditions_args, simple_condition, more_shapes,
}

-- the dialect of driver/mysql
abbrev pub mysql : (Any → Option String) → Dialect
mysql marshal = record {
  name = "mysql";
  compile = λ statement. elim (compile marshal statement) [
    | err error ↦ err error
    | ok piece ↦ ok (record { sql = piece.0; args = piece.1 })
  ];
}

abbrev delete_sql : String → String → String
delete_sql table condition = "delete from " ⋄ quote_ident table ⋄ " where " ⋄ condition

abbrev key_of : String → String → String
key_of table field =
    "d|" ⋄ "mysql" ⋄ "|" ⋄ table ⋄ "|w:" ⋄ "[" ⋄ "" ⋄ "|" ⋄ (field ⋄ "|" ⋄ "like") ⋄ "]" ⋄ ""

key-delete_like :
    (marshal : Any → Option String) (table field value escape : String)
    → lightweight_sql_cache_key marshal "mysql" (delete_like table field value escape)
      ≡ some (key_of table field, str value ∷ [])
unfolding lightweight_sql_cache_key delete_sql_cache_key simple_condition_args
    simple_conditions_args simple_condition more_shapes op_kind to_lower trim_space
key-delete_like marshal table field value escape = refl

key_of-ne : (table field : String) → (key_of table field == "") ≡ false
key_of-ne table field = count-ne (key_of table field) (omega (arith, length-append "d|" _))

delete_sql-ne : (table condition : String) → (delete_sql table condition == "") ≡ false
delete_sql-ne table condition =
    count-ne (delete_sql table condition) (omega (arith, length-append "delete from " _))

abbrev empty : Cache String String
empty = record { max_size = 1; items = []; order = []; on_evict = false }

-- the cache after the first statement
first_cached :
    (marshal : Any → Option String) (table field value : String)
    → (compile_statement_sql marshal
        (mysql marshal)
        (delete_like table field value "")
        (new_sql_cache (pos 1))).0
      ≡ (set str_discrete
          (new_sql_cache (pos 1))
          (key_of table field)
          (delete_sql table (like_sql field))).0
unfolding compile_statement_sql compile_fresh new_sql_cache get_sql set_sql new get lookup
first_cached marshal table field value =
    rw (compile_statement_sql, key-delete_like marshal table field value "", key_of-ne table field)
      (rw
        (
          compile_fresh,
          compile-delete_like marshal table field value,
          set_sql,
          key_of-ne table field,
          delete_sql-ne table (like_sql field),
        )
        refl)

-- Once a comparison by LIKE without an escape character has been compiled and cached, the statement
-- that differs only by the escape character `\` is answered with the SQL of the first, which is not
-- what it compiles to.
pub compile_statement_sql-escape :
    (marshal : Any → Option String) (table field value other : String)
    → (compile marshal (delete_like table field value "\\")
        ≡ ok (delete_sql table (like_sql field ⋄ " escape '\\'"), str value ∷ []))
      × ((compile_statement_sql marshal
            (mysql marshal)
            (delete_like table field value "\\")
            (compile_statement_sql marshal
              (mysql marshal)
              (delete_like table field other "")
              (new_sql_cache (pos 1))).0).1
          ≡ ok (record { sql = delete_sql table (like_sql field); args = str value ∷ [] }))
unfolding compile_statement_sql compile_fresh get quote_ident str_discrete new_sql_cache new
compile_statement_sql-escape marshal table field value other = (
  compile-delete_like_escape marshal table field value,
  rw
      (
        compile_statement_sql,
        key-delete_like marshal table field value "\\",
        first_cached marshal table field other,
      )
      (rw
        (
          key_of-ne table field,
          get-set_self str_discrete empty (key_of table field) (delete_sql table (like_sql field)),
        )
        refl),
)
