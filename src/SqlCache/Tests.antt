-- ===== src/SqlCache/Tests.antt =====
-- A comparison by LIKE, compiled twice.
use oro.Base.{String, Option, none, [], ◌∷◌, ok, ◌≡◌}
use oro.Base.Int.{pos}
use oro.Base.Text.{◌⋄◌}
use oro.QueryAst.{Any, str}
use oro.Mysql.Ident.{quote_ident}
use oro.Mysql.Write.{compile}
use oro.Mysql.Write.Likes.{delete_like, compile-delete_like}
use oro.Mysql.Select.Where.{like_sql}
use oro.SqlCache.{SqlCache, new_sql_cache, compile_statement_sql}
use oro.SqlCache.Escape.{mysql, compile_statement_sql-escape}
use oro.SqlCache.Hits.{compile_statement_sql-args}

abbrev marshal : Any → Option String
marshal value = none

abbrev cache : SqlCache
cache =
    (compile_statement_sql marshal (mysql marshal) (delete_like "users" "name" "bob" "")
      (new_sql_cache (pos 1))).0

compile_statement_sql-args_example :
    (sql : String) × ((compile_statement_sql marshal
        (mysql marshal)
        (delete_like "users" "name" "ann" "")
        cache).1
      ≡ ok (record { sql = sql; args = str "ann" ∷ [] }))
compile_statement_sql-args_example =
    compile_statement_sql-args marshal (delete_like "users" "name" "ann" "") cache
      ("delete from " ⋄ quote_ident "users" ⋄ " where " ⋄ like_sql "name", str "ann" ∷ []) tt
      (compile-delete_like marshal "users" "name" "ann")

compile_statement_sql-escape_example :
    (compile marshal (delete_like "users" "name" "50\\%" "\\")
      ≡ ok ("delete from `users` where `name` like ? escape '\\'", str "50\\%" ∷ []))
    × ((compile_statement_sql marshal
          (mysql marshal)
          (delete_like "users" "name" "50\\%" "\\")
          cache).1
        ≡ ok (record { sql = "delete from `users` where `name` like ?"; args = str "50\\%" ∷ [] }))
unfolding quote_ident
compile_statement_sql-escape_example =
    compile_statement_sql-escape marshal "users" "name" "50\\%" "bob"
