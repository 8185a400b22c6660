-- ===== src/Mysql/Write/Bound.antt =====
-- The statements that write bind one argument for each of their placeholders.
use oro.Base.{
  ◌≡◌, refl, false, String, List, [], ◌∷◌, ◌++◌, length-append, Option, ok, err, ◌>>=◌, arith,
}
use oro.Base.Text.{◌⋄◌, join}
use oro.QueryAst.{
  Any, Map, InsertAst, UpdateAst, Statement, select, insert, update, delete, other_statement,
}
use oro.Mysql.Ident.{quote_ident}
use oro.Mysql.Scan.{lit, ◌▹◌, Frag-count, join-Frag, quote_ident-Frag, scan}
use oro.Mysql.Clauses.{Compiled}
use oro.Mysql.Clauses.Bound.{Bound}
use oro.Mysql.Select.{clause}
use oro.Mysql.Select.Ready.{ConditionsReady, SelectReady}
use oro.Mysql.Select.Bound.{where-Bound, select-Bound, clause_where-Frag}
use oro.Mysql.Write.{
  sorted_keys, plain_insert, set_parts, first_row, compile_upsert, compile_insert, compile_update,
  compile_delete, compile,
}
use oro.Mysql.Write.Rows.{plain_insert-Bound}
use oro.Mysql.Write.Sets.{MapReady, set_parts-Parts, conflict-Bound}

then-Bound :
    (m n : Compiled)
    → Bound m
    → Bound n
    → Bound (do (sql, args) ← m; (more_sql, more_args) ← n; ok (sql ⋄ more_sql, args ++ more_args))
then-Bound (ok (sql, args)) (ok (more_sql, more_args)) h g =
    Frag-count (omega (arith, length-append args more_args)) (h ▹ g)
then-Bound (ok _) (err e) h g = tt
then-Bound (err e) n h g = tt

insert-Bound_go :
    (stmt : InsertAst) (columns : List String)
    → stmt.conflict.columns ≡ columns
    → MapReady stmt.conflict.update_map
    → Bound (compile_insert stmt)
unfolding compile_upsert compile_insert plain_insert
insert-Bound_go stmt [] e h =
    rw (e, compile_insert) (plain_insert-Bound stmt.table stmt.rows stmt.returning)
insert-Bound_go stmt (c ∷ cs) e h =
    rw (e, compile_insert)
      (then-Bound _ _ (plain_insert-Bound stmt.table stmt.rows false)
        (conflict-Bound stmt.conflict (first_row stmt.rows) h))

-- The raw texts of a statement have a placeholder for each of their arguments, and what is written as
-- it is given has none (Select/Ready).
abbrev pub StatementReady : Statement → Type 0
StatementReady (select q) = SelectReady q
StatementReady (insert stmt) = MapReady stmt.conflict.update_map
StatementReady (update stmt) = MapReady stmt.row × ConditionsReady stmt.conditions
StatementReady (delete stmt) = ConditionsReady stmt.conditions
StatementReady other_statement = Unit

module _ (marshal : Any → Option String) where
  set_where-Bound :
      (table : String) (columns : List String) (row : Map) (m : Compiled)
      → MapReady row
      → Bound m
      → Bound (do
        (where_sql, where_args) ← m
        ok (
          "update "
              ⋄ quote_ident table
              ⋄ " set "
              ⋄ join ", " (set_parts columns row).0
              ⋄ clause " where " where_sql,
          (set_parts columns row).1 ++ where_args,
        ))
  unfolding scan
  set_where-Bound table columns row (ok (sql, args)) h g =
      Frag-count (omega (arith, length-append (set_parts columns row).1 args)) (
        lit "update " refl
        ▹ quote_ident-Frag table
        ▹ lit " set " refl
        ▹ join-Frag (lit ", " refl) (set_parts-Parts columns row h)
        ▹ clause_where-Frag sql args g)
  set_where-Bound table columns row (err e) h g = tt

  update-Bound :
      (stmt : UpdateAst) (row : Map)
      → stmt.row ≡ row
      → MapReady stmt.row
      → ConditionsReady stmt.conditions
      → Bound (compile_update marshal stmt)
  unfolding compile_update
  update-Bound stmt [] e h g = rw (e, compile_update) tt
  update-Bound stmt (x ∷ xs) e h g =
      rw (e, compile_update)
        (set_where-Bound stmt.table (sorted_keys stmt.row) stmt.row _ h
          (where-Bound marshal stmt.conditions g))

  delete_where-Bound :
      (table : String) (m : Compiled)
      → Bound m
      → Bound
          (do (sql, args) ← m; ok ("delete from " ⋄ quote_ident table ⋄ clause " where " sql, args))
  unfolding scan
  delete_where-Bound table (ok (sql, args)) h =
      Frag-count (omega arith)
        (lit "delete from " refl ▹ quote_ident-Frag table ▹ clause_where-Frag sql args h)
  delete_where-Bound table (err e) h = tt

  -- Every ready statement compiles to SQL that closes every quote and has exactly as many placeholders
  -- as arguments, or to an error. A statement is ready if each raw text (a condition, an order, a select
  -- expression, a source, a join, a value that is set) closes its quotes and has one placeholder for
  -- each argument that comes with it, an order item that is not raw comes with no arguments, the
  -- connectives and operators of joins, the operators of counts and the aggregate functions close
  -- their quotes and have no placeholder, and no comparison has an ESCAPE clause. Table, column and alias names and values may be anything.
  pub compile-Bound : (stmt : Statement) → StatementReady stmt → Bound (compile marshal stmt)
  unfolding compile compile_delete
  compile-Bound (select q) h = select-Bound marshal q h
  compile-Bound (insert stmt) h = insert-Bound_go stmt stmt.conflict.columns refl h
  compile-Bound (update stmt) h = update-Bound stmt stmt.row refl h.0 h.1
  compile-Bound (delete stmt) h =
      delete_where-Bound stmt.table _ (where-Bound marshal stmt.conditions h)
  compile-Bound other_statement h = tt
