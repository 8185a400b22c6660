-- ===== src/SqlCache/Hits.antt =====
-- The arguments that go with a hit are those of the compiled statement.
use oro.Base.{
  Option, none, some, String, List, [], ◌∷◌, ◌++◌, ok, err, ◌>>=◌, ◌≡◌, refl, sym, ap, ◌∙◌, arith,
  inl, inr, Option-cases,
}
use oro.QueryAst.{
  Any, Conditions, Map, DeleteAst, UpdateAst, Statement, select, insert, update, delete,
  other_statement, select_ast,
}
use oro.Mysql.Clauses.{Piece, Compiled}
use oro.Mysql.Select.{compile_where}
use oro.Mysql.Write.{
  compile, compile_delete, compile_update, compile_set, set_parts, value_of, get, sorted_keys,
}
use oro.SqlCache.Conditions.{simple_conditions_args}
use oro.SqlCache.Keys.{
  delete_sql_cache_key, update_sql_cache_key, simple_set_value, column_value, more_sets, set_shapes,
  sorted_sql_map_keys,
}
use oro.SqlCache.Keys.{lightweight_sql_cache_key}
use oro.SqlCache.{SqlCache, compile_statement_sql, compile_fresh, get_sql}
use oro.SqlCache.Escape.{mysql}
use oro.SqlCache.Rows.{insert-args}
use oro.SqlCache.Selects.{select-args, IsPlain}
use oro.SqlCache.Pieces.{Nested}
use oro.SqlCache.Bound.{compile_where-args}

set-args :
    (column : String) (value : Any) (args : List Any) (shape : String)
    → simple_set_value value ≡ some (args, shape)
    → (compile_set column value).1 ≡ args
unfolding simple_set_value compile_set
set-args column value args shape simple = ground arith

more_sets-args :
    (column : String) (one more : Option (List Any × String)) (xs ys args : List Any)
    (shape : String)
    → ((as' : List Any) (s : String) → one ≡ some (as', s) → xs ≡ as')
    → ((bs : List Any) (t : String) → more ≡ some (bs, t) → ys ≡ bs)
    → more_sets column one more ≡ some (args, shape)
    → xs ++ ys ≡ args
unfolding more_sets
more_sets-args column none more xs ys args shape f g simple = absurd cc
more_sets-args column (some x) none xs ys args shape f g simple = absurd cc
more_sets-args column (some (as', s)) (some (bs, t)) xs ys args shape f g simple =
    let whole : as' ++ bs ≡ args = cc in
    ap (λ l. l ++ ys) (f as' s refl) ∙ ap (λ l. as' ++ l) (g bs t refl) ∙ whole

sets-args :
    (columns : List String) (row : Map) (args : List Any) (shape : String)
    → set_shapes columns row ≡ some (args, shape)
    → (set_parts columns row).1 ≡ args
unfolding set_shapes set_parts value_of column_value get
sets-args [] row args shape simple = cc
sets-args (column ∷ columns) row args shape simple =
    more_sets-args column (simple_set_value (column_value column row)) (set_shapes columns row) _ _
      args shape (λ as' s e. set-args column (column_value column row) as' s e)
      (λ bs t e. sets-args columns row bs t e) simple

-- the arguments of a statement with a WHERE, after those in front
filtered-args :
    (before front : List Any) (make : String → String) (label : String → String)
    (filters : Compiled) (shapes : Option (List Any × String)) (p : Piece) (key : String)
    (args : List Any)
    → before ≡ front
    → Nested filters shapes
    → (filters >>= (λ q. ok (make q.0, before ++ q.1))) ≡ ok p
    → ◌≡◌ {A = Option (String × List Any)}
        (elim shapes [ none ↦ none | some shape ↦ some (label shape.1, front ++ shape.0) ])
        (some (key, args))
    → p.1 ≡ args
filtered-args before front make label (err e) shapes p key args same known compiled simple =
    absurd cc
filtered-args before front make label (ok q) none p key args same known compiled simple = absurd cc
filtered-args before front make label (ok q) (some (as', s)) p key args same known compiled simple =
    let whole : front ++ as' ≡ args = cc in
    let made : (make q.0, before ++ q.1) ≡ p = cc in
    sym (ap (λ r. r.1) made)
    ∙ ap (λ l. l ++ q.1) same
    ∙ ap (λ l. front ++ l) (known q as' s refl refl).0
    ∙ whole

updated-args :
    (before : List Any) (sets : Option (List Any × String)) (make : String → String)
    (label : String → String → String) (filters : Compiled) (shapes : Option (List Any × String))
    (p : Piece) (key : String) (args : List Any)
    → ((front : List Any) (t : String) → sets ≡ some (front, t) → before ≡ front)
    → Nested filters shapes
    → (filters >>= (λ q. ok (make q.0, before ++ q.1))) ≡ ok p
    → ◌≡◌ {A = Option (String × List Any)}
        (elim sets [
          | none ↦ none
          | some set ↦ elim shapes [
            | none ↦ none
            | some shape ↦ some (label set.1 shape.1, set.0 ++ shape.0)
          ]
        ])
        (some (key, args))
    → p.1 ≡ args
updated-args before none make label filters shapes p key args same known compiled simple = absurd cc
updated-args before (some (front, t)) make label filters shapes p key args same known compiled
      simple =
    filtered-args before front make (label t) filters shapes p key args (same front t refl) known
      compiled simple

module _ (marshal : Any → Option String) where
  delete-args :
      (stmt : DeleteAst) (p : Piece) (key : String) (args : List Any)
      → compile_delete marshal stmt ≡ ok p
      → delete_sql_cache_key marshal "mysql" stmt ≡ some (key, args)
      → p.1 ≡ args
  unfolding compile_delete delete_sql_cache_key
  delete-args stmt p key args compiled simple =
      filtered-args [] [] _ _ (compile_where marshal stmt.conditions)
        (simple_conditions_args marshal "mysql" stmt.conditions) p key args refl
        (compile_where-args marshal stmt.conditions) compiled simple

  update-args :
      (stmt : UpdateAst) (p : Piece) (key : String) (args : List Any)
      → compile_update marshal stmt ≡ ok p
      → update_sql_cache_key marshal "mysql" stmt ≡ some (key, args)
      → p.1 ≡ args
  unfolding compile_update update_sql_cache_key sorted_keys sorted_sql_map_keys
  update-args stmt p key args compiled simple =
      go stmt.table stmt.row stmt.conditions compiled simple
    where
      go :
          (table : String) (row : Map) (filters : Conditions)
          → compile_update marshal (record { table = table; row = row; conditions = filters })
            ≡ ok p
          → update_sql_cache_key marshal "mysql"
              (record { table = table; row = row; conditions = filters })
            ≡ some (key, args)
          → p.1 ≡ args
      go table [] filters done label = absurd cc
      go table (e ∷ es) filters done label =
          updated-args (set_parts (sorted_keys (e ∷ es)) (e ∷ es)).1
            (set_shapes (sorted_sql_map_keys (e ∷ es)) (e ∷ es)) _ _ (compile_where marshal filters)
            (simple_conditions_args marshal "mysql" filters) p key args
            (λ front t q. sets-args (sorted_keys (e ∷ es)) (e ∷ es) front t q)
            (compile_where-args marshal filters) done label

  -- A SELECT has no aggregate with a query of its own; the builders give it none.
  abbrev pub IsBuilt : Statement → Type 0
  IsBuilt
        (select (
          select_ast table alias from joins filters items grouping having order limit offset
            lock)) =
      IsPlain items
  IsBuilt _ = Unit

  key-args :
      (stmt : Statement) (p : Piece) (key : String) (args : List Any)
      → IsBuilt stmt
      → compile marshal stmt ≡ ok p
      → lightweight_sql_cache_key marshal "mysql" stmt ≡ some (key, args)
      → p.1 ≡ args
  unfolding compile lightweight_sql_cache_key
  key-args
        (select
          (select_ast table alias from joins filters items grouping having order limit offset lock))
        p key args built compiled simple =
      select-args marshal table alias from joins filters items grouping having order limit offset
        lock p key args built compiled simple
  key-args (insert stmt) p key args built compiled simple =
      insert-args stmt p key args compiled simple
  key-args (update stmt) p key args built compiled simple =
      update-args stmt p key args compiled simple
  key-args (delete stmt) p key args built compiled simple =
      delete-args stmt p key args compiled simple
  key-args other_statement p key args built compiled simple = absurd cc

  -- If the MySQL dialect compiles a statement, the compilation through the cache succeeds as well and
  -- gives the arguments that the dialect gives, whatever the cache holds, unless the statement is a
  -- SELECT with an aggregate that has a query of its own.
  pub compile_statement_sql-args :
      (stmt : Statement) (cache : SqlCache) (p : Piece)
      → IsBuilt stmt
      → compile marshal stmt ≡ ok p
      → (sql : String) × ((compile_statement_sql marshal (mysql marshal) stmt cache).1
          ≡ ok (record { sql = sql; args = p.1 }))
  unfolding compile_statement_sql compile_fresh
  compile_statement_sql-args stmt cache p built compiled =
      elim (Option-cases (lightweight_sql_cache_key marshal "mysql" stmt)) [
        | inl unkeyed ↦ (p.0, rw (compile_statement_sql, unkeyed, compile_fresh, compiled) refl)
        | inr ((key, args), keyed) ↦ elim (Option-cases (get_sql cache key)) [
          | inl miss ↦ (p.0, rw (compile_statement_sql, keyed, miss, compile_fresh, compiled) refl)
          | inr (sql, hit) ↦ (
            sql,
            rw (compile_statement_sql, keyed, hit)
                (ap (λ l. ok (record { sql = sql; args = l }))
                  (sym (key-args stmt p key args built compiled keyed))),
          )
        ]
      ]
