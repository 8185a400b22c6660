-- ===== src/SqlCache/Rows.antt =====
-- The arguments of an INSERT, in the key and in driver/mysql/dialect.go.
use oro.Base.{
  Bool, true, false, Option, none, some, String, List, [], ◌∷◌, ◌++◌, Result, ok, err, ◌>>=◌, ◌≡◌,
  refl, sym, ap, ◌∙◌, if◌then◌else◌, length, eqb,
}
use oro.Base.Text.{str_discrete}
use oro.Base.Dict.{lookup}
use oro.QueryAst.{OroError, Any, Map, InsertAst}
use oro.Mysql.Clauses.{Piece}
use oro.Mysql.Write.{get, sorted_keys, row_args, row_arg, insert_rows, plain_insert, compile_insert}
use oro.SqlCache.Keys.{insert_sql_cache_key, sorted_sql_map_keys, row_values, rows_values}

-- one column
column_step :
    (found : Option Any) (rest : Result OroError (List Any)) (more : Option (List Any))
    (bound args : List Any)
    → ((bs as' : List Any) → rest ≡ ok bs → more ≡ some as' → bs ≡ as')
    → row_arg found rest ≡ ok bound
    → ◌≡◌ {A = Option (List Any)}
        (elim found [
          | none ↦ none
          | some item ↦ elim more [ none ↦ none | some items ↦ some (item ∷ items) ]
        ])
        (some args)
    → bound ≡ args
unfolding row_arg
column_step none rest more bound args known compiled simple = absurd cc
column_step (some item) (err e) more bound args known compiled simple = absurd cc
column_step (some item) (ok bs) none bound args known compiled simple = absurd cc
column_step (some item) (ok bs) (some as') bound args known compiled simple =
    let left : item ∷ bs ≡ bound = cc in
    let right : item ∷ as' ≡ args = cc in
    sym left ∙ ap (λ l. item ∷ l) (known bs as' refl refl) ∙ right

row-args :
    (columns : List String) (row : Map) (bound args : List Any)
    → row_args columns row ≡ ok bound
    → row_values columns row ≡ some args
    → bound ≡ args
unfolding row_args row_values get
row-args [] row bound args compiled simple =
    let left : [] ≡ bound = cc in let right : [] ≡ args = cc in sym left ∙ right
row-args (c ∷ cs) row bound args compiled simple =
    column_step (lookup str_discrete c row) (row_args cs row) (row_values cs row) bound args
      (row-args cs row) compiled simple

-- one row, which has as many columns as the first or not
row_step :
    (same : Bool) (text : String) (first : Result OroError (List Any))
    (rest : Result OroError (List String × List Any)) (refused : OroError)
    (values more : Option (List Any)) (p : List String × List Any) (args : List Any)
    → ((bs as' : List Any) → first ≡ ok bs → values ≡ some as' → bs ≡ as')
    → ((q : List String × List Any) (as' : List Any) → rest ≡ ok q → more ≡ some as' → q.1 ≡ as')
    → (if same then (first >>= (λ bs. rest >>= (λ q. ok (text ∷ q.0, bs ++ q.1)))) else err refused)
      ≡ ok p
    → ◌≡◌ {A = Option (List Any)}
        (if same
          then elim values [
            | none ↦ none
            | some items ↦ elim more [ none ↦ none | some others ↦ some (items ++ others) ]
          ]
          else none)
        (some args)
    → p.1 ≡ args
row_step false text first rest refused values more p args f g compiled simple = absurd cc
row_step true text (err e) rest refused values more p args f g compiled simple = absurd cc
row_step true text (ok bs) (err e) refused values more p args f g compiled simple = absurd cc
row_step true text (ok bs) (ok q) refused none more p args f g compiled simple = absurd cc
row_step true text (ok bs) (ok q) refused (some as') none p args f g compiled simple = absurd cc
row_step true text (ok bs) (ok q) refused (some as') (some cs) p args f g compiled simple =
    let left : (text ∷ q.0, bs ++ q.1) ≡ p = cc in
    let right : as' ++ cs ≡ args = cc in
    sym (ap (λ r. r.1) left)
    ∙ ap (λ l. l ++ q.1) (f bs as' refl refl)
    ∙ ap (λ l. as' ++ l) (g q cs refl refl)
    ∙ right

rows-args :
    (columns : List String) (rows : List Map) (p : List String × List Any) (args : List Any)
    → insert_rows columns rows ≡ ok p
    → rows_values columns rows ≡ some args
    → p.1 ≡ args
unfolding insert_rows rows_values
rows-args columns [] p args compiled simple =
    let left : ([], []) ≡ p = cc in let right : [] ≡ args = cc in sym (ap (λ r. r.1) left) ∙ right
rows-args columns (row ∷ rows) p args compiled simple =
    row_step (eqb (length row) (length columns)) _ (row_args columns row) (insert_rows columns rows)
      _ (row_values columns row) (rows_values columns rows) p args (row-args columns row)
      (rows-args columns rows) compiled simple

inserted_step :
    (result : Result OroError (List String × List Any)) (values : Option (List Any))
    (make : List String → String) (label : String) (p : Piece) (key : String) (args : List Any)
    → ((q : List String × List Any) (as' : List Any)
        → result ≡ ok q
        → values ≡ some as'
        → q.1 ≡ as')
    → (result >>= (λ q. ok (make q.0, q.1))) ≡ ok p
    → ◌≡◌ {A = Option (String × List Any)}
        (elim values [ none ↦ none | some as' ↦ some (label, as') ])
        (some (key, args))
    → p.1 ≡ args
inserted_step (err e) values make label p key args f compiled simple = absurd cc
inserted_step (ok q) none make label p key args f compiled simple = absurd cc
inserted_step (ok q) (some as') make label p key args f compiled simple =
    let left : (make q.0, q.1) ≡ p = cc in
    let right : as' ≡ args = cc in sym (ap (λ r. r.1) left) ∙ f q as' refl refl ∙ right

pub insert-args :
    (stmt : InsertAst) (p : Piece) (key : String) (args : List Any)
    → compile_insert stmt ≡ ok p
    → insert_sql_cache_key "mysql" stmt ≡ some (key, args)
    → p.1 ≡ args
unfolding compile_insert plain_insert insert_sql_cache_key sorted_keys sorted_sql_map_keys
insert-args stmt p key args compiled simple = go stmt.rows stmt.conflict.columns compiled simple
  where
    go :
        (rows : List Map) (columns : List String)
        → compile_insert
            (record stmt { rows = rows; conflict = record stmt.conflict { columns = columns } })
          ≡ ok p
        → insert_sql_cache_key "mysql"
            (record stmt { rows = rows; conflict = record stmt.conflict { columns = columns } })
          ≡ some (key, args)
        → p.1 ≡ args
    go [] columns done label = absurd cc
    go (row ∷ rows) (c ∷ cs) done label = absurd cc
    go (row ∷ rows) [] done label =
        inserted_step (insert_rows (sorted_keys row) (row ∷ rows))
          (rows_values (sorted_keys row) (row ∷ rows)) _ _ p key args
          (rows-args (sorted_keys row) (row ∷ rows)) done label
