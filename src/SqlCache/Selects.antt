-- ===== src/SqlCache/Selects.antt =====
-- The arguments of a SELECT, in the key and in driver/mysql/dialect.go.
use oro.Base.{
  Bool, true, false, not, ◌&&◌, ◌||◌, Option, none, some, String, List, [], ◌∷◌, ◌++◌, Result, ok,
  err, ◌>>=◌, ◌≡◌, refl, sym, ap, ◌∙◌, arith, append-nil, if◌then◌else◌, if_cases,
}
use oro.Base.Int.{ℤ}
use oro.Base.Text.{◌==◌, join}
use oro.QueryAst.{
  OroError, Any, Anys, nil, cons, no_source, some_source, SourceAst, source_ast, Joins, no_joins,
  more_joins, no_raw, raw_spec, no_query, query, Conditions, no_conditions, more_conditions,
  select_expr, SelectExprs, no_exprs, more_exprs, order_expr, Orders, no_orders, more_orders,
  select_ast, LockSpec,
}
use oro.Mysql.Clauses.{Piece, Compiled, compile_order, order_parts, order_args, compile_lock}
use oro.Mysql.Select.{
  compile_select, compile_where, clause_args, select_sql, select_item, item_parts, more_parts,
  compile_source, compile_select_expr, sole_source, joined, limit_sql, offset_sql, select_table,
  select_alias, table_or, source_body,
}
use oro.SqlCache.Conditions.{simple_conditions_args}
use oro.SqlCache.Keys.{
  select_sql_cache_key, is_simple_select, raw_select, raw_order, has_args, is_source, no_aggregate,
  is_plain_source, is_unlocked,
}
use oro.SqlCache.Args.{==-other}
use oro.SqlCache.Bound.{compile_where-args}

order-args : (orders : Orders) → raw_order orders ≡ false → (order_parts orders).1 ≡ []
unfolding raw_order has_args order_parts order_args
order-args no_orders plain = refl
order-args (more_orders (order_expr expr desc raw nil) items) plain =
    order-args items (ground arith)
order-args (more_orders (order_expr expr desc raw (cons a as')) items) plain = absurd (ground arith)

clause-bound :
    (p : Piece) (args : List Any)
    → p.1 ≡ args
    → ((p.0 == "") ≡ true → args ≡ [])
    → clause_args p ≡ args
unfolding clause_args
clause-bound (sql, bound) args same empty =
    if_cases (λ (l : List Any). l ≡ args) (sql == "") (λ e. sym (empty e)) (λ e. same)

through {ℓ} :
    {A : Type ℓ} (r : Result OroError A) (next : A → Compiled) (p : Piece) (args : List Any)
    → ((a : A) → r ≡ ok a → next a ≡ ok p → p.1 ≡ args)
    → (r >>= next) ≡ ok p
    → p.1 ≡ args
through (err e) next p args f compiled = absurd cc
through (ok a) next p args f compiled = f a refl compiled

made-args :
    (q p : Piece) (args : List Any) → q.1 ≡ args → ◌≡◌ {A = Compiled} (ok q) (ok p) → p.1 ≡ args
made-args q p args same compiled = let e : q ≡ p = cc in sym (ap (λ r. r.1) e) ∙ same

only-bound :
    (a b c d args : List Any)
    → a ≡ []
    → b ≡ []
    → c ≡ args
    → d ≡ []
    → a ++ b ++ [] ++ c ++ [] ++ d ≡ args
only-bound a b c d args ea eb ec ed =
    rw (ea, eb, ec, ed) (append-nil (args ++ []) ∙ append-nil args)

select_sql-args :
    (items : Result OroError (List String × List Any)) (from : Compiled) (conditions : Compiled)
    (group : List String) (order : Piece) (limit offset : Option ℤ) (lock : LockSpec) (p : Piece)
    (args : List Any)
    → ((q : List String × List Any) → items ≡ ok q → q.1 ≡ [])
    → ((q : Piece) → from ≡ ok q → q.1 ≡ [])
    → ((q : Piece) → conditions ≡ ok q → clause_args q ≡ args)
    → clause_args order ≡ []
    → select_sql items from (ok ([], [])) conditions group (ok ("", [])) order limit offset lock
      ≡ ok p
    → p.1 ≡ args
unfolding select_sql clause_args
select_sql-args items from conditions group order limit offset lock p args no_items no_from bound
      no_order compiled =
    through items _ p args
      (λ it e1. through from _ p args (λ fr e2. through conditions _ p args (λ wh e3.
        through (limit_sql limit) _ p args (λ li e4.
          through (offset_sql limit offset) _ p args (λ sk e5.
            through (compile_lock lock) _ p args (λ lo e6 done.
              made-args _ p args
                (only-bound it.1 fr.1 (clause_args wh) (clause_args order) args (no_items it e1)
                  (no_from fr e2) (bound wh e3) no_order)
                done))))))
      compiled

-- An item that is an aggregate has no query of its own; the builders give it none.
abbrev pub IsPlain : SelectExprs → Type 0
IsPlain no_exprs = Unit
IsPlain (more_exprs (select_expr expr alias raw args source) items) =
    ((expr == "__oro_aggregate__") ≡ true → is_source source ≡ false) × IsPlain items

item-args :
    (expr alias : String) (raw : Bool) (args : Anys) (first : Compiled) (p : Piece)
    → (if expr == "__oro_aggregate__"
        then no_aggregate args
        else (raw
            || (false
                || ((expr == "__oro_relation_exists__") || (expr == "__oro_fulltext_score__")))))
      ≡ false
    → select_item expr alias raw args none first ≡ ok p
    → p.1 ≡ []
unfolding select_item
item-args expr alias raw args first p plain compiled = ground (
  arith,
  ==-other expr "__oro_aggregate__" "__oro_relation_exists__" refl,
  ==-other expr "__oro_aggregate__" "__oro_fulltext_score__" refl,
)

keyed :
    (shapes : Option (List Any × String)) (label : List Any × String → String) (key : String)
    (args : List Any)
    → ◌≡◌ {A = Option (String × List Any)}
        (elim shapes [ none ↦ none | some x ↦ some (label x, x.0) ])
        (some (key, args))
    → (shape : String) × (shapes ≡ some (args, shape))
keyed none label key args e = absurd cc
keyed (some (as', s)) label key args e =
    let same : as' ≡ args = cc in (s, ap (λ l. some (l, s)) same)

more_parts-args :
    (c : Compiled) (r : Result OroError (List String × List Any)) (q : List String × List Any)
    → ((p : Piece) → c ≡ ok p → p.1 ≡ [])
    → ((t : List String × List Any) → r ≡ ok t → t.1 ≡ [])
    → more_parts c r ≡ ok q
    → q.1 ≡ []
unfolding more_parts
more_parts-args (err e) r q f g compiled = absurd cc
more_parts-args (ok p) (err e) q f g compiled = absurd cc
more_parts-args (ok p) (ok t) q f g compiled =
    let e : (p.0 ∷ t.0, p.1 ++ t.1) ≡ q = cc in
    sym (ap (λ r. r.1) e) ∙ ap (λ l. l ++ t.1) (f p refl) ∙ g t refl

module _ (marshal : Any → Option String) where
  items-args :
      (items : SelectExprs) (q : List String × List Any)
      → raw_select items ≡ false
      → IsPlain items
      → item_parts marshal items ≡ ok q
      → q.1 ≡ []
  unfolding item_parts raw_select is_source
  items-args no_exprs q plain sourceless compiled =
      let e : ([], []) ≡ q = cc in sym (ap (λ r. r.1) e)
  items-args (more_exprs (select_expr expr alias raw args (some_source s)) items) q plain sourceless
        compiled =
      absurd (ground (arith, sourceless.0))
  items-args (more_exprs (select_expr expr alias raw args no_source) items) q plain sourceless
        compiled =
      more_parts-args (compile_select_expr marshal (select_expr expr alias raw args no_source))
        (item_parts marshal items) q
        (λ p e. item-args expr alias raw args (sole_source marshal args) p (ground arith) e)
        (λ r e. items-args items r (ground arith) sourceless.1 e) compiled

  from-args :
      (table alias : String) (from : SourceAst) (p : Piece)
      → is_plain_source from ≡ true
      → compile_source marshal table alias from ≡ ok p
      → p.1 ≡ []
  unfolding compile_source is_plain_source table_or source_body
  from-args table alias (source_ast t a no_query no_raw) p plain compiled =
      if_cases (λ r. r ≡ ok p → p.1 ≡ []) (table == "") (λ _ e. absurd cc)
        (λ _ e. made-args _ p [] refl e) compiled
  from-args table alias (source_ast t a no_query (raw_spec sql args)) p plain compiled = absurd cc
  from-args table alias (source_ast t a (query q) r) p plain compiled = absurd cc

  -- A SELECT whose aggregates have no query of their own binds, when it is compiled, the arguments that
  -- go with its key.
  pub select-args :
      (table alias : String) (from : SourceAst) (joins : Joins) (filters : Conditions)
      (items : SelectExprs) (grouping : List String) (having : Conditions) (order : Orders)
      (limit offset : Option ℤ) (lock : LockSpec) (p : Piece) (key : String) (args : List Any)
      → IsPlain items
      → compile_select marshal
          (select_ast table alias from joins filters items grouping having order limit offset lock)
        ≡ ok p
      → select_sql_cache_key marshal "mysql"
          (select_ast table alias from joins filters items grouping having order limit offset lock)
        ≡ some (key, args)
      → p.1 ≡ args
  unfolding select_sql_cache_key is_simple_select compile_select compile_where compile_order joined
      join
  select-args table alias from (more_joins j js) filters items grouping having order limit offset
        lock p key args sourceless compiled simple =
      absurd cc
  select-args table alias from no_joins filters items (g ∷ gs) having order limit offset lock p key
        args sourceless compiled simple =
      absurd cc
  select-args table alias from no_joins filters items [] (more_conditions c cs) order limit offset
        lock p key args sourceless compiled simple =
      absurd cc
  select-args table alias from no_joins filters items [] no_conditions order limit offset lock p key
        args sourceless compiled simple =
      if_cases (λ k. k ≡ some (key, args) → p.1 ≡ args)
        ((is_plain_source from && is_unlocked lock.mode)
          && not (raw_select items || raw_order order))
        (λ e label.
          let (shape, known) =
            keyed (simple_conditions_args marshal "mysql" filters) _ key args label in
          select_sql-args (item_parts marshal items)
            (compile_source marshal (select_table table from) (select_alias alias from) from)
            (compile_where marshal filters) [] (compile_order order) limit offset lock p args
            (λ q c. items-args items q (ground (arith, e)) sourceless c)
            (λ q c.
              from-args (select_table table from) (select_alias alias from) from q
                (ground (arith, e)) c)
            (λ q c.
              let (same, empty) = compile_where-args marshal filters q args shape c known in
              clause-bound q args same empty)
            (clause-bound (compile_order order) [] (order-args order (ground (arith, e)))
              (λ _. refl))
            compiled)
        (λ _ e. absurd cc) simple
