-- ===== src/Mysql/Select/Bound.antt =====
-- compileSelect binds one argument for each placeholder of its SQL.
use text.Mathlib.TextEquality.{eq_iff}
use oro.Base.{
  sym, subst, ◌≡◌, refl, Bool, true, false, String, List, length, Option, arith, if_cases,
}
use oro.Base.Text.{str_discrete, ◌==◌}
use oro.QueryAst.{
  Any, Anys, nil, cons, source_ptr, source_val, count_condition, MaybeQuery, no_query, query,
  MaybeSource, no_source, some_source, SourceAst, source_ast, JoinAst, join_ast, Joins, no_joins,
  more_joins, Condition, condition, Conditions, no_conditions, more_conditions, SelectExpr,
  select_expr, SelectExprs, no_exprs, more_exprs, SelectAst, select_ast,
}
use oro.Mysql.Scan.{Frag, none_left, lit, ◌▹◌, Frag-count, scan}
use oro.Mysql.Clauses.{compile_order}
use oro.Mysql.Clauses.Bound.{Bound, BoundParts, compile_order-Frag}
use oro.Mysql.Conditions.Bound.{BoundPiece, BoundOption, condition_piece-Bound, prefix_of-Frag}
use oro.Mysql.Select.Ready.{
  SelectReady, QueryReady, SourceReady, MaybeSourceReady, AnyReady, AnysReady, ItemReady,
  ItemsReady, JoinReady, JoinsReady, ConditionReady, ConditionsReady,
}
use oro.Mysql.Select.{
  clause, compile_select, compile_query, compile_source, compile_scalar, compile_maybe_scalar,
  value_source, sole_source, count_source, compile_count, item_parts, compile_select_expr,
  join_parts, compile_join, condition_inner, where_parts, compile_where,
}
use oro.Mysql.Select.OnClauses.{join_sql-Bound, compile_join_conditions-Frag}
use oro.Mysql.Select.Pieces.{
  select_item-Bound, table_or-Bound, source_body-Bound, scalar_body-Bound, raw_or-Bound,
  more_parts-Bound, more_pieces-Bound, joined-Bound, count_sql-Bound,
}
use oro.Mysql.Select.Layout.{select_sql-Bound}

pub clause_where-Frag :
    (sql : String) (args : List Any)
    → Frag sql (length args)
    → Frag (clause " where " sql) (length args)
unfolding clause scan
clause_where-Frag sql args h = go (str_discrete sql "")
  where
    go : Dec (sql ≡ "") → Frag (clause " where " sql) (length args)
    go (yes e) =
        subst (λ (s : String). Frag (clause " where " s) (length args)) (sym e)
          (subst (λ (s : String). Frag s (length args)) e h)
    go (no n) =
        if_cases (λ s. Frag s (length args)) (sql == "") (λ e. absurd (n ((eq_iff sql "").0 e)))
          (λ _. Frag-count (omega arith) (lit " where " refl ▹ h))

module _ (marshal : Any → Option String) where
  mutual
    unfolding compile_select

    compile_select-Bound : (q : SelectAst) → SelectReady q → Bound (compile_select marshal q)
    compile_select-Bound
          (select_ast table alias from joins conditions items group having order limit offset lock)
          h =
        select_sql-Bound _ _ _ _ _ group (compile_order order) limit offset lock
          (item_parts-Bound items h.0) (join_parts-Bound joins h.2) (source-Bound from _ _ h.1)
          (joined-Bound _ (where_parts-Bound conditions true h.3))
          (joined-Bound _ (where_parts-Bound having true h.4)) (compile_order-Frag order h.5)

    query-Bound : (q : MaybeQuery) → QueryReady q → BoundOption (compile_query marshal q)
    query-Bound no_query h = tt
    query-Bound (query q) h = compile_select-Bound q h

    source-Bound :
        (s : SourceAst) (table alias : String)
        → SourceReady s
        → Bound (compile_source marshal table alias s)
    source-Bound (source_ast t a q r) table alias h =
        table_or-Bound table alias _ (source_body-Bound alias _ r (query-Bound q h.0) h.1)

    scalar_source-Bound :
        (s : SourceAst) (op : String) → SourceReady s → Bound (compile_scalar marshal op s)
    scalar_source-Bound (source_ast t a q r) op h = scalar_body-Bound op _ r (query-Bound q h.0) h.1

    maybe_scalar-Bound :
        (s : MaybeSource) → MaybeSourceReady s → BoundOption (compile_maybe_scalar marshal s)
    maybe_scalar-Bound no_source h = tt
    maybe_scalar-Bound (some_source s) h = scalar_source-Bound s "mysql.select" h

    value_source-Bound : (a : Any) → AnyReady a → BoundOption (value_source marshal a)
    value_source-Bound (source_ptr s) h = scalar_source-Bound s "mysql.where" h
    value_source-Bound _ h = tt

    sole_source-Bound : (as' : Anys) → AnysReady as' → Bound (sole_source marshal as')
    sole_source-Bound (cons (source_val s) nil) h = scalar_source-Bound s "mysql.select" h.0
    sole_source-Bound _ h = tt

    count_source-Bound : (s : MaybeSource) → MaybeSourceReady s → Bound (count_source marshal s)
    count_source-Bound no_source h = tt
    count_source-Bound (some_source s) h = scalar_source-Bound s "mysql.where" h

    count-Bound : (a : Any) → AnyReady a → Bound (compile_count marshal a)
    count-Bound (count_condition source op value) h =
        count_sql-Bound op value _ h.0 (count_source-Bound source h.1)
    count-Bound _ h = tt

    item_parts-Bound :
        (items : SelectExprs) → ItemsReady items → BoundParts (item_parts marshal items)
    item_parts-Bound no_exprs h = none_left
    item_parts-Bound (more_exprs item items) h =
        more_parts-Bound _ _ (item-Bound item h.0) (item_parts-Bound items h.1)

    item-Bound : (item : SelectExpr) → ItemReady item → Bound (compile_select_expr marshal item)
    item-Bound (select_expr expr alias raw args source) h =
        select_item-Bound expr alias raw args _ _ h.0 (maybe_scalar-Bound source h.2)
          (sole_source-Bound args h.1)

    join_parts-Bound : (js : Joins) → JoinsReady js → BoundParts (join_parts marshal js)
    join_parts-Bound no_joins h = none_left
    join_parts-Bound (more_joins j js) h =
        more_parts-Bound _ _ (join-Bound j h.0) (join_parts-Bound js h.1)

    join-Bound : (j : JoinAst) → JoinReady j → Bound (compile_join marshal j)
    join-Bound (join_ast kind table alias source r conditions) h = raw_or-Bound r _ h.0 (
        join_sql-Bound kind _ _ _ (compile_join_conditions-Frag conditions h.2)
          (source-Bound source _ _ h.1))

    condition-Bound :
        (c : Condition) (first : Bool)
        → ConditionReady c
        → BoundPiece (condition_inner marshal c first)
    condition-Bound (condition word field op value nested escape) first h =
        condition_piece-Bound marshal _ _ field op value escape _ (prefix_of-Frag first word) h.0
          (record {
            nested = joined-Bound _ (where_parts-Bound nested true h.2);
            source = value_source-Bound value h.1;
            counted = count-Bound value h.1;
          })

    where_parts-Bound :
        (cs : Conditions) (first : Bool)
        → ConditionsReady cs
        → BoundParts (where_parts marshal cs first)
    where_parts-Bound no_conditions first h = none_left
    where_parts-Bound (more_conditions c cs) first h =
        more_pieces-Bound _ _ (condition-Bound c first h.0) (where_parts-Bound cs false h.1)

  -- A ready SELECT compiles to SQL that closes every quote and has exactly as many placeholders as
  -- arguments, or to an error. It is ready if each raw SQL text closes its quotes and has one
  -- placeholder for each of its arguments, an order item that is not raw has no arguments, the
  -- connectives and operators of joins, the operators of counts and the aggregate functions close their quotes and have no placeholder, and no comparison
  -- has an ESCAPE clause. Table, column and alias names and values may be anything.
  pub select-Bound : (q : SelectAst) → SelectReady q → Bound (compile_select marshal q)
  select-Bound = compile_select-Bound

  pub where-Bound : (cs : Conditions) → ConditionsReady cs → Bound (compile_where marshal cs)
  unfolding compile_where
  where-Bound cs h = joined-Bound _ (where_parts-Bound cs true h)
