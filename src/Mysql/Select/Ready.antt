-- ===== src/Mysql/Select/Ready.antt =====
-- Statements whose raw SQL has one placeholder for each argument that comes with it, and whose other
-- order items come with no arguments. The connectives and operators of joins, the operators of counts
-- and the aggregate functions, which are written as they are given, hold no placeholder, and no
-- comparison has an ESCAPE clause. Identifiers and values are under no condition.
use oro.Base.{Bool, String, length, if◌then◌else◌}
use oro.Base.Text.{◌==◌, to_lower, trim_space}
use oro.QueryAst.{
  Any, Anys, nil, cons, source_ptr, source_val, count_condition, MaybeRaw, no_raw, raw_spec,
  MaybeQuery, no_query, query, MaybeSource, no_source, some_source, SourceAst, source_ast,
  JoinCondition, join_condition, JoinConditions, end, also, JoinAst, join_ast, Joins, no_joins,
  more_joins, Condition, condition, Conditions, no_conditions, more_conditions, SelectExpr,
  select_expr, SelectExprs, no_exprs, more_exprs, SelectAst, select_ast, to_list,
}
use oro.Mysql.Scan.{Frag}
use oro.Mysql.Clauses.Bound.{BoundOrders, PlainFunc}
use oro.Mysql.Conditions.{op_kind}
use oro.Mysql.Conditions.Bound.{PlainCondition}

abbrev pub RawReady : MaybeRaw → Type 0
RawReady no_raw = Unit
RawReady (raw_spec sql args) = Frag sql (length (to_list args))

abbrev pub PlainItem : String → Bool → Anys → Type 0
PlainItem expr raw args =
    if expr == "__oro_relation_exists__"
    then Unit
    else if expr == "__oro_fulltext_score__"
    then Unit
    else if expr == "__oro_aggregate__"
    then PlainFunc args
    else if raw
    then Frag expr (length (to_list args))
    else Unit

abbrev mutual
  pub JoinConditionReady : JoinCondition → Type 0
  JoinConditionReady (join_condition word lhs op rhs value column group) =
      Frag (to_lower word) 0 × Frag op 0 × JoinConditionsReady group

  pub JoinConditionsReady : JoinConditions → Type 0
  JoinConditionsReady end = Unit
  JoinConditionsReady (also c cs) = JoinConditionReady c × JoinConditionsReady cs

abbrev mutual
  pub SelectReady : SelectAst → Type 0
  SelectReady
        (select_ast table alias from joins conditions items group having order limit offset lock) =
      ItemsReady items
      × SourceReady from
      × JoinsReady joins
      × ConditionsReady conditions
      × ConditionsReady having
      × BoundOrders order

  pub QueryReady : MaybeQuery → Type 0
  QueryReady no_query = Unit
  QueryReady (query q) = SelectReady q

  pub SourceReady : SourceAst → Type 0
  SourceReady (source_ast table alias q r) = QueryReady q × RawReady r

  pub MaybeSourceReady : MaybeSource → Type 0
  MaybeSourceReady no_source = Unit
  MaybeSourceReady (some_source s) = SourceReady s

  pub AnyReady : Any → Type 0
  AnyReady (source_ptr s) = SourceReady s
  AnyReady (source_val s) = SourceReady s
  AnyReady (count_condition source op value) = Frag op 0 × MaybeSourceReady source
  AnyReady _ = Unit

  pub AnysReady : Anys → Type 0
  AnysReady nil = Unit
  AnysReady (cons a as') = AnyReady a × AnysReady as'

  pub ItemReady : SelectExpr → Type 0
  ItemReady (select_expr expr alias raw args source) =
      PlainItem expr raw args × AnysReady args × MaybeSourceReady source

  pub ItemsReady : SelectExprs → Type 0
  ItemsReady no_exprs = Unit
  ItemsReady (more_exprs item items) = ItemReady item × ItemsReady items

  pub JoinReady : JoinAst → Type 0
  JoinReady (join_ast kind table alias source r conditions) =
      RawReady r × SourceReady source × JoinConditionsReady conditions

  pub JoinsReady : Joins → Type 0
  JoinsReady no_joins = Unit
  JoinsReady (more_joins j js) = JoinReady j × JoinsReady js

  pub ConditionReady : Condition → Type 0
  ConditionReady (condition word field op value nested escape) =
      PlainCondition (op_kind (to_lower (trim_space op))) field value escape
      × AnyReady value
      × ConditionsReady nested

  pub ConditionsReady : Conditions → Type 0
  ConditionsReady no_conditions = Unit
  ConditionsReady (more_conditions c cs) = ConditionReady c × ConditionsReady cs
