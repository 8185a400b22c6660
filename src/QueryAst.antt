-- ===== src/QueryAst.antt =====
-- internal/queryast/types.go: the statements that the query builders produce and a dialect compiles.
-- A Go value of type `any` is an `Any`; slices of the types of the block are its list types, and a
-- nil pointer to one of them is `no_query`, `no_raw` or `no_source`. The fields that no dialect reads
-- (`Err`, and the pending query of a source) are left out.
use oro.Base.{ℕ, Bool, String, List, [], ◌∷◌, Option, ErrorKind}
use oro.Base.Int.{ℤ}

-- `Error` of errors.go, less the fields that the dialects leave empty.
pub record OroError : Type 0 where
  pub op : String
  pub kind : ErrorKind
  pub field : String

pub data JoinType : Type 0 where
  inner left right full cross other_join : JoinType

pub data LockMode : Type 0 where
  lock_none lock_update lock_share other_lock : LockMode

pub record LockSpec : Type 0 where
  pub mode : LockMode
  pub no_wait : Bool
  pub skip_locked : Bool

mutual
  -- The values that the code tells apart by a type switch; the others are `other`, by an identity.
  pub data Any : Type 0 where
    null : Any
    bool : Bool → Any
    int : ℤ → Any
    str : String → Any
    other : ℕ → Any
    slice : Anys → Any
    error : OroError → Any
    increment : Any → Any
    decrement : Any → Any
    raw_expr : String → Anys → Any
    -- *SourceAST
    source_ptr : SourceAst → Any
    -- SourceAST
    source_val : SourceAst → Any
    -- ColumnCondition: Op, Right
    column_condition : String → String → Any
    -- CountCondition: Source, Op, Value
    count_condition : MaybeSource → String → ℤ → Any
    -- JSONCondition: Field, Parts, Op, Value
    json_condition : String → List String → String → Any → Any
    -- FullTextExpr: Fields, Query
    full_text : List String → String → Any
    -- AggregateExpr: Func, Field
    aggregate : String → String → Any

  pub data Anys : Type 0 where
    nil : Anys
    cons : Any → Anys → Anys

  pub data MaybeRaw : Type 0 where
    no_raw : MaybeRaw
    raw_spec : String → Anys → MaybeRaw

  pub data MaybeQuery : Type 0 where
    no_query : MaybeQuery
    query : SelectAst → MaybeQuery

  pub data MaybeSource : Type 0 where
    no_source : MaybeSource
    some_source : SourceAst → MaybeSource

  -- Table, Alias, Query, Raw
  pub data SourceAst : Type 0 where
    source_ast : String → String → MaybeQuery → MaybeRaw → SourceAst

  -- Bool, Left, Op, Right, Value, Column, Group
  pub data JoinCondition : Type 0 where
    join_condition : String → String → String → String → Any → Bool → JoinConditions → JoinCondition

  pub data JoinConditions : Type 0 where
    end : JoinConditions
    also : JoinCondition → JoinConditions → JoinConditions

  -- Type, Table, Alias, Source, Raw, Conditions
  pub data JoinAst : Type 0 where
    join_ast : JoinType → String → String → SourceAst → MaybeRaw → JoinConditions → JoinAst

  pub data Joins : Type 0 where
    no_joins : Joins
    more_joins : JoinAst → Joins → Joins

  -- Bool, Field, Op, Value, Conditions, Escape
  pub data Condition : Type 0 where
    condition : String → String → String → Any → Conditions → String → Condition

  pub data Conditions : Type 0 where
    no_conditions : Conditions
    more_conditions : Condition → Conditions → Conditions

  -- Expr, Alias, Raw, Args, Source
  pub data SelectExpr : Type 0 where
    select_expr : String → String → Bool → Anys → MaybeSource → SelectExpr

  pub data SelectExprs : Type 0 where
    no_exprs : SelectExprs
    more_exprs : SelectExpr → SelectExprs → SelectExprs

  -- Expr, Desc, Raw, Args
  pub data OrderExpr : Type 0 where
    order_expr : String → Bool → Bool → Anys → OrderExpr

  pub data Orders : Type 0 where
    no_orders : Orders
    more_orders : OrderExpr → Orders → Orders

  -- Table, Alias, From, Joins, Where, Select, Group, Having, Order, Limit, Offset, Lock
  pub data SelectAst : Type 0 where
    select_ast :
        String
        → String
        → SourceAst
        → Joins
        → Conditions
        → SelectExprs
        → List String
        → Conditions
        → Orders
        → Option ℤ
        → Option ℤ
        → LockSpec
        → SelectAst

-- internal/types.Map
abbrev pub Map : Type 0
Map = List (String × Any)

pub record ConflictSpec : Type 0 where
  pub columns : List String
  pub do_nothing : Bool
  pub update_all : Bool
  pub update_except : List String
  pub update : List String
  pub update_map : Map

pub record InsertAst : Type 0 where
  pub table : String
  pub rows : List Map
  pub conflict : ConflictSpec
  pub returning : Bool

pub record UpdateAst : Type 0 where
  pub table : String
  pub row : Map
  pub conditions : Conditions

pub record DeleteAst : Type 0 where
  pub table : String
  pub conditions : Conditions

pub data Statement : Type 0 where
  select : SelectAst → Statement
  insert : InsertAst → Statement
  update : UpdateAst → Statement
  delete : DeleteAst → Statement
  other_statement : Statement

pub record CompiledSql : Type 0 where
  pub sql : String
  pub args : List Any

abbrev pub to_list : Anys → List Any
to_list nil = []
to_list (cons a as') = a ∷ to_list as'
