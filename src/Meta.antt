-- ===== src/Meta.antt =====
-- internal/meta/types.go: the table specifications that schema synchronisation compares. A default
-- value of type `any` is an `Any`.
use oro.Base.{Bool, false, String, List, [], Option, none}
use oro.Base.Int.{ℤ, pos}
use oro.QueryAst.{Any}

pub record DefaultSpec : Type 0 where
  pub value : Any
  pub expr : String

pub record ColumnSpec : Type 0 where
  pub field_name : String
  pub column_name : String
  pub type : String
  pub size : ℤ
  pub size_set : Bool
  pub precision : ℤ
  pub scale : ℤ
  pub default : Option DefaultSpec
  pub enum_values : List String
  pub comment : String
  pub primary : Bool
  pub nullable : Bool

pub record IndexSpec : Type 0 where
  pub name : String
  pub fields : List String
  pub unique : Bool
  pub full_text : Bool

pub record TableSpec : Type 0 where
  pub name : String
  pub columns : List ColumnSpec
  pub indexes : List IndexSpec

pub data SchemaChangeKind : Type 0 where
  create_table add_column create_index unsafe_change rename_column other_change : SchemaChangeKind

pub record SchemaChange : Type 0 where
  pub kind : SchemaChangeKind
  pub table : TableSpec
  pub column : ColumnSpec
  pub current : ColumnSpec
  pub index : IndexSpec

-- Go's zero values
abbrev pub no_column : ColumnSpec
no_column = record {
  field_name = "";
  column_name = "";
  type = "";
  size = pos 0;
  size_set = false;
  precision = pos 0;
  scale = pos 0;
  default = none;
  enum_values = [];
  comment = "";
  primary = false;
  nullable = false;
}

abbrev pub no_index : IndexSpec
no_index = record { name = ""; fields = []; unique = false; full_text = false }

abbrev pub named : String → TableSpec
named name = record { name = name; columns = []; indexes = [] }
