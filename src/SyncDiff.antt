-- ===== src/SyncDiff.antt =====
-- internal/syncdiff/diff.go: the changes that take a table to its target.
pub mod Types
pub mod Synced
pub mod Safe
mod Accepts
mod Compatible
mod Renamed
mod Tests
use oro.Base.{
  ℕ, Bool, true, false, not, ◌&&◌, ◌||◌, String, List, [], ◌∷◌, ◌++◌, Option, none, some,
  if◌then◌else◌, eqb, length,
}
use oro.Base.Text.{◌==◌, str_discrete}
use oro.Base.Dict.{lookup, insert}
use oro.Meta.{
  ColumnSpec, IndexSpec, TableSpec, SchemaChangeKind, create_table, add_column, create_index,
  unsafe_change, rename_column, SchemaChange, no_column, no_index, named,
}
use Types.{compatible_column_type}

-- the loops that fill a map from a list: a later entry replaces an earlier one
pub collect : {A : Type 0} → (A → String) → List A → List (String × A) → List (String × A)
unfolding insert
collect key [] m = m
collect key (x ∷ xs) m = collect key xs (insert str_discrete (key x) x m)

pub find : {A : Type 0} → (A → String) → List A → String → Option A
unfolding collect lookup
find key xs name = lookup str_discrete name (collect key xs [])

pub has : String → List String → Bool
has name [] = false
has name (n ∷ ns) = n == name || has name ns

abbrev bool_ne : Bool → Bool → Bool
bool_ne true b = not b
bool_ne false b = b

pub unsafe_column_change : ColumnSpec → ColumnSpec → Bool
unsafe_column_change current target =
    if bool_ne current.primary target.primary
    then true
    else if not target.primary && (current.nullable && not target.nullable)
    then true
    else not (compatible_column_type current.type target.type)

pub same_fields : List String → List String → Bool
same_fields [] [] = true
same_fields (f ∷ fs) (g ∷ gs) = f == g && same_fields fs gs
same_fields _ _ = false

pub same_index_spec : IndexSpec → IndexSpec → Bool
same_index_spec left right =
    if not (left.name == right.name)
      || (bool_ne left.unique right.unique
          || (bool_ne left.full_text right.full_text
              || not (eqb (length left.fields) (length right.fields))))
    then false
    else same_fields left.fields right.fields

-- What detectRenameChanges returns: the changes, the names that they take and give, and whether
-- there was more than one candidate.
pub record Renames : Type 0 where
  pub changes : List SchemaChange
  pub renamed_current : List String
  pub renamed_target : List String
  pub ambiguous : Bool

abbrev no_renames : Renames
no_renames = record { changes = []; renamed_current = []; renamed_target = []; ambiguous = false }

rename_of : TableSpec → TableSpec → ColumnSpec → ColumnSpec → ColumnSpec → List SchemaChange
rename_of current target old current_column target_column =
    elim (find (λ c. c.column_name) current.columns target_column.column_name) [
      | some _ ↦ []
      | none ↦
          if old.column_name == target_column.column_name
          then []
          else if not (compatible_column_type current_column.type target_column.type)
          then []
          else record {
            kind = rename_column;
            table = named target.name;
            column = target_column;
            current = current_column;
            index = no_index;
          }
            ∷ []
    ]

-- one column of the snapshot
candidate : TableSpec → TableSpec → ColumnSpec → List SchemaChange
unfolding rename_of
candidate current target old =
    if old.field_name == ""
    then []
    else elim (find (λ c. c.column_name) current.columns old.column_name) [
      | none ↦ []
      | some current_column ↦ elim (find (λ c. c.field_name) target.columns old.field_name) [
        | none ↦ []
        | some target_column ↦ rename_of current target old current_column target_column
      ]
    ]

candidates : TableSpec → TableSpec → List ColumnSpec → List SchemaChange
unfolding candidate
candidates current target [] = []
candidates current target (old ∷ olds) =
    candidate current target old ++ candidates current target olds

resolve_candidates : TableSpec → List SchemaChange → Renames
resolve_candidates target [] = no_renames
resolve_candidates target (change ∷ []) =
    elim (find (λ c. c.column_name) target.columns change.column.column_name) [
      | none ↦ no_renames
      | some _ ↦ record {
        changes = change ∷ [];
        renamed_current = change.current.column_name ∷ [];
        renamed_target = change.column.column_name ∷ [];
        ambiguous = false;
      }
    ]
resolve_candidates target (change ∷ other ∷ more) = record no_renames { ambiguous = true }

pub snapshot_columns : Option TableSpec → List ColumnSpec
snapshot_columns none = []
snapshot_columns (some snapshot) = snapshot.columns

pub detect_rename_changes : TableSpec → TableSpec → Option TableSpec → Renames
unfolding resolve_candidates candidates snapshot_columns
detect_rename_changes current target snapshot =
    resolve_candidates target (candidates current target (snapshot_columns snapshot))

abbrev pub change_of :
    SchemaChangeKind → String → ColumnSpec → ColumnSpec → IndexSpec → SchemaChange
change_of kind table column current index = record {
  kind = kind;
  table = named table;
  column = column;
  current = current;
  index = index;
}

-- a target column that is there: the type to compare is the snapshot's, where it has the column
present_column : String → List ColumnSpec → ColumnSpec → ColumnSpec → List SchemaChange
present_column table snapshot column current_column =
    let logical : ColumnSpec = elim (find (λ c. c.column_name) snapshot column.column_name) [
      | none ↦ current_column
      | some s ↦ record current_column { type = s.type }
    ] in
    if unsafe_column_change logical column
    then change_of unsafe_change table column current_column no_index ∷ []
    else []

pub target_column_changes :
    String → List ColumnSpec → List ColumnSpec → ColumnSpec → List SchemaChange
unfolding present_column
target_column_changes table current snapshot column =
    elim (find (λ c. c.column_name) current column.column_name) [
      | none ↦ change_of add_column table column no_column no_index ∷ []
      | some current_column ↦ present_column table snapshot column current_column
    ]

-- the loop over the target's columns
pub column_changes :
    String → List ColumnSpec → List ColumnSpec → List String → List ColumnSpec → List SchemaChange
column_changes table current snapshot renamed [] = []
column_changes table current snapshot renamed (column ∷ columns) =
    (if has column.column_name renamed
      then []
      else target_column_changes table current snapshot column)
    ++ column_changes table current snapshot renamed columns

-- the loop over the current columns, which finds those that the target lacks
pub dropped_changes : String → List String → List String → List ColumnSpec → List SchemaChange
dropped_changes table renamed targets [] = []
dropped_changes table renamed targets (column ∷ columns) =
    (if has column.column_name renamed || has column.column_name targets
      then []
      else change_of unsafe_change table no_column column no_index ∷ [])
    ++ dropped_changes table renamed targets columns

pub index_change : String → List IndexSpec → IndexSpec → List SchemaChange
index_change table current index = elim (find (λ i. i.name) current index.name) [
  | none ↦ change_of create_index table no_column no_column index ∷ []
  | some current_index ↦
      if same_index_spec current_index index
      then []
      else change_of unsafe_change table no_column no_column index ∷ []
]

pub index_changes : String → List IndexSpec → List IndexSpec → List SchemaChange
index_changes table current [] = []
index_changes table current (index ∷ indexes) =
    index_change table current index ++ index_changes table current indexes

abbrev pub names : {A : Type 0} → (A → String) → List A → List String
names key [] = []
names key (x ∷ xs) = key x ∷ names key xs

abbrev pub column_names : List ColumnSpec → List String
column_names = names (λ c. c.column_name)

new_indexes : String → List IndexSpec → List SchemaChange
new_indexes table [] = []
new_indexes table (index ∷ indexes) =
    change_of create_index table no_column no_column index ∷ new_indexes table indexes

creation : TableSpec → List SchemaChange
unfolding new_indexes
creation target =
    record {
      kind = create_table;
      table = target;
      column = no_column;
      current = no_column;
      index = no_index;
    }
    ∷ new_indexes target.name target.indexes

-- a table that is there and has columns
pub alteration : TableSpec → TableSpec → Option TableSpec → List SchemaChange
unfolding detect_rename_changes snapshot_columns
alteration current target snapshot =
    let renames = detect_rename_changes current target snapshot in
    if renames.ambiguous
    then change_of unsafe_change target.name no_column no_column no_index ∷ []
    else renames.changes
      ++ (column_changes target.name current.columns (snapshot_columns snapshot)
            renames.renamed_target target.columns
          ++ (dropped_changes target.name renames.renamed_current (column_names target.columns)
                current.columns
              ++ index_changes target.name current.indexes target.indexes))

pub diff_with_snapshot : Option TableSpec → TableSpec → Option TableSpec → List SchemaChange
unfolding creation alteration
diff_with_snapshot none target snapshot = creation target
diff_with_snapshot (some current) target snapshot = elim current.columns [
  | [] ↦ creation target
  | c ∷ cs ↦ alteration current target snapshot
]

pub diff : Option TableSpec → TableSpec → List SchemaChange
unfolding diff_with_snapshot
diff current target = diff_with_snapshot current target none
