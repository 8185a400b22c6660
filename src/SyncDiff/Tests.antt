-- ===== src/SyncDiff/Tests.antt =====
-- Differences of a table of two columns.
use oro.Base.{true, false, [], ◌∷◌, some, ◌≡◌, ◌≢◌, All}
use oro.Meta.{ColumnSpec, IndexSpec, TableSpec, no_column}
use oro.Base.Dict.{lookup, insert}
use oro.Base.Text.{str_discrete}
use oro.SyncDiff.{
  diff, has, diff_with_snapshot, alteration, detect_rename_changes, resolve_candidates, candidates,
  candidate, rename_of, column_changes, dropped_changes, index_changes, index_change,
  target_column_changes, present_column, unsafe_column_change, same_index_spec, same_fields, find,
  collect, snapshot_columns,
}
use oro.SyncDiff.Synced.{diff_self}
use oro.SyncDiff.Types.{compatible_column_type, column_type_kind}
use oro.SyncDiff.Accepts.{IsSafe, Accepts, Keeps, AcceptsIndex}
use oro.SyncDiff.Safe.{diff_with_snapshot-IsSafe}

abbrev id_column : ColumnSpec
id_column = record no_column {
  field_name = "ID";
  column_name = "id";
  type = "uint64";
  primary = true;
}

abbrev name_column : ColumnSpec
name_column = record no_column { field_name = "Name"; column_name = "name"; type = "string" }

abbrev by_name : IndexSpec
by_name = record { name = "by_name"; fields = "name" ∷ []; unique = false; full_text = false }

abbrev users : TableSpec
users = record { name = "users"; columns = id_column ∷ name_column ∷ []; indexes = by_name ∷ [] }

users-nonempty : users.columns ≢ []
users-nonempty e = cc

diff_self_example : diff (some users) users ≡ []
diff_self_example = diff_self users users-nonempty (((λ e. cc), tt), (tt, tt)) (tt, tt)

-- the table whose name column is called full_name
abbrev full_name : ColumnSpec
full_name = record no_column { field_name = "Name"; column_name = "full_name"; type = "string" }

abbrev renamed : TableSpec
renamed = record { name = "users"; columns = id_column ∷ full_name ∷ []; indexes = by_name ∷ [] }

renamed-IsSafe : IsSafe (diff_with_snapshot (some users) renamed (some users))
unfolding diff_with_snapshot alteration detect_rename_changes resolve_candidates candidates
    candidate rename_of column_changes dropped_changes index_changes index_change
    target_column_changes present_column unsafe_column_change same_index_spec same_fields find
    collect has lookup insert str_discrete compatible_column_type column_type_kind snapshot_columns
renamed-IsSafe = ((λ e. cc), tt)

diff_with_snapshot-IsSafe_example :
    All
      (Accepts (diff_with_snapshot (some users) renamed (some users)) users.columns users.columns)
      renamed.columns
    × All
        (Keeps (diff_with_snapshot (some users) renamed (some users)) renamed.columns)
        users.columns
    × All (AcceptsIndex users.indexes) renamed.indexes
unfolding snapshot_columns
diff_with_snapshot-IsSafe_example =
    diff_with_snapshot-IsSafe users renamed (some users) users-nonempty renamed-IsSafe
