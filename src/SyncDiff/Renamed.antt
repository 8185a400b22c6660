-- ===== src/SyncDiff/Renamed.antt =====
-- The rename that a snapshot of the table shows.
use text.Mathlib.TextEquality.{eq_iff}
use oro.Base.{
  Bool, true, false, not, String, List, [], ◌∷◌, ◌++◌, Option, ◌≡◌, refl, inl, inr, All,
  Option-cases, if_cases, Member, arith,
}
use oro.Base.Text.{◌==◌}
use oro.Meta.{ColumnSpec, TableSpec, SchemaChange, rename_column}
use oro.SyncDiff.Types.{compatible_column_type}
use oro.SyncDiff.{
  Renames, find, has, rename_of, candidate, candidates, resolve_candidates, snapshot_columns,
  detect_rename_changes,
}

abbrev IsRename : SchemaChange → Type 0
IsRename change = change.kind ≡ rename_column

All-append :
    (xs ys : List SchemaChange) → All IsRename xs → All IsRename ys → All IsRename (xs ++ ys)
All-append [] ys h k = k
All-append (x ∷ xs) ys h k = (h.0, All-append xs ys h.1 k)

rename_of-IsRename :
    (current target : TableSpec) (old current_column target_column : ColumnSpec)
    → All IsRename (rename_of current target old current_column target_column)
unfolding rename_of
rename_of-IsRename current target old current_column target_column =
    elim (Option-cases (find (λ c. c.column_name) current.columns target_column.column_name)) [
      | inl e ↦
          rw (rename_of, e)
            (if_cases (λ cs. All IsRename cs) (old.column_name == target_column.column_name)
              (λ _. tt)
              (λ _.
                if_cases (λ cs. All IsRename cs)
                  (not (compatible_column_type current_column.type target_column.type)) (λ _. tt)
                  (λ _. (refl, tt))))
      | inr (column, e) ↦ rw (rename_of, e) tt
    ]

candidate-IsRename :
    (current target : TableSpec) (old : ColumnSpec) → All IsRename (candidate current target old)
unfolding candidate
candidate-IsRename current target old =
    if_cases (λ cs. All IsRename cs) (old.field_name == "") (λ _. tt)
      (λ _. elim (Option-cases (find (λ c. c.column_name) current.columns old.column_name)) [
        | inl e ↦ rw e tt
        | inr (column, e) ↦
            rw e (elim (Option-cases (find (λ c. c.field_name) target.columns old.field_name)) [
              | inl e' ↦ rw e' tt
              | inr (target_column, e') ↦
                  rw e' (rename_of-IsRename current target old column target_column)
            ])
      ])

candidates-IsRename :
    (current target : TableSpec) (olds : List ColumnSpec)
    → All IsRename (candidates current target olds)
unfolding candidates
candidates-IsRename current target [] = tt
candidates-IsRename current target (old ∷ olds) =
    All-append (candidate current target old) (candidates current target olds)
      (candidate-IsRename current target old) (candidates-IsRename current target olds)

-- The list has a rename that takes the column away, or that makes it.
abbrev pub RenamesFrom : List SchemaChange → String → Type 0
RenamesFrom changes name =
    (change : SchemaChange) × Member change changes
    × (change.kind ≡ rename_column)
    × (change.current.column_name ≡ name)

abbrev pub RenamesTo : List SchemaChange → String → Type 0
RenamesTo changes name =
    (change : SchemaChange) × Member change changes
    × (change.kind ≡ rename_column)
    × (change.column.column_name ≡ name)

-- The names that a rename takes and gives are those of its changes.
abbrev Shown : Renames → Type 0
Shown renames =
    ((name : String) → has name renames.renamed_current ≡ true → RenamesFrom renames.changes name)
    × ((name : String) → has name renames.renamed_target ≡ true → RenamesTo renames.changes name)

only_name : (name other : String) → has name (other ∷ []) ≡ true → other ≡ name
unfolding has
only_name name other h = (eq_iff other name).0 (ground (arith, h))

no_names-Shown :
    (changes : List SchemaChange) (ambiguous : Bool)
    → Shown (record {
      changes = changes;
      renamed_current = [];
      renamed_target = [];
      ambiguous = ambiguous;
    })
unfolding has
no_names-Shown changes ambiguous = (λ name h. cc, λ name h. cc)

resolve_candidates-Shown :
    (target : TableSpec) (changes : List SchemaChange)
    → All IsRename changes
    → Shown (resolve_candidates target changes)
unfolding resolve_candidates
resolve_candidates-Shown target [] h = no_names-Shown [] false
resolve_candidates-Shown target (change ∷ other ∷ more) h = no_names-Shown [] true
resolve_candidates-Shown target (change ∷ []) h =
    elim (Option-cases (find (λ c. c.column_name) target.columns change.column.column_name)) [
      | inl e ↦ rw (resolve_candidates, e) (no_names-Shown [] false)
      | inr (column, e) ↦
          rw (resolve_candidates, e)
            (
              λ name q. (change, inl refl, h.0, only_name name change.current.column_name q),
              λ name q. (change, inl refl, h.0, only_name name change.column.column_name q),
            )
    ]

pub detect_rename_changes-Shown :
    (current target : TableSpec) (snapshot : Option TableSpec)
    → Shown (detect_rename_changes current target snapshot)
unfolding detect_rename_changes
detect_rename_changes-Shown current target snapshot =
    resolve_candidates-Shown target (candidates current target (snapshot_columns snapshot))
      (candidates-IsRename current target (snapshot_columns snapshot))
