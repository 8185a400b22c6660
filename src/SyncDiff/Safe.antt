-- ===== src/SyncDiff/Safe.antt =====
-- What a synchronisation without unsafe changes can be trusted with.
use oro.Base.{
  List, [], ◌∷◌, ◌++◌, Option, some, arith, ◌≡◌, ◌≢◌, refl, sym, subst, ◌∙◌, inl, inr, All,
  Bool-cases, Member,
}
use oro.Meta.{ColumnSpec, TableSpec, SchemaChange}
use oro.SyncDiff.{
  Renames, column_names, column_changes, dropped_changes, index_changes, alteration,
  diff_with_snapshot, snapshot_columns, detect_rename_changes,
}
use oro.SyncDiff.Renamed.{detect_rename_changes-Shown}
use oro.SyncDiff.Accepts.{
  IsSafe, IsSafe-parts, Member-append, Accepts, Keeps, AcceptsIndex, Accepts-columns, Keeps-columns,
  AcceptsIndex-indexes,
}

module _ (current target : TableSpec) (snapshot : Option TableSpec) where
  renames : Renames
  renames = detect_rename_changes current target snapshot

  columns : List SchemaChange
  unfolding renames
  columns =
      column_changes target.name current.columns (snapshot_columns snapshot) renames.renamed_target
        target.columns

  dropped : List SchemaChange
  unfolding renames
  dropped =
      dropped_changes target.name renames.renamed_current (column_names target.columns)
        current.columns

  indexes : List SchemaChange
  indexes = index_changes target.name current.indexes target.indexes

  diff-alteration :
      (cs : List ColumnSpec)
      → current.columns ≡ cs
      → cs ≢ []
      → diff_with_snapshot (some current) target snapshot ≡ alteration current target snapshot
  unfolding diff_with_snapshot
  diff-alteration [] e n = absurd (n refl)
  diff-alteration (c ∷ cs) e n = ground arith

  safe_alteration :
      IsSafe (alteration current target snapshot)
      → (alteration current target snapshot ≡ renames.changes ++ (columns ++ (dropped ++ indexes)))
  unfolding alteration columns dropped indexes renames
  safe_alteration h = elim (Bool-cases renames.ambiguous) [
    | inl e ↦ absurd ((rw (alteration, e) at h).0 refl)
    | inr e ↦ rw (alteration, e) refl
  ]

  -- If the changes for a table that has columns contain no unsafe one, whatever the snapshot is: every
  -- column of the target is the new name of a rename among the changes, or not there yet, or there with
  -- a compatible definition (where the snapshot has the column, its type is the one compared); every
  -- column of the table is the old name of a rename among the changes, or has a column of the target;
  -- and every index of the target is not there yet or there just so.
  pub diff_with_snapshot-IsSafe :
      current.columns ≢ []
      → IsSafe (diff_with_snapshot (some current) target snapshot)
      → All
          (Accepts
            (diff_with_snapshot (some current) target snapshot)
            current.columns
            (snapshot_columns snapshot))
          target.columns
        × All
            (Keeps (diff_with_snapshot (some current) target snapshot) target.columns)
            current.columns
        × All (AcceptsIndex current.indexes) target.indexes
  unfolding columns dropped indexes renames
  diff_with_snapshot-IsSafe nonempty h =
      let changes = diff_with_snapshot (some current) target snapshot in
      let same = diff-alteration current.columns refl nonempty in
      let whole = same ∙ safe_alteration (subst IsSafe same h) in
      let (_, safe) =
        IsSafe-parts renames.changes (columns ++ (dropped ++ indexes)) (subst IsSafe whole h) in
      let (hc, rest) = IsSafe-parts columns (dropped ++ indexes) safe in
      let (hd, hi) = IsSafe-parts dropped indexes rest in
      let (from, to) = detect_rename_changes-Shown current target snapshot in
      let among : (change : SchemaChange) → Member change renames.changes → Member change changes =
        λ change m.
          subst (Member change) (sym whole)
            (Member-append renames.changes (columns ++ (dropped ++ indexes)) change m) in
      (
        Accepts-columns target.name changes current.columns (snapshot_columns snapshot)
            renames.renamed_target target.columns
            (λ name q.
              let (change, m, kind, same) = to name q in (change, among change m, kind, same))
            hc,
        Keeps-columns target.name changes renames.renamed_current target.columns current.columns
            (λ name q.
              let (change, m, kind, same) = from name q in (change, among change m, kind, same))
            hd,
        AcceptsIndex-indexes target.name changes current.indexes target.indexes hi,
      )
