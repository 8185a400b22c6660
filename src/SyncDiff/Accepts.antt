-- ===== src/SyncDiff/Accepts.antt =====
-- What the changes for one column or index say if none is unsafe.
use text.Mathlib.TextEquality.{eq_iff}
use oro.Base.Text.{◌==◌}
use oro.Base.{
  true, ◌||◌, String, List, [], ◌∷◌, ◌++◌, Option, none, some, arith, ◌≡◌, ◌≢◌, refl, ap, ◌∙◌, ◌⊎◌,
  inl, inr, All, Option-cases, Bool-cases, Member, if◌then◌else◌,
}
use oro.Meta.{ColumnSpec, IndexSpec, SchemaChange, unsafe_change, no_column, no_index}
use oro.SyncDiff.{
  change_of, find, has, column_names, target_column_changes, column_changes, dropped_changes,
  index_change, index_changes, present_column, unsafe_column_change, same_index_spec,
}
use oro.SyncDiff.Compatible.{Compatible, unsafe_column_change-Compatible, same_index_spec-eq}
use oro.SyncDiff.Renamed.{RenamesFrom, RenamesTo}

-- No change of the list is an unsafe one.
abbrev pub IsSafe : List SchemaChange → Type 0
IsSafe changes = All (λ change. change.kind ≢ unsafe_change) changes

pub IsSafe-parts : (xs ys : List SchemaChange) → IsSafe (xs ++ ys) → IsSafe xs × IsSafe ys
IsSafe-parts [] ys h = (tt, h)
IsSafe-parts (x ∷ xs) ys h = let (hx, hy) = IsSafe-parts xs ys h.1 in ((h.0, hx), hy)

-- A column of the target is the new name of a rename, or it is not there yet, or it is there with a
-- compatible definition.
abbrev pub Accepts : List SchemaChange → List ColumnSpec → List ColumnSpec → ColumnSpec → Type 0
Accepts changes current snapshot column =
    RenamesTo changes column.column_name
    ⊎ (find (λ c. c.column_name) current column.column_name ≡ none)
    ⊎ ((old : ColumnSpec) × (find (λ c. c.column_name) current column.column_name ≡ some old)
        × Compatible
            (elim (find (λ c. c.column_name) snapshot column.column_name) [
              | none ↦ old.type
              | some s ↦ s.type
            ])
            old column)

-- A column of the table is the old name of a rename, or it has a column of the target.
abbrev pub Keeps : List SchemaChange → List ColumnSpec → ColumnSpec → Type 0
Keeps changes target column =
    RenamesFrom changes column.column_name
    ⊎ ((kept : ColumnSpec) × Member kept target × (kept.column_name ≡ column.column_name))

-- An index of the target is not there yet, or it is there just so.
abbrev pub AcceptsIndex : List IndexSpec → IndexSpec → Type 0
AcceptsIndex current index =
    (find (λ i. i.name) current index.name ≡ none)
    ⊎ (find (λ i. i.name) current index.name ≡ some index)

pub Member-append : {A : Type 0} (xs ys : List A) (x : A) → Member x xs → Member x (xs ++ ys)
Member-append [] ys x m = elim m [ ]
Member-append (y ∷ xs) ys x (inl e) = inl e
Member-append (y ∷ xs) ys x (inr m) = inr (Member-append xs ys x m)

has-Member :
    (name : String) (columns : List ColumnSpec)
    → has name (column_names columns) ≡ true
    → (kept : ColumnSpec) × Member kept columns × (kept.column_name ≡ name)
unfolding has
has-Member name [] h = cc
has-Member name (c ∷ cs) h = elim (Bool-cases (c.column_name == name)) [
  | inl e ↦ (c, inl refl, (eq_iff c.column_name name).0 e)
  | inr e ↦ let (kept, m, same) = has-Member name cs (ground (arith, e, h)) in (kept, inr m, same)
]

present_column-Compatible :
    (table : String) (snapshot : List ColumnSpec) (column old : ColumnSpec)
    → IsSafe (present_column table snapshot column old)
    → Compatible
        (elim (find (λ c. c.column_name) snapshot column.column_name) [
          | none ↦ old.type
          | some s ↦ s.type
        ])
        old
        column
unfolding present_column
present_column-Compatible table snapshot column old =
    go (find (λ c. c.column_name) snapshot column.column_name)
  where
    safe :
        (logical : ColumnSpec)
        → IsSafe (
            if unsafe_column_change logical column
            then change_of unsafe_change table column old no_index ∷ []
            else [])
        → Compatible logical.type logical column
    safe logical h = elim (Bool-cases (unsafe_column_change logical column)) [
      | inl e ↦ absurd ((rw e at h).0 refl)
      | inr e ↦ unsafe_column_change-Compatible logical column e
    ]

    go :
        (found : Option ColumnSpec)
        → IsSafe (
            if unsafe_column_change
              (elim found [ none ↦ old | some s ↦ record old { type = s.type } ])
              column
            then change_of unsafe_change table column old no_index ∷ []
            else [])
        → Compatible (elim found [ none ↦ old.type | some s ↦ s.type ]) old column
    go none h = safe old h
    go (some s) h = safe (record old { type = s.type }) h

module _ (table : String) (changes : List SchemaChange) where
  Accepts-column :
      (current snapshot : List ColumnSpec) (column : ColumnSpec)
      → IsSafe (target_column_changes table current snapshot column)
      → Accepts changes current snapshot column
  unfolding target_column_changes
  Accepts-column current snapshot column h =
      elim (Option-cases (find (λ c. c.column_name) current column.column_name)) [
        | inl e ↦ inr (inl e)
        | inr (old, e) ↦ inr (
            inr (
              old,
              e,
              present_column-Compatible table snapshot column old
                  (rw (e, target_column_changes) at h),
            ))
      ]

  pub Accepts-columns :
      (current snapshot : List ColumnSpec) (renamed : List String) (columns : List ColumnSpec)
      → ((name : String) → has name renamed ≡ true → RenamesTo changes name)
      → IsSafe (column_changes table current snapshot renamed columns)
      → All (Accepts changes current snapshot) columns
  unfolding column_changes
  Accepts-columns current snapshot renamed [] shown h = tt
  Accepts-columns current snapshot renamed (c ∷ cs) shown h =
      let (here, rest) =
        IsSafe-parts
          (if has c.column_name renamed then [] else target_column_changes table current snapshot c)
          (column_changes table current snapshot renamed cs) h in
      (
        elim (Bool-cases (has c.column_name renamed)) [
          | inl e ↦ inl (shown c.column_name e)
          | inr e ↦ Accepts-column current snapshot c (rw e at here)
        ],
        Accepts-columns current snapshot renamed cs shown rest,
      )

  pub Keeps-columns :
      (renamed : List String) (target columns : List ColumnSpec)
      → ((name : String) → has name renamed ≡ true → RenamesFrom changes name)
      → IsSafe (dropped_changes table renamed (column_names target) columns)
      → All (Keeps changes target) columns
  unfolding dropped_changes
  Keeps-columns renamed target [] shown h = tt
  Keeps-columns renamed target (c ∷ cs) shown h =
      let (here, rest) =
        IsSafe-parts
          (if has c.column_name renamed || has c.column_name (column_names target)
            then []
            else change_of unsafe_change table no_column c no_index ∷ [])
          (dropped_changes table renamed (column_names target) cs) h in
      (
        elim (Bool-cases (has c.column_name renamed)) [
          | inl e ↦ inl (shown c.column_name e)
          | inr e ↦ elim (Bool-cases (has c.column_name (column_names target))) [
            | inl e' ↦ inr (has-Member c.column_name target e')
            | inr e' ↦ absurd ((rw (e, e') at here).0 refl)
          ]
        ],
        Keeps-columns renamed target cs shown rest,
      )

  AcceptsIndex-index :
      (current : List IndexSpec) (index : IndexSpec)
      → IsSafe (index_change table current index)
      → AcceptsIndex current index
  unfolding index_change
  AcceptsIndex-index current index h = elim (Option-cases (find (λ i. i.name) current index.name)) [
    | inl e ↦ inl e
    | inr (old, e) ↦ elim (Bool-cases (same_index_spec old index)) [
      | inl same ↦ inr (e ∙ ap some (same_index_spec-eq old index same))
      | inr other ↦ absurd ((rw (e, other, index_change) at h).0 refl)
    ]
  ]

  pub AcceptsIndex-indexes :
      (current indexes : List IndexSpec)
      → IsSafe (index_changes table current indexes)
      → All (AcceptsIndex current) indexes
  unfolding index_changes
  AcceptsIndex-indexes current [] h = tt
  AcceptsIndex-indexes current (i ∷ is) h =
      let (here, rest) =
        IsSafe-parts (index_change table current i) (index_changes table current is) h in
      (AcceptsIndex-index current i here, AcceptsIndex-indexes current is rest)
