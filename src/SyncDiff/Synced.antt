-- ===== src/SyncDiff/Synced.antt =====
-- A table that is as its target asks for needs no change.
use text.Mathlib.TextPositions.{eq_refl}
use oro.Base.{
  true, false, ◌||◌, String, List, [], ◌∷◌, some, arith, ◌≡◌, ◌≢◌, refl, ◌∙◌, All, Distinct, if_neg,
  if_pos, if_cases,
}
use oro.Base.Text.{◌==◌, str_discrete}
use oro.Base.Dict.{lookup, insert, lookup-insert}
use oro.Meta.{ColumnSpec, IndexSpec, TableSpec}
use oro.SyncDiff.Types.{compatible_column_type, column_type_kind}
use oro.SyncDiff.{
  collect, find, has, names, column_names, unsafe_column_change, same_fields, same_index_spec,
  target_column_changes, column_changes, dropped_changes, index_change, index_changes, alteration,
  diff,
}

module _ {A : Type 0} (key : A → String) where
  lookup-collect_absent :
      (xs : List A) (m : List (String × A)) (k : String)
      → All (λ n. n ≢ k) (names key xs)
      → lookup str_discrete k (collect key xs m) ≡ lookup str_discrete k m
  unfolding collect
  lookup-collect_absent [] m k h = refl
  lookup-collect_absent (x ∷ xs) m k h =
      lookup-collect_absent xs (insert str_discrete (key x) x m) k h.1
      ∙ lookup-insert str_discrete (key x) k x m
      ∙ if_neg (str_discrete (key x) k) h.0 (some x) (lookup str_discrete k m)

  lookup-collect :
      (xs : List A) (m : List (String × A))
      → Distinct (names key xs)
      → All (λ x. lookup str_discrete (key x) (collect key xs m) ≡ some x) xs
  unfolding collect
  lookup-collect [] m d = tt
  lookup-collect (x ∷ xs) m d = (
    lookup-collect_absent xs (insert str_discrete (key x) x m) (key x) d.0
        ∙ lookup-insert str_discrete (key x) (key x) x m
        ∙ if_pos (str_discrete (key x) (key x)) refl (some x) (lookup str_discrete (key x) m),
    lookup-collect xs (insert str_discrete (key x) x m) d.1,
  )

  -- Items of distinct names are found under their names.
  pub find_self :
      (xs : List A) → Distinct (names key xs) → All (λ x. find key xs (key x) ≡ some x) xs
  unfolding find
  find_self xs d = lookup-collect xs [] d

compatible_refl : (t : String) → compatible_column_type t t ≡ true
unfolding compatible_column_type
compatible_refl t =
    if_cases (λ b. b ≡ true) (column_type_kind t == "" || column_type_kind t == "") (λ _. eq_refl t)
      (λ _. eq_refl (column_type_kind t))

pub safe_refl : (c : ColumnSpec) → unsafe_column_change c c ≡ false
unfolding unsafe_column_change
safe_refl c = ground (arith, compatible_refl c.type)

same_fields_refl : (fs : List String) → same_fields fs fs ≡ true
unfolding same_fields
same_fields_refl [] = refl
same_fields_refl (f ∷ fs) = simp (eq_refl, same_fields_refl fs)

same_index_refl : (i : IndexSpec) → same_index_spec i i ≡ true
unfolding same_index_spec
same_index_refl i = ground (arith, eq_refl i.name, same_fields_refl i.fields)

has-All :
    (ns ms : List String)
    → (k : (n : String) → has n ms ≡ true → has n ns ≡ true) → All (λ n. has n ns ≡ true) ms
unfolding has
has-All ns [] k = tt
has-All ns (m ∷ ms) k =
    (k m (ground (arith, eq_refl m)), has-All ns ms (λ n h. k n (ground (arith, h))))

module _ (table : String) where
  no_column_changes :
      (current columns : List ColumnSpec)
      → All (λ c. find (λ x. x.column_name) current c.column_name ≡ some c) columns
      → column_changes table current [] [] columns ≡ []
  unfolding column_changes target_column_changes has find collect lookup
  no_column_changes current [] h = refl
  no_column_changes current (c ∷ cs) h =
      ground (arith, h.0, safe_refl c, no_column_changes current cs h.1)

  no_dropped_changes :
      (targets : List String) (columns : List ColumnSpec)
      → All (λ n. has n targets ≡ true) (column_names columns)
      → dropped_changes table [] targets columns ≡ []
  unfolding dropped_changes has
  no_dropped_changes targets [] h = refl
  no_dropped_changes targets (c ∷ cs) h = ground (arith, h.0, no_dropped_changes targets cs h.1)

  no_index_changes :
      (current indexes : List IndexSpec)
      → All (λ i. find (λ x. x.name) current i.name ≡ some i) indexes
      → index_changes table current indexes ≡ []
  unfolding index_changes index_change
  no_index_changes current [] h = refl
  no_index_changes current (i ∷ is) h =
      ground (arith, h.0, same_index_refl i, no_index_changes current is h.1)

-- A table that has columns, and whose columns and indexes have distinct names, needs no change to
-- become itself, when it is compared without a snapshot.
pub diff_self :
    (table : TableSpec)
    → table.columns ≢ []
    → Distinct (column_names table.columns)
    → Distinct (names (λ i. i.name) table.indexes)
    → diff (some table) table ≡ []
unfolding diff alteration
diff_self table nonempty d e = go table.columns refl
  where
    columns_same : column_changes table.name table.columns [] [] table.columns ≡ []
    columns_same =
        no_column_changes table.name table.columns table.columns
          (find_self (λ c. c.column_name) table.columns d)

    none_dropped : dropped_changes table.name [] (column_names table.columns) table.columns ≡ []
    none_dropped =
        no_dropped_changes table.name (column_names table.columns) table.columns
          (has-All (column_names table.columns) (column_names table.columns) (λ n h. h))

    indexes_same : index_changes table.name table.indexes table.indexes ≡ []
    indexes_same =
        no_index_changes table.name table.indexes table.indexes
          (find_self (λ i. i.name) table.indexes e)

    go : (columns : List ColumnSpec) → table.columns ≡ columns → diff (some table) table ≡ []
    go [] p = absurd (nonempty p)
    go (c ∷ cs) p = ground (arith, columns_same, none_dropped, indexes_same, p)
