-- ===== src/SyncDiff/Compatible.antt =====
-- When a column or an index of the target needs no unsafe change.
use text.Mathlib.TextEquality.{eq_iff}
use oro.Base.{
  Bool, true, false, not, ◌&&◌, ◌||◌, String, List, [], ◌∷◌, arith, ◌≡◌, ◌≢◌, refl, ◌⊎◌, inl, inr,
  if_cases, length, eqb,
}
use oro.Base.Text.{◌==◌}
use oro.Meta.{ColumnSpec, IndexSpec}
use oro.SyncDiff.Types.{compatible_column_type, column_type_kind}
use oro.SyncDiff.{bool_ne, unsafe_column_change, same_fields, same_index_spec}

-- Two types are the same text, or types of one kind that is known.
abbrev pub SameKind : String → String → Type 0
SameKind a b = (a ≡ b) ⊎ ((column_type_kind a ≢ "") × (column_type_kind a ≡ column_type_kind b))

-- A column of the target against the one there, whose type is said to be `type`: both are in the
-- primary key or neither is; values that may be null are still allowed, unless the column is in the
-- primary key; and the types are of one kind.
abbrev pub Compatible : String → ColumnSpec → ColumnSpec → Type 0
Compatible type old column =
    (old.primary ≡ column.primary)
    × ((column.primary ≡ true) ⊎ (old.nullable ≡ false) ⊎ (column.nullable ≡ true))
    × SameKind type column.type

bool_ne-eq : (a b : Bool) → bool_ne a b ≡ false → a ≡ b
bool_ne-eq true true h = refl
bool_ne-eq true false h = cc
bool_ne-eq false true h = cc
bool_ne-eq false false h = refl

==-false : (s t : String) → (s == t) ≡ false → s ≢ t
==-false s t h e = let same : (s == t) ≡ true = (eq_iff s t).1 e in cc

same_kind : (a b : String) → compatible_column_type a b ≡ true → SameKind a b
unfolding compatible_column_type
same_kind a b =
    if_cases (λ r. r ≡ true → SameKind a b) (column_type_kind a == "" || column_type_kind b == "")
      (λ _ h. inl ((eq_iff a b).0 h))
      (λ known h. inr (
        ==-false (column_type_kind a) "" (ground (arith, known)),
        (eq_iff (column_type_kind a) (column_type_kind b)).0 h,
      ))

nullable_cases :
    (p old new : Bool)
    → (not p && (old && not new)) ≡ false
    → (p ≡ true) ⊎ (old ≡ false) ⊎ (new ≡ true)
nullable_cases true old new h = inl refl
nullable_cases false false new h = inr (inl refl)
nullable_cases false true true h = inr (inr refl)
nullable_cases false true false h = cc

pub unsafe_column_change-Compatible :
    (old column : ColumnSpec)
    → unsafe_column_change old column ≡ false
    → Compatible old.type old column
unfolding unsafe_column_change
unsafe_column_change-Compatible old column =
    if_cases (λ r. r ≡ false → Compatible old.type old column) (bool_ne old.primary column.primary)
      (λ _ h. cc)
      (λ primary.
        if_cases (λ r. r ≡ false → Compatible old.type old column)
          (not column.primary && (old.nullable && not column.nullable)) (λ _ h. cc)
          (λ nullable h. (
            bool_ne-eq old.primary column.primary primary,
            nullable_cases column.primary old.nullable column.nullable nullable,
            same_kind old.type column.type (ground (arith, h)),
          )))

same_fields-eq : (fs gs : List String) → same_fields fs gs ≡ true → fs ≡ gs
unfolding same_fields
same_fields-eq [] [] h = refl
same_fields-eq [] (g ∷ gs) h = cc
same_fields-eq (f ∷ fs) [] h = cc
same_fields-eq (f ∷ fs) (g ∷ gs) h =
    let head : f ≡ g = (eq_iff f g).0 (ground (arith, h)) in
    let tail : fs ≡ gs = same_fields-eq fs gs (ground (arith, h)) in λ i. head i ∷ tail i

-- Two indexes that are the same to the comparison are equal.
pub same_index_spec-eq : (left right : IndexSpec) → same_index_spec left right ≡ true → left ≡ right
unfolding same_index_spec
same_index_spec-eq left right =
    if_cases (λ r. r ≡ true → left ≡ right)
      (not (left.name == right.name)
        || (bool_ne left.unique right.unique
            || (bool_ne left.full_text right.full_text
                || not (eqb (length left.fields) (length right.fields)))))
      (λ _ h. cc)
      (λ agree h.
        let name : left.name ≡ right.name =
          (eq_iff left.name right.name).0 (ground (arith, agree)) in
        let unique = bool_ne-eq left.unique right.unique (ground (arith, agree)) in
        let full_text = bool_ne-eq left.full_text right.full_text (ground (arith, agree)) in
        let fields = same_fields-eq left.fields right.fields h in
        λ i. record {
          name = name i;
          fields = fields i;
          unique = unique i;
          full_text = full_text i;
        })
