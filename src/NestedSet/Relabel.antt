-- ===== src/NestedSet/Relabel.antt =====
-- A forest stays one when its positions move in order.
use oro.Base.{
  ◌≡◌, refl, ap, sym, subst, ◌⊎◌, inl, inr, Member, Member-map, map-Member, map, arith, ◌∙◌, Bool,
  true, false, if◌then◌else◌,
}
use oro.Base.Int.{ℤ, pos, ◌<ℤ◌, eq_of_parts}
use oro.NestedSet.{TreeRow, Table}
use oro.NestedSet.Nested.{Contains, Laminar, HasParent, IsForest}

abbrev pub relabel : (ℤ → ℤ) → TreeRow → TreeRow
relabel f row = record row { lft = f row.lft; rgt = f row.rgt }

-- On the positions `Kept`, the function keeps the order and the sign.
pub record IsOrdered (Kept : ℤ → Type 0) (f : ℤ → ℤ) : Type 0 where
  pub positive : (x : ℤ) → Kept x → pos 0 <ℤ x → pos 0 <ℤ f x
  pub monotone : (x y : ℤ) → Kept x → Kept y → x <ℤ y → f x <ℤ f y

abbrev pub KeptIn : (ℤ → Type 0) → Table → Type 0
KeptIn Kept rows = (row : TreeRow) → Member row rows → Kept row.lft × Kept row.rgt

-- An update under a test is an update of the field.
pub set_lft_if :
    (b : Bool) (x : ℤ) (row : TreeRow)
    → (if b then record row { lft = x } else row) ≡ record row { lft = if b then x else row.lft }
set_lft_if true x row = refl
set_lft_if false x row = refl

pub set_rgt_if :
    (b : Bool) (x : ℤ) (row : TreeRow)
    → (if b then record row { rgt = x } else row) ≡ record row { rgt = if b then x else row.rgt }
set_rgt_if true x row = refl
set_rgt_if false x row = refl

trichotomy : (x y : ℤ) → (x <ℤ y) ⊎ (x ≡ y) ⊎ (y <ℤ x)
trichotomy x y = ground (arith, eq_of_parts x y)

module _ (Kept : ℤ → Type 0) (f : ℤ → ℤ) (ordered : IsOrdered Kept f) where
  reflects : (x y : ℤ) → Kept x → Kept y → f x <ℤ f y → x <ℤ y
  reflects x y kx ky h = elim (trichotomy x y) [
    | inl lt ↦ lt
    | inr (inl e) ↦ elim (irreflexive (f x) (subst (λ z. f x <ℤ f z) (sym e) h)) [ ]
    | inr (inr gt) ↦ elim (asymmetric (f x) (f y) h (ordered.monotone y x ky kx gt)) [ ]
  ]
    where
      irreflexive : (z : ℤ) → z <ℤ z → ⊥
      irreflexive z h = omega arith

      asymmetric : (z w : ℤ) → z <ℤ w → w <ℤ z → ⊥
      asymmetric z w h h' = omega arith

  module _ (rows : Table) (kept : KeptIn Kept rows) where
    pub contains :
        (a b : TreeRow)
        → Member a rows
        → Member b rows
        → Contains a b
        → Contains (relabel f a) (relabel f b)
    contains a b ma mb (h, h') = (
      ordered.monotone a.lft b.lft (kept a ma).0 (kept b mb).0 h,
      ordered.monotone b.rgt a.rgt (kept b mb).1 (kept a ma).1 h',
    )

    contained :
        (a b : TreeRow)
        → Member a rows
        → Member b rows
        → Contains (relabel f a) (relabel f b)
        → Contains a b
    contained a b ma mb (h, h') = (
      reflects a.lft b.lft (kept a ma).0 (kept b mb).0 h,
      reflects b.rgt a.rgt (kept b mb).1 (kept a ma).1 h',
    )

    laminar :
        (a b : TreeRow)
        → Member a rows
        → Member b rows
        → Laminar a b
        → Laminar (relabel f a) (relabel f b)
    laminar a b ma mb (inl (inl h)) =
        inl (inl (ordered.monotone a.rgt b.lft (kept a ma).1 (kept b mb).0 h))
    laminar a b ma mb (inl (inr h)) =
        inl (inr (ordered.monotone b.rgt a.lft (kept b mb).1 (kept a ma).0 h))
    laminar a b ma mb (inr (inl h)) = inr (inl (contains a b ma mb h))
    laminar a b ma mb (inr (inr h)) = inr (inr (contains b a mb ma h))

    abbrev relabelled : Table
    relabelled = map (relabel f) rows

    has_parent :
        (row : TreeRow)
        → Member row rows
        → HasParent rows row
        → HasParent relabelled (relabel f row)
    has_parent row m (inl (e, level, alone)) = inl (
      e,
      level,
      λ other m' h.
          let (o, mo, eo) = Member-map (relabel f) rows m' in
          alone o mo (contained o row mo m (subst (λ t. Contains t (relabel f row)) eo h)),
    )
    has_parent row m (inr (parent, mp, e, around, level, inner)) = inr (
      relabel f parent,
      map-Member (relabel f) rows parent mp,
      e,
      contains parent row mp m around,
      level,
      λ other m' h.
          let (o, mo, eo) = Member-map (relabel f) rows m' in
          elim (inner o mo (contained o row mo m (subst (λ t. Contains t (relabel f row)) eo h))) [
            | inl same ↦ inl (eo ∙ ap (relabel f) same)
            | inr more ↦
                inr (
                  subst (λ t. Contains t (relabel f parent)) (sym eo)
                    (contains o parent mo mp more))
          ],
    )

    pub relabelled-IsForest : IsForest rows → IsForest relabelled
    relabelled-IsForest forest = record {
      proper = λ row m.
          let (r, mr, e) = Member-map (relabel f) rows m in
          let (low, mid) = forest.proper r mr in
          subst (λ (t : TreeRow). (pos 0 <ℤ t.lft) × (t.lft <ℤ t.rgt)) (sym e)
            (
              ordered.positive r.lft (kept r mr).0 low,
              ordered.monotone r.lft r.rgt (kept r mr).0 (kept r mr).1 mid,
            );
      unique = λ a b ma mb same.
          let (r, mr, e) = Member-map (relabel f) rows ma in
          let (s, ms, e') = Member-map (relabel f) rows mb in
          e ∙ ap (relabel f) (forest.unique r s mr ms (same_id a b r s e e' same)) ∙ sym e';
      laminar = λ a b ma mb.
          let (r, mr, e) = Member-map (relabel f) rows ma in
          let (s, ms, e') = Member-map (relabel f) rows mb in
          elim (forest.laminar r s mr ms) [
            | inl same ↦ inl (e ∙ ap (relabel f) same ∙ sym e')
            | inr apart ↦ inr (
                subst (λ t. Laminar t b) (sym e)
                  (subst (λ t. Laminar (relabel f r) t) (sym e') (laminar r s mr ms apart)))
          ];
      parented = λ row m.
          let (r, mr, e) = Member-map (relabel f) rows m in
          subst (λ t. HasParent relabelled t) (sym e) (has_parent r mr (forest.parented r mr));
    }
      where
        same_id :
            (a b r s : TreeRow) → a ≡ relabel f r → b ≡ relabel f s → a.id ≡ b.id → r.id ≡ s.id
        same_id a b r s e e' h =
            sym (ap (λ (t : TreeRow). t.id) e) ∙ h ∙ ap (λ (t : TreeRow). t.id) e'
