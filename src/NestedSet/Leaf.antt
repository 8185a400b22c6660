-- ===== src/NestedSet/Leaf.antt =====
-- A forest with one more row that has nothing inside.
use oro.Base.{
  [], ◌∷◌, ◌++◌, ◌≡◌, ◌≢◌, ap, sym, subst, ◌⊎◌, inl, inr, Member, Member-snoc, append-Member, arith,
  ◌∙◌,
}
use oro.Base.Int.{pos, ◌<ℤ◌}
use oro.NestedSet.{TreeRow, Table}
use oro.NestedSet.Nested.{Contains, Apart, Laminar, HasParent, IsForest}

-- What the new row has to satisfy.
pub record IsLeafFor (rows : Table) (leaf : TreeRow) : Type 0 where
  pub positive : pos 0 <ℤ leaf.lft
  pub proper : leaf.lft <ℤ leaf.rgt
  pub fresh : (row : TreeRow) → Member row rows → row.id ≢ leaf.id
  pub beside : (row : TreeRow) → Member row rows → Apart row leaf ⊎ Contains row leaf
  pub parent : HasParent rows leaf

module _ (rows : Table) (leaf : TreeRow) (fits : IsLeafFor rows leaf) where
  abbrev grown : Table
  grown = rows ++ leaf ∷ []

  not_inside : (row : TreeRow) → Member row rows → Contains leaf row → row.lft <ℤ row.rgt → ⊥
  not_inside row m h p = elim (fits.beside row m) [
    | inl (inl a) ↦ omega (arith, fits.proper)
    | inl (inr a) ↦ omega (arith, fits.proper)
    | inr c ↦ omega (arith, fits.proper)
  ]

  flip : (row : TreeRow) → Apart row leaf ⊎ Contains row leaf → Laminar leaf row
  flip row (inl (inl h)) = inl (inr h)
  flip row (inl (inr h)) = inl (inl h)
  flip row (inr h) = inr (inr h)

  keep : (row : TreeRow) → Apart row leaf ⊎ Contains row leaf → Laminar row leaf
  keep row (inl h) = inl h
  keep row (inr h) = inr (inl h)

  has_parent : (row : TreeRow) → (Contains leaf row → ⊥) → HasParent rows row → HasParent grown row
  has_parent row outside (inl (e, level, alone)) = inl (
    e,
    level,
    λ other m h. elim (Member-snoc rows leaf m) [
      | inl m' ↦ alone other m' h
      | inr same ↦ outside (subst (λ t. Contains t row) same h)
    ],
  )
  has_parent row outside (inr (parent, mp, e, around, level, inner)) = inr (
    parent,
    append-Member rows (leaf ∷ []) parent mp,
    e,
    around,
    level,
    λ other m h. elim (Member-snoc rows leaf m) [
      | inl m' ↦ inner other m' h
      | inr same ↦ elim (outside (subst (λ t. Contains t row) same h)) [ ]
    ],
  )

  not_in_itself : Contains leaf leaf → ⊥
  not_in_itself h = omega arith

  module _ (forest : IsForest rows) where
    unique_in :
        (a b : TreeRow)
        → Member a rows ⊎ (a ≡ leaf)
        → Member b rows ⊎ (b ≡ leaf)
        → a.id ≡ b.id
        → a ≡ b
    unique_in a b (inl m) (inl m') same = forest.unique a b m m' same
    unique_in a b (inl m) (inr e) same =
        elim (fits.fresh a m (same ∙ ap (λ (t : TreeRow). t.id) e)) [ ]
    unique_in a b (inr e) (inl m) same =
        elim (fits.fresh b m (sym same ∙ ap (λ (t : TreeRow). t.id) e)) [ ]
    unique_in a b (inr e) (inr e') same = e ∙ sym e'

    Laminar-in :
        (a b : TreeRow)
        → Member a rows ⊎ (a ≡ leaf)
        → Member b rows ⊎ (b ≡ leaf)
        → (a ≡ b) ⊎ Laminar a b
    Laminar-in a b (inl m) (inl m') = forest.laminar a b m m'
    Laminar-in a b (inl m) (inr e) =
        inr (subst (λ t. Laminar a t) (sym e) (keep a (fits.beside a m)))
    Laminar-in a b (inr e) (inl m) =
        inr (subst (λ t. Laminar t b) (sym e) (flip b (fits.beside b m)))
    Laminar-in a b (inr e) (inr e') = inl (e ∙ sym e')

  pub grown-IsForest : IsForest rows → IsForest grown
  grown-IsForest forest = record {
    proper = λ row m. elim (Member-snoc rows leaf m) [
      | inl m' ↦ forest.proper row m'
      | inr e ↦
          subst (λ (t : TreeRow). (pos 0 <ℤ t.lft) × (t.lft <ℤ t.rgt)) (sym e)
            (fits.positive, fits.proper)
    ];
    unique =
        λ a b ma mb. unique_in forest a b (Member-snoc rows leaf ma) (Member-snoc rows leaf mb);
    laminar =
        λ a b ma mb. Laminar-in forest a b (Member-snoc rows leaf ma) (Member-snoc rows leaf mb);
    parented = λ row m. elim (Member-snoc rows leaf m) [
      | inl m' ↦
          has_parent row (λ h. not_inside row m' h (forest.proper row m').1)
            (forest.parented row m')
      | inr e ↦ subst (λ t. HasParent grown t) (sym e) (has_parent leaf not_in_itself fits.parent)
    ];
  }
