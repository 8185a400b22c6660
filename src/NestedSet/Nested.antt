-- ===== src/NestedSet/Nested.antt =====
-- When the rows of extensions/nestedset are a forest: the intervals are nested or apart, and the
-- parent of a row is the innermost interval around it.
use oro.Base.{
  ℕ, none, some, [], ◌∷◌, ◌≡◌, ap, sym, ◌⊎◌, inl, inr, Member, eqb, eqb_iff, if_cases, ◌∙◌,
}
use oro.Base.Int.{pos, ◌+ℤ◌, ◌<ℤ◌}
use oro.NestedSet.{TreeRow, Table, node}

-- Row `a` is strictly around row `b`.
abbrev pub Contains : TreeRow → TreeRow → Type 0
Contains a b = (a.lft <ℤ b.lft) × (b.rgt <ℤ a.rgt)

abbrev pub Apart : TreeRow → TreeRow → Type 0
Apart a b = (a.rgt <ℤ b.lft) ⊎ (b.rgt <ℤ a.lft)

abbrev pub Laminar : TreeRow → TreeRow → Type 0
Laminar a b = Apart a b ⊎ Contains a b ⊎ Contains b a

-- The row's parent is around it and one level above, and everything else around the row is around its
-- parent; a row without a parent is on level 0 with nothing around it.
abbrev pub HasParent : Table → TreeRow → Type 0
HasParent rows row =
    ((row.parent_id ≡ none)
      × (row.depth ≡ pos 0)
      × ((other : TreeRow) → Member other rows → Contains other row → ⊥))
    ⊎ ((parent : TreeRow) × Member parent rows
        × (row.parent_id ≡ some parent.id)
        × Contains parent row
        × (row.depth ≡ parent.depth +ℤ pos 1)
        × ((other : TreeRow)
            → Member other rows
            → Contains other row
            → (other ≡ parent) ⊎ Contains other parent))

pub record IsForest (rows : Table) : Type 0 where
  pub proper : (row : TreeRow) → Member row rows → (pos 0 <ℤ row.lft) × (row.lft <ℤ row.rgt)
  -- One id has one row.
  pub unique : (a b : TreeRow) → Member a rows → Member b rows → a.id ≡ b.id → a ≡ b
  pub laminar : (a b : TreeRow) → Member a rows → Member b rows → (a ≡ b) ⊎ Laminar a b
  pub parented : (row : TreeRow) → Member row rows → HasParent rows row

pub node-Member :
    (id : ℕ) (rows : Table) {row : TreeRow}
    → node id rows ≡ some row
    → Member row rows × (row.id ≡ id)
unfolding node
node-Member id [] h = cc
node-Member id (r ∷ rows) {row} h =
    if_cases (λ o. o ≡ some row → Member row (r ∷ rows) × (row.id ≡ id)) (eqb r.id id)
      (λ e found. (
        inl (sym (same found)),
        ap (λ (t : TreeRow). t.id) (sym (same found)) ∙ (eqb_iff r.id id).0 e,
      ))
      (λ _ found. let (m, e) = node-Member id rows found in (inr m, e)) h
  where
    same : some r ≡ some row → r ≡ row
    same e = cc
