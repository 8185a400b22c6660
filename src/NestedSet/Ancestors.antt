-- ===== src/NestedSet/Ancestors.antt =====
-- The test on the intervals agrees with the chain of parents.
use oro.Base.{ℕ, zero, suc, true, some, ◌≡◌, ap, sym, subst, inl, inr, Member, arith, ◌∙◌, ◌↔◌, ◌≤◌}
use oro.Base.Int.{ℤ, pos, pos_part, neg_part, ◌<ℤ◌}
use oro.NestedSet.{TreeRow, Table, node, is_ancestor_of}
use oro.NestedSet.Nested.{Contains, HasParent, IsForest, node-Member}

positive : (x : ℤ) → pos 0 <ℤ x → neg_part x ≡ 0
positive x h = ground arith

-- One step or more from a row to its parent.
pub data IsAbove (rows : Table) (ancestor : TreeRow) : TreeRow → Type 0 where
  parent : {row : TreeRow} → row.parent_id ≡ some ancestor.id → IsAbove rows ancestor row
  further :
      {row middle : TreeRow}
      → Member middle rows
      → row.parent_id ≡ some middle.id
      → IsAbove rows ancestor middle
      → IsAbove rows ancestor row

module _ (rows : Table) (forest : IsForest rows) (ancestor : TreeRow)
    (ma : Member ancestor rows) where
  -- The parent of a row of a forest is around it.
  parent-Contains :
      (above row : TreeRow)
      → Member above rows
      → HasParent rows row
      → row.parent_id ≡ some above.id
      → Contains above row
  parent-Contains above row m (inl (e, level, alone)) e' = cc
  parent-Contains above row m (inr (p, mp, e, around, level, inner)) e' =
      subst (λ t. Contains t row) (forest.unique p above mp m (same e e')) around
    where
      same : row.parent_id ≡ some p.id → row.parent_id ≡ some above.id → p.id ≡ above.id
      same e e' = cc

  IsAbove-Contains :
      (row : TreeRow) → Member row rows → IsAbove rows ancestor row → Contains ancestor row
  IsAbove-Contains row m (parent e) = parent-Contains ancestor row ma (forest.parented row m) e
  IsAbove-Contains row m (further {middle = middle} mm e above) =
      let inner = parent-Contains middle row mm (forest.parented row m) e in
      let outer = IsAbove-Contains middle mm above in
      (omega (arith, inner, outer), omega (arith, inner, outer))

  -- The left bound falls on the way up, so that the steps are fewer than it.
  Contains-IsAbove :
      (fuel : ℕ) (row : TreeRow)
      → pos_part row.lft ≤ fuel
      → Member row rows
      → Contains ancestor row
      → IsAbove rows ancestor row
  Contains-IsAbove zero row low m h = absurd (omega (arith, low, forest.proper row m))
  Contains-IsAbove (suc fuel) row low m h = elim (forest.parented row m) [
    | inl (e, level, alone) ↦ absurd (alone ancestor ma h)
    | inr (p, mp, e, around, level, inner) ↦ elim (inner ancestor ma h) [
      | inl same ↦ parent (e ∙ ap (λ (t : TreeRow). some t.id) (sym same))
      | inr outer ↦ further mp e (
          Contains-IsAbove fuel p
            (omega (arith, low, around, forest.proper p mp, positive p.lft (forest.proper p mp).0))
            mp outer)
    ]
  ]

-- In a forest `IsAncestorOf` says of two rows whether the first is reached from the second by one step
-- or more to the parent.
pub is_ancestor_of-IsAbove :
    (rows : Table) (ancestor row : TreeRow) (ancestor_id id : ℕ)
    → IsForest rows
    → node ancestor_id rows ≡ some ancestor
    → node id rows ≡ some row
    → (is_ancestor_of ancestor_id id rows ≡ true) ↔ IsAbove rows ancestor row
unfolding is_ancestor_of
is_ancestor_of-IsAbove rows ancestor row ancestor_id id forest found found' =
    let (ma, _) = node-Member ancestor_id rows found in
    let (m, _) = node-Member id rows found' in
    rw (is_ancestor_of, found, found')
      (
        λ e.
            Contains-IsAbove rows forest ancestor ma (pos_part row.lft) row (omega arith) m
              (ground (arith, e)),
        λ above.
            let inside = IsAbove-Contains rows forest ancestor ma row m above in
            ground (arith, inside),
      )
