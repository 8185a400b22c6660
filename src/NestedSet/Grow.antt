-- ===== src/NestedSet/Grow.antt =====
-- `createAtNode` and `createRoot` keep the forest.
use oro.Base.{
  ℕ, none, some, Option-cases, [], ◌∷◌, ◌≡◌, ◌≢◌, refl, sym, subst, ◌⊎◌, inl, inr, Member, arith,
  if◌then◌else◌,
}
use oro.Base.Int.{ℤ, pos, ◌+ℤ◌, ◌≤ℤ◌, ◌<ℤ◌, +ℤ_parts, ltb_ℤ}
use oro.NestedSet.{
  TreeRow, Table, node, later_right, max_right, CreateMode, child_last, child_first, sibling_before,
  sibling_after, placed, insert_at, create_at_node, create_root, prepare_model,
}
use oro.NestedSet.Nested.{Contains, Laminar, IsForest, node-Member}
use oro.NestedSet.Leaf.{grown-IsForest}
use oro.NestedSet.Create.{placed_beside, placed_inside, insert_at-IsForest}

abbrev pub IsFresh : ℕ → Table → Type 0
IsFresh id rows = (row : TreeRow) → Member row rows → row.id ≢ id

module _ (rows : Table) (forest : IsForest rows) (target : TreeRow) (mt : Member target rows) where
  -- What an interval around a position next to or in the target's has to do with the target.
  split : {P : Type 0} (o : TreeRow) → Member o rows → (o ≡ target → P) → (Laminar o target → P) → P
  split o mo f g = elim (forest.laminar o target mo mt) [ inl e ↦ f e | inr l ↦ g l ]

  before_back :
      (o : TreeRow) → Member o rows → o.lft <ℤ target.lft → target.lft ≤ℤ o.rgt → Contains o target
  before_back o mo l r =
      split o mo (λ e. elim (irreflexive (subst (λ (t : TreeRow). t.lft <ℤ target.lft) e l)) [ ])
        (λ cases. ground (arith, forest.proper target mt))
    where
      irreflexive : target.lft <ℤ target.lft → ⊥
      irreflexive h = omega arith

  after_back :
      (o : TreeRow)
      → Member o rows
      → o.lft <ℤ target.rgt +ℤ pos 1
      → target.rgt +ℤ pos 1 ≤ℤ o.rgt
      → Contains o target
  after_back o mo l r =
      split o mo
        (λ e. elim (irreflexive (subst (λ (t : TreeRow). target.rgt +ℤ pos 1 ≤ℤ t.rgt) e r)) [ ])
        (λ cases.
          ground (arith, forest.proper target mt, forest.proper o mo, +ℤ_parts target.rgt (pos 1)))
    where
      irreflexive : target.rgt +ℤ pos 1 ≤ℤ target.rgt → ⊥
      irreflexive h = omega (arith, +ℤ_parts target.rgt (pos 1))

  last_back :
      (o : TreeRow)
      → Member o rows
      → o.lft <ℤ target.rgt
      → target.rgt ≤ℤ o.rgt
      → (o ≡ target) ⊎ Contains o target
  last_back o mo l r = split o mo inl (λ cases. inr (ground (arith, forest.proper target mt)))

  first_back :
      (o : TreeRow)
      → Member o rows
      → o.lft <ℤ target.lft +ℤ pos 1
      → target.lft +ℤ pos 1 ≤ℤ o.rgt
      → (o ≡ target) ⊎ Contains o target
  first_back o mo l r =
      split o mo inl
        (λ cases. inr (ground (arith, forest.proper target mt, +ℤ_parts target.lft (pos 1))))

  -- The position that each mode chooses.
  placed-IsForest :
      (id : ℕ) (mode : CreateMode)
      → IsFresh id rows
      → IsForest (insert_at id (placed mode target) rows)
  unfolding placed
  placed-IsForest id child_last fresh =
      insert_at-IsForest target.rgt rows forest id (some target.id) (target.depth +ℤ pos 1)
        (omega (arith, forest.proper target mt)) fresh
        (placed_inside target.rgt rows forest target id mt (omega (arith, forest.proper target mt))
          last_back)
  placed-IsForest id child_first fresh =
      let at' = +ℤ_parts target.lft (pos 1) in
      insert_at-IsForest (target.lft +ℤ pos 1) rows forest id (some target.id)
        (target.depth +ℤ pos 1) (omega (arith, forest.proper target mt, at')) fresh
        (placed_inside (target.lft +ℤ pos 1) rows forest target id mt
          (omega (arith, forest.proper target mt, at')) first_back)
  placed-IsForest id sibling_before fresh =
      insert_at-IsForest target.lft rows forest id target.parent_id target.depth
        (forest.proper target mt).0 fresh
        (placed_beside target.lft rows forest target id
          (λ o mo h. omega (arith, forest.proper target mt, h)) before_back
          (forest.parented target mt))
  placed-IsForest id sibling_after fresh =
      let at' = +ℤ_parts target.rgt (pos 1) in
      insert_at-IsForest (target.rgt +ℤ pos 1) rows forest id target.parent_id target.depth
        (omega (arith, forest.proper target mt, at')) fresh
        (placed_beside (target.rgt +ℤ pos 1) rows forest target id
          (λ o mo h. omega (arith, forest.proper target mt, h, at')) after_back
          (forest.parented target mt))

-- Creating a child, first child or sibling under a fresh id keeps a table a forest, whether or not the
-- target is in it: intervals stay nested or apart, and each row's parent stays the innermost interval
-- around it, one level up.
pub create_at_node-IsForest :
    (id target_id : ℕ) (mode : CreateMode) (rows : Table)
    → IsForest rows
    → IsFresh id rows
    → IsForest (create_at_node id target_id mode rows)
unfolding create_at_node
create_at_node-IsForest id target_id mode rows forest fresh =
    elim (Option-cases (node target_id rows)) [
      | inl e ↦ rw (create_at_node, e) forest
      | inr (target, e) ↦
          rw (create_at_node, e)
            (placed-IsForest rows forest target (node-Member target_id rows e).0 id mode fresh)
    ]

later_right-upper :
    (rows : Table) (right : ℤ)
    → (right ≤ℤ later_right rows right)
      × ((row : TreeRow) → Member row rows → row.rgt ≤ℤ later_right rows right)
unfolding later_right
later_right-upper [] right = (omega arith, λ row m. elim m [ ])
later_right-upper (r ∷ rows) right =
    let next = if ltb_ℤ right r.rgt then r.rgt else right in
    let (low, all) = later_right-upper rows next in
    (
      ground (arith, low),
      λ row m. elim m [
        | inl e ↦
            subst (λ (t : TreeRow). t.rgt ≤ℤ later_right rows next) (sym e) (ground (arith, low))
        | inr m' ↦ all row m'
      ],
    )

max_right-upper : (rows : Table) (row : TreeRow) → Member row rows → row.rgt ≤ℤ max_right rows
unfolding max_right later_right
max_right-upper [] row m = elim m [ ]
max_right-upper (r ∷ rows) row (inl e) =
    subst (λ (t : TreeRow). t.rgt ≤ℤ later_right rows r.rgt) (sym e)
      (later_right-upper rows r.rgt).0
max_right-upper (r ∷ rows) row (inr m) = (later_right-upper rows r.rgt).1 row m

max_right-nonnegative : (rows : Table) → IsForest rows → pos 0 ≤ℤ max_right rows
unfolding max_right later_right
max_right-nonnegative [] forest = omega arith
max_right-nonnegative (r ∷ rows) forest =
    let (low, mid) = forest.proper r (inl refl) in
    omega (arith, low, mid, (later_right-upper rows r.rgt).0)

-- Creating a root under a fresh id keeps a table a forest.
pub create_root-IsForest :
    (id : ℕ) (rows : Table) → IsForest rows → IsFresh id rows → IsForest (create_root id rows)
unfolding create_root
create_root-IsForest id rows forest fresh =
    let right = max_right rows in
    let leaf = prepare_model id none (right +ℤ pos 1) (right +ℤ pos 2) (pos 0) in
    let one = +ℤ_parts right (pos 1) in
    let two = +ℤ_parts right (pos 2) in
    grown-IsForest rows leaf
      (record {
        positive = omega (arith, one, max_right-nonnegative rows forest);
        proper = omega (arith, one, two);
        fresh = fresh;
        beside = λ row m. inl (inl (omega (arith, one, max_right-upper rows row m)));
        parent = inl (refl, refl, λ other m h. omega (arith, two, max_right-upper rows other m));
      })
      forest
