-- ===== src/NestedSet/Create.antt =====
-- Creating a node keeps the forest.
use oro.Base.{
  ℕ, Option, some, [], ◌∷◌, ◌++◌, ◌≡◌, ◌≢◌, refl, ap, sym, subst, ◌⊎◌, inl, inr, map, Member,
  Member-map, map-Member, arith, ◌∙◌, if◌then◌else◌,
}
use oro.Base.Int.{ℤ, pos, ◌+ℤ◌, ◌≤ℤ◌, ◌<ℤ◌, +ℤ_parts, leb_ℤ}
use oro.NestedSet.{TreeRow, Table, update_where, make_gap, insert_at, prepare_model}
use oro.NestedSet.Nested.{Contains, Apart, HasParent, IsForest}
use oro.NestedSet.Relabel.{relabel, IsOrdered, relabelled-IsForest, set_lft_if, set_rgt_if}
use oro.NestedSet.Leaf.{grown-IsForest}

abbrev pub up : ℤ → ℤ → ℤ
up at x = if leb_ℤ at x then x +ℤ pos 2 else x

abbrev Anywhere : ℤ → Type 0
Anywhere x = Unit

up-IsOrdered : (at : ℤ) → IsOrdered Anywhere (up at)
up-IsOrdered at = record {
  positive = λ x _ h. ground (arith, +ℤ_parts x (pos 2));
  monotone = λ x y _ _ h. ground (arith, +ℤ_parts x (pos 2), +ℤ_parts y (pos 2));
}

relabel_contains :
    (at : ℤ) (a b : TreeRow) → Contains a b → Contains (relabel (up at) a) (relabel (up at) b)
relabel_contains at a b (h, h') = (
  (up-IsOrdered at).monotone a.lft b.lft tt tt h,
  (up-IsOrdered at).monotone b.rgt a.rgt tt tt h',
)

pub make_gap-relabel :
    (at : ℤ) (rows : Table) → make_gap at (pos 2) rows ≡ map (relabel (up at)) rows
unfolding make_gap update_where
make_gap-relabel at [] = refl
make_gap-relabel at (row ∷ rows) =
    let test = λ (r : TreeRow). if leb_ℤ at r.lft then record r { lft = r.lft +ℤ pos 2 } else r in
    let right = if leb_ℤ at row.rgt then row.rgt +ℤ pos 2 else row.rgt in
    let head =
      ap test (set_rgt_if (leb_ℤ at row.rgt) (row.rgt +ℤ pos 2) row)
      ∙ set_lft_if (leb_ℤ at row.lft) (row.lft +ℤ pos 2) (record row { rgt = right }) in
    λ i. head i ∷ make_gap-relabel at rows i

module _ (at : ℤ) (rows : Table) (forest : IsForest rows) where
  abbrev pub gapped : Table
  gapped = map (relabel (up at)) rows

  gapped-IsForest : IsForest gapped
  gapped-IsForest =
      relabelled-IsForest Anywhere (up at) (up-IsOrdered at) rows (λ row m. (tt, tt)) forest

  abbrev pub new_row : ℕ → Option ℕ → ℤ → TreeRow
  new_row id parent depth = prepare_model id parent at (at +ℤ pos 1) depth

  -- The rows around the new one had its position strictly inside.
  around_new :
      (o : TreeRow) (id : ℕ) (parent : Option ℕ) (depth : ℤ)
      → o.lft <ℤ o.rgt
      → Contains (relabel (up at) o) (new_row id parent depth)
      → (o.lft <ℤ at) × (at ≤ℤ o.rgt)
  around_new o id parent depth p h =
      ground (arith, +ℤ_parts o.lft (pos 2), +ℤ_parts o.rgt (pos 2), +ℤ_parts at (pos 1))

  new_around :
      (o : TreeRow) (id : ℕ) (parent : Option ℕ) (depth : ℤ)
      → o.lft <ℤ at
      → at ≤ℤ o.rgt
      → Contains (relabel (up at) o) (new_row id parent depth)
  new_around o id parent depth h h' =
      ground (arith, +ℤ_parts o.lft (pos 2), +ℤ_parts o.rgt (pos 2), +ℤ_parts at (pos 1))

  beside_new :
      (o : TreeRow) (id : ℕ) (parent : Option ℕ) (depth : ℤ)
      → o.lft <ℤ o.rgt
      → Apart (relabel (up at) o) (new_row id parent depth)
        ⊎ Contains (relabel (up at) o) (new_row id parent depth)
  beside_new o id parent depth h =
      ground (arith, +ℤ_parts o.lft (pos 2), +ℤ_parts o.rgt (pos 2), +ℤ_parts at (pos 1))

  -- A position that the target's parent and all that is around it are around is on the target's level.
  pub placed_beside :
      (target : TreeRow) (id : ℕ)
      → ((o : TreeRow) → Member o rows → Contains o target → (o.lft <ℤ at) × (at ≤ℤ o.rgt))
      → ((o : TreeRow) → Member o rows → o.lft <ℤ at → at ≤ℤ o.rgt → Contains o target)
      → HasParent rows target
      → HasParent gapped (new_row id target.parent_id target.depth)
  placed_beside target id out back (inl (e, level, alone)) = inl (
    e,
    level,
    λ other m h.
        let (o, mo, eo) = Member-map (relabel (up at)) rows m in
        let (l, r) =
          around_new o id target.parent_id target.depth (forest.proper o mo).1
            (subst (λ t. Contains t (new_row id target.parent_id target.depth)) eo h) in
        alone o mo (back o mo l r),
  )
  placed_beside target id out back (inr (parent, mp, e, around, level, inner)) =
      let (l', r') = out parent mp around in
      inr (
        relabel (up at) parent,
        map-Member (relabel (up at)) rows parent mp,
        e,
        new_around parent id target.parent_id target.depth l' r',
        level,
        λ other m h.
            let (o, mo, eo) = Member-map (relabel (up at)) rows m in
            let (l, r) =
              around_new o id target.parent_id target.depth (forest.proper o mo).1
                (subst (λ t. Contains t (new_row id target.parent_id target.depth)) eo h) in
            elim (inner o mo (back o mo l r)) [
              | inl same ↦ inl (eo ∙ ap (relabel (up at)) same)
              | inr more ↦ inr (
                  subst (λ t. Contains t (relabel (up at) parent)) (sym eo)
                    (relabel_contains at o parent more))
            ],
      )

  -- A position inside the target that only the target and what is around it are around is the target's child.
  pub placed_inside :
      (target : TreeRow) (id : ℕ)
      → Member target rows
      → (target.lft <ℤ at) × (at ≤ℤ target.rgt)
      → ((o : TreeRow)
          → Member o rows
          → o.lft <ℤ at
          → at ≤ℤ o.rgt
          → (o ≡ target) ⊎ Contains o target)
      → HasParent gapped (new_row id (some target.id) (target.depth +ℤ pos 1))
  placed_inside target id mt (l', r') back =
      let child = new_row id (some target.id) (target.depth +ℤ pos 1) in
      inr (
        relabel (up at) target,
        map-Member (relabel (up at)) rows target mt,
        refl,
        new_around target id (some target.id) (target.depth +ℤ pos 1) l' r',
        refl,
        λ other m h.
            let (o, mo, eo) = Member-map (relabel (up at)) rows m in
            let (l, r) =
              around_new o id (some target.id) (target.depth +ℤ pos 1) (forest.proper o mo).1
                (subst (λ t. Contains t child) eo h) in
            elim (back o mo l r) [
              | inl same ↦ inl (eo ∙ ap (relabel (up at)) same)
              | inr more ↦ inr (
                  subst (λ t. Contains t (relabel (up at) target)) (sym eo)
                    (relabel_contains at o target more))
            ],
      )

  inserted-IsForest :
      (id : ℕ) (parent : Option ℕ) (depth : ℤ)
      → pos 0 <ℤ at
      → ((row : TreeRow) → Member row rows → row.id ≢ id)
      → HasParent gapped (new_row id parent depth)
      → IsForest (gapped ++ new_row id parent depth ∷ [])
  inserted-IsForest id parent depth low fresh has =
      let at' = +ℤ_parts at (pos 1) in
      grown-IsForest gapped (new_row id parent depth)
        (record {
          positive = low;
          proper = omega (arith, at');
          fresh = λ row m e.
              let (r, mr, er) = Member-map (relabel (up at)) rows m in
              fresh r mr (sym (ap (λ (t : TreeRow). t.id) er) ∙ e);
          beside = λ row m.
              let (r, mr, er) = Member-map (relabel (up at)) rows m in
              subst (λ t. Apart t (new_row id parent depth) ⊎ Contains t (new_row id parent depth))
                (sym er) (beside_new r id parent depth (forest.proper r mr).1);
          parent = has;
        })
        gapped-IsForest

  pub insert_at-IsForest :
      (id : ℕ) (parent : Option ℕ) (depth : ℤ)
      → pos 0 <ℤ at
      → ((row : TreeRow) → Member row rows → row.id ≢ id)
      → HasParent gapped (new_row id parent depth)
      → IsForest (insert_at id (at, parent, depth) rows)
  unfolding insert_at
  insert_at-IsForest id parent depth low fresh has =
      subst (λ g. IsForest (g ++ new_row id parent depth ∷ [])) (sym (make_gap-relabel at rows))
        (inserted-IsForest id parent depth low fresh has)
