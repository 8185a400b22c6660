-- ===== src/NestedSet/Undo.antt =====
-- Deleting a node that was just created.
use oro.Base.{
  ℕ, true, false, not, Option, some, [], ◌∷◌, ◌++◌, map, ◌≡◌, refl, ap, inl, inr, Member, filter,
  length, arith, ◌∙◌,
}
use oro.Base.Int.{ℤ, pos, ◌+ℤ◌, ◌-ℤ◌, ◌<ℤ◌, +ℤ_parts, -ℤ_parts, eq_of_parts}
use oro.NestedSet.{
  TreeRow, Table, node, close_gap, CreateMode, placed, insert_at, create_at_node, prepare_model,
  is_within, width_of, remove_subtree, delete_subtree,
}
use oro.NestedSet.Nested.{IsForest}
use oro.NestedSet.Relabel.{relabel}
use oro.NestedSet.Create.{up, make_gap-relabel}
use oro.NestedSet.Delete.{down, close_gap-relabel}
use oro.NestedSet.Grow.{IsFresh}

down-up : (at x : ℤ) → down (at +ℤ pos 1) (at +ℤ pos 1 -ℤ at +ℤ pos 1) (up at x) ≡ x
down-up at x = eq_of_parts _ x (
    ground (
      arith,
      +ℤ_parts at (pos 1),
      -ℤ_parts (at +ℤ pos 1) at,
      +ℤ_parts (at +ℤ pos 1 -ℤ at) (pos 1),
      +ℤ_parts x (pos 2),
      -ℤ_parts (x +ℤ pos 2) (at +ℤ pos 1 -ℤ at +ℤ pos 1),
    ))

module _ (id : ℕ) (at : ℤ) (parent : Option ℕ) (depth : ℤ) where
  abbrev leaf : TreeRow
  leaf = prepare_model id parent at (at +ℤ pos 1) depth

  node-leaf :
      (rows : Table)
      → IsFresh id rows
      → node id (map (relabel (up at)) rows ++ leaf ∷ []) ≡ some leaf
  unfolding node
  node-leaf [] fresh = ground arith
  node-leaf (r ∷ rows) fresh =
      ground (arith, fresh r (inl refl), node-leaf rows (λ row m. fresh row (inr m)))

  abbrev Proper : Table → Type 0
  Proper rows = (row : TreeRow) → Member row rows → row.lft <ℤ row.rgt

  not_within_leaf :
      (row : TreeRow) → row.lft <ℤ row.rgt → is_within leaf (relabel (up at) row) ≡ false
  not_within_leaf row h =
      ground (arith, +ℤ_parts at (pos 1), +ℤ_parts row.lft (pos 2), +ℤ_parts row.rgt (pos 2))

  leaf_within_leaf : is_within leaf leaf ≡ true
  leaf_within_leaf = ground arith

  others :
      (rows : Table)
      → Proper rows
      → filter (λ row. not (is_within leaf row)) (map (relabel (up at)) rows ++ leaf ∷ [])
        ≡ map (relabel (up at)) rows
  others [] proper = rw leaf_within_leaf refl
  others (r ∷ rows) proper =
      rw (not_within_leaf r (proper r (inl refl)), others rows (λ row m. proper row (inr m))) refl

  deleted :
      (rows : Table)
      → Proper rows
      → length (filter (is_within leaf) (map (relabel (up at)) rows ++ leaf ∷ [])) ≡ 1
  deleted [] proper = rw leaf_within_leaf refl
  deleted (r ∷ rows) proper =
      rw (not_within_leaf r (proper r (inl refl))) (deleted rows (λ row m. proper row (inr m)))

  restored :
      (rows : Table)
      → map (relabel (down leaf.rgt (width_of leaf))) (map (relabel (up at)) rows) ≡ rows
  restored [] = refl
  restored (r ∷ rows) =
      λ i. record r { lft = down-up at r.lft i; rgt = down-up at r.rgt i } ∷ restored rows i

  undone :
      (rows : Table)
      → IsForest rows
      → IsFresh id rows
      → delete_subtree id (insert_at id (at, parent, depth) rows) ≡ (rows, 1)
  unfolding delete_subtree remove_subtree insert_at
  undone rows forest fresh =
      let proper = λ (row : TreeRow) (m : Member row rows). (forest.proper row m).1 in
      let grown = map (relabel (up at)) rows ++ leaf ∷ [] in
      let shut =
        ap (close_gap leaf.rgt (width_of leaf)) (others rows proper)
        ∙ close_gap-relabel leaf.rgt (width_of leaf) (map (relabel (up at)) rows)
        ∙ restored rows in
      let removed : remove_subtree leaf grown ≡ rows = shut in
      let start = ap (λ gap. delete_subtree id (gap ++ leaf ∷ [])) (make_gap-relabel at rows) in
      start ∙ rw (delete_subtree, node-leaf rows fresh) (λ i. (removed i, deleted rows proper i))

-- Deleting the node that was just created under a fresh id, next to or below a target of a forest,
-- deletes one row and gives back the table as it was before.
pub delete_subtree-create_at_node :
    (id target_id : ℕ) (mode : CreateMode) (rows : Table) (target : TreeRow)
    → IsForest rows
    → IsFresh id rows
    → node target_id rows ≡ some target
    → delete_subtree id (create_at_node id target_id mode rows) ≡ (rows, 1)
unfolding create_at_node
delete_subtree-create_at_node id target_id mode rows target forest fresh found =
    let (at, parent, depth) = placed mode target in
    rw (create_at_node, found) (undone id at parent depth rows forest fresh)
