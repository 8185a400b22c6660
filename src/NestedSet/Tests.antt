-- ===== src/NestedSet/Tests.antt =====
-- Runs of the nested sets on a root and its child.
use oro.Base.{Member, map, ◌↔◌, true, [], ◌∷◌, none, some, ◌≡◌, refl, ap, arith, inl, inr}
use oro.Base.Int.{pos, ◌+ℤ◌}
use oro.NestedSet.{
  TreeRow, Table, create_at_node, create_root, delete_subtree, is_ancestor_of, move_subtree,
  CreateMode, child_last, child_first, sibling_before, node, insert_at, placed, make_gap,
  update_where, remove_subtree, close_gap,
}
use oro.NestedSet.Nested.{IsForest}
use oro.NestedSet.Grow.{IsFresh, create_at_node-IsForest, create_root-IsForest}
use oro.NestedSet.Ancestors.{IsAbove, is_ancestor_of-IsAbove}
use oro.NestedSet.Move.{placed_row, move_subtree-placed_row}
use oro.NestedSet.Undo.{delete_subtree-create_at_node}
use oro.NestedSet.Delete.{delete_subtree-IsForest}

abbrev root_alone : TreeRow
root_alone = record { id = 1; parent_id = none; lft = pos 1; rgt = pos 2; depth = pos 0 }

abbrev one_root : Table
one_root = root_alone ∷ []

no_rows-IsForest : IsForest []
no_rows-IsForest = record {
  proper = λ row m. elim m [ ];
  unique = λ a b m m' e. elim m [ ];
  laminar = λ a b m m'. elim m [ ];
  parented = λ row m. elim m [ ];
}

one_root-IsForest : IsForest one_root
unfolding create_root oro.NestedSet.max_right ◌+ℤ◌
one_root-IsForest = create_root-IsForest 1 [] no_rows-IsForest (λ row m. elim m [ ])

two-IsFresh : IsFresh 2 one_root
two-IsFresh row (inl e) h = omega (arith, ap (λ (t : TreeRow). t.id) e, h)
two-IsFresh row (inr m) h = m

abbrev root_of_child : TreeRow
root_of_child = record { id = 1; parent_id = none; lft = pos 1; rgt = pos 4; depth = pos 0 }

abbrev child_of_root : TreeRow
child_of_root = record { id = 2; parent_id = some 1; lft = pos 2; rgt = pos 3; depth = pos 1 }

abbrev with_child : Table
with_child = create_at_node 2 1 child_last one_root

with_child-IsForest : IsForest with_child
with_child-IsForest = create_at_node-IsForest 2 1 child_last one_root one_root-IsForest two-IsFresh

create_at_node-IsForest_example : IsForest (create_at_node 2 1 child_last one_root)
create_at_node-IsForest_example =
    create_at_node-IsForest 2 1 child_last one_root one_root-IsForest two-IsFresh

create_root-IsForest_example : IsForest (create_root 2 one_root)
create_root-IsForest_example = create_root-IsForest 2 one_root one_root-IsForest two-IsFresh

delete_subtree-IsForest_example : IsForest (delete_subtree 1 one_root).0
delete_subtree-IsForest_example = delete_subtree-IsForest 1 one_root one_root-IsForest

child_bounds :
    create_at_node 2 1 child_last one_root
    ≡ record { id = 1; parent_id = none; lft = pos 1; rgt = pos 4; depth = pos 0 }
      ∷ record { id = 2; parent_id = some 1; lft = pos 2; rgt = pos 3; depth = pos 1 }
      ∷ []
unfolding create_at_node node insert_at placed make_gap update_where ◌+ℤ◌
child_bounds = refl

is_ancestor_of-IsAbove_example :
    (is_ancestor_of 1 2 with_child ≡ true) ↔ IsAbove with_child root_of_child child_of_root
unfolding create_at_node node insert_at placed make_gap update_where ◌+ℤ◌
is_ancestor_of-IsAbove_example =
    is_ancestor_of-IsAbove with_child root_of_child child_of_root 1 2 with_child-IsForest refl refl

delete_subtree-create_at_node_example :
    delete_subtree 2 (create_at_node 2 1 child_last one_root) ≡ (one_root, 1)
unfolding node
delete_subtree-create_at_node_example =
    delete_subtree-create_at_node 2 1 child_last one_root root_alone one_root-IsForest two-IsFresh
      refl

child-Member : Member child_of_root with_child
unfolding create_at_node node insert_at placed make_gap update_where ◌+ℤ◌
child-Member = inr (inl refl)

move_subtree-placed_row_example :
    move_subtree child_of_root (pos 3) none (pos 0) with_child
    ≡ map (placed_row child_of_root (pos 3) none (pos 0)) with_child
move_subtree-placed_row_example =
    move_subtree-placed_row child_of_root (pos 3) none (pos 0) with_child with_child-IsForest
      child-Member
