-- ===== src/NestedSet.antt =====
-- extensions/nestedset: trees kept as intervals in the rows of a table. The table holds the rows of
-- one scope (`tree.query()` adds the scope's conditions to each statement); `Where(c).Update(u)` maps
-- the rows that satisfy `c`, and a method's statements run in one transaction, so they are one step.
-- The statements' database errors are not modelled, and a missing node is `none`.
mod Nested
mod Relabel
mod Leaf
mod Create
mod Grow
mod Delete
mod Ancestors
mod Undo
mod Move
mod Tests
use oro.Base.{
  ℕ, Bool, true, false, Option, none, some, List, [], ◌∷◌, ◌++◌, map, eqb, if◌then◌else◌, ◌&&◌, not,
  filter, Result, ok, err, ErrorKind, length,
}
use oro.QueryAst.{OroError}
use oro.Base.Int.{ℤ, pos, ◌+ℤ◌, ◌-ℤ◌, ltb_ℤ, leb_ℤ, eqb_ℤ}

pub record TreeRow : Type 0 where
  pub id : ℕ
  pub parent_id : Option ℕ
  pub lft : ℤ
  pub rgt : ℤ
  pub depth : ℤ

abbrev pub Table : Type 0
Table = List TreeRow

-- `query().Where(p).Update(u)`
pub update_where : (TreeRow → Bool) → (TreeRow → TreeRow) → Table → Table
update_where p u rows = map (λ row. if p row then u row else row) rows

pub node : ℕ → Table → Option TreeRow
node id [] = none
node id (row ∷ rows) = let rest = node id rows in if eqb row.id id then some row else rest

-- The greatest right bound: 0 for an empty table, where `Max` is null.
pub later_right : Table → ℤ → ℤ
later_right [] right = right
later_right (row ∷ rows) right = later_right rows (if ltb_ℤ right row.rgt then row.rgt else right)

pub max_right : Table → ℤ
unfolding later_right
max_right [] = pos 0
max_right (row ∷ rows) = later_right rows row.rgt

pub make_gap : ℤ → ℤ → Table → Table
unfolding update_where
make_gap from width rows =
    update_where (λ row. leb_ℤ from row.lft) (λ row. record row { lft = row.lft +ℤ width })
      (update_where (λ row. leb_ℤ from row.rgt) (λ row. record row { rgt = row.rgt +ℤ width }) rows)

pub data CreateMode : Type 0 where
  child_last child_first sibling_before sibling_after : CreateMode

-- The first position of a new node, its parent and its depth.
pub placed : CreateMode → TreeRow → ℤ × Option ℕ × ℤ
placed child_last target = (target.rgt, some target.id, target.depth +ℤ pos 1)
placed child_first target = (target.lft +ℤ pos 1, some target.id, target.depth +ℤ pos 1)
placed sibling_before target = (target.lft, target.parent_id, target.depth)
placed sibling_after target = (target.rgt +ℤ pos 1, target.parent_id, target.depth)

-- `prepareModel`, and the id that the database gives.
abbrev pub prepare_model : ℕ → Option ℕ → ℤ → ℤ → ℤ → TreeRow
prepare_model id parent left right depth = record {
  id = id;
  parent_id = parent;
  lft = left;
  rgt = right;
  depth = depth;
}

pub insert_at : ℕ → ℤ × Option ℕ × ℤ → Table → Table
unfolding make_gap
insert_at id (at, parent, depth) rows =
    make_gap at (pos 2) rows ++ prepare_model id parent at (at +ℤ pos 1) depth ∷ []

-- A target that is not there leaves the table as it is.
pub create_at_node : ℕ → ℕ → CreateMode → Table → Table
unfolding node insert_at placed
create_at_node id target_id mode rows = elim (node target_id rows) [
  | none ↦ rows
  | some target ↦ insert_at id (placed mode target) rows
]

pub create_root : ℕ → Table → Table
unfolding max_right
create_root id rows =
    rows ++ prepare_model id none (max_right rows +ℤ pos 1) (max_right rows +ℤ pos 2) (pos 0) ∷ []

abbrev pub is_within : TreeRow → TreeRow → Bool
is_within outer row = leb_ℤ outer.lft row.lft && leb_ℤ row.rgt outer.rgt

-- The last two statements of `moveSubtree` before its updates by id.
pub open_gap : ℤ → ℤ → Table → Table
unfolding update_where
open_gap at width rows =
    update_where (λ row. leb_ℤ at row.rgt) (λ row. record row { rgt = row.rgt +ℤ width })
      (update_where (λ row. leb_ℤ at row.lft) (λ row. record row { lft = row.lft +ℤ width }) rows)

-- The two statements that close a gap of `width` after `right`.
pub close_gap : ℤ → ℤ → Table → Table
unfolding update_where
close_gap right width rows =
    update_where (λ row. ltb_ℤ right row.rgt) (λ row. record row { rgt = row.rgt -ℤ width })
      (update_where (λ row. ltb_ℤ right row.lft) (λ row. record row { lft = row.lft -ℤ width })
        rows)

abbrev pub width_of : TreeRow → ℤ
width_of row = row.rgt -ℤ row.lft +ℤ pos 1

pub remove_subtree : TreeRow → Table → Table
unfolding close_gap
remove_subtree row rows =
    close_gap row.rgt (width_of row) (filter (λ other. not (is_within row other)) rows)

-- The table after the deletion, and the number of deleted rows.
pub delete_subtree : ℕ → Table → Table × ℕ
unfolding node remove_subtree
delete_subtree id rows = elim (node id rows) [
  | none ↦ (rows, 0)
  | some row ↦ (remove_subtree row rows, length (filter (is_within row) rows))
]

pub data MoveMode : Type 0 where
  move_root move_last_child move_first_child move_before move_after : MoveMode

pub record MoveUpdate : Type 0 where
  pub id : ℕ
  pub parent_id : Option ℕ
  pub lft : ℤ
  pub rgt : ℤ
  pub depth : ℤ
  pub update_parent : Bool

pub move_update : TreeRow → ℤ → Option ℕ → ℤ → TreeRow → MoveUpdate
move_update moved at new_parent new_depth row = record {
  id = row.id;
  parent_id = if eqb row.id moved.id then new_parent else none;
  lft = at +ℤ (row.lft -ℤ moved.lft);
  rgt = at +ℤ (row.rgt -ℤ moved.lft);
  depth = row.depth +ℤ (new_depth -ℤ moved.depth);
  update_parent = eqb row.id moved.id;
}

pub assign : MoveUpdate → TreeRow → TreeRow
assign update row = record row {
  parent_id = if update.update_parent then update.parent_id else row.parent_id;
  lft = update.lft;
  rgt = update.rgt;
  depth = update.depth;
}

pub apply_update : MoveUpdate → Table → Table
unfolding update_where assign
apply_update update rows = update_where (λ row. eqb row.id update.id) (assign update) rows

pub apply_updates : List MoveUpdate → Table → Table
unfolding apply_update
apply_updates [] rows = rows
apply_updates (update ∷ updates) rows = apply_updates updates (apply_update update rows)

-- What `moveSubtree` does with the rows of the subtree, which may be none. The updates are computed
-- from the rows before they shift.
pub move_rows : TreeRow → ℤ → Option ℕ → ℤ → Table → Table → Table
unfolding close_gap open_gap apply_updates move_update
move_rows moved at new_parent new_depth [] rows = rows
move_rows moved at new_parent new_depth (model ∷ models) rows =
    apply_updates (map (move_update moved at new_parent new_depth) (model ∷ models))
      (open_gap at (width_of moved) (close_gap moved.rgt (width_of moved) rows))

pub move_subtree : TreeRow → ℤ → Option ℕ → ℤ → Table → Table
unfolding move_rows
move_subtree moved at new_parent new_depth rows =
    move_rows moved at new_parent new_depth (filter (is_within moved) rows) rows

-- Where the moved rows go, counted before they leave; their parent and the moved row's depth.
pub destination : MoveMode → TreeRow → Table → ℤ × Option ℕ × ℤ
unfolding max_right
destination move_root target rows = (max_right rows +ℤ pos 1, none, pos 0)
destination move_last_child target rows = (target.rgt, some target.id, target.depth +ℤ pos 1)
destination move_first_child target rows =
    (target.lft +ℤ pos 1, some target.id, target.depth +ℤ pos 1)
destination move_before target rows = (target.lft, target.parent_id, target.depth)
destination move_after target rows = (target.rgt +ℤ pos 1, target.parent_id, target.depth)

pub move_to : TreeRow → ℤ × Option ℕ × ℤ → Table → Table
unfolding move_subtree
move_to moved (before, parent, depth) rows =
    let at = if ltb_ℤ moved.rgt before then before -ℤ width_of moved else before in
    if eqb_ℤ at moved.lft then rows else move_subtree moved at parent depth rows

is_move_root : MoveMode → Bool
is_move_root move_root = true
is_move_root _ = false

abbrev invalid_move : OroError
invalid_move = record { op = "nestedset.move"; kind = ErrorKind.invalid_argument; field = "" }

-- A node or target that is not there leaves the table as it is; no node moves into its own subtree.
pub move : ℕ → ℕ → MoveMode → Table → Result OroError Table
unfolding node move_to destination is_move_root
move id target_id mode rows = elim (node id rows) [
  | none ↦ ok rows
  | some moved ↦
      if is_move_root mode
      then ok (move_to moved (destination move_root moved rows) rows)
      else elim (node target_id rows) [
        | none ↦ ok rows
        | some target ↦
            if is_within moved target
            then err invalid_move
            else ok (move_to moved (destination mode target rows) rows)
      ]
]

-- `IsAncestorOf`: false if a node is not there.
pub is_ancestor_of : ℕ → ℕ → Table → Bool
unfolding node
is_ancestor_of ancestor_id id rows = elim (node ancestor_id rows) [
  | none ↦ false
  | some ancestor ↦ elim (node id rows) [
    | none ↦ false
    | some row ↦ ltb_ℤ ancestor.lft row.lft && ltb_ℤ row.rgt ancestor.rgt
  ]
]
