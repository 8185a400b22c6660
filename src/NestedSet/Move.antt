-- ===== src/NestedSet/Move.antt =====
-- What the statements of moveSubtree do to a row.
use oro.Base.{
  ℕ, Bool, true, false, Option, none, List, [], ◌∷◌, map, ◌≡◌, ◌≢◌, refl, ap, sym, ◌∙◌, inl, inr,
  Member, Member-map, map-Member, filter, Member-filter, filter-Member, eqb, eqb_iff, if◌then◌else◌,
  if_cases, arith,
}
use oro.Base.Int.{ℤ, pos, ◌+ℤ◌, ◌-ℤ◌, leb_ℤ}
use oro.NestedSet.{
  TreeRow, Table, MoveUpdate, update_where, open_gap, is_within, width_of, move_update, assign,
  apply_update, apply_updates, move_rows, move_subtree, close_gap,
}
use oro.NestedSet.Nested.{IsForest}
use oro.NestedSet.Relabel.{relabel, set_lft_if, set_rgt_if}
use oro.NestedSet.Delete.{down, close_gap-relabel}

abbrev pub up_by : ℤ → ℤ → ℤ → ℤ
up_by at width x = if leb_ℤ at x then x +ℤ width else x

open_gap-relabel :
    (at width : ℤ) (rows : Table) → open_gap at width rows ≡ map (relabel (up_by at width)) rows
unfolding open_gap update_where
open_gap-relabel at width [] = refl
open_gap-relabel at width (row ∷ rows) =
    let test = λ (r : TreeRow). if leb_ℤ at r.rgt then record r { rgt = r.rgt +ℤ width } else r in
    let left = if leb_ℤ at row.lft then row.lft +ℤ width else row.lft in
    let head =
      ap test (set_lft_if (leb_ℤ at row.lft) (row.lft +ℤ width) row)
      ∙ set_rgt_if (leb_ℤ at row.rgt) (row.rgt +ℤ width) (record row { lft = left }) in
    λ i. head i ∷ open_gap-relabel at width rows i

map_twice :
    {A B C : Type 0} (f : A → B) (g : B → C) (xs : List A)
    → map g (map f xs) ≡ map (λ x. g (f x)) xs
map_twice f g [] = refl
map_twice f g (x ∷ xs) = λ i. g (f x) ∷ map_twice f g xs i

map_same :
    {A B : Type 0} (f g : A → B) (xs : List A)
    → ((x : A) → Member x xs → f x ≡ g x)
    → map f xs ≡ map g xs
map_same f g [] h = refl
map_same f g (x ∷ xs) h = λ i. h x (inl refl) i ∷ map_same f g xs (λ y m. h y (inr m)) i

abbrev update_row : MoveUpdate → TreeRow → TreeRow
update_row update row = if eqb row.id update.id then assign update row else row

abbrev update_all : List MoveUpdate → TreeRow → TreeRow
update_all [] row = row
update_all (update ∷ updates) row = update_all updates (update_row update row)

apply_updates-map :
    (updates : List MoveUpdate) (rows : Table)
    → apply_updates updates rows ≡ map (update_all updates) rows
unfolding apply_updates apply_update update_where
apply_updates-map [] [] = refl
apply_updates-map [] (row ∷ rows) = λ i. row ∷ apply_updates-map [] rows i
apply_updates-map (update ∷ updates) rows =
    apply_updates-map updates (map (update_row update) rows)
    ∙ map_twice (update_row update) (update_all updates) rows

if_twice :
    {A : Type 0} (b : Bool) (x y : A) → (if b then x else if b then x else y) ≡ (if b then x else y)
if_twice true x y = refl
if_twice false x y = refl

assign_twice : (v : MoveUpdate) (row : TreeRow) → assign v (assign v row) ≡ assign v row
unfolding assign
assign_twice v row =
    λ i. record (assign v row) { parent_id = if_twice v.update_parent v.parent_id row.parent_id i }

different : (a b : ℕ) → eqb a b ≡ false → a ≡ b → ⊥
different a b q e = ground arith

true_not_false : (b : Bool) → b ≡ true → b ≡ false → ⊥
true_not_false b e e' = cc

-- Every update of the list that is for the row is `v`.
abbrev Only : List MoveUpdate → MoveUpdate → ℕ → Type 0
Only updates v id = (u : MoveUpdate) → Member u updates → id ≡ u.id → u ≡ v

settled :
    (updates : List MoveUpdate) (v : MoveUpdate) (row : TreeRow)
    → Only updates v row.id
    → update_all updates (assign v row) ≡ assign v row
unfolding assign
settled [] v row only = refl
settled (u ∷ updates) v row only =
    let rest = settled updates v row (λ w m. only w (inr m)) in
    if_cases (λ r. update_all updates r ≡ assign v row) (eqb row.id u.id)
      (λ e.
        ap (λ w. update_all updates (assign w (assign v row)))
          (only u (inl refl) ((eqb_iff row.id u.id).0 e))
        ∙ ap (update_all updates) (assign_twice v row)
        ∙ rest)
      (λ _. rest)

untouched :
    (updates : List MoveUpdate) (row : TreeRow)
    → ((u : MoveUpdate) → Member u updates → row.id ≢ u.id)
    → update_all updates row ≡ row
untouched [] row none_for = refl
untouched (u ∷ updates) row none_for =
    if_cases (λ r. update_all updates r ≡ row) (eqb row.id u.id)
      (λ e. absurd (none_for u (inl refl) ((eqb_iff row.id u.id).0 e)))
      (λ _. untouched updates row (λ w m. none_for w (inr m)))

touched :
    (updates : List MoveUpdate) (v : MoveUpdate) (row : TreeRow)
    → Only updates v row.id
    → Member v updates
    → row.id ≡ v.id
    → update_all updates row ≡ assign v row
touched [] v row only m e = absurd m
touched (u ∷ updates) v row only m e =
    let only' = λ (w : MoveUpdate) (mw : Member w updates). only w (inr mw) in
    if_cases (λ r. update_all updates r ≡ assign v row) (eqb row.id u.id)
      (λ q.
        ap (λ w. update_all updates (assign w row)) (only u (inl refl) ((eqb_iff row.id u.id).0 q))
        ∙ settled updates v row only')
      (λ q. elim m [
        | inl same ↦ absurd (different row.id u.id q (e ∙ ap (λ (w : MoveUpdate). w.id) same))
        | inr m' ↦ touched updates v row only' m' e
      ])

-- What becomes of a row: a row of the subtree keeps its place relative to the moved row, and only the
-- moved row gets the new parent; any other row closes the gap that the subtree leaves and opens the
-- one that it comes to.
abbrev pub placed_row : TreeRow → ℤ → Option ℕ → ℤ → TreeRow → TreeRow
placed_row moved at new_parent new_depth row =
    if is_within moved row
    then record {
      id = row.id;
      parent_id = if eqb row.id moved.id then new_parent else row.parent_id;
      lft = at +ℤ (row.lft -ℤ moved.lft);
      rgt = at +ℤ (row.rgt -ℤ moved.lft);
      depth = row.depth +ℤ (new_depth -ℤ moved.depth);
    }
    else let width = moved.rgt -ℤ moved.lft +ℤ pos 1 in
      relabel (λ x. up_by at width (down moved.rgt width x)) row

module _ (moved : TreeRow) (at : ℤ) (new_parent : Option ℕ) (new_depth : ℤ) (rows : Table)
    (forest : IsForest rows) where
  abbrev to_update : TreeRow → MoveUpdate
  to_update = move_update moved at new_parent new_depth

  abbrev updates_of : List MoveUpdate
  updates_of = map to_update (filter (is_within moved) rows)

  abbrev shifted : TreeRow → TreeRow
  shifted = relabel (λ x. up_by at (width_of moved) (down moved.rgt (width_of moved) x))

  source_of :
      (u : MoveUpdate)
      → Member u updates_of
      → (row : TreeRow) × Member row rows × (is_within moved row ≡ true) × (u ≡ to_update row)
  source_of u m =
      let (row, mr, e) = Member-map to_update (filter (is_within moved) rows) m in
      let (mr', inside) = Member-filter (is_within moved) rows mr in (row, mr', inside, e)

  update_id : (row : TreeRow) → (to_update row).id ≡ row.id
  unfolding move_update
  update_id row = refl

  same_source :
      (u : MoveUpdate) (row r : TreeRow)
      → Member row rows
      → Member r rows
      → u ≡ to_update r
      → row.id ≡ u.id
      → row ≡ r
  same_source u row r m mr e same =
      forest.unique row r m mr (same ∙ ap (λ (w : MoveUpdate). w.id) e ∙ update_id r)

  assigned :
      (row : TreeRow)
      → assign (to_update row) (shifted row) ≡ record {
        id = row.id;
        parent_id = if eqb row.id moved.id then new_parent else row.parent_id;
        lft = at +ℤ (row.lft -ℤ moved.lft);
        rgt = at +ℤ (row.rgt -ℤ moved.lft);
        depth = row.depth +ℤ (new_depth -ℤ moved.depth);
      }
  unfolding assign move_update
  assigned row = λ i. record {
    id = row.id;
    parent_id = if_nested (eqb row.id moved.id) i;
    lft = at +ℤ (row.lft -ℤ moved.lft);
    rgt = at +ℤ (row.rgt -ℤ moved.lft);
    depth = row.depth +ℤ (new_depth -ℤ moved.depth);
  }
    where
      if_nested :
          (b : Bool)
          → (if b then (if b then new_parent else none) else row.parent_id)
            ≡ (if b then new_parent else row.parent_id)
      if_nested true = refl
      if_nested false = refl

  updated :
      (row : TreeRow)
      → Member row rows
      → update_all updates_of (shifted row) ≡ placed_row moved at new_parent new_depth row
  updated row m =
      if_cases (λ r. update_all updates_of (shifted row) ≡ r) (is_within moved row)
        (λ inside.
          touched updates_of (to_update row) (shifted row)
            (λ u mu same.
              let (r, mr, within, e) = source_of u mu in
              e ∙ ap to_update (sym (same_source u row r m mr e same)))
            (map-Member to_update (filter (is_within moved) rows) row
              (filter-Member (is_within moved) rows m inside))
            (sym (update_id row))
          ∙ assigned row)
        (λ outside. untouched updates_of (shifted row) (λ u mu same.
          let (r, mr, within, e) = source_of u mu in
          true_not_false (is_within moved row)
            (ap (is_within moved) (same_source u row r m mr e same) ∙ within) outside))

  inside_itself : is_within moved moved ≡ true
  inside_itself = ground arith

  moved_rows :
      (models : Table)
      → Member moved models
      → move_rows moved at new_parent new_depth models rows
        ≡ apply_updates
            (map to_update models)
            (open_gap at (width_of moved) (close_gap moved.rgt (width_of moved) rows))
  unfolding move_rows
  moved_rows [] m = absurd m
  moved_rows (model ∷ models) m = refl

  -- If the moved row is one of a forest, the statements of `moveSubtree`, one after the other, do to
  -- each row what `placed_row` says, whatever the position, parent and depth are.
  pub move_subtree-placed_row :
      Member moved rows
      → move_subtree moved at new_parent new_depth rows
        ≡ map (placed_row moved at new_parent new_depth) rows
  unfolding move_subtree
  move_subtree-placed_row there =
      moved_rows (filter (is_within moved) rows)
        (filter-Member (is_within moved) rows there inside_itself)
      ∙ ap (λ (t : Table). apply_updates updates_of (open_gap at (width_of moved) t))
          (close_gap-relabel moved.rgt (width_of moved) rows)
      ∙ ap (apply_updates updates_of) (
          open_gap-relabel at (width_of moved)
            (map (relabel (down moved.rgt (width_of moved))) rows)
          ∙ map_twice (relabel (down moved.rgt (width_of moved)))
              (relabel (up_by at (width_of moved))) rows)
      ∙ apply_updates-map updates_of (map shifted rows)
      ∙ map_twice shifted (update_all updates_of) rows
      ∙ map_same (λ row. update_all updates_of (shifted row))
          (placed_row moved at new_parent new_depth) rows updated
