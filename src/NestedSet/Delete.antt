-- ===== src/NestedSet/Delete.antt =====
-- Deleting a subtree keeps the forest.
use oro.Base.{
  ℕ, Bool, true, not, Option-cases, [], ◌∷◌, ◌≡◌, refl, ap, sym, subst, ◌⊎◌, inl, inr, map, Member,
  filter, Member-filter, filter-Member, arith, ◌∙◌, if◌then◌else◌,
}
use oro.Base.Int.{ℤ, pos, ◌-ℤ◌, ◌<ℤ◌, +ℤ_parts, -ℤ_parts, ltb_ℤ}
use oro.NestedSet.{
  TreeRow, Table, node, update_where, close_gap, is_within, width_of, remove_subtree,
  delete_subtree,
}
use oro.NestedSet.Nested.{Contains, HasParent, IsForest, node-Member}
use oro.NestedSet.Relabel.{relabel, IsOrdered, relabelled-IsForest, set_lft_if, set_rgt_if}

abbrev pub down : ℤ → ℤ → ℤ → ℤ
down right width x = if ltb_ℤ right x then x -ℤ width else x

pub close_gap-relabel :
    (right width : ℤ) (rows : Table)
    → close_gap right width rows ≡ map (relabel (down right width)) rows
unfolding close_gap update_where
close_gap-relabel right width [] = refl
close_gap-relabel right width (row ∷ rows) =
    let test =
      λ (r : TreeRow). if ltb_ℤ right r.rgt then record r { rgt = r.rgt -ℤ width } else r in
    let left = if ltb_ℤ right row.lft then row.lft -ℤ width else row.lft in
    let head =
      ap test (set_lft_if (ltb_ℤ right row.lft) (row.lft -ℤ width) row)
      ∙ set_rgt_if (ltb_ℤ right row.rgt) (row.rgt -ℤ width) (record row { lft = left }) in
    λ i. head i ∷ close_gap-relabel right width rows i

module _ (rows : Table) (forest : IsForest rows) (target : TreeRow) (mt : Member target rows) where
  abbrev outside : TreeRow → Bool
  outside row = not (is_within target row)

  abbrev kept : Table
  kept = filter outside rows

  outside_parent :
      (parent row : TreeRow) → outside row ≡ true → Contains parent row → outside parent ≡ true
  outside_parent parent row e h = ground arith

  kept-HasParent : (row : TreeRow) → outside row ≡ true → HasParent rows row → HasParent kept row
  kept-HasParent row out (inl (e, level, alone)) =
      inl (e, level, λ other m h. alone other (Member-filter outside rows m).0 h)
  kept-HasParent row out (inr (parent, mp, e, around, level, inner)) = inr (
    parent,
    filter-Member outside rows mp (outside_parent parent row out around),
    e,
    around,
    level,
    λ other m h. inner other (Member-filter outside rows m).0 h,
  )

  kept-IsForest : IsForest kept
  kept-IsForest = record {
    proper = λ row m. forest.proper row (Member-filter outside rows m).0;
    unique = λ a b ma mb.
        forest.unique a b (Member-filter outside rows ma).0 (Member-filter outside rows mb).0;
    laminar = λ a b ma mb.
        forest.laminar a b (Member-filter outside rows ma).0 (Member-filter outside rows mb).0;
    parented = λ row m.
        let (m', out) = Member-filter outside rows m in
        kept-HasParent row out (forest.parented row m');
  }

  abbrev Clear : ℤ → Type 0
  Clear x = (x <ℤ target.lft) ⊎ (target.rgt <ℤ x)

  down-IsOrdered : IsOrdered Clear (down target.rgt (width_of target))
  down-IsOrdered =
      let inner = -ℤ_parts target.rgt target.lft in
      let width = +ℤ_parts (target.rgt -ℤ target.lft) (pos 1) in
      record {
        positive = λ x clear h.
            ground (arith, inner, width, -ℤ_parts x (width_of target), forest.proper target mt);
        monotone = λ x y cx cy h. ground (
          arith,
          inner,
          width,
          -ℤ_parts x (width_of target),
          -ℤ_parts y (width_of target),
          forest.proper target mt,
        );
      }

  Clear-row : (row : TreeRow) → Member row kept → Clear row.lft × Clear row.rgt
  Clear-row row m =
      let (m', out) = Member-filter outside rows m in
      elim (forest.laminar row target m' mt) [
        | inl e ↦ elim (itself (subst (λ r. outside r ≡ true) e out)) [ ]
        | inr cases ↦ ground (arith, cases, out, forest.proper row m', forest.proper target mt)
      ]
    where
      itself : outside target ≡ true → ⊥
      itself h = ground arith

  pub remove_subtree-IsForest : IsForest (remove_subtree target rows)
  unfolding remove_subtree
  remove_subtree-IsForest =
      subst IsForest (sym (close_gap-relabel target.rgt (width_of target) kept)) (
        relabelled-IsForest Clear (down target.rgt (width_of target)) down-IsOrdered kept Clear-row
          kept-IsForest)

-- Deleting a subtree keeps a table a forest, whether or not the node is in it.
pub delete_subtree-IsForest :
    (id : ℕ) (rows : Table) → IsForest rows → IsForest (delete_subtree id rows).0
unfolding delete_subtree
delete_subtree-IsForest id rows forest = elim (Option-cases (node id rows)) [
  | inl e ↦ rw (delete_subtree, e) forest
  | inr (target, e) ↦
      rw (delete_subtree, e) (remove_subtree-IsForest rows forest target (node-Member id rows e).0)
]
