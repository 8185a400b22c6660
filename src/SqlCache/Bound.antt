-- ===== src/SqlCache/Bound.antt =====
-- What conditions bind, in the key and in driver/mysql/dialect.go.
use oro.Base.{
  ◌<◌, Bool, true, false, Option, none, some, String, List, [], ◌∷◌, ◌++◌, Result, ok, err, ◌≡◌,
  refl, sym, subst, ap, ◌∙◌, arith,
}
use oro.Base.Text.{◌⋄◌, ◌==◌, to_lower, trim_space, join, count-ne}
use text.Mathlib.TextLemmas.{length-append}
use Prim.Native.String.{count as size}
use oro.QueryAst.{OroError, Any, Condition, condition, Conditions, no_conditions, more_conditions}
use oro.Mysql.Clauses.{Piece}
use oro.Mysql.Conditions.{op_kind, prefix_of}
use oro.Mysql.Select.{compile_where, where_parts, condition_inner, joined, more_pieces}
use oro.SqlCache.Pieces.{Binds, Nested, condition_piece-Binds}
use oro.SqlCache.Conditions.{more_shapes, simple_condition_args, simple_conditions_args, bool_of}

-- what is known of the parts of a WHERE and the shape of its conditions
abbrev Parts : Result OroError (List String × List Any) → Option (List Any × String) → Type 0
Parts result shapes =
    (parts : List String) (bound args : List Any) (shape : String)
    → result ≡ ok (parts, bound)
    → shapes ≡ some (args, shape)
    → (bound ≡ args) × ((join "" parts == "") ≡ true → args ≡ [])

join-filled : (sql : String) (parts : List String) → 0 < size sql → 0 < size (join "" (sql ∷ parts))
unfolding join
join-filled sql [] filled = filled
join-filled sql (p ∷ ps) filled = omega (arith, length-append sql ("" ⋄ join "" (p ∷ ps)))

joined-Nested :
    (result : Result OroError (List String × List Any)) (shapes : Option (List Any × String))
    → Parts result shapes
    → Nested (joined result) shapes
unfolding joined
joined-Nested (err e) shapes known p args shape compiled simple = absurd cc
joined-Nested (ok (parts, bound)) shapes known p args shape compiled simple =
    let (same, empty) = known parts bound args shape refl simple in
    let made : (join "" parts, bound) ≡ p = cc in
    subst (λ (q : Piece). (q.1 ≡ args) × ((q.0 == "") ≡ true → args ≡ [])) made (same, empty)

more-Parts :
    (word : String) (compiled : Result OroError (Option Piece))
    (rest : Result OroError (List String × List Any)) (first more : Option (List Any × String))
    → ((piece : Option Piece) (args : List Any) (shape : String)
        → compiled ≡ ok piece
        → first ≡ some (args, shape)
        → Binds piece args)
    → Parts rest more
    → Parts (more_pieces compiled rest) (more_shapes word first more)
unfolding more_pieces more_shapes
more-Parts word (err e) rest first more one others parts bound args shape done simple = absurd cc
more-Parts word (ok piece) (err e) first more one others parts bound args shape done simple =
    absurd cc
more-Parts word (ok piece) (ok (ps, bs)) none more one others parts bound args shape done simple =
    absurd cc
more-Parts word (ok piece) (ok (ps, bs)) (some f) none one others parts bound args shape done
      simple =
    absurd cc
more-Parts word (ok none) (ok (ps, bs)) (some (as', s)) (some (ms, t)) one others parts bound args
      shape done simple =
    let none_ : as' ≡ [] = one none as' s refl refl in
    let (same, empty) = others ps bs ms t refl refl in
    let p : ps ≡ parts = cc in
    let b : bs ≡ bound = cc in
    let a : as' ++ ms ≡ args = cc in
    let m : ms ≡ args = sym (ap (λ l. l ++ ms) none_) ∙ a in
    (sym b ∙ same ∙ m, λ e. sym m ∙ empty (ap (λ l. join "" l == "") p ∙ e))
more-Parts word (ok (some (sql, cs))) (ok (ps, bs)) (some (as', s)) (some (ms, t)) one others parts
      bound args shape done simple =
    let (cs_same, filled) = one (some (sql, cs)) as' s refl refl in
    let (same, empty) = others ps bs ms t refl refl in
    let p : sql ∷ ps ≡ parts = cc in
    let b : cs ++ bs ≡ bound = cc in
    let a : as' ++ ms ≡ args = cc in
    (
      sym b ∙ ap (λ l. l ++ bs) cs_same ∙ ap (λ l. as' ++ l) same ∙ a,
      λ e. absurd (
          let no = count-ne (join "" (sql ∷ ps)) (join-filled sql ps filled) in
          let yes_ = ap (λ l. join "" l == "") p ∙ e in cc),
    )

no-Parts : Parts (ok ([], [])) (some ([], ""))
unfolding join
no-Parts parts bound args shape compiled simple =
    let b : [] ≡ bound = cc in let a : [] ≡ args = cc in (sym b ∙ a, λ e. sym a)

module _ (marshal : Any → Option String) where
  mutual
    unfolding condition_inner simple_condition_args

    condition-Binds :
        (c : Condition) (first : Bool) (piece : Option Piece) (args : List Any) (shape : String)
        → condition_inner marshal c first ≡ ok piece
        → simple_condition_args marshal "mysql" c ≡ some (args, shape)
        → Binds piece args
    condition-Binds (condition word field op value nested escape) first piece args shape compiled
          simple =
        condition_piece-Binds marshal (op_kind (to_lower (trim_space op))) (prefix_of first word)
          (to_lower (trim_space op)) op field value escape _
          (simple_conditions_args marshal "mysql" nested) piece args shape refl
          (joined-Nested (where_parts marshal nested true)
            (simple_conditions_args marshal "mysql" nested) (conditions-Parts nested true))
          compiled simple

    conditions-Parts :
        (cs : Conditions) (first : Bool)
        → Parts (where_parts marshal cs first) (simple_conditions_args marshal "mysql" cs)
    conditions-Parts no_conditions first = no-Parts
    conditions-Parts (more_conditions c cs) first =
        more-Parts (bool_of c) (condition_inner marshal c first) (where_parts marshal cs false)
          (simple_condition_args marshal "mysql" c) (simple_conditions_args marshal "mysql" cs)
          (condition-Binds c first) (conditions-Parts cs false)

  pub compile_where-args :
      (filters : Conditions) (p : Piece) (args : List Any) (shape : String)
      → compile_where marshal filters ≡ ok p
      → simple_conditions_args marshal "mysql" filters ≡ some (args, shape)
      → (p.1 ≡ args) × ((p.0 == "") ≡ true → args ≡ [])
  unfolding compile_where
  compile_where-args filters =
      joined-Nested (where_parts marshal filters true)
        (simple_conditions_args marshal "mysql" filters) (conditions-Parts filters true)
