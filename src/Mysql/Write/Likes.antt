-- ===== src/Mysql/Write/Likes.antt =====
-- A DELETE whose only condition is a comparison by LIKE.
use oro.Base.{Option, String, [], ◌∷◌, ok, false, arith, ◌≡◌, refl}
use oro.Base.Text.{◌⋄◌, ◌==◌, count-ne}
use text.Mathlib.TextLemmas.{length-append}
use oro.QueryAst.{Any, str, Statement, delete, condition, no_conditions, more_conditions}
use oro.Mysql.Ident.{quote_ident}
use oro.Mysql.Select.Where.{compile_where-like, compile_where-like_escape, like_sql, clause-ne}
use oro.Mysql.Write.{compile, compile_delete}

-- delete from a table where a field is like a text, with an escape character or none
abbrev pub delete_like : String → String → String → String → Statement
delete_like table field value escape = delete (record {
  table = table;
  conditions =
      more_conditions (condition "" field "like" (str value) no_conditions escape) no_conditions;
})

like-ne : (field : String) → (like_sql field == "") ≡ false
like-ne field = count-ne (like_sql field) (
    omega (
      arith,
      length-append "" (quote_ident field ⋄ " like ?"),
      length-append (quote_ident field) " like ?",
    ))

like_escape-ne : (field : String) → ((like_sql field ⋄ " escape '\\'") == "") ≡ false
like_escape-ne field =
    count-ne (like_sql field ⋄ " escape '\\'")
      (omega (arith, length-append (like_sql field) " escape '\\'"))

pub compile-delete_like :
    (marshal : Any → Option String) (table field value : String)
    → compile marshal (delete_like table field value "")
      ≡ ok ("delete from " ⋄ quote_ident table ⋄ " where " ⋄ like_sql field, str value ∷ [])
unfolding compile compile_delete
compile-delete_like marshal table field value =
    rw
      (
        compile,
        compile_delete,
        compile_where-like marshal field value,
        clause-ne _ _ (like-ne field),
      )
      refl

pub compile-delete_like_escape :
    (marshal : Any → Option String) (table field value : String)
    → compile marshal (delete_like table field value "\\")
      ≡ ok (
        "delete from " ⋄ quote_ident table ⋄ " where " ⋄ like_sql field ⋄ " escape '\\'",
        str value ∷ [],
      )
unfolding compile compile_delete
compile-delete_like_escape marshal table field value =
    rw
      (
        compile,
        compile_delete,
        compile_where-like_escape marshal field value,
        clause-ne _ _ (like_escape-ne field),
      )
      refl
