-- ===== src/Mysql/Select/Pieces.antt =====
-- The parts of compileSelect that follow a compiled query keep its placeholders bound.
use oro.Base.{
  ℕ, refl, Bool, String, List, [], ◌∷◌, length, length-append, Option, none, some, Result, ok, err,
  ◌>>=◌, arith, if_cases, if_cases_both,
}
use oro.Base.Int.{ℤ}
use oro.Base.Text.{◌⋄◌, ◌==◌}
use oro.QueryAst.{OroError, Any, Anys, int, MaybeRaw, no_raw, raw_spec, to_list}
use oro.Mysql.Scan.{
  Frag, part, lit, ◌▹◌, Frag-count, Parts-count, join-Frag, quote_ident-Frag, scan,
}
use oro.Mysql.Clauses.{Piece, Compiled}
use oro.Mysql.Clauses.Bound.{Bound, BoundText, BoundParts, score-Bound, aggregate-Bound}
use oro.Mysql.Conditions.Bound.{BoundPiece, BoundOption}
use oro.Mysql.Select.Ready.{RawReady, PlainItem}
use oro.Mysql.Select.{
  aliased, with_alias, select_item, table_or, bracketed, scalar, source_body, scalar_body, raw_or,
  more_parts, more_pieces, joined, count_sql,
}

pub aliased-Frag : {sql : String} {k : ℕ} (alias : String) → Frag sql k → Frag (aliased sql alias) k
unfolding aliased scan
aliased-Frag {sql} {k} alias h =
    if_cases (λ s. Frag s k) (alias == "") (λ _. h)
      (λ _. Frag-count (omega arith) (h ▹ lit " as " refl ▹ quote_ident-Frag alias))

pub with_alias-Bound :
    (alias : String) (piece : Piece)
    → Frag piece.0 (length piece.1)
    → Bound (with_alias alias piece)
unfolding with_alias scan
with_alias-Bound alias (sql, args) h =
    if_cases Bound (alias == "") (λ _. tt)
      (λ _. Frag-count (omega arith) (h ▹ lit " as " refl ▹ quote_ident-Frag alias))

-- what follows a compiled query keeps the balance
pub source_alias-Bound :
    (alias : String) (m : Compiled) → Bound m → Bound (do piece ← m; with_alias alias piece)
source_alias-Bound alias (ok piece) h = with_alias-Bound alias piece h
source_alias-Bound alias (err e) h = tt

pub exists_alias-Bound :
    (alias : String) (m : Compiled)
    → Bound m
    → Bound (do (sql, args) ← m; with_alias alias ("exists " ⋄ sql, args))
unfolding scan
exists_alias-Bound alias (ok (sql, args)) h =
    with_alias-Bound alias ("exists " ⋄ sql, args)
      (Frag-count (omega arith) (lit "exists " refl ▹ h))
exists_alias-Bound alias (err e) h = tt

pub score_alias-Bound :
    (alias : String) (m : Compiled)
    → Bound m
    → Bound (do (sql, args) ← m; ok (aliased sql alias, args))
score_alias-Bound alias (ok (sql, args)) h = aliased-Frag alias h
score_alias-Bound alias (err e) h = tt

pub text_alias-Bound :
    (alias : String) (m : Result OroError String)
    → BoundText m
    → Bound (do sql ← m; ok (aliased sql alias, []))
text_alias-Bound alias (ok sql) h = aliased-Frag alias h
text_alias-Bound alias (err e) h = tt

pub select_item-Bound :
    (expr alias : String) (raw : Bool) (args : Anys) (source : Option Compiled)
    (first_arg : Compiled)
    → PlainItem expr raw args
    → BoundOption source
    → Bound first_arg
    → Bound (select_item expr alias raw args source first_arg)
unfolding select_item
select_item-Bound expr alias raw args (some source) first_arg w h g =
    source_alias-Bound alias source h
select_item-Bound expr alias raw args none first_arg w h g =
    if_cases_both (λ (W : Type 0) (c : Compiled). W → Bound c) (expr == "__oro_relation_exists__")
      (λ _ _. exists_alias-Bound alias first_arg g)
      (λ _.
        if_cases_both (λ (W : Type 0) (c : Compiled). W → Bound c)
          (expr == "__oro_fulltext_score__") (λ _ _. score_alias-Bound alias _ (score-Bound args))
          (λ _.
            if_cases_both (λ (W : Type 0) (c : Compiled). W → Bound c) (expr == "__oro_aggregate__")
              (λ _ v. text_alias-Bound alias _ (aggregate-Bound args v))
              (λ _.
                if_cases_both (λ (W : Type 0) (c : Compiled). W → Bound c) raw
                  (λ _ v. aliased-Frag alias v)
                  (λ _ _. aliased-Frag alias (quote_ident-Frag expr)))))
      w

pub table_or-Bound :
    (table alias : String) (m : Compiled) → Bound m → Bound (table_or table alias m)
unfolding table_or
table_or-Bound table alias m h =
    if_cases Bound (table == "") (λ _. h) (λ _. aliased-Frag alias (quote_ident-Frag table))

pub bracketed-Bound : (alias : String) (m : Compiled) → Bound m → Bound (bracketed alias m)
unfolding bracketed scan
bracketed-Bound alias (ok (sql, args)) h =
    if_cases Bound (alias == "") (λ _. tt)
      (λ _. Frag-count (omega arith) (lit "(" refl ▹ h ▹ lit ") as " refl ▹ quote_ident-Frag alias))
bracketed-Bound alias (err e) h = if_cases Bound (alias == "") (λ _. tt) (λ _. tt)

pub scalar-Bound : (m : Compiled) → Bound m → Bound (scalar m)
unfolding scalar scan
scalar-Bound (ok (sql, args)) h = Frag-count (omega arith) (lit "(" refl ▹ h ▹ lit ")" refl)
scalar-Bound (err e) h = tt

pub source_body-Bound :
    (alias : String) (q : Option Compiled) (r : MaybeRaw)
    → BoundOption q
    → RawReady r
    → Bound (source_body alias q r)
unfolding source_body
source_body-Bound alias (some m) r h w = bracketed-Bound alias m h
source_body-Bound alias none (raw_spec sql args) h w =
    bracketed-Bound alias (ok (sql, to_list args)) w
source_body-Bound alias none no_raw h w = tt

pub scalar_body-Bound :
    (op : String) (q : Option Compiled) (r : MaybeRaw)
    → BoundOption q
    → RawReady r
    → Bound (scalar_body op q r)
unfolding scalar_body
scalar_body-Bound op (some m) r h w = scalar-Bound m h
scalar_body-Bound op none (raw_spec sql args) h w = scalar-Bound (ok (sql, to_list args)) w
scalar_body-Bound op none no_raw h w = tt

pub raw_or-Bound : (r : MaybeRaw) (m : Compiled) → RawReady r → Bound m → Bound (raw_or r m)
unfolding raw_or
raw_or-Bound no_raw m w h = h
raw_or-Bound (raw_spec sql args) m w h = w

pub more_parts-Bound :
    (m : Compiled) (rest : Result OroError (List String × List Any))
    → Bound m
    → BoundParts rest
    → BoundParts (more_parts m rest)
unfolding more_parts
more_parts-Bound (ok (sql, args)) (ok (parts, more)) h g =
    Parts-count (omega (arith, length-append args more)) (part h g)
more_parts-Bound (ok (sql, args)) (err e) h g = tt
more_parts-Bound (err e) rest h g = tt

pub more_pieces-Bound :
    (m : Result OroError (Option Piece)) (rest : Result OroError (List String × List Any))
    → BoundPiece m
    → BoundParts rest
    → BoundParts (more_pieces m rest)
unfolding more_pieces
more_pieces-Bound (ok (some (sql, args))) (ok (parts, more)) h g =
    Parts-count (omega (arith, length-append args more)) (part h g)
more_pieces-Bound (ok none) (ok (parts, more)) h g = g
more_pieces-Bound (ok (some _)) (err e) h g = tt
more_pieces-Bound (ok none) (err e) h g = tt
more_pieces-Bound (err e) rest h g = tt

pub joined-Bound : (r : Result OroError (List String × List Any)) → BoundParts r → Bound (joined r)
unfolding joined scan
joined-Bound (ok (parts, args)) h = join-Frag (lit "" refl) h
joined-Bound (err e) h = tt

pub count_sql-Bound :
    (op : String) (value : ℤ) (m : Compiled) → Frag op 0 → Bound m → Bound (count_sql op value m)
unfolding count_sql scan
count_sql-Bound op value (ok (sql, args)) f h =
    Frag-count (omega (arith, length-append args (int value ∷ [])))
      (h ▹ lit " " refl ▹ f ▹ lit " ?" refl)
count_sql-Bound op value (err e) f h = tt
