-- ===== src/Mysql/Write/Rows.antt =====
-- The rows of an INSERT bind one argument for each of their placeholders.
use Prim.Native.String.append
use Prim.Native.Char.{Char}
use text.Mathlib.TextEquality.{eq_iff}
use oro.Base.{
  ℕ, zero, suc, ◌≡◌, refl, sym, ap, ◌∙◌, Bool, ◌&&◌, String, List, [], ◌∷◌, ◌++◌, map, length,
  length-append, Option, none, some, Result, ok, err, ◌>>=◌, arith, if◌then◌else◌, if_cases, eqb,
}
use oro.Base.Text.{◌⋄◌, ◌==◌, join, repeat, trim_right}
use oro.QueryAst.{OroError, Any, Map}
use oro.Mysql.Ident.{quote_ident}
use oro.Mysql.Scan.{
  Frag, none_left, part, lit, ◌▹◌, Frag-count, Parts-count, join-Frag, quote_ident-Frag,
  quoted-Parts, scan, plain,
}
use oro.Mysql.Clauses.Bound.{Bound, BoundParts}
use oro.Mysql.Write.{
  sorted_keys, get, row_placeholder, row_arg, row_args, insert_rows, plain_insert, comma_or_space,
}

trimmed : String → String
trimmed = trim_right comma_or_space

scan-trimmed_cut :
    (c : Char) (s : String)
    → scan plain (String.◌∷◌ c (trimmed s)) ≡ scan plain (trimmed s)
    → scan plain (trimmed (String.◌∷◌ c s)) ≡ scan plain (trimmed s)
unfolding trimmed trim_right scan
scan-trimmed_cut c s e =
    if_cases (λ t. scan plain t ≡ scan plain (trimmed s)) (comma_or_space c && (trimmed s == ""))
      (λ h. ap (scan plain) (sym ((eq_iff (trimmed s) "").0 (ground arith)))) (λ _. e)

abbrev cell : String → String
cell s = String.◌∷◌ "?" (String.◌∷◌ "," (String.◌∷◌ " " s))

append-cell : (s : String) → "?, " ⋄ s ≡ cell s
append-cell s =
    append.cons "?" ", " s
    ∙ ap (String.◌∷◌ "?") (
        append.cons "," " " s
        ∙ ap (String.◌∷◌ ",") (append.cons " " "" s ∙ ap (String.◌∷◌ " ") (append.nil s)))

scan-trimmed-cell :
    (s : String) {n : ℕ}
    → scan plain (trimmed s) ≡ (plain, n)
    → scan plain (trimmed (cell s)) ≡ (plain, suc n)
unfolding trimmed trim_right scan
scan-trimmed-cell s e =
    let space = scan-trimmed_cut " " s (ground arith) in
    let comma = scan-trimmed_cut "," (String.◌∷◌ " " s) (ground arith) in
    ground (arith, space, comma, e)

scan-trimmed-repeat : (n : ℕ) → scan plain (trimmed (repeat "?, " n)) ≡ (plain, n)
unfolding repeat scan trimmed trim_right
scan-trimmed-repeat zero = refl
scan-trimmed-repeat (suc n) =
    rw (append-cell (repeat "?, " n)) (scan-trimmed-cell (repeat "?, " n) (scan-trimmed-repeat n))

row_placeholder-Frag : (n : ℕ) → Frag (row_placeholder n) n
unfolding row_placeholder trimmed scan
row_placeholder-Frag n = Frag-count (omega arith) (
    lit "(" refl
    ▹ (let f : Frag (trimmed (repeat "?, " n)) n = record { at = scan-trimmed-repeat n } in f)
    ▹ lit ")" refl)

-- one argument for each column
abbrev HasLength : ℕ → Result OroError (List Any) → Type 0
HasLength n (ok args) = length args ≡ n
HasLength n (err e) = Unit

row_arg-length :
    (n : ℕ) (o : Option Any) (r : Result OroError (List Any))
    → HasLength n r
    → HasLength (suc n) (row_arg o r)
unfolding row_arg
row_arg-length n none r h = tt
row_arg-length n (some item) (ok more) h = ap suc h
row_arg-length n (some item) (err e) h = tt

row_args-length :
    (columns : List String) (row : Map) → HasLength (length columns) (row_args columns row)
unfolding row_args
row_args-length [] row = refl
row_args-length (column ∷ columns) row =
    row_arg-length (length columns) (get column row) (row_args columns row)
      (row_args-length columns row)

add_row-Bound :
    (n : ℕ) (r : Result OroError (List Any)) (rest : Result OroError (List String × List Any))
    → HasLength n r
    → BoundParts rest
    → BoundParts (do args ← r; (parts, more) ← rest; ok (row_placeholder n ∷ parts, args ++ more))
add_row-Bound n (ok args) (ok (parts, more)) h g =
    Parts-count (omega (arith, length-append args more)) (part (row_placeholder-Frag n) g)
add_row-Bound n (ok args) (err e) h g = tt
add_row-Bound n (err e) rest h g = tt

insert_rows-Bound :
    (columns : List String) (rows : List Map) → BoundParts (insert_rows columns rows)
unfolding insert_rows
insert_rows-Bound columns [] = none_left
insert_rows-Bound columns (row ∷ rows) =
    if_cases BoundParts (eqb (length row) (length columns))
      (λ _.
        add_row-Bound (length columns) (row_args columns row) (insert_rows columns rows)
          (row_args-length columns row) (insert_rows-Bound columns rows))
      (λ _. tt)

pub plain_insert-Bound :
    (table : String) (rows : List Map) (returning : Bool)
    → Bound (plain_insert table rows returning)
unfolding plain_insert scan
plain_insert-Bound table [] returning = tt
plain_insert-Bound table (row ∷ rows) returning =
    go (insert_rows (sorted_keys row) (row ∷ rows))
      (insert_rows-Bound (sorted_keys row) (row ∷ rows))
  where
    go :
        (r : Result OroError (List String × List Any))
        → BoundParts r
        → Bound (do
          (parts, args) ← r
          ok (
            "insert into "
                ⋄ quote_ident table
                ⋄ " ("
                ⋄ join ", " (map quote_ident (sorted_keys row))
                ⋄ ") values "
                ⋄ join ", " parts
                ⋄ (if returning then " returning *" else ""),
            args,
          ))
    go (ok (parts, args)) h = Frag-count (omega arith) (
        lit "insert into " refl
        ▹ quote_ident-Frag table
        ▹ lit " (" refl
        ▹ join-Frag (lit ", " refl) (quoted-Parts (sorted_keys row))
        ▹ lit ") values " refl
        ▹ join-Frag (lit ", " refl) h
        ▹ if_cases (λ s. Frag s 0) returning (λ _. lit " returning *" refl) (λ _. lit "" refl))
    go (err e) h = tt

-- A raw expression has a placeholder for each of its arguments; other values are under no condition.
