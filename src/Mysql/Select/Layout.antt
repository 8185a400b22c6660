-- ===== src/Mysql/Select/Layout.antt =====
-- The clauses of a SELECT, put together, bind one argument for each placeholder.
use oro.Base.{
  ℕ, ◌+◌, ◌≡◌, refl, String, List, [], ◌∷◌, ◌++◌, length, length-append, Option, none, some, Result,
  ok, err, ◌>>=◌, arith, if_cases, if_cases_both,
}
use oro.Base.Int.{ℤ, pos, negsuc}
use oro.Base.Text.{◌⋄◌, ◌==◌, join}
use oro.QueryAst.{OroError, Any, LockSpec}
use oro.Mysql.Scan.{Frag, Parts, none_left, lit, ◌▹◌, Frag-count, join-Frag, scan, itoa-Frag}
use oro.Mysql.Clauses.{Piece, Compiled, compile_lock, compile_group}
use oro.Mysql.Clauses.Bound.{Bound, BoundText, BoundParts, compile_lock-Bound, compile_group-Frag}
use oro.Mysql.Select.{clause, clause_args, limit_sql, offset_sql, select_sql}

pub clause-Frag :
    (keyword : String) (piece : Piece)
    → Frag keyword 0
    → Frag piece.0 (length piece.1)
    → Frag (clause keyword piece.0) (length (clause_args piece))
unfolding clause clause_args scan
clause-Frag keyword (sql, args) f h =
    if_cases_both (λ (s : String) (as' : List Any). Frag s (length as')) (sql == "")
      (λ _. lit "" refl) (λ _. Frag-count (omega arith) (f ▹ h))

pub group_clause-Frag : (group : List String) → Frag (clause " group by " (compile_group group)) 0
unfolding clause scan
group_clause-Frag group =
    if_cases (λ s. Frag s 0) (compile_group group == "") (λ _. lit "" refl)
      (λ _. lit " group by " refl ▹ compile_group-Frag group)

pub limit-Bound : (limit : Option ℤ) → BoundText (limit_sql limit)
unfolding limit_sql scan
limit-Bound none = lit "" refl
limit-Bound (some (pos n)) = lit " limit " refl ▹ itoa-Frag n
limit-Bound (some (negsuc n)) = tt

pub offset-Bound : (limit offset : Option ℤ) → BoundText (offset_sql limit offset)
unfolding offset_sql scan
offset-Bound none none = lit "" refl
offset-Bound (some _) none = lit "" refl
offset-Bound none (some (pos n)) =
    lit " limit 18446744073709551615" refl ▹ lit " offset " refl ▹ itoa-Frag n
offset-Bound (some _) (some (pos n)) = lit " offset " refl ▹ itoa-Frag n
offset-Bound none (some (negsuc n)) = tt
offset-Bound (some _) (some (negsuc n)) = tt

pub select_list-Frag :
    (parts : List String) {n : ℕ}
    → Parts parts n
    → Frag (elim parts [ [] ↦ "*" | p ∷ ps ↦ join ", " (p ∷ ps) ]) n
unfolding scan
select_list-Frag [] none_left = lit "*" refl
select_list-Frag (p ∷ ps) h = join-Frag (lit ", " refl) h

pub join_list-Frag :
    (parts : List String) {n : ℕ}
    → Parts parts n
    → Frag (elim parts [ [] ↦ "" | p ∷ ps ↦ " " ⋄ join " " (p ∷ ps) ]) n
unfolding scan
join_list-Frag [] none_left = lit "" refl
join_list-Frag (p ∷ ps) h = Frag-count (omega arith) (lit " " refl ▹ join-Frag (lit " " refl) h)

pub bind-Bound :
    (m : Compiled) (f : Piece → Compiled)
    → Bound m
    → ((sql : String) (args : List Any) → Frag sql (length args) → Bound (f (sql, args)))
    → Bound (m >>= f)
bind-Bound (ok (sql, args)) f h k = k sql args h
bind-Bound (err e) f h k = tt

pub bind-BoundText :
    (m : Result OroError String) (f : String → Compiled)
    → BoundText m
    → ((sql : String) → Frag sql 0 → Bound (f sql))
    → Bound (m >>= f)
bind-BoundText (ok sql) f h k = k sql h
bind-BoundText (err e) f h k = tt

pub bind-BoundParts :
    (m : Result OroError (List String × List Any)) (f : List String × List Any → Compiled)
    → BoundParts m
    → ((parts : List String) (args : List Any)
        → Parts parts (length args)
        → Bound (f (parts, args)))
    → Bound (m >>= f)
bind-BoundParts (ok (parts, args)) f h k = k parts args h
bind-BoundParts (err e) f h k = tt

abbrev length-append_any : (xs ys : List Any) → length (xs ++ ys) ≡ length xs + length ys
length-append_any = length-append

pub select_sql-Bound :
    (items joins : Result OroError (List String × List Any)) (from conditions having : Compiled)
    (group : List String) (order : Piece) (limit offset : Option ℤ) (lock : LockSpec)
    → BoundParts items
    → BoundParts joins
    → Bound from
    → Bound conditions
    → Bound having
    → Frag order.0 (length order.1)
    → Bound (select_sql items from joins conditions group having order limit offset lock)
unfolding select_sql scan
select_sql-Bound items joins from conditions having group order limit offset lock hi hj hf hc hh
      ho =
    bind-BoundParts items _ hi λ parts select_args fi. bind-Bound from _ hf λ source source_args ff.
      bind-BoundParts joins _ hj λ joined_parts join_args fj.
        bind-Bound conditions _ hc λ c_sql c_args fc. bind-Bound having _ hh λ h_sql h_args fh.
          bind-BoundText (limit_sql limit) _ (limit-Bound limit) λ limited fl.
            bind-BoundText (offset_sql limit offset) _ (offset-Bound limit offset) λ skipped fs.
              bind-BoundText (compile_lock lock) _ (compile_lock-Bound lock) λ locked fk.
                Frag-count (simp length-append_any (omega arith)) (
                  lit "select " refl
                  ▹ select_list-Frag parts fi
                  ▹ lit " from " refl
                  ▹ ff
                  ▹ join_list-Frag joined_parts fj
                  ▹ clause-Frag " where " (c_sql, c_args) (lit " where " refl) fc
                  ▹ group_clause-Frag group
                  ▹ clause-Frag " having " (h_sql, h_args) (lit " having " refl) fh
                  ▹ clause-Frag " order by " order (lit " order by " refl) ho
                  ▹ fl
                  ▹ fs
                  ▹ fk)
