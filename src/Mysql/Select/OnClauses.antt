-- ===== src/Mysql/Select/OnClauses.antt =====
-- The joins of compileSelect bind one argument for each placeholder.
use oro.Base.{
  refl, Bool, true, false, String, ◌++◌, length, length-append, ok, err, ◌>>=◌, arith,
  if◌then◌else◌, if_cases,
}
use oro.Base.Text.{◌⋄◌, to_lower}
use oro.QueryAst.{
  JoinType, inner, left, right, full, cross, other_join, JoinCondition, join_condition,
  JoinConditions, end, also,
}
use oro.Mysql.Scan.{
  Frag, Parts, none_left, part, lit, ◌▹◌, Frag-count, Parts-count, join-Frag, quote_ident-Frag,
  scan,
}
use oro.Mysql.Clauses.{Piece, Compiled}
use oro.Mysql.Clauses.Bound.{Bound}
use oro.Mysql.Select.Ready.{JoinConditionReady, JoinConditionsReady}
use oro.Mysql.Select.{
  join_keyword, join_condition_sql, join_condition_parts, compile_join_conditions, join_sql,
}

mutual
  unfolding join_condition_sql join_condition_parts scan

  pub join_condition-Frag :
      (c : JoinCondition) (first : Bool)
      → JoinConditionReady c
      → Frag (join_condition_sql first c).0 (length (join_condition_sql first c).1)
  join_condition-Frag (join_condition word lhs op rhs value column end) first h =
      let prefix : Frag (if first then "" else to_lower word ⋄ " ") 0 =
        if_cases (λ s. Frag s 0) first (λ _. lit "" refl) (λ _. h.0 ▹ lit " " refl) in
      if_cases (λ (piece : Piece). Frag piece.0 (length piece.1)) column
        (λ _.
          prefix ▹ quote_ident-Frag lhs ▹ lit " " refl ▹ h.1 ▹ lit " " refl ▹ quote_ident-Frag rhs)
        (λ _. prefix ▹ quote_ident-Frag lhs ▹ lit " " refl ▹ h.1 ▹ lit " ?" refl)
  join_condition-Frag (join_condition word lhs op rhs value column (also c cs)) first h =
      let prefix : Frag (if first then "" else to_lower word ⋄ " ") 0 =
        if_cases (λ s. Frag s 0) first (λ _. lit "" refl) (λ _. h.0 ▹ lit " " refl) in
      Frag-count (omega arith) (
        prefix
        ▹ lit "(" refl
        ▹ join-Frag (lit " " refl) (join_conditions-Parts (also c cs) true h.2)
        ▹ lit ")" refl)

  pub join_conditions-Parts :
      (cs : JoinConditions) (first : Bool)
      → JoinConditionsReady cs
      → Parts (join_condition_parts first cs).0 (length (join_condition_parts first cs).1)
  join_conditions-Parts end first h = none_left
  join_conditions-Parts (also c cs) first h =
      Parts-count
        (omega
          (arith, length-append (join_condition_sql first c).1 (join_condition_parts false cs).1))
        (part (join_condition-Frag c first h.0) (join_conditions-Parts cs false h.1))

pub keyword-Bound :
    (keyword : String) (conditions : Piece) (source : Compiled)
    → Frag keyword 0
    → Frag conditions.0 (length conditions.1)
    → Bound source
    → Bound (do
      (sql, args) ← source
      ok (keyword ⋄ " " ⋄ sql ⋄ " on " ⋄ conditions.0, args ++ conditions.1))
unfolding scan
keyword-Bound keyword conditions (ok (sql, args)) f g h =
    Frag-count (omega (arith, length-append args conditions.1))
      (f ▹ lit " " refl ▹ h ▹ lit " on " refl ▹ g)
keyword-Bound keyword conditions (err e) f g h = tt

pub join_sql-Bound :
    (kind : JoinType) (conditions : Piece) (source : Compiled) (b : Bool)
    → Frag conditions.0 (length conditions.1)
    → Bound source
    → Bound (join_sql kind conditions source b)
unfolding join_sql join_keyword scan
join_sql-Bound cross conditions (ok (sql, args)) b f h =
    Frag-count (omega arith) (lit "cross join " refl ▹ h)
join_sql-Bound cross conditions (err e) b f h = tt
join_sql-Bound inner conditions source b f h =
    if_cases Bound b (λ _. keyword-Bound "join" conditions source (lit "join" refl) f h) (λ _. tt)
join_sql-Bound left conditions source b f h =
    if_cases Bound b (λ _. keyword-Bound "left join" conditions source (lit "left join" refl) f h)
      (λ _. tt)
join_sql-Bound right conditions source b f h =
    if_cases Bound b (λ _. keyword-Bound "right join" conditions source (lit "right join" refl) f h)
      (λ _. tt)
join_sql-Bound full conditions source b f h =
    if_cases Bound b (λ _. keyword-Bound "full join" conditions source (lit "full join" refl) f h)
      (λ _. tt)
join_sql-Bound other_join conditions source b f h = tt

pub compile_join_conditions-Frag :
    (cs : JoinConditions)
    → JoinConditionsReady cs
    → Frag (compile_join_conditions cs).0 (length (compile_join_conditions cs).1)
unfolding compile_join_conditions scan
compile_join_conditions-Frag cs h = join-Frag (lit " " refl) (join_conditions-Parts cs true h)
