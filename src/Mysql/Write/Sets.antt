-- ===== src/Mysql/Write/Sets.antt =====
-- Assignments, and the updates of a conflict, bind one argument for each of their placeholders.
use oro.Base.{
  ◌≡◌, refl, String, List, [], ◌∷◌, length, length-append, Option, none, some, arith, if_cases, ite,
  All,
}
use oro.Base.Text.{sort, str_discrete}
use oro.Base.Dict.{lookup, values}
use oro.QueryAst.{Any, null, increment, decrement, raw_expr, to_list, Map, ConflictSpec}
use oro.Mysql.Scan.{
  Frag, Parts, none_left, part, lit, ◌▹◌, Frag-count, Parts-count, join-Frag, quote_ident-Frag,
  scan, map-Parts,
}
use oro.Mysql.Clauses.Bound.{Bound}
use oro.Mysql.Write.{
  sorted_keys, get, compile_set, value_of, set_parts, keep_row, take_new, update_fields,
  update_mapped, compile_conflict_update,
}

abbrev pub ValueReady : Any → Type 0
ValueReady (raw_expr sql args) = Frag sql (length (to_list args))
ValueReady _ = Unit

abbrev pub MapReady : Map → Type 0
MapReady row = All ValueReady (values row)

abbrev OptionReady : Option Any → Type 0
OptionReady none = Unit
OptionReady (some value) = ValueReady value

ite-Ready :
    {P : Type 0} (d : Dec P) (x y : Option Any)
    → OptionReady x
    → OptionReady y
    → OptionReady (ite d x y)
ite-Ready (yes p) x y h g = h
ite-Ready (no n) x y h g = g

pub get-Ready : (column : String) (row : Map) → MapReady row → OptionReady (get column row)
unfolding get lookup
get-Ready column [] h = tt
get-Ready column ((c, v) ∷ row) h =
    ite-Ready (str_discrete c column) (some v) (get column row) h.0 (get-Ready column row h.1)

or_null-Ready :
    (o : Option Any) → OptionReady o → ValueReady (elim o [ none ↦ null | some value ↦ value ])
or_null-Ready none h = tt
or_null-Ready (some v) h = h

pub value_of-Ready : (column : String) (row : Map) → MapReady row → ValueReady (value_of column row)
unfolding value_of
value_of-Ready column row h = or_null-Ready (get column row) (get-Ready column row h)

compile_set-Frag :
    (column : String) (value : Any)
    → ValueReady value
    → Frag (compile_set column value).0 (length (compile_set column value).1)
unfolding compile_set scan
compile_set-Frag column (increment value) h =
    Frag-count (omega arith)
      (quote_ident-Frag column ▹ lit " = " refl ▹ quote_ident-Frag column ▹ lit " + ?" refl)
compile_set-Frag column (decrement value) h =
    Frag-count (omega arith)
      (quote_ident-Frag column ▹ lit " = " refl ▹ quote_ident-Frag column ▹ lit " - ?" refl)
compile_set-Frag column (raw_expr sql args) h =
    Frag-count (omega arith) (quote_ident-Frag column ▹ lit " = " refl ▹ h)
compile_set-Frag column _ h = Frag-count (omega arith) (quote_ident-Frag column ▹ lit " = ?" refl)

pub set_parts-Parts :
    (columns : List String) (row : Map)
    → MapReady row
    → Parts (set_parts columns row).0 (length (set_parts columns row).1)
unfolding set_parts
set_parts-Parts [] row h = none_left
set_parts-Parts (column ∷ columns) row h =
    Parts-count
      (omega (
        arith,
        length-append (compile_set column (value_of column row)).1 (set_parts columns row).1,
      ))
      (part (compile_set-Frag column _ (value_of-Ready column row h))
        (set_parts-Parts columns row h))

keep_row-Bound : (columns : List String) → Bound (keep_row columns)
unfolding keep_row scan
keep_row-Bound [] = tt
keep_row-Bound (column ∷ rest) =
    lit " on duplicate key update " refl
    ▹ quote_ident-Frag column
    ▹ lit " = " refl
    ▹ quote_ident-Frag column

take_new-Frag : (column : String) → Frag (take_new column) 0
unfolding take_new scan
take_new-Frag column =
    quote_ident-Frag column ▹ lit " = VALUES(" refl ▹ quote_ident-Frag column ▹ lit ")" refl

update_fields-Bound : (fields columns : List String) → Bound (update_fields fields columns)
unfolding update_fields scan
update_fields-Bound [] columns = keep_row-Bound columns
update_fields-Bound (f ∷ fs) columns =
    lit " on duplicate key update " refl
    ▹ join-Frag (lit ", " refl) (map-Parts take_new take_new-Frag (sort (f ∷ fs)))

mapped-Bound :
    (conflict : ConflictSpec) (row entries : Map)
    → conflict.update_map ≡ entries
    → MapReady entries
    → Bound (update_mapped conflict row)
unfolding scan update_mapped update_fields
mapped-Bound conflict row [] e h = rw (e, update_mapped) (update_fields-Bound _ conflict.columns)
mapped-Bound conflict row (x ∷ xs) e h =
    rw (e, update_mapped)
      (Frag-count (omega arith) (
        lit " on duplicate key update " refl
        ▹ join-Frag (lit ", " refl) (set_parts-Parts (sorted_keys (x ∷ xs)) (x ∷ xs) h)))

pub conflict-Bound :
    (conflict : ConflictSpec) (row : Map)
    → MapReady conflict.update_map
    → Bound (compile_conflict_update conflict row)
unfolding compile_conflict_update
conflict-Bound conflict row h =
    if_cases Bound conflict.do_nothing (λ _. keep_row-Bound conflict.columns)
      (λ _. mapped-Bound conflict row conflict.update_map refl h)
