-- ===== src/MemCache/Tests.antt =====
-- Two items with a tag in common, of which one expires and is set again before its Get ends.
use oro.Base.{List, [], ◌∷◌, none, some, ok, ◌≡◌}
use oro.Base.Text.{str_discrete}
use oro.Base.Int.{pos}
use oro.MemCache.{is_expired}
use oro.MemCache.Refined.{
  Request, set_item, get_item, end_get, forget_items, done, found, ended, new_system, answers,
  answers-Refines,
}

abbrev session : List Request
session =
    set_item 5 "a" (1 ∷ []) (pos 10) ("x" ∷ "y" ∷ [])
    ∷ set_item 6 "b" (2 ∷ []) (pos 10) ("x" ∷ [])
    ∷ get_item 15 "a"
    ∷ get_item 15 "b"
    ∷ set_item 15 "a" (3 ∷ []) (pos 10) []
    ∷ end_get 0
    ∷ get_item 16 "a"
    ∷ forget_items "x"
    ∷ get_item 15 "b"
    ∷ []

answers-Refines_example :
    answers new_system session
    ≡ done none
      ∷ done none
      ∷ found (ok none)
      ∷ found (ok (some (2 ∷ [])))
      ∷ done none
      ∷ ended
      ∷ found (ok none)
      ∷ done none
      ∷ found (ok none)
      ∷ []
unfolding is_expired str_discrete
answers-Refines_example = answers-Refines session
