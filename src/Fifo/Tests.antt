-- ===== src/Fifo/Tests.antt =====
-- Runs of the cache on concrete inputs.
use oro.Base.{ℕ, true, [], ◌∷◌, none, some, ◌≡◌, refl, ℕ_discrete, arith, ◌⊎◌}
use oro.Base.Dict.{lookup}
use oro.Fifo.{Cache, set, set_if_absent, get}
use oro.Fifo.Validity.{IsValid, IsValid?, set-IsValid, set_if_absent-IsValid}
use oro.Fifo.Eviction.{IsEvicted, get-set_self, get-set_ne, set_full-Queue}

abbrev two_items : Cache ℕ ℕ
two_items = record {
  max_size = 2;
  items = (1, 10) ∷ (2, 20) ∷ [];
  order = 1 ∷ 2 ∷ [];
  on_evict = true;
}

two_items-IsValid : IsValid two_items
two_items-IsValid = record {
  ordered = refl;
  distinct = ((omega arith, tt), (tt, tt));
  positive = omega arith;
  bounded = omega arith;
}

set-IsValid_example : IsValid? (set ℕ_discrete (some two_items) 3 30).0
set-IsValid_example = set-IsValid ℕ_discrete (some two_items) 3 30 two_items-IsValid

set_if_absent-IsValid_example : IsValid? (set_if_absent ℕ_discrete (some two_items) 3 30).0
set_if_absent-IsValid_example =
    set_if_absent-IsValid ℕ_discrete (some two_items) 3 30 two_items-IsValid

get-set_self_example : get ℕ_discrete (set ℕ_discrete (some two_items) 3 30).0 3 ≡ some 30
get-set_self_example = get-set_self ℕ_discrete two_items 3 30

get-set_ne_example :
    (get ℕ_discrete (set ℕ_discrete (some two_items) 3 30).0 1 ≡ get ℕ_discrete (some two_items) 1)
    ⊎ ((get ℕ_discrete (set ℕ_discrete (some two_items) 3 30).0 1 ≡ none)
        × IsEvicted ℕ_discrete two_items 3 1)
get-set_ne_example = get-set_ne ℕ_discrete two_items 3 1 30 (omega arith)

set_full-Queue_example : set ℕ_discrete (some two_items) 3 30 ≡ (
  some (record {
    max_size = 2;
    items = (2, 20) ∷ (3, 30) ∷ [];
    order = 2 ∷ 3 ∷ [];
    on_evict = true;
  }),
  10 ∷ [],
)
unfolding lookup ℕ_discrete
set_full-Queue_example =
    set_full-Queue ℕ_discrete two_items 1 10 ((2, 20) ∷ []) 3 30 two_items-IsValid refl
      (omega arith) refl
