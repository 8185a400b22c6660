-- ===== src/MemCache/Refined.antt =====
-- The store under a sequence of critical sections, and the map from keys to items that it stands for.
use oro.Base.{
  ℕ, zero, suc, ◌+◌, Bool, true, false, Option, none, some, List, [], ◌∷◌, ◌++◌, if◌then◌else◌, ite,
  not, ◌||◌, eqb, ltb, Bool-cases, Option-cases, inl, inr, String, Result, ok, err, ErrorKind,
  cache_key_required, invalid_argument, ◌≡◌, ◌≢◌, refl, ap, ◌∙◌, arith, subst,
}
use oro.Base.Int.{ℤ, pos, negsuc}
use oro.Base.Dict.{lookup, delete, lookup-delete, lookup-insert}
use text.Mathlib.TextEquality.{eq_iff}
use oro.Base.Text.{str_discrete, ◌==◌}
use oro.MemCache.{
  Item, Store, new_store, set, get_read, get_forget, forget, forget_tag, forget_locked, store_item,
  is_expired,
}
use oro.MemCache.Index.{IsIndexed, forget_locked-IsIndexed, store_item-IsIndexed}
use oro.MemCache.Forget.{untagged, forgotten, lookup-forgotten, forgotten-IsIndexed}

-- A critical section: a whole method, a Get up to its answer, or the Forget at the end of the Get that
-- is at this place among those that still have it to do.
pub data Request : Type 0 where
  set_item : ℕ → String → List ℕ → ℤ → List String → Request
  get_item : ℕ → String → Request
  end_get : ℕ → Request
  forget_item : String → Request
  forget_items : String → Request

pub data Answer : Type 0 where
  done : Option ErrorKind → Answer
  found : Result ErrorKind (Option (List ℕ)) → Answer
  ended : Answer

-- the store, and the keys of the Gets that have still to forget them
pub record System : Type 0 where
  pub store : Store
  pub late : List String

-- the key at a place, and the others
abbrev pick : ℕ → List String → Option (String × List String)
pick n [] = none
pick zero (key ∷ keys) = some (key, keys)
pick (suc n) (key ∷ keys) = elim (pick n keys) [
  | none ↦ none
  | some (chosen, rest) ↦ some (chosen, key ∷ rest)
]

abbrev pub perform : System → Request → System × Answer
perform s (set_item now key value ttl tags) =
    let (store, error) = set now key value ttl tags s.store in
    (record s { store = store }, done error)
perform s (get_item now key) =
    let (result, expired) = get_read now key s.store in
    (record s { late = if expired then s.late ++ key ∷ [] else s.late }, found result)
perform s (end_get place) = elim (pick place s.late) [
  | none ↦ (s, ended)
  | some (key, rest) ↦ (record { store = get_forget key s.store; late = rest }, ended)
]
perform s (forget_item key) =
    let (store, error) = forget key s.store in (record s { store = store }, done error)
perform s (forget_items tag) =
    let (store, error) = forget_tag tag s.store in (record s { store = store }, done error)

abbrev pub answers : System → List Request → List Answer
answers s [] = []
answers s (r ∷ rs) = (perform s r).1 ∷ answers (perform s r).0 rs

abbrev pub new_system : System
new_system = record { store = new_store; late = [] }

-- a map from keys to items
abbrev pub Contents : Type 0
Contents = String → Option Item

abbrev put_in : String → Item → Contents → Contents
put_in key item m k = ite (str_discrete key k) (some item) (m k)

abbrev take_out : String → Contents → Contents
take_out key m k = ite (str_discrete key k) none (m k)

-- what a request means for the contents and the keys to forget, with its answer
abbrev pub meant : Contents × List String → Request → (Contents × List String) × Answer
meant (m, late) (set_item now key value ttl tags) =
    if key == "" then ((m, late), done (some cache_key_required)) else elim ttl [
      | pos n ↦ elim n [
        | zero ↦ ((m, late), done (some invalid_argument))
        | suc n' ↦ (
          (put_in key (record { value = value; expires_at = now + suc n'; tags = tags }) m, late),
          done none,
        )
      ]
      | negsuc n ↦ ((m, late), done (some invalid_argument))
    ]
meant (m, late) (get_item now key) =
    if key == "" then ((m, late), found (err cache_key_required)) else elim (m key) [
      | none ↦ ((m, late), found (ok none))
      | some item ↦
          if eqb item.expires_at 0 || ltb now item.expires_at
          then ((m, late), found (ok (some item.value)))
          else ((m, late ++ key ∷ []), found (ok none))
    ]
meant (m, late) (end_get place) = elim (pick place late) [
  | none ↦ ((m, late), ended)
  | some (key, rest) ↦ ((if key == "" then m else take_out key m, rest), ended)
]
meant (m, late) (forget_item key) =
    if key == ""
    then ((m, late), done (some cache_key_required))
    else ((take_out key m, late), done none)
meant (m, late) (forget_items tag) =
    if tag == ""
    then ((m, late), done (some cache_key_required))
    else (((λ k. untagged tag (m k)), late), done none)

abbrev pub meant_answers : Contents × List String → List Request → List Answer
meant_answers m [] = []
meant_answers m (r ∷ rs) = (meant m r).1 ∷ meant_answers (meant m r).0 rs

abbrev Represents : Store → Contents → Type 0
Represents store m = IsIndexed store × ((k : String) → lookup str_discrete k store.items ≡ m k)

abbrev Agrees : System × Answer → (Contents × List String) × Answer → Type 0
Agrees (s, answer) ((m, late), answer') =
    (answer ≡ answer') × Represents s.store m × (s.late ≡ late)

forget_locked-Represents :
    (key : String) (store : Store) (m : Contents)
    → Represents store m
    → Represents (forget_locked key store) (take_out key m)
unfolding forget_locked
forget_locked-Represents key store m (indexed, same) = (
  forget_locked-IsIndexed key store indexed,
  λ k.
      lookup-delete str_discrete key k store.items
      ∙ ap (λ o. ite (str_discrete key k) none o) (same k),
)

store_item-Represents :
    (key : String) (item : Item) (store : Store) (m : Contents)
    → Represents store m
    → Represents (store_item key item store) (put_in key item m)
unfolding store_item forget_locked
store_item-Represents key item store m (indexed, same) = (
  store_item-IsIndexed key item store indexed,
  λ k.
      lookup-insert str_discrete key k item (delete str_discrete key store.items)
      ∙ ground (arith, lookup-delete str_discrete key k store.items, same k),
)

forgotten-Represents :
    (tag : String) (store : Store) (m : Contents)
    → (tag == "") ≡ false
    → Represents store m
    → Represents (forgotten tag store) (λ k. untagged tag (m k))
forgotten-Represents tag store m named (indexed, same) =
    let ne : tag ≢ "" = λ p. cc ((eq_iff tag "").1 p) in
    (
      forgotten-IsIndexed tag store ne indexed,
      λ k. lookup-forgotten tag store k ne indexed ∙ ap (untagged tag) (same k),
    )

-- both sides of a guard of a method that is one critical section
guard-Agrees :
    (s : System) (b : Bool) (x y : Store × Option ErrorKind)
    (u v : (Contents × List String) × Answer)
    → (b ≡ true → Agrees (record s { store = x.0 }, done x.1) u)
    → (b ≡ false → Agrees (record s { store = y.0 }, done y.1) v)
    → Agrees
        (record s { store = (if b then x else y).0 }, done (if b then x else y).1)
        (if b then u else v)
guard-Agrees s true x y u v yes_ no_ = yes_ refl
guard-Agrees s false x y u v yes_ no_ = no_ refl

is_expired-live :
    (now : ℕ) (item : Item)
    → is_expired now item ≡ not (eqb item.expires_at 0 || ltb now item.expires_at)
unfolding is_expired
is_expired-live now item = ground arith

abbrev read_there : ℕ → Option Item → Result ErrorKind (Option (List ℕ)) × Bool
read_there now there = elim there [
  | none ↦ (ok none, false)
  | some item ↦ if is_expired now item then (ok none, true) else (ok (some item.value), false)
]

abbrev read_by : System → String → Result ErrorKind (Option (List ℕ)) × Bool → System × Answer
read_by s key (result, expired) =
    (record s { late = if expired then s.late ++ key ∷ [] else s.late }, found result)

abbrev meant_read :
    ℕ → String → Contents × List String → Option Item → (Contents × List String) × Answer
meant_read now key (m, late) there = elim there [
  | none ↦ ((m, late), found (ok none))
  | some item ↦
      if eqb item.expires_at 0 || ltb now item.expires_at
      then ((m, late), found (ok (some item.value)))
      else ((m, late ++ key ∷ []), found (ok none))
]

get-Agrees :
    (now : ℕ) (key : String) (s : System) (m : Contents) (there : Option Item)
    → Represents s.store m
    → Agrees (read_by s key (read_there now there)) (meant_read now key (m, s.late) there)
get-Agrees now key s m none h = (refl, h, refl)
get-Agrees now key s m (some item) h =
    rw (is_expired-live now item) (live (eqb item.expires_at 0 || ltb now item.expires_at))
  where
    live :
        (b : Bool)
        → Agrees
            (read_by s key (if not b then (ok none, true) else (ok (some item.value), false)))
            (if b
              then ((m, s.late), found (ok (some item.value)))
              else ((m, s.late ++ key ∷ []), found (ok none)))
    live true = (refl, h, refl)
    live false = (refl, h, refl)

get_forget-Represents :
    (key : String) (store : Store) (m : Contents)
    → Represents store m
    → Represents (get_forget key store) (if key == "" then m else take_out key m)
unfolding get_forget forget
get_forget-Represents key store m h = elim (Bool-cases (key == "")) [
  | inl e ↦ rw (get_forget, forget, e) h
  | inr e ↦ rw (get_forget, forget, e) (forget_locked-Represents key store m h)
]

perform-Agrees :
    (s : System) (m : Contents) (r : Request)
    → Represents s.store m
    → Agrees (perform s r) (meant (m, s.late) r)
unfolding set get_read forget forget_tag
perform-Agrees s m (set_item now key value (pos zero) tags) h =
    guard-Agrees s (key == "") _ _ _ _ (λ e. (refl, h, refl)) (λ e. (refl, h, refl))
perform-Agrees s m (set_item now key value (negsuc n) tags) h =
    guard-Agrees s (key == "") _ _ _ _ (λ e. (refl, h, refl)) (λ e. (refl, h, refl))
perform-Agrees s m (set_item now key value (pos (suc n)) tags) h =
    guard-Agrees s (key == "") _ _ _ _ (λ e. (refl, h, refl))
      (λ e. (refl, store_item-Represents key _ s.store m h, refl))
perform-Agrees s m (get_item now key) h = elim (Bool-cases (key == "")) [
  | inl e ↦ rw (get_read, e) (refl, h, refl)
  | inr e ↦
      rw (get_read, e)
        (subst
          (λ o.
            Agrees (read_by s key (read_there now (lookup str_discrete key s.store.items)))
              (meant_read now key (m, s.late) o))
          (h.1 key) (get-Agrees now key s m (lookup str_discrete key s.store.items) h))
]
perform-Agrees s m (end_get place) h = elim (Option-cases (pick place s.late)) [
  | inl e ↦ rw (perform, meant, e) (refl, h, refl)
  | inr ((key, rest), e) ↦
      rw (perform, meant, e) (refl, get_forget-Represents key s.store m h, refl)
]
perform-Agrees s m (forget_item key) h =
    guard-Agrees s (key == "") _ _ _ _ (λ e. (refl, h, refl))
      (λ e. (refl, forget_locked-Represents key s.store m h, refl))
perform-Agrees s m (forget_items tag) h =
    guard-Agrees s (tag == "") _ _ _ _ (λ e. (refl, h, refl))
      (λ e. (refl, forgotten-Represents tag s.store m e h, refl))

new_store-Represents : Represents new_store (λ k. none)
unfolding lookup
new_store-Represents = (λ t k ne. refl, λ k. refl)

-- In any interleaving of its critical sections, the store gives the answers of a map from keys to items:
-- an item that has no expiry or whose expiry is after now is found, ForgetTag takes out the items that
-- have the tag, and a Get that finds its item expired answers that there is none and later takes out
-- what the map has under its key by then.
pub answers-Refines :
    (rs : List Request) → answers new_system rs ≡ meant_answers ((λ k. none), []) rs
answers-Refines rs = go new_system (λ k. none) [] rs new_store-Represents refl
  where
    go :
        (s : System) (m : Contents) (late : List String) (rs : List Request)
        → Represents s.store m
        → s.late ≡ late
        → answers s rs ≡ meant_answers (m, late) rs
    go s m late [] h e = refl
    go s m late (r ∷ rs) h e =
        let (same, h', e') =
          subst (λ l. Agrees (perform s r) (meant (m, l) r)) e (perform-Agrees s m r h) in
        ap (λ a. a ∷ answers (perform s r).0 rs) same
        ∙ ap (◌∷◌ (meant (m, late) r).1)
            (go (perform s r).0 (meant (m, late) r).0.0 (meant (m, late) r).0.1 rs h' e')
