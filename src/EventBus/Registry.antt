-- ===== src/EventBus/Registry.antt =====
-- The bus under a sequence of On and Unsubscribe calls, and the list of registrations it stands for.
use oro.Base.{
  ℕ, suc, none, some, List, [], ◌∷◌, ◌++◌, get_elem?, All, ◌≡◌, ◌≢◌, refl, arith, ite, ℕ_discrete,
}
use oro.Base.Dict.{lookup-insert, lookup-delete}
use oro.EventBus.{Entry, Bus, new_bus, remove_entry, entries_of, on, store_entries, off}

-- what a program asks of a bus; an Unsubscribe is named by the place of its On among them all
pub data Request (N H : Type 0) : Type 0 where
  register : N → H → Request N H
  unsubscribe : ℕ → Request N H

-- a bus and the Unsubscribes it has given out
pub record System (N H : Type 0) : Type 0 where
  pub bus : Bus N H
  pub closures : List (N × ℕ)

pub record Registration (N H : Type 0) : Type 0 where
  pub token : ℕ
  pub name : N
  pub handler : H

-- the registrations that are in force, in their order, and the number of all there ever were
pub record Registry (N H : Type 0) : Type 0 where
  pub count : ℕ
  pub current : List (Registration N H)

abbrev pub empty_system : {N H : Type 0} → System N H
empty_system = record { bus = new_bus; closures = [] }

abbrev pub no_registrations : {N H : Type 0} → Registry N H
no_registrations = record { count = 0; current = [] }

module _ {N H : Type 0} (dec : Discrete N) where
  abbrev pub request : System N H → Request N H → System N H
  request s (register name handler) =
      let (bus, for_name, id) = on dec name handler s.bus in
      record { bus = bus; closures = s.closures ++ (for_name, id) ∷ [] }
  request s (unsubscribe place) = elim (get_elem? s.closures place) [
    | none ↦ s
    | some closure ↦ record s { bus = off dec closure.0 closure.1 s.bus }
  ]

  abbrev pub requests : System N H → List (Request N H) → System N H
  requests s [] = s
  requests s (r ∷ rs) = requests (request s r) rs

  abbrev pub cancel : ℕ → List (Registration N H) → List (Registration N H)
  cancel token [] = []
  cancel token (r ∷ rs) = let rest = cancel token rs in ite (ℕ_discrete r.token token) rs (r ∷ rest)

  -- what a request means for the registrations
  abbrev pub meant : Registry N H → Request N H → Registry N H
  meant s (register name handler) = record {
    count = suc s.count;
    current = s.current ++ record { token = suc s.count; name = name; handler = handler } ∷ [];
  }
  meant s (unsubscribe place) = record s { current = cancel (suc place) s.current }

  abbrev pub all_meant : Registry N H → List (Request N H) → Registry N H
  all_meant s [] = s
  all_meant s (r ∷ rs) = all_meant (meant s r) rs

  -- the entries that the registrations make under a name
  abbrev pub named : N → List (Registration N H) → List (Entry H)
  named name [] = []
  named name (r ∷ rs) =
      let rest = named name rs in
      ite (dec r.name name) (record { id = r.token; handler = r.handler } ∷ rest) rest

  pub entries-store_entries :
      (name other : N) (entries : List (Entry H)) (bus : Bus N H)
      → entries_of dec other (store_entries dec name entries bus)
        ≡ ite (dec name other) entries (entries_of dec other bus)
  unfolding entries_of store_entries
  entries-store_entries name other [] bus = elim (dec name other) [
    | yes p ↦ ground (arith, lookup-delete dec name other bus.handlers)
    | no p ↦ ground (arith, lookup-delete dec name other bus.handlers)
  ]
  entries-store_entries name other (e ∷ entries) bus = elim (dec name other) [
    | yes p ↦ ground (arith, lookup-insert dec name other (e ∷ entries) bus.handlers)
    | no p ↦ ground (arith, lookup-insert dec name other (e ∷ entries) bus.handlers)
  ]

  pub named-append :
      (name : N) (rs : List (Registration N H)) (r : Registration N H)
      → named name (rs ++ r ∷ [])
        ≡ ite
            (dec r.name name)
            (named name rs ++ record { id = r.token; handler = r.handler } ∷ [])
            (named name rs)
  named-append name [] r = elim (dec r.name name) [ yes p ↦ refl | no p ↦ refl ]
  named-append name (s ∷ rs) r = ground (arith, named-append name rs r)

  -- a registration with the token has the name
  abbrev pub Belongs : ℕ → N → Registration N H → Type 0
  Belongs token name r = r.token ≡ token → r.name ≡ name

  pub named-cancel :
      (name : N) (token : ℕ) (rs : List (Registration N H))
      → All (Belongs token name) rs
      → remove_entry token (named name rs) ≡ named name (cancel token rs)
  unfolding remove_entry
  named-cancel name token [] h = refl
  named-cancel name token (r ∷ rs) h = ground (arith, named-cancel name token rs h.1)

  pub named-cancel_other :
      (name other : N) (token : ℕ) (rs : List (Registration N H))
      → All (Belongs token name) rs
      → name ≢ other
      → named other (cancel token rs) ≡ named other rs
  named-cancel_other name other token [] h ne = refl
  named-cancel_other name other token (r ∷ rs) h ne =
      ground (arith, named-cancel_other name other token rs h.1 ne)
