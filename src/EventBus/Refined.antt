-- ===== src/EventBus/Refined.antt =====
-- The bus agrees with the list of registrations.
use oro.Base.{
  ℕ, zero, suc, ◌+◌, ◌<◌, ◌^◌, ◌%◌, true, false, none, some, List, [], ◌∷◌, ◌++◌, length,
  length-append, get_elem?, get_elem?-last, get_elem?-some-append, All, All-append, All-weaken, ◌≡◌,
  ◌≢◌, ◌↔◌, refl, sym, ap, ◌∙◌, subst, arith, Option-cases, inl, inr, ite, ℕ_discrete,
}
use oro.Base.Dict.{lookup, lookup-insert}
use oro.EventBus.{
  Entry, Bus, new_bus, remove_entry, store_entries, entries_of, on, store_entries, off, has,
}
use oro.EventBus.Registry.{
  Request, register, unsubscribe, System, Registration, Registry, request, requests, empty_system,
  no_registrations, meant, all_meant, cancel, named, entries-store_entries, named-append,
  named-cancel, named-cancel_other, Belongs,
}

module _ {N : Type 0} where
  register-closures :
      (cs : List (N × ℕ)) (name : N) (id start : ℕ)
      → id ≡ suc (start + length cs)
      → ((place : ℕ) (closure : N × ℕ)
          → get_elem? cs place ≡ some closure
          → closure.1 ≡ suc (start + place))
      → (place : ℕ) (closure : N × ℕ) → get_elem? (cs ++ (name, id) ∷ []) place ≡ some closure
      → closure.1 ≡ suc (start + place)
  register-closures [] name id start new old zero closure e =
      omega (arith, new, ap {B = ℕ} (λ o. elim o [ none ↦ 0 | some c ↦ c.1 ]) e)
  register-closures [] name id start new old (suc place) closure e = absurd cc
  register-closures (c ∷ cs) name id start new old zero closure e = old zero closure e
  register-closures (c ∷ cs) name id start new old (suc place) closure e = omega (
    arith,
    register-closures cs name id (suc start) (omega arith) (λ p d q. omega (arith, old (suc p) d q))
        place closure e,
  )

module _ {N H : Type 0} (dec : Discrete N) where
  -- A bus and a list of registrations that belong together.
  record Agrees (s : System N H) (r : Registry N H) : Type 0 where
    ids : s.bus.next_id ≡ r.count
    places : length s.closures ≡ r.count
    entries : (name : N) → entries_of dec name s.bus ≡ named dec name r.current
    closures :
        (place : ℕ) (closure : N × ℕ)
        → get_elem? s.closures place ≡ some closure
        → closure.1 ≡ suc place
    known :
        All
          (λ g.
            (place : ℕ) × (g.token ≡ suc place)
            × (get_elem? s.closures place ≡ some (g.name, g.token)))
          r.current

  entries-on :
      (name other : N) (handler : H) (bus : Bus N H)
      → entries_of dec other (on dec name handler bus).0
        ≡ ite
            (dec name other)
            (entries_of dec name bus
              ++ record { id = (bus.next_id + 1) % 2 ^ 64; handler = handler } ∷ [])
            (entries_of dec other bus)
  unfolding on entries_of
  entries-on name other handler bus = elim (dec name other) [
    | yes p ↦ ground (
      arith,
      lookup-insert dec name other
          (entries_of dec name bus
            ++ record { id = (bus.next_id + 1) % 2 ^ 64; handler = handler } ∷ [])
          bus.handlers,
    )
    | no p ↦ ground (
      arith,
      lookup-insert dec name other
          (entries_of dec name bus
            ++ record { id = (bus.next_id + 1) % 2 ^ 64; handler = handler } ∷ [])
          bus.handlers,
    )
  ]

  next_id :
      (s : System N H) (r : Registry N H)
      → suc r.count < 2 ^ 64
      → Agrees s r
      → (s.bus.next_id + 1) % 2 ^ 64 ≡ suc r.count
  next_id s r small h = omega (arith, h.ids)

  register-entries :
      (name other : N) (handler : H) (s : System N H) (r : Registry N H)
      → suc r.count < 2 ^ 64
      → Agrees s r
      → entries_of dec other (on dec name handler s.bus).0
        ≡ named dec other (meant dec r (register name handler)).current
  register-entries name other handler s r small h =
      let id = next_id s r small h in
      entries-on name other handler s.bus
      ∙ rw (named-append dec other, id)
          (elim (dec name other) [
            | yes p ↦ ground (arith, h.entries name)
            | no p ↦ ground (arith, h.entries other)
          ])

  register-Agrees :
      (name : N) (handler : H) (s : System N H) (r : Registry N H)
      → suc r.count < 2 ^ 64
      → Agrees s r
      → Agrees (request dec s (register name handler)) (meant dec r (register name handler))
  unfolding on
  register-Agrees name handler s r small h =
      let id = next_id s r small h in
      record {
        ids = id;
        places = length-append s.closures _ ∙ omega (arith, h.places);
        entries = λ other. register-entries name other handler s r small h;
        closures = λ place closure e. omega (
          arith,
          register-closures s.closures name _ 0 (omega (arith, id, h.places))
              (λ p c q. omega (arith, h.closures p c q)) place closure e,
        );
        known =
            All-append _ r.current _
              (All-weaken (λ g k. (k.0, k.1, get_elem?-some-append s.closures _ k.0 _ k.2))
                r.current h.known)
              (
                (
                  r.count,
                  refl,
                  ap (get_elem? (s.closures ++ (name, (s.bus.next_id + 1) % 2 ^ 64) ∷ []))
                        (sym h.places)
                      ∙ get_elem?-last s.closures _
                      ∙ ap (λ i. some (name, i)) id,
                ),
                tt,
              );
      }

  cancel_absent :
      (token : ℕ) (rs : List (Registration N H))
      → All (λ g. g.token ≢ token) rs
      → cancel dec token rs ≡ rs
  cancel_absent token [] h = refl
  cancel_absent token (r ∷ rs) h = ground (arith, cancel_absent token rs h.1, h.0)

  All-cancel {κ} :
      (P : Registration N H → Type κ) (token : ℕ) (rs : List (Registration N H))
      → All P rs
      → All P (cancel dec token rs)
  All-cancel P token [] h = tt
  All-cancel P token (r ∷ rs) h =
      elim (ℕ_discrete r.token token) as (λ d. All P (ite d rs (r ∷ cancel dec token rs))) [
        | yes p ↦ h.1
        | no p ↦ (h.0, All-cancel P token rs h.1)
      ]

  next_id-store_entries :
      (name : N) (entries : List (Entry H)) (bus : Bus N H)
      → (store_entries dec name entries bus).next_id ≡ bus.next_id
  unfolding store_entries
  next_id-store_entries name [] bus = refl
  next_id-store_entries name (e ∷ entries) bus = refl

  same_name :
      (place : ℕ) (name : N) (s : System N H) (r : Registry N H)
      → get_elem? s.closures place ≡ some (name, suc place)
      → Agrees s r
      → All (Belongs dec (suc place) name) r.current
  same_name place name s r there h =
      All-weaken (λ g k e. let at : k.0 ≡ place = omega (arith, k.1, e) in cc (k.2)) r.current
        h.known

  cancel-Agrees :
      (place : ℕ) (name : N) (s : System N H) (r : Registry N H)
      → get_elem? s.closures place ≡ some (name, suc place)
      → Agrees s r
      → Agrees
          (record s { bus = off dec name (suc place) s.bus })
          (record r { current = cancel dec (suc place) r.current })
  unfolding off
  cancel-Agrees place name s r there h =
      let own = same_name place name s r there h in
      record {
        ids = next_id-store_entries name _ s.bus ∙ h.ids;
        places = h.places;
        entries = λ other.
            entries-store_entries dec name other
              (remove_entry (suc place) (entries_of dec name s.bus)) s.bus
            ∙ (elim (dec name other) [
              | yes p ↦
                  ground (arith, h.entries name, named-cancel dec name (suc place) r.current own)
              | no p ↦ ground (
                arith,
                h.entries other,
                named-cancel_other dec name other (suc place) r.current own p,
              )
            ]);
        closures = h.closures;
        known = All-cancel _ (suc place) r.current h.known;
      }

  unsubscribe-Agrees :
      (place : ℕ) (s : System N H) (r : Registry N H)
      → Agrees s r
      → Agrees (request dec s (unsubscribe place)) (meant dec r (unsubscribe place))
  unsubscribe-Agrees place s r h = elim (Option-cases (get_elem? s.closures place)) [
    | inl missing ↦
        rw (request, missing)
          (subst (λ c. Agrees s (record r { current = c }))
            (sym (
              cancel_absent (suc place) r.current (
                All-weaken (λ g k e. let at : k.0 ≡ place = omega (arith, k.1, e) in cc (k.2))
                  r.current h.known)))
            h)
    | inr ((name, id), there) ↦
        rw (request, there)
          (let e : id ≡ suc place = h.closures place (name, id) there in
            subst
              (λ i.
                Agrees (record s { bus = off dec name i s.bus }) (meant dec r (unsubscribe place)))
              (sym e) (cancel-Agrees place name s r (there ∙ ap (λ i. some (name, i)) e) h))
  ]

  requests-Agrees :
      (rs : List (Request N H)) (s : System N H) (r : Registry N H)
      → r.count + length rs < 2 ^ 64
      → Agrees s r
      → Agrees (requests dec s rs) (all_meant dec r rs)
  requests-Agrees [] s r small h = h
  requests-Agrees (register name handler ∷ rs) s r small h =
      requests-Agrees rs _ _ (omega arith) (register-Agrees name handler s r (omega arith) h)
  requests-Agrees (unsubscribe place ∷ rs) s r small h =
      requests-Agrees rs _ _ (omega arith) (unsubscribe-Agrees place s r h)

  has_iff : (name : N) (bus : Bus N H) → (has dec name bus ≡ true) ↔ (entries_of dec name bus ≢ [])
  unfolding has
  has_iff name bus = tested (entries_of dec name bus)
    where
      tested : (es : List (Entry H)) → (elim es [ [] ↦ false | e ∷ rest ↦ true ] ≡ true) ↔ (es ≢ [])
      tested [] = (λ e. absurd cc, λ ne. absurd (ne refl))
      tested (e ∷ es) = (λ h c. absurd cc, λ ne. refl)

  entries-new : (name : N) → entries_of dec name (new_bus {N = N} {H = H}) ≡ []
  unfolding entries_of lookup
  entries-new name = refl

  -- However On and the Unsubscribes it gives out are called, fewer than 2^64 times and each Unsubscribe
  -- any number of times, a bus holds for each name the handlers registered under it and not unsubscribed,
  -- in the order of their registration, and Has tells whether there are any.
  pub requests-Refines :
      (rs : List (Request N H)) (name : N)
      → length rs < 2 ^ 64
      → (entries_of dec name (requests dec empty_system rs).bus
          ≡ named dec name (all_meant dec no_registrations rs).current)
        × ((has dec name (requests dec empty_system rs).bus ≡ true)
            ↔ (named dec name (all_meant dec no_registrations rs).current ≢ []))
  requests-Refines rs name small =
      let h = requests-Agrees rs empty_system no_registrations (omega arith) start in
      (
        h.entries name,
        subst (λ es. (has dec name (requests dec empty_system rs).bus ≡ true) ↔ (es ≢ []))
            (h.entries name) (has_iff name (requests dec empty_system rs).bus),
      )
    where
      start : Agrees empty_system no_registrations
      start = record {
        ids = refl;
        places = refl;
        entries = entries-new;
        closures = λ place closure e. absurd cc;
        known = tt;
      }
