-- ===== src/EventBus.antt =====
-- internal/eventbus/bus.go and the EventBus of event.go. `N` is the type of the names, `H` of the
-- handlers, which `call` runs: they may change the bus, since no lock is held while they run.
mod Registry
mod Refined
mod Order
mod Tests
use oro.Base.{
  ℕ, suc, ◌+◌, ◌^◌, ◌%◌, Bool, true, false, not, ◌||◌, Option, none, some, List, [], ◌∷◌, ◌++◌, ite,
  ℕ_discrete, ErrorKind, event,
}
use oro.Base.Dict.{lookup, insert, delete}
use oro.Transaction.Errors.{TxError, wrapped}

pub record Entry (H : Type 0) : Type 0 where
  pub id : ℕ
  pub handler : H

pub record Bus (N H : Type 0) : Type 0 where
  pub next_id : ℕ
  pub handlers : List (N × List (Entry H))

-- How a handler ends: with an error or none, or in a panic.
pub data Ran : Type 0 where
  returned : Option TxError → Ran
  panicked : TxError → Ran

abbrev pub new_bus : {N H : Type 0} → Bus N H
new_bus = record { next_id = 0; handlers = [] }

-- the loop of `off` over the entries
pub remove_entry : {H : Type 0} → ℕ → List (Entry H) → List (Entry H)
remove_entry id [] = []
remove_entry id (e ∷ entries) =
    let rest = remove_entry id entries in ite (ℕ_discrete e.id id) entries (e ∷ rest)

module _ {N H : Type 0} (dec : Discrete N) where
  -- bus.handlers[name]
  pub entries_of : N → Bus N H → List (Entry H)
  entries_of name bus = elim (lookup dec name bus.handlers) [ none ↦ [] | some entries ↦ entries ]

  -- On, with the name and the id that the Unsubscribe closes over
  pub on : N → H → Bus N H → Bus N H × N × ℕ
  unfolding entries_of
  on name handler bus =
      let id = (bus.next_id + 1) % 2 ^ 64 in
      (
        record {
          next_id = id;
          handlers =
              insert dec name (entries_of name bus ++ record { id = id; handler = handler } ∷ [])
                bus.handlers;
        },
        name,
        id,
      )

  pub store_entries : N → List (Entry H) → Bus N H → Bus N H
  store_entries name [] bus = record bus { handlers = delete dec name bus.handlers }
  store_entries name (e ∷ entries) bus = record bus {
    handlers = insert dec name (e ∷ entries) bus.handlers;
  }

  pub off : N → ℕ → Bus N H → Bus N H
  unfolding entries_of remove_entry store_entries
  off name id bus = store_entries name (remove_entry id (entries_of name bus)) bus

  pub has : N → Bus N H → Bool
  unfolding entries_of
  has name bus = elim (entries_of name bus) [ [] ↦ false | e ∷ es ↦ true ]

  module _ {W : Type 0} (call : H → Bus N H × W → (Bus N H × W) × Ran) where
    -- callHandler, which turns a panic into an error
    pub call_handler : H → Bus N H × W → (Bus N H × W) × Option TxError
    call_handler handler s =
        let (s', ran) = call handler s in
        (s', elim ran [ returned error ↦ error | panicked error ↦ some error ])

    -- the loop of Emit over its copy of the entries
    pub emit_to : List (Entry H) → Bus N H × W → (Bus N H × W) × Option TxError
    unfolding call_handler
    emit_to [] s = (s, none)
    emit_to (e ∷ entries) s =
        let (s', error) = call_handler e.handler s in
        elim error [ some cause ↦ (s', some cause) | none ↦ emit_to entries s' ]

    -- the Emit of internal/eventbus/bus.go
    pub emit_inner : N → Bus N H × W → (Bus N H × W) × Option TxError
    unfolding emit_to entries_of
    emit_inner name s = emit_to (entries_of name s.0) s

    -- the Emit of event.go
    pub emit : N → Bus N H × W → (Bus N H × W) × Option TxError
    unfolding emit_inner
    emit name s =
        let (s', error) = emit_inner name s in
        (s', elim error [ none ↦ none | some cause ↦ some (wrapped event cause) ])

  -- shouldEmitEvent with a bus
  pub should_emit : Bool → List N → Bus N H → Bool
  unfolding has
  should_emit true names bus = false
  should_emit false [] bus = false
  should_emit false (name ∷ names) bus = has name bus || should_emit false names bus
