-- ===== src/EventBus/Tests.antt =====
-- A bus with three handlers, of which the second unsubscribes the third and fails.
use oro.Base.{ℕ, suc, true, none, List, [], ◌∷◌, ◌++◌, map, ◌≡◌, ◌≢◌, ◌↔◌, arith, ℕ_discrete}
use oro.Transaction.Errors.{other}
use oro.EventBus.{Bus, Ran, returned, panicked, entries_of, off, has, emit}
use oro.EventBus.Registry.{
  Request, register, unsubscribe, requests, empty_system, no_registrations, all_meant, named,
}
use oro.EventBus.Refined.{requests-Refines}
use oro.EventBus.Order.{recorded, plain, Reported, emit-Ordered}

abbrev history : List (Request ℕ ℕ)
history =
    register 1 10
    ∷ register 2 20
    ∷ register 1 30
    ∷ unsubscribe 0
    ∷ register 1 40
    ∷ unsubscribe 0
    ∷ []

requests-Refines_example :
    (entries_of ℕ_discrete 1 (requests ℕ_discrete empty_system history).bus
      ≡ record { id = 3; handler = 30 } ∷ record { id = 4; handler = 40 } ∷ [])
    × ((has ℕ_discrete 1 (requests ℕ_discrete empty_system history).bus ≡ true)
        ↔ (named ℕ_discrete 1 (all_meant ℕ_discrete no_registrations history).current ≢ []))
unfolding ℕ_discrete
requests-Refines_example = requests-Refines ℕ_discrete history 1 (omega arith)

abbrev act : ℕ → Bus ℕ ℕ × ℕ → (Bus ℕ ℕ × ℕ) × Ran
act handler (bus, w) = elim (ℕ_discrete handler 20) [
  | yes p ↦ ((off ℕ_discrete 1 3 bus, suc w), panicked (other 5))
  | no p ↦ ((bus, suc w), returned none)
]

abbrev three : Bus ℕ ℕ
three = (requests ℕ_discrete empty_system (register 1 10 ∷ register 1 20 ∷ register 1 30 ∷ [])).bus

emit-Ordered_example :
    (called : List ℕ) × (left : List ℕ) × (map (λ e. e.handler) (entries_of ℕ_discrete 1 three)
      ≡ called ++ left)
    × ((emit ℕ_discrete
          (recorded ℕ_discrete act)
          1
          (three, record { world = 0; called = [] })).0.1.called
        ≡ called)
    × Reported ℕ_discrete act
        (emit ℕ_discrete (recorded ℕ_discrete act) 1 (three, record { world = 0; called = [] })).1
        called
        left
        (three, 0)
        (plain ℕ_discrete act
          (emit ℕ_discrete
            (recorded ℕ_discrete act)
            1
            (three, record { world = 0; called = [] })).0)
emit-Ordered_example = emit-Ordered ℕ_discrete act 1 three 0
