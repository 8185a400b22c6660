-- ===== src/Transaction/Once.antt =====
-- How an attempt of a transaction ends.
use oro.Base.{
  ℕ, zero, suc, false, Option, none, some, List, [], ◌∷◌, ◌++◌, get_elem?, ok, ◌≡◌, refl, sym, ap,
  ◌∙◌, ◌⊎◌, inl, inr,
}
use text.Mathlib.TextLemmas.{append_assoc}
use oro.Base.Text.{◌⋄◌, itoa}
use oro.Transaction.Errors.{TxError}
use oro.Transaction.State.{
  World, TxState, Driver, Command, commit_tx, rollback_tx, statement, EventName, after_commit,
  after_rollback, mark_closed,
}
use oro.Transaction.{
  Outcome, returned, panicked, begin, commit, rollback, finish, emit_event, run, commit_command,
  rollback_command, conclude, transaction_once, savepoint_name,
}

-- the command that ends an attempt
abbrev pub last_command : Outcome → ℕ → Command
last_command (returned none) zero = commit_tx
last_command (returned none) (suc d) = statement ("release savepoint oro_sp_" ⋄ itoa (suc d))
last_command _ zero = rollback_tx
last_command _ (suc d) = statement ("rollback to savepoint oro_sp_" ⋄ itoa (suc d))

-- the event that the end of an attempt raises
abbrev pub last_event : Outcome → EventName
last_event (returned none) = after_commit
last_event _ = after_rollback

append_one : {A : Type 0} (xs : List A) (y : A) (zs : List A) → (xs ++ y ∷ []) ++ zs ≡ xs ++ y ∷ zs
append_one [] y zs = refl
append_one (x ∷ xs) y zs = ap (◌∷◌ x) (append_one xs y zs)

module _ {W : Type 0} (driver : Driver W) where
  -- a failure of the body is what the attempt reports
  abbrev pub Reports : Outcome → Outcome → Type 0
  Reports (returned none) outcome = Unit
  Reports (returned (some error)) outcome = outcome ≡ returned (some error)
  Reports panicked outcome = outcome ≡ panicked

  -- nothing, or what the handlers of the event send when the commands so far are these
  abbrev pub IsTold : EventName → List (ℕ × Command) → List (ℕ × Command) → Type 0
  IsTold name sent after =
      (after ≡ []) ⊎ ((v : World W) × (v.log ≡ sent) × (after ≡ (driver.handle name v).1.commands))

  -- After the commands before, one is sent, and then at most those of the handlers of the event.
  abbrev pub Sends : EventName → List (ℕ × Command) → ℕ × Command → List (ℕ × Command) → Type 0
  Sends name before command log =
      (after : List (ℕ × Command)) × (log ≡ before ++ command ∷ after)
      × IsTold name (before ++ command ∷ []) after

  finish-log :
      (handle : ℕ) (name : EventName) (ran : World W × Option TxError) (before : List (ℕ × Command))
      (command : ℕ × Command)
      → ran.0.log ≡ before ++ command ∷ []
      → Sends name before command (finish driver handle name ran).0.log
  unfolding finish emit_event
  finish-log handle name (w, some e) before command sent = ([], sent, inl refl)
  finish-log handle name (w, none) before command sent =
      let marked = record w { states = mark_closed handle w.states } in
      let told = (driver.handle name marked).1.commands in
      (told, ap (λ l. l ++ told) sent ∙ append_one before command told, inr (marked, sent, refl))

  last_commit : (depth : ℕ) → commit_command driver depth ≡ last_command (returned none) depth
  unfolding commit_command savepoint_name
  last_commit zero = refl
  last_commit (suc d) =
      ap statement (sym (append_assoc "release savepoint " "oro_sp_" (itoa (suc d))))

  last_rollback : (depth : ℕ) → rollback_command driver depth ≡ last_command panicked depth
  unfolding rollback_command savepoint_name
  last_rollback zero = refl
  last_rollback (suc d) =
      ap statement (sym (append_assoc "rollback to savepoint " "oro_sp_" (itoa (suc d))))

  failed :
      (depth : ℕ) (error : TxError)
      → last_command panicked depth ≡ last_command (returned (some error)) depth
  failed zero error = refl
  failed (suc d) error = refl

  module _ (handle : ℕ) (state : TxState) (w : World W)
      (there : get_elem? w.states handle ≡ some state) (open_ : state.closed ≡ false) where
    pub commit-log :
        {c : Command}
        → commit_command driver state.depth ≡ c
        → Sends after_commit w.log (state.tx, c) (commit driver (some handle) w).0.log
    unfolding commit run
    commit-log {c} e =
        rw (commit, there, open_)
          (finish-log handle after_commit
            (run driver state.tx (commit_command driver state.depth) w) w.log (state.tx, c)
            (ap (λ c. w.log ++ (state.tx, c) ∷ []) e))

    pub rollback-log :
        {c : Command}
        → rollback_command driver state.depth ≡ c
        → Sends after_rollback w.log (state.tx, c) (rollback driver (some handle) w).0.log
    unfolding rollback run
    rollback-log {c} e =
        rw (rollback, there, open_)
          (finish-log handle after_rollback
            (run driver state.tx (rollback_command driver state.depth) w) w.log (state.tx, c)
            (ap (λ c. w.log ++ (state.tx, c) ∷ []) e))

    conclude-log :
        (outcome : Outcome)
        → Sends
            (last_event outcome)
            w.log
            (state.tx, last_command outcome state.depth)
            (conclude driver handle (w, outcome)).0.log
          × Reports outcome (conclude driver handle (w, outcome)).1
    unfolding conclude
    conclude-log (returned none) = (commit-log (last_commit state.depth), tt)
    conclude-log (returned (some e)) =
        (rollback-log (last_rollback state.depth ∙ failed state.depth e), refl)
    conclude-log panicked = (rollback-log (last_rollback state.depth), refl)

  -- If the body leaves its handle open, an attempt sends one command directly after the body's own: at
  -- depth 0 the commit if the body returned no error, and the rollback if it returned an error or
  -- panicked, which is then what it reports; in a deeper transaction the release of the savepoint of
  -- that depth, or the rollback to it. Only the handlers of the event send anything after that.
  pub transaction_once-ends :
      (body : ℕ → World W → World W × Outcome) (session : Option ℕ) (w w' : World W) (handle : ℕ)
      (state : TxState)
      → begin driver session w ≡ (w', ok handle)
      → get_elem? (body handle w').0.states handle ≡ some state
      → state.closed ≡ false
      → Sends
          (last_event (body handle w').1)
          (body handle w').0.log
          (state.tx, last_command (body handle w').1 state.depth)
          (transaction_once driver body session w).0.log
        × Reports (body handle w').1 (transaction_once driver body session w).1
  unfolding transaction_once
  transaction_once-ends body session w w' handle state begun there open_ =
      rw (transaction_once, begun)
        (conclude-log handle state (body handle w').0 there open_ (body handle w').1)
