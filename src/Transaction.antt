-- ===== src/Transaction.antt =====
-- transaction.go over one connection. The driver and the event handlers are arguments: a handler gets
-- the DB, so that it may send commands and open and close handles itself. `exec` runs a
-- command of an open sql.Tx, or begins one, and gives the error that the driver translates it to.
-- `states` are the txState records that the clones of a DB point to, and `log` the commands sent.
pub mod Errors
pub mod State
mod Closed
mod Once
mod Retry
mod Names
mod Tests
use oro.Base.{
  ℕ, zero, suc, ◌+◌, Bool, true, false, Option, none, some, List, [], ◌∷◌, ◌++◌, get_elem?, length,
  Result, ok, err, if◌then◌else◌, String, ErrorKind, transaction_required, closed, event,
  invalid_argument,
}
use oro.Base.Text.{◌⋄◌, itoa}
use oro.Base.Int.{ℤ, pos, negsuc}
use oro.Transaction.Errors.{TxError, kind, wrapped, is_retryable}
use oro.Transaction.State.{
  Command, begin_tx, statement, commit_tx, rollback_tx, EventName, after_commit, after_rollback,
  TxState, World, Driver, mark_closed, act,
}

pub savepoint_name : ℕ → String
savepoint_name depth = "oro_sp_" ⋄ itoa depth

-- What a function passed to Transaction does.
pub data Outcome : Type 0 where
  returned : Option TxError → Outcome
  panicked : Outcome

module _ {W : Type 0} (driver : Driver W) where
  -- A command of the transaction `tx`, with its error.
  pub run : ℕ → Command → World W → World W × Option TxError
  run tx command w =
      let (inner, error) = driver.exec tx command w.inner in
      (record w { inner = inner; log = w.log ++ (tx, command) ∷ [] }, error)

  -- Emit wraps the error of a handler.
  pub emit_event : EventName → World W → World W × Option TxError
  emit_event name w =
      let (inner, effects, error) = driver.handle name w in
      (
        act effects (record w { inner = inner }),
        elim error [ none ↦ none | some cause ↦ some (wrapped event cause) ],
      )

  -- the end of Commit and Rollback: mark the state, then tell the handlers
  pub finish : ℕ → EventName → World W × Option TxError → World W × Option TxError
  unfolding emit_event
  finish handle name (w, some error) = (w, some error)
  finish handle name (w, none) = emit_event name (record w { states = mark_closed handle w.states })

  -- Begin without a transaction, and a new state for it
  pub begin_first : World W → World W × Result TxError ℕ
  begin_first w =
      let (inner, result) = driver.open_tx w.inner in
      elim result [
        | err error ↦ (record w { inner = inner }, err error)
        | ok tx ↦ (
          record w {
            inner = inner;
            log = w.log ++ (tx, begin_tx) ∷ [];
            states = w.states ++ record { tx = tx; depth = 0; closed = false } ∷ [];
          },
          ok (length w.states),
        )
      ]

  nested_on : TxState → World W × Option TxError → World W × Result TxError ℕ
  nested_on state (w, some error) = (w, err error)
  nested_on state (w, none) = (
    record w { states = w.states ++ record state { depth = suc state.depth } ∷ [] },
    ok (length w.states),
  )

  pub begin_nested : ℕ → World W → World W × Result TxError ℕ
  unfolding nested_on run savepoint_name
  begin_nested handle w = elim (get_elem? w.states handle) [
    | none ↦ (w, err (kind transaction_required))
    | some state ↦
        if state.closed
        then (w, err (kind transaction_required))
        else nested_on state
            (run state.tx (statement ("savepoint " ⋄ savepoint_name (suc state.depth))) w)
  ]

  -- `db.session.tx` is `none` outside a transaction.
  pub begin : Option ℕ → World W → World W × Result TxError ℕ
  unfolding begin_first begin_nested
  begin none w = begin_first w
  begin (some handle) w = begin_nested handle w

  pub commit_command : ℕ → Command
  unfolding savepoint_name
  commit_command zero = commit_tx
  commit_command (suc depth) = statement ("release savepoint " ⋄ savepoint_name (suc depth))

  pub rollback_command : ℕ → Command
  unfolding savepoint_name
  rollback_command zero = rollback_tx
  rollback_command (suc depth) = statement ("rollback to savepoint " ⋄ savepoint_name (suc depth))

  pub commit : Option ℕ → World W → World W × Option TxError
  unfolding finish run commit_command
  commit none w = (w, some (kind transaction_required))
  commit (some handle) w = elim (get_elem? w.states handle) [
    | none ↦ (w, some (kind transaction_required))
    | some state ↦
        if state.closed
        then (w, some (kind closed))
        else finish handle after_commit (run state.tx (commit_command state.depth) w)
  ]

  pub rollback : Option ℕ → World W → World W × Option TxError
  unfolding finish run rollback_command
  rollback none w = (w, none)
  rollback (some handle) w = elim (get_elem? w.states handle) [
    | none ↦ (w, none)
    | some state ↦
        if state.closed
        then (w, none)
        else finish handle after_rollback (run state.tx (rollback_command state.depth) w)
  ]

  -- the deferred function of transactionOnce
  pub conclude : ℕ → World W × Outcome → World W × Outcome
  unfolding commit rollback
  conclude handle (w, panicked) = ((rollback (some handle) w).0, panicked)
  conclude handle (w, returned (some error)) = ((rollback (some handle) w).0, returned (some error))
  conclude handle (w, returned none) =
      let (w', error) = commit (some handle) w in (w', returned error)

  pub after_wait : (World W → World W × Outcome) → World W → W × Option TxError → World W × Outcome
  after_wait rest w (inner, some stop) = (record w { inner = inner }, returned (some stop))
  after_wait rest w (inner, none) = rest (record w { inner = inner })

  -- what the loop does with an attempt that is not the last
  pub after_attempt : (World W → World W × Outcome) → ℕ → World W × Outcome → World W × Outcome
  unfolding after_wait
  after_attempt rest attempt (w, panicked) = (w, panicked)
  after_attempt rest attempt (w, returned none) = (w, returned none)
  after_attempt rest attempt (w, returned (some error)) =
      if is_retryable error
      then after_wait rest w (driver.wait attempt w.inner)
      else (w, returned (some error))

  module _ (body : ℕ → World W → World W × Outcome) where
    -- transactionOnce, after its Begin
    pub once_begun : World W × Result TxError ℕ → World W × Outcome
    unfolding conclude
    once_begun (w, err error) = (w, returned (some error))
    once_begun (w, ok handle) = conclude handle (body handle w)

    pub transaction_once : Option ℕ → World W → World W × Outcome
    unfolding begin once_begun
    transaction_once session w = once_begun (begin session w)

    -- The loop over the attempts, with `left` more after this one; `attempt` counts from 1.
    pub attempt_from : Option ℕ → ℕ → ℕ → World W → World W × Outcome
    unfolding transaction_once after_attempt
    attempt_from session zero attempt w = transaction_once session w
    attempt_from session (suc left) attempt w =
        after_attempt (attempt_from session left (suc attempt)) attempt (transaction_once session w)

    -- The attempts asked for, or those of the configuration, or one.
    pub attempts_of : ℤ → ℤ → ℕ
    attempts_of (pos (suc n)) configured = suc n
    attempts_of _ (pos (suc n)) = suc n
    attempts_of _ _ = 1

    pub transaction : Option ℕ → ℤ → ℤ → World W → World W × Outcome
    unfolding attempt_from attempts_of
    transaction session attempts configured w = elim (attempts_of attempts configured) [
      | zero ↦ (w, returned none)
      | suc left ↦ attempt_from session left 1 w
    ]

-- Savepoint, less its DB
pub record Savepoint : Type 0 where
  pub handle : ℕ
  pub name : String
  pub released : Bool

module _ {W : Type 0} (driver : Driver W) where
  saved_as : ℕ → String → World W × Option TxError → World W × Result TxError Savepoint
  saved_as handle name (w, some error) = (w, err error)
  saved_as handle name (w, none) =
      (w, ok (record { handle = handle; name = name; released = false }))

  pub savepoint : Option ℕ → World W → World W × Result TxError Savepoint
  unfolding run savepoint_name saved_as
  savepoint none w = (w, err (kind transaction_required))
  savepoint (some handle) w = elim (get_elem? w.states handle) [
    | none ↦ (w, err (kind transaction_required))
    | some state ↦
        if state.closed
        then (w, err (kind transaction_required))
        else let name = savepoint_name (suc state.depth) in
          saved_as handle name (run driver state.tx (statement ("savepoint " ⋄ name)) w)
  ]

  -- Release and Rollback of a savepoint, by the words in front of its name
  savepoint_command : String → Savepoint → World W → World W × Savepoint × Option TxError
  unfolding run
  savepoint_command words point w =
      if point.released then (w, point, none) else elim (get_elem? w.states point.handle) [
        | none ↦ (w, point, some (kind transaction_required))
        | some state ↦
            if state.closed
            then (w, point, some (kind transaction_required))
            else let (w', error) = run driver state.tx (statement (words ⋄ point.name)) w in
              elim error [
                | some e ↦ (w', point, some e)
                | none ↦ (w', record point { released = true }, none)
              ]
      ]

  pub release_savepoint : Savepoint → World W → World W × Savepoint × Option TxError
  unfolding savepoint_command
  release_savepoint = savepoint_command "release savepoint "

  pub rollback_savepoint : Savepoint → World W → World W × Savepoint × Option TxError
  unfolding savepoint_command
  rollback_savepoint = savepoint_command "rollback to savepoint "
