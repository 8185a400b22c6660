-- ===== src/Transaction/State.antt =====
-- What transactions act on: the driver, the states of the open handles, and the commands sent.
use oro.Base.{ℕ, zero, suc, Bool, true, String, Option, List, [], ◌∷◌, ◌++◌, Result}
use oro.Transaction.Errors.{TxError}

pub data Command : Type 0 where
  begin_tx commit_tx rollback_tx : Command
  statement : String → Command

pub data EventName : Type 0 where
  after_commit after_rollback : EventName

-- txState, less the connection's name
pub record TxState : Type 0 where
  pub tx : ℕ
  pub depth : ℕ
  pub closed : Bool

pub record World (W : Type 0) : Type 0 where
  pub inner : W
  pub states : List TxState
  pub log : List (ℕ × Command)

-- What handlers do to a connection by the methods of a DB: commands are sent, handles are closed, and
-- new ones are opened; no operation reopens a handle or takes one away.
pub record Effects : Type 0 where
  pub commands : List (ℕ × Command)
  pub closing : List ℕ
  pub opening : List TxState

pub record Driver (W : Type 0) : Type 0 where
  -- BeginTx
  pub open_tx : W → W × Result TxError ℕ
  -- a command of a transaction
  pub exec : ℕ → Command → W → W × Option TxError
  -- the handlers of an event, which are given the DB, with the error of the first that fails
  pub handle : EventName → World W → W × Effects × Option TxError
  -- waitRetryBackoff before the next attempt, with the error of a context that ends meanwhile
  pub wait : ℕ → W → W × Option TxError

-- `state.closed = true`, through the pointer
abbrev pub mark_closed : ℕ → List TxState → List TxState
mark_closed handle [] = []
mark_closed zero (state ∷ states) = record state { closed = true } ∷ states
mark_closed (suc handle) (state ∷ states) = state ∷ mark_closed handle states

abbrev pub mark_all : List ℕ → List TxState → List TxState
mark_all [] states = states
mark_all (handle ∷ handles) states = mark_all handles (mark_closed handle states)

abbrev pub act : {W : Type 0} → Effects → World W → World W
act effects w = record w {
  states = mark_all effects.closing w.states ++ effects.opening;
  log = w.log ++ effects.commands;
}
