-- ===== src/Transaction/Closed.antt =====
-- The end of a transaction closes its handle.
use oro.Base.{
  ℕ, zero, suc, true, false, Option, none, some, List, [], ◌∷◌, ◌++◌, get_elem?, ◌≡◌, refl, ap, ◌∙◌,
  arith,
}
use oro.Transaction.Errors.{TxError}
use oro.Transaction.State.{
  World, TxState, Driver, mark_closed, mark_all, EventName, after_commit, after_rollback,
}
use oro.Transaction.{commit, rollback, finish, emit_event, run, commit_command, rollback_command}

module _ {W : Type 0} (driver : Driver W) where
  mark_closed-get :
      (handle : ℕ) (states : List TxState) (state : TxState)
      → get_elem? states handle ≡ some state
      → get_elem? (mark_closed handle states) handle ≡ some (record state { closed = true })
  mark_closed-get handle [] state h = cc
  mark_closed-get zero (s ∷ ss) state h = ground arith
  mark_closed-get (suc handle) (s ∷ ss) state h = mark_closed-get handle ss state h

  still_closed :
      (k handle : ℕ) (states : List TxState) (state : TxState)
      → get_elem? states handle ≡ some (record state { closed = true })
      → get_elem? (mark_closed k states) handle ≡ some (record state { closed = true })
  still_closed k handle [] state h = h
  still_closed zero zero (s ∷ ss) state h =
      ap
        (λ o. elim o as (λ q. Option TxState) [
          | none ↦ none
          | some t ↦ some (record t { closed = true })
        ])
        h
  still_closed zero (suc handle) (s ∷ ss) state h = h
  still_closed (suc k) zero (s ∷ ss) state h = h
  still_closed (suc k) (suc handle) (s ∷ ss) state h = still_closed k handle ss state h

  mark_all-get :
      (handles : List ℕ) (handle : ℕ) (states : List TxState) (state : TxState)
      → get_elem? states handle ≡ some (record state { closed = true })
      → get_elem? (mark_all handles states) handle ≡ some (record state { closed = true })
  mark_all-get [] handle states state h = h
  mark_all-get (k ∷ ks) handle states state h =
      mark_all-get ks handle (mark_closed k states) state (still_closed k handle states state h)

  append-get :
      (states more : List TxState) (handle : ℕ) {state : TxState}
      → get_elem? states handle ≡ some state
      → get_elem? (states ++ more) handle ≡ some state
  append-get [] more handle h = cc
  append-get (s ∷ ss) more zero h = h
  append-get (s ∷ ss) more (suc handle) h = append-get ss more handle h

  finished :
      (handle : ℕ) (state : TxState) (ran : World W × Option TxError) (states : List TxState)
      → ran.0.states ≡ states
      → get_elem? states handle ≡ some state
      → (name : EventName) → (finish driver handle name ran).1 ≡ none
      → get_elem? (finish driver handle name ran).0.states handle
        ≡ some (record state { closed = true })
  unfolding finish emit_event
  finished handle state (w, some e) states same there name done = absurd (ground arith)
  finished handle state (w, none) states same there name done =
      let marked = record w { states = mark_closed handle w.states } in
      let effects = (driver.handle name marked).1 in
      append-get (mark_all effects.closing marked.states) effects.opening handle (
        mark_all-get effects.closing handle marked.states state
          (mark_closed-get handle w.states state (ap (λ s. get_elem? s handle) same ∙ there)))

  -- A Commit or Rollback of an open handle that reports no error closes it.
  pub commit-rollback-Closed :
      (handle : ℕ) (state : TxState) (w : World W)
      → get_elem? w.states handle ≡ some state
      → state.closed ≡ false
      → ((commit driver (some handle) w).1 ≡ none
          → get_elem? (commit driver (some handle) w).0.states handle
            ≡ some (record state { closed = true }))
        × ((rollback driver (some handle) w).1 ≡ none
            → get_elem? (rollback driver (some handle) w).0.states handle
              ≡ some (record state { closed = true }))
  unfolding commit rollback run
  commit-rollback-Closed handle state w there open_ = (
    rw (commit, there, open_)
        (finished handle state (run driver state.tx (commit_command driver state.depth) w) w.states
          refl there after_commit),
    rw (rollback, there, open_)
        (finished handle state (run driver state.tx (rollback_command driver state.depth) w)
          w.states refl there after_rollback),
  )
