-- ===== src/Transaction/Names.antt =====
-- The names of savepoints, and the handles that a nested Begin makes.
use oro.Base.{
  String, ℕ, suc, ◌<◌, true, false, Option, none, some, [], ◌∷◌, ◌++◌, length, get_elem?,
  get_elem?-append, get_elem?-last, ok, err, ◌≡◌, refl, sym, ap, ◌∙◌, transaction_required, subst,
  Bool-cases, Option-cases, inl, inr,
}
use oro.Base.Text.{◌⋄◌}
use oro.Transaction.Errors.{TxError, kind}
use oro.Transaction.State.{World, TxState, Driver, statement, after_commit, after_rollback}
use oro.Transaction.{
  begin, begin_nested, nested_on, run, savepoint_name, savepoint, saved_as, Savepoint,
  rollback_savepoint, commit, rollback, commit_command, rollback_command,
}
use oro.Transaction.Once.{Sends, commit-log, rollback-log}

module _ {W : Type 0} (driver : Driver W) where
  -- the state of a new handle inside `state`
  abbrev pub nested_state : TxState → TxState
  nested_state state = record { tx = state.tx; depth = suc state.depth; closed = false }

  abbrev Opened : TxState → World W → World W → ℕ → Type 0
  Opened state w w' inner =
      (get_elem? w'.states inner ≡ some (nested_state state))
      × ((older : ℕ)
          → older < length w.states
          → get_elem? w'.states older ≡ get_elem? w.states older)
      × (w'.log
          ≡ w.log ++ (state.tx, statement ("savepoint " ⋄ savepoint_name (suc state.depth))) ∷ [])

  opened :
      (state : TxState) (w w' : World W) (ran : World W × Option TxError) (inner : ℕ)
      → state.closed ≡ false
      → ran.0.states ≡ w.states
      → ran.0.log
        ≡ w.log ++ (state.tx, statement ("savepoint " ⋄ savepoint_name (suc state.depth))) ∷ []
      → nested_on driver state ran ≡ (w', ok inner)
      → Opened state w w' inner
  unfolding nested_on
  opened state w w' (v, some e) inner open_ same logged begun = absurd cc
  opened state w w' (v, none) inner open_ same logged begun =
      subst (λ u. Opened state w u inner) world
        (subst
          (Opened state w
            (record v { states = v.states ++ record state { depth = suc state.depth } ∷ [] }))
          place
          (
            get_elem?-last v.states (record state { depth = suc state.depth })
                ∙ ap (λ c. some (record { tx = state.tx; depth = suc state.depth; closed = c }))
                    open_,
            (λ older small.
                get_elem?-append v.states _ older (subst (λ s. older < length s) (sym same) small)
                ∙ ap (λ s. get_elem? s older) same),
            logged,
          ))
    where
      world : record v { states = v.states ++ record state { depth = suc state.depth } ∷ [] } ≡ w'
      world = ap (λ p. p.0) begun

      place : length v.states ≡ inner
      place = cc

  -- A nested Begin that succeeds sends one `savepoint` command; the new handle is open, on the same
  -- transaction and one deeper; the older handles keep their states; and a later Commit or Rollback of
  -- the new handle, while it is open, sends the release of that savepoint or the rollback to it, and
  -- then at most what the handlers of the event send.
  pub begin-Nested :
      (handle : ℕ) (state : TxState) (w w' later : World W) (inner : ℕ)
      → get_elem? w.states handle ≡ some state
      → begin driver (some handle) w ≡ (w', ok inner)
      → get_elem? later.states inner ≡ get_elem? w'.states inner
      → (get_elem? w'.states inner ≡ some (nested_state state))
        × ((older : ℕ)
            → older < length w.states
            → get_elem? w'.states older ≡ get_elem? w.states older)
        × (w'.log
            ≡ w.log ++ (state.tx, statement ("savepoint " ⋄ savepoint_name (suc state.depth))) ∷ [])
        × Sends driver after_commit later.log
            (state.tx, statement ("release savepoint " ⋄ savepoint_name (suc state.depth)))
            (commit driver (some inner) later).0.log
        × Sends driver after_rollback later.log
            (state.tx, statement ("rollback to savepoint " ⋄ savepoint_name (suc state.depth)))
            (rollback driver (some inner) later).0.log
  unfolding begin begin_nested run commit_command rollback_command
  begin-Nested handle state w w' later inner there begun kept = elim (Bool-cases state.closed) [
    | inl shut ↦ absurd (let h = refused shut in cc)
    | inr open_ ↦
        let (new, old, logged) =
          opened state w w' (run driver state.tx _ w) inner open_ refl refl (accepted open_) in
        (
          new,
          old,
          logged,
          commit-log driver inner (nested_state state) later (kept ∙ new) refl refl,
          rollback-log driver inner (nested_state state) later (kept ∙ new) refl refl,
        )
  ]
    where
      refused :
          state.closed ≡ true → begin_nested driver handle w ≡ (w, err (kind transaction_required))
      refused shut = rw (begin_nested, there, shut) refl

      accepted :
          state.closed ≡ false
          → nested_on driver state
              (run driver state.tx (statement ("savepoint " ⋄ savepoint_name (suc state.depth))) w)
            ≡ (w', ok inner)
      accepted open_ = sym (rw (begin_nested, there, open_) refl) ∙ begun

  -- what a call of Savepoint that succeeds gives
  abbrev Saved : ℕ → World W → World W → Savepoint → Type 0
  Saved handle w w' point =
      (state : TxState) × (get_elem? w.states handle ≡ some state)
      × (w'.states ≡ w.states)
      × (point
          ≡ record { handle = handle; name = savepoint_name (suc state.depth); released = false })

  saved_as-Saved :
      (handle : ℕ) (name : String) (ran : World W × Option TxError) (w' : World W)
      (point : Savepoint)
      → saved_as driver handle name ran ≡ (w', ok point)
      → (w'.states ≡ ran.0.states)
        × (point ≡ record { handle = handle; name = name; released = false })
  unfolding saved_as
  saved_as-Saved handle name (w, some error) w' point made = absurd cc
  saved_as-Saved handle name (w, none) w' point made = (ap (λ p. p.0.states) (sym made), cc)

  savepoint-Saved :
      (handle : ℕ) (w w' : World W) (point : Savepoint)
      → savepoint driver (some handle) w ≡ (w', ok point)
      → Saved handle w w' point
  unfolding savepoint run
  savepoint-Saved handle w w' point made = elim (Option-cases (get_elem? w.states handle)) [
    | inl missing ↦ absurd (
        let h : savepoint driver (some handle) w ≡ (w, err (kind transaction_required)) =
          rw (savepoint, missing) refl in
        cc)
    | inr (state, there) ↦ elim (Bool-cases state.closed) [
      | inl shut ↦ absurd (
          let h : savepoint driver (some handle) w ≡ (w, err (kind transaction_required)) =
            rw (savepoint, there, shut) refl in
          cc)
      | inr open_ ↦
          let (same, e) =
            saved_as-Saved handle (savepoint_name (suc state.depth))
              (run driver state.tx (statement ("savepoint " ⋄ savepoint_name (suc state.depth))) w)
              w' point (sym (rw (savepoint, there, open_) refl) ∙ made) in
          (state, there, same, e)
    ]
  ]

  -- Two savepoints that are made one after the other on one handle are equal, so that they have one
  -- name and a rollback to the first is, in every later world, a rollback to the second.
  pub savepoint-twice :
      (handle : ℕ) (w w' w'' : World W) (first second : Savepoint)
      → savepoint driver (some handle) w ≡ (w', ok first)
      → savepoint driver (some handle) w' ≡ (w'', ok second)
      → (first.name ≡ second.name)
        × ((later : World W)
            → rollback_savepoint driver first later ≡ rollback_savepoint driver second later)
  unfolding savepoint run
  savepoint-twice handle w w' w'' first second one two =
      let (state, there, same, e) = savepoint-Saved handle w w' first one in
      let (state', there', same', e') = savepoint-Saved handle w' w'' second two in
      let depths : state ≡ state' = cc in
      let equal : first ≡ second =
        e
        ∙ ap
            (λ s. record { handle = handle; name = savepoint_name (suc s.depth); released = false })
            depths
        ∙ sym e' in
      (ap (λ p. p.name) equal, λ later. ap (λ p. rollback_savepoint driver p later) equal)
