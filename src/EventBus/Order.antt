-- ===== src/EventBus/Order.antt =====
-- Which handlers an Emit runs, whatever they do to the bus meanwhile.
use oro.Base.{
  append-nil, Option, none, some, List, [], ◌∷◌, ◌++◌, map, ◌≡◌, refl, sym, subst, ap, ◌∙◌, event,
  ◌⊎◌, inl, inr,
}
use oro.Transaction.Errors.{TxError, wrapped}
use oro.EventBus.{
  Entry, Bus, Ran, returned, panicked, entries_of, call_handler, emit_to, emit_inner, emit,
}

-- a world and the handlers called so far
pub record Record (W H : Type 0) : Type 0 where
  pub world : W
  pub called : List H

append_one {ℓ} :
    {A : Type ℓ} (xs : List A) (y : A) (zs : List A) → (xs ++ y ∷ []) ++ zs ≡ xs ++ y ∷ zs
append_one [] y zs = refl
append_one (x ∷ xs) y zs = ap (◌∷◌ x) (append_one xs y zs)

module _ {N H W : Type 0} (dec : Discrete N) (call : H → Bus N H × W → (Bus N H × W) × Ran) where
  abbrev pub recorded : H → Bus N H × Record W H → (Bus N H × Record W H) × Ran
  recorded handler (bus, r) =
      let (s, ran) = call handler (bus, r.world) in
      ((s.0, record { world = s.1; called = r.called ++ handler ∷ [] }), ran)

  -- The handlers run one after the other from `s` to `s'`, and each returns without an error.
  abbrev pub Succeed : List H → Bus N H × W → Bus N H × W → Type 0
  Succeed [] s s' = s ≡ s'
  Succeed (h ∷ hs) s s' = (u : Bus N H × W) × (call h s ≡ (u, returned none)) × Succeed hs u s'

  -- How the handlers called from `s` to `s'` end: all succeed and none is left, or those before the last
  -- succeed and the last, run where they end, returns the error or panics with it.
  abbrev pub Ends : Option TxError → List H → List H → Bus N H × W → Bus N H × W → Type 0
  Ends none called left s s' = Succeed called s s' × (left ≡ [])
  Ends (some error) called left s s' =
      (before : List H) × (last : H) × (u : Bus N H × W) × (called ≡ before ++ last ∷ [])
      × Succeed before s u
      × ((call last u ≡ (s', returned (some error))) ⊎ (call last u ≡ (s', panicked error)))

  -- the bus and the world, without the record of the calls
  abbrev pub plain : Bus N H × Record W H → Bus N H × W
  plain (bus, r) = (bus, r.world)

  abbrev Calls : List H → Bus N H × Record W H → (Bus N H × Record W H) × Option TxError → Type 0
  Calls handlers s result =
      (called : List H) × (left : List H) × (handlers ≡ called ++ left)
      × (result.0.1.called ≡ s.1.called ++ called)
      × Ends result.1 called left (plain s) (plain result.0)

  Ends-later :
      (handler : H) (called left : List H) (error : Option TxError) (s u s' : Bus N H × W)
      → call handler s ≡ (u, returned none)
      → Ends error called left u s'
      → Ends error (handler ∷ called) left s s'
  Ends-later handler called left none s u s' ran (all, e) = ((u, ran, all), e)
  Ends-later h called left (some error) s u s' ran (before, last, v, split, all, failed) =
      (h ∷ before, last, v, ap (◌∷◌ h) split, (u, ran, all), failed)

  goes_on :
      (e : Entry H) (entries : List (Entry H)) (bus : Bus N H) (r : Record W H) (s' : Bus N H × W)
      → call e.handler (bus, r.world) ≡ (s', returned none)
      → emit_to dec recorded (e ∷ entries) (bus, r)
        ≡ emit_to dec recorded entries
            (s'.0, record { world = s'.1; called = r.called ++ e.handler ∷ [] })
  unfolding emit_to call_handler
  goes_on e entries bus r s' ran =
      ap
        (λ p.
          elim (elim p.1 as (λ q. Option TxError) [
            | returned error ↦ error
            | panicked error ↦ some error
          ])
            as (λ q. (Bus N H × Record W H) × Option TxError) [
              | none ↦
                  emit_to dec recorded entries
                    (p.0.0, record { world = p.0.1; called = r.called ++ e.handler ∷ [] })
              | some cause ↦ (
                (p.0.0, record { world = p.0.1; called = r.called ++ e.handler ∷ [] }),
                some cause,
              )
            ])
        ran

  called_one :
      (e : Entry H) (entries : List (Entry H)) (bus : Bus N H) (r : Record W H) (s' : Bus N H × W)
      (ran : Ran)
      → call e.handler (bus, r.world) ≡ (s', ran)
      → ((s : Bus N H × Record W H)
          → Calls (map (λ e. e.handler) entries) s (emit_to dec recorded entries s))
      → Calls
          (map (λ e. e.handler) (e ∷ entries))
          (bus, r)
          (emit_to dec recorded (e ∷ entries) (bus, r))
  unfolding emit_to call_handler
  called_one e entries bus r s' (returned (some error)) ran_ rest =
      rw (emit_to, ran_)
        (
          e.handler ∷ [],
          map (λ e. e.handler) entries,
          refl,
          refl,
          (
            [],
            e.handler,
            (bus, r.world),
            refl,
            refl,
            inl (ran_ ∙ ap (λ q. (q.0, returned (some error))) (sym ran_)),
          ),
        )
  called_one e entries bus r s' (panicked error) ran_ rest =
      rw (emit_to, ran_)
        (
          e.handler ∷ [],
          map (λ e. e.handler) entries,
          refl,
          refl,
          (
            [],
            e.handler,
            (bus, r.world),
            refl,
            refl,
            inr (ran_ ∙ ap (λ q. (q.0, panicked error)) (sym ran_)),
          ),
        )
  called_one e entries bus r s' (returned none) ran_ rest =
      subst (Calls (map (λ e. e.handler) (e ∷ entries)) (bus, r))
        (sym (goes_on e entries bus r s' ran_))
        (let (called, left, whole, log, ends) =
            rest (s'.0, record { world = s'.1; called = r.called ++ e.handler ∷ [] }) in
          (
            e.handler ∷ called,
            left,
            ap (◌∷◌ e.handler) whole,
            log ∙ append_one r.called e.handler called,
            Ends-later e.handler called left
                (emit_to dec recorded entries
                  (s'.0, record { world = s'.1; called = r.called ++ e.handler ∷ [] })).1
                (bus, r.world) s' _ ran_ ends,
          ))

  emit_to-Calls :
      (entries : List (Entry H)) (s : Bus N H × Record W H)
      → Calls (map (λ e. e.handler) entries) s (emit_to dec recorded entries s)
  unfolding emit_to
  emit_to-Calls [] s = ([], [], refl, sym (append-nil s.1.called), (refl, refl))
  emit_to-Calls (e ∷ entries) s =
      called_one e entries s.0 s.1 (call e.handler (s.0, s.1.world)).0
        (call e.handler (s.0, s.1.world)).1 refl (λ t. emit_to-Calls entries t)

  -- The error of Emit is that of the last handler called, as an ErrEvent.
  abbrev pub Reported : Option TxError → List H → List H → Bus N H × W → Bus N H × W → Type 0
  Reported none called left s s' = Ends none called left s s'
  Reported (some error) called left s s' =
      (cause : TxError) × (error ≡ wrapped event cause) × Ends (some cause) called left s s'

  reported :
      (called left : List H) (error : Option TxError) (s s' : Bus N H × W)
      → Ends error called left s s'
      → Reported
          (elim error [ none ↦ none | some cause ↦ some (wrapped event cause) ])
          called
          left
          s
          s'
  reported called left none s s' h = h
  reported called left (some cause) s s' h = (cause, refl, h)

  -- Emit calls the handlers that are registered under the name when it starts, in that order, each in the
  -- state that the one before it left, whatever they do to the bus: all of them, if each returns without
  -- an error, and else those up to the first that returns an error or panics, whose error is the cause
  -- of the ErrEvent that Emit returns.
  pub emit-Ordered :
      (name : N) (bus : Bus N H) (w : W)
      → let result = emit dec recorded name (bus, record { world = w; called = [] }) in
        (called : List H) × (left : List H) × (map (λ e. e.handler) (entries_of dec name bus)
          ≡ called ++ left)
        × (result.0.1.called ≡ called)
        × Reported result.1 called left (bus, w) (plain result.0)
  unfolding emit emit_inner
  emit-Ordered name bus w =
      let (called, left, whole, log, ends) =
        emit_to-Calls (entries_of dec name bus) (bus, record { world = w; called = [] }) in
      (
        called,
        left,
        whole,
        log,
        reported called left
            (emit_to dec recorded (entries_of dec name bus)
              (bus, record { world = w; called = [] })).1
            (bus, w) _ ends,
      )
