-- ===== src/Transaction/Retry.antt =====
-- The attempts of a transaction.
use oro.Base.{
  ℕ, zero, suc, ◌≤◌, ◌<◌, ◌-◌, true, false, Option, none, some, ◌≡◌, refl, arith, Bool-cases, inl,
  inr, subst,
}
use oro.Base.Int.{ℤ, pos, negsuc}
use oro.Transaction.Errors.{TxError, is_retryable}
use oro.Transaction.State.{World, Driver}
use oro.Transaction.{
  Outcome, returned, panicked, transaction_once, after_wait, after_attempt, attempt_from,
  attempts_of, transaction,
}

-- An outcome after which there is no further attempt, however many are left.
abbrev pub IsFinal : Outcome → Type 0
IsFinal (returned none) = Unit
IsFinal (returned (some error)) = is_retryable error ≡ false
IsFinal panicked = Unit

module _ {W : Type 0} (driver : Driver W) (body : ℕ → World W → World W × Outcome)
    (session : Option ℕ) where
  -- The attempts that are made where `left` more are allowed after the next: the indices are `left`,
  -- their number, the number of the first, the world they start in and the result.
  pub data Attempts : ℕ → ℕ → ℕ → World W → World W × Outcome → Type 0 where
    -- an attempt whose outcome is final
    final :
        {left attempt n : ℕ} {w : World W} {r : World W × Outcome}
        → n ≡ 1
        → transaction_once driver body session w ≡ r
        → IsFinal r.1
        → Attempts left n attempt w r
    -- the last attempt that is allowed, whatever its outcome
    last :
        {left attempt n : ℕ} {w : World W} {r : World W × Outcome}
        → left ≡ 0
        → n ≡ 1
        → transaction_once driver body session w ≡ r
        → Attempts left n attempt w r
    -- a retryable failure, and a context that ends during the wait
    stopped :
        {left attempt n : ℕ} {w : World W} {r : World W × Outcome} (w' : World W)
        (error stop : TxError) (inner : W)
        → 0 < left
        → n ≡ 1
        → transaction_once driver body session w ≡ (w', returned (some error))
        → is_retryable error ≡ true
        → driver.wait attempt w'.inner ≡ (inner, some stop)
        → r ≡ (record w' { inner = inner }, returned (some stop))
        → Attempts left n attempt w r
    -- a retryable failure, a wait, and what comes next
    again :
        {left attempt n : ℕ} {w : World W} {r : World W × Outcome} (w' : World W) (error : TxError)
        (inner : W) (fewer k : ℕ)
        → left ≡ suc fewer
        → n ≡ suc k
        → transaction_once driver body session w ≡ (w', returned (some error))
        → is_retryable error ≡ true
        → driver.wait attempt w'.inner ≡ (inner, none)
        → Attempts fewer k (suc attempt) (record w' { inner = inner }) r
        → Attempts left n attempt w r

  abbrev pub Bounded : ℕ → ℕ → World W → World W × Outcome → Type 0
  Bounded left attempt w r = (n : ℕ) × (0 < n) × (n ≤ suc left) × Attempts left n attempt w r

  next_attempt :
      (left attempt : ℕ) (w : World W) (once : World W × Outcome)
      → transaction_once driver body session w ≡ once
      → ((v : World W)
          → Bounded left (suc attempt) v (attempt_from driver body session left (suc attempt) v))
      → Bounded
          (suc left)
          attempt
          w
          (after_attempt driver (attempt_from driver body session left (suc attempt)) attempt once)
  unfolding after_attempt after_wait
  next_attempt left attempt w (w', panicked) once rest =
      (1, omega arith, omega arith, final refl once tt)
  next_attempt left attempt w (w', returned none) once rest =
      (1, omega arith, omega arith, final refl once tt)
  next_attempt left attempt w (w', returned (some error)) once rest =
      elim (Bool-cases (is_retryable error)) [
        | inr fatal ↦ rw fatal (1, omega arith, omega arith, final refl once fatal)
        | inl retry ↦ rw retry (waited (driver.wait attempt w'.inner) refl retry)
      ]
    where
      waited :
          (wait : W × Option TxError)
          → driver.wait attempt w'.inner ≡ wait
          → is_retryable error ≡ true
          → Bounded
              (suc left)
              attempt
              w
              (after_wait driver (attempt_from driver body session left (suc attempt)) w' wait)
      waited (inner, some stop) e retry = (
        1,
        omega arith,
        omega arith,
        stopped w' error stop inner (omega arith) refl once retry e refl,
      )
      waited (inner, none) e retry =
          let (n, positive, few, attempts) = rest (record w' { inner = inner }) in
          (
            suc n,
            omega arith,
            omega arith,
            again w' error inner left n refl refl once retry e attempts,
          )

  attempt_from-Bounded :
      (left attempt : ℕ) (w : World W)
      → Bounded left attempt w (attempt_from driver body session left attempt w)
  unfolding attempt_from
  attempt_from-Bounded zero attempt w = (1, omega arith, omega arith, last refl refl refl)
  attempt_from-Bounded (suc left) attempt w =
      next_attempt left attempt w (transaction_once driver body session w) refl
        (λ v. attempt_from-Bounded left (suc attempt) v)

  one_less :
      (n : ℕ) (w : World W) {r : World W × Outcome} → Bounded n 1 w r → Bounded (suc n - 1) 1 w r
  one_less n w {r} h = subst (λ m. Bounded m 1 w r) (omega arith) h

  -- Transaction makes at least one attempt and at most as many as are asked for (or as the configuration
  -- says, or one); it makes another one only after a retryable failure and a wait that the context
  -- survived, and its result is that of the last one made, or the error of the wait.
  pub transaction-Attempts :
      (attempts configured : ℤ) (w : World W)
      → Bounded
          (attempts_of driver body attempts configured - 1)
          1
          w
          (transaction driver body session attempts configured w)
  unfolding transaction attempts_of
  transaction-Attempts (pos (suc n)) configured w = one_less n w (attempt_from-Bounded n 1 w)
  transaction-Attempts (pos zero) (pos (suc n)) w = one_less n w (attempt_from-Bounded n 1 w)
  transaction-Attempts (negsuc m) (pos (suc n)) w = one_less n w (attempt_from-Bounded n 1 w)
  transaction-Attempts (pos zero) (pos zero) w = attempt_from-Bounded 0 1 w
  transaction-Attempts (pos zero) (negsuc k) w = attempt_from-Bounded 0 1 w
  transaction-Attempts (negsuc m) (pos zero) w = attempt_from-Bounded 0 1 w
  transaction-Attempts (negsuc m) (negsuc k) w = attempt_from-Bounded 0 1 w
