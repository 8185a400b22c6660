-- ===== src/Transaction/Tests.antt =====
-- A driver that numbers its transactions and accepts every command but the first commit, which ends in
-- a deadlock.
use oro.Base.{
  ℕ, suc, ◌<◌, true, false, [], ◌∷◌, Option, none, some, ◌≡◌, refl, ok, get_elem?, deadlock,
}
use oro.Base.Int.{pos}
use oro.Base.Text.{itoa}
use oro.Transaction.Errors.{TxError, kind, other}
use oro.Transaction.State.{
  World, TxState, Driver, Command, commit_tx, rollback_tx, begin_tx, statement, after_commit,
  after_rollback,
}
use oro.Transaction.{
  Outcome, returned, begin, begin_first, begin_nested, commit, rollback, savepoint, saved_as, run,
  nested_on, attempts_of, rollback_command, Savepoint, transaction, transaction_once,
  rollback_savepoint, savepoint_name,
}
use oro.Transaction.Closed.{commit-rollback-Closed}
use oro.Transaction.Once.{Sends, transaction_once-ends}
use oro.Transaction.Retry.{transaction-Attempts, Bounded}
use oro.Transaction.Names.{begin-Nested, savepoint-twice, nested_state}

-- the number of commits that are still refused
abbrev sql : Driver ℕ
sql = record {
  open_tx = λ n. (n, ok 7);
  exec = answer;
  handle = λ name w. (
    w.inner,
    record { commands = (8, statement "insert into log") ∷ []; closing = []; opening = [] },
    none,
  );
  wait = λ attempt n. (n, none);
}
  where
    answer : ℕ → Command → ℕ → ℕ × Option TxError
    answer tx commit_tx (suc n) = (n, some (kind deadlock))
    answer tx command n = (n, none)

abbrev opened : TxState
opened = record { tx = 7; depth = 0; closed = false }

abbrev shut : TxState
shut = record { tx = 7; depth = 0; closed = true }

abbrev fresh : World ℕ
fresh = record { inner = 1; states = []; log = [] }

abbrev calm : World ℕ
calm = record { inner = 0; states = opened ∷ []; log = [] }

commit-rollback-Closed_example :
    ((commit sql (some 0) calm).1 ≡ none
      → get_elem? (commit sql (some 0) calm).0.states 0 ≡ some shut)
    × ((rollback sql (some 0) calm).1 ≡ none
        → get_elem? (rollback sql (some 0) calm).0.states 0 ≡ some shut)
commit-rollback-Closed_example = commit-rollback-Closed sql 0 opened calm refl refl

abbrev failing : ℕ → World ℕ → World ℕ × Outcome
failing handle w = (w, returned (some (other 3)))

abbrev begun : World ℕ
begun = record { inner = 1; states = opened ∷ []; log = (7, begin_tx) ∷ [] }

transaction_once-ends_example :
    Sends sql after_rollback
      ((7, begin_tx) ∷ [])
      (7, rollback_tx)
      (transaction_once sql failing none fresh).0.log
    × ((transaction_once sql failing none fresh).1 ≡ returned (some (other 3)))
unfolding begin begin_first rollback_command
transaction_once-ends_example =
    transaction_once-ends sql failing none fresh begun 0 opened refl refl refl

-- the first commit fails and the second attempt succeeds
abbrev calmly : ℕ → World ℕ → World ℕ × Outcome
calmly handle w = (w, returned none)

transaction-Attempts_example :
    Bounded sql calmly none 2 1 fresh (transaction sql calmly none (pos 3) (pos 1) fresh)
unfolding attempts_of
transaction-Attempts_example = transaction-Attempts sql calmly none (pos 3) (pos 1) fresh

abbrev inside : World ℕ
inside = record {
  inner = 0;
  states = opened ∷ nested_state sql opened ∷ [];
  log = (7, statement "savepoint oro_sp_1") ∷ [];
}

begin-Nested_example :
    (get_elem? inside.states 1 ≡ some (nested_state sql opened))
    × ((older : ℕ) → older < 1 → get_elem? inside.states older ≡ get_elem? calm.states older)
    × (inside.log ≡ (7, statement "savepoint oro_sp_1") ∷ [])
    × Sends sql after_commit inside.log
        (7, statement "release savepoint oro_sp_1")
        (commit sql (some 1) inside).0.log
    × Sends sql after_rollback inside.log
        (7, statement "rollback to savepoint oro_sp_1")
        (rollback sql (some 1) inside).0.log
unfolding begin begin_nested nested_on run savepoint_name itoa
begin-Nested_example = begin-Nested sql 0 opened calm inside inside 1 refl refl refl

abbrev once : World ℕ
once = record { inner = 0; states = opened ∷ []; log = (7, statement "savepoint oro_sp_1") ∷ [] }

abbrev twice : World ℕ
twice = record {
  inner = 0;
  states = opened ∷ [];
  log = (7, statement "savepoint oro_sp_1") ∷ (7, statement "savepoint oro_sp_1") ∷ [];
}

abbrev point : Savepoint
point = record { handle = 0; name = "oro_sp_1"; released = false }

savepoint-twice_example :
    (point.name ≡ savepoint_name 1)
    × ((later : World ℕ) → rollback_savepoint sql point later ≡ rollback_savepoint sql point later)
unfolding savepoint saved_as run savepoint_name itoa
savepoint-twice_example = savepoint-twice sql 0 calm once twice point point refl refl
