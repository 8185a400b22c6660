-- ===== src/Transaction/Errors.antt =====
-- The errors of transaction.go: an `*Error` of errors.go with its kind and cause, or any other.
use oro.Base.{ℕ, Bool, true, false, ◌||◌, ErrorKind, deadlock, serialization_failure}

pub data TxError : Type 0 where
  kind : ErrorKind → TxError
  wrapped : ErrorKind → TxError → TxError
  other : ℕ → TxError

retryable_kind : ErrorKind → Bool
retryable_kind deadlock = true
retryable_kind serialization_failure = true
retryable_kind _ = false

-- `errors.Is` looks at the kind of an error and then at its cause.
pub is_retryable : TxError → Bool
unfolding retryable_kind
is_retryable (kind k) = retryable_kind k
is_retryable (wrapped k cause) = retryable_kind k || is_retryable cause
is_retryable (other id) = false
