-- ===== src/Psp.antt =====
-- internal/psp/psp.go: the types of the processor integration, and the port that the saga uses.
-- An error carries what `errors.Is` can find in it, and its text.
pub mod Retry
pub mod Adapters
pub mod Factory
pub mod RetryLaws
pub mod Answers
mod Tests
use peikonpurekkusu_payment.Prelude.{ℕ, Bool, true, false, String, Option}
use peikonpurekkusu_payment.Prelude.Int.{ℤ}

-- `unset` is the empty text, the zero value of Go's Outcome.
pub data Outcome : Type 0 where
  unset approved declined pending : Outcome

pub record AuthResult : Type 0 where
  pub outcome : Outcome
  pub psp_reference : String
  pub decline_code : String

-- What an error wraps: ErrUnavailable, the two errors of a context, the circuit breaker's two
-- refusals, or nothing that the program looks for.
pub data Kind : Type 0 where
  unavailable deadline_exceeded canceled open_state too_many_requests plain : Kind

pub record Error : Type 0 where
  pub kind : Kind
  pub message : String

pub data Result (A : Type 0) : Type 0 where
  ok : A → Result A
  err : Error → Result A

abbrev pub is_unavailable : Kind → Bool
is_unavailable unavailable = true
is_unavailable _ = false

abbrev pub is_deadline_exceeded : Kind → Bool
is_deadline_exceeded deadline_exceeded = true
is_deadline_exceeded _ = false

-- The port. A processor's answer may depend on all that happened before, the history `H`.
pub record PaymentProcessor (H : Type 0) : Type 0 where
  pub authorize : H → String → ℤ → String → String → Result AuthResult
  pub capture : H → String → Result (Unit {0})
  pub reverse : H → String → Result (Unit {0})
  pub name : String
