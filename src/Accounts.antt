-- ===== src/Accounts.antt =====
-- internal/accountclient/accountclient.go: the account-service gRPC money API.
-- The stub is an argument: its reply to a request, a value or a gRPC status code. The text of a
-- uuid is the google/uuid library's, and an argument too.
pub mod Requests
mod Tests
use Prim.Native.String.{◌++◌}
use peikonpurekkusu_payment.Prelude.{Bool, true, false, ℕ, String, Option, none, some}
use peikonpurekkusu_payment.Prelude.Int.{ℤ}

-- google.golang.org/grpc/codes, as far as the client tells them apart.
pub data Code : Type 0 where
  failed_precondition deadline_exceeded unavailable : Code
  other : ℕ → Code

pub data Reply (A : Type 0) : Type 0 where
  ok : A → Reply A
  err : Code → Reply A

pub record Money : Type 0 where
  pub minor_units : ℤ
  pub currency_code : String

pub record HoldFundsRequest : Type 0 where
  pub request_id : String
  pub account_id : String
  pub payment_id : String
  pub amount : Money

pub record CaptureFundsRequest : Type 0 where
  pub request_id : String
  pub hold_id : String
  pub amount : Money

pub record ReleaseFundsRequest : Type 0 where
  pub request_id : String
  pub hold_id : String
  pub reason : String

unfoldable pub is_insufficient_funds : Code → Bool
is_insufficient_funds failed_precondition = true
is_insufficient_funds _ = false

unfoldable pub hold_request : String → String → ℤ → String → HoldFundsRequest
hold_request payment_id account_id amount currency = record {
  request_id = "hold:" ++ payment_id;
  account_id = account_id;
  payment_id = payment_id;
  amount = record { minor_units = amount; currency_code = currency };
}

unfoldable pub capture_request : String → String → ℤ → String → CaptureFundsRequest
capture_request payment_id hold_id amount currency = record {
  request_id = "capture:" ++ payment_id;
  hold_id = hold_id;
  amount = record { minor_units = amount; currency_code = currency };
}

unfoldable pub release_request : String → String → String → ReleaseFundsRequest
release_request payment_id hold_id reason = record {
  request_id = "release:" ++ payment_id;
  hold_id = hold_id;
  reason = reason;
}

unfoldable pub hold :
    (HoldFundsRequest → Reply String) → String → String → ℤ → String → Reply String
hold stub payment_id account_id amount currency =
    stub (hold_request payment_id account_id amount currency)

unfoldable pub capture :
    (CaptureFundsRequest → Reply String) → String → String → ℤ → String → Reply String
capture stub payment_id hold_id amount currency =
    stub (capture_request payment_id hold_id amount currency)

-- An error with the code FailedPrecondition is no error: the hold is released or captured already.
unfoldable pub released : Reply (Unit {0}) → Option Code
released (ok _) = none
released (err failed_precondition) = none
released (err c) = some c

unfoldable pub release :
    (ReleaseFundsRequest → Reply (Unit {0})) → String → String → String → Option Code
unfolding released
release stub payment_id hold_id reason = released (stub (release_request payment_id hold_id reason))
