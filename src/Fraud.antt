-- ===== src/Fraud.antt =====
-- internal/fraudclient/fraudclient.go: the fraud check with the amount-tiered timeout policy.
-- The gRPC stub is an argument: its answer to a request, or none for any error.
pub mod Policy
mod Tests
use peikonpurekkusu_payment.Prelude.{Bool, true, false, String, Option, none, some, if◌then◌else◌}
use peikonpurekkusu_payment.Prelude.Int.{ℤ, pos, negsuc, ltb_ℤ}
use peikonpurekkusu_payment.Payment.{Uuid, Time}

-- fraudv1.ScoreRequest
pub record ScoreRequest : Type 0 where
  pub payment_id : Uuid
  pub user_id : Uuid
  pub account_id : Uuid
  pub amount_minor_units : ℤ
  pub currency_code : String
  pub merchant_id : String
  pub payment_method : String
  pub requested_at_unix_ms : Time

-- fraudv1.Decision
pub data Decision : Type 0 where
  unspecified approve step_up hold deny : Decision

pub record ScoreResponse : Type 0 where
  pub decision : Decision
  pub risk_score : ℤ

pub record Verdict : Type 0 where
  pub proceed : Bool
  pub requires_action : Bool
  pub risk_score : ℤ
  pub failed_open : Bool
  pub reason : String

-- The switch on an answered check.
unfoldable pub verdict_of : Decision → ℤ → Verdict
verdict_of approve score = record {
  proceed = true;
  requires_action = false;
  risk_score = score;
  failed_open = false;
  reason = "";
}
verdict_of step_up score = record {
  proceed = false;
  requires_action = true;
  risk_score = score;
  failed_open = false;
  reason = "fraud_DECISION_STEP_UP";
}
verdict_of hold score = record {
  proceed = false;
  requires_action = true;
  risk_score = score;
  failed_open = false;
  reason = "fraud_DECISION_HOLD";
}
verdict_of _ score = record {
  proceed = false;
  requires_action = false;
  risk_score = score;
  failed_open = false;
  reason = "fraud_denied";
}

-- The policy on an outage: below the limit the payment goes on, flagged.
unfoldable pub outage_verdict : ℤ → ℤ → Verdict
outage_verdict fail_open_limit amount =
    if ltb_ℤ amount fail_open_limit
    then record {
      proceed = true;
      requires_action = false;
      risk_score = negsuc 0;
      failed_open = true;
      reason = "fraud_unavailable_fail_open";
    }
    else record {
      proceed = false;
      requires_action = false;
      risk_score = pos 0;
      failed_open = false;
      reason = "fraud_unavailable_fail_closed";
    }

unfoldable pub screen : ℤ → (ScoreRequest → Option ScoreResponse) → ScoreRequest → Verdict
unfolding verdict_of outage_verdict
screen fail_open_limit score req = elim (score req) [
  | none ↦ outage_verdict fail_open_limit req.amount_minor_units
  | some resp ↦ verdict_of resp.decision resp.risk_score
]
