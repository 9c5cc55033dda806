-- ===== src/Fraud/Tests.antt =====
-- The fraud policy of internal/fraudclient/fraudclient.go on single requests.
use peikonpurekkusu_payment.Prelude.{◌≡◌, ◌⊎◌, refl, Option, none, some, true, false}
use peikonpurekkusu_payment.Prelude.Int.{ℤ, pos, negsuc, ◌<ℤ◌}
use peikonpurekkusu_payment.Fraud.{
  ScoreRequest, ScoreResponse, Decision, approve, step_up, hold, deny, screen,
}
use peikonpurekkusu_payment.Fraud.Policy.{screen-decided}

abbrev request : ℤ → ScoreRequest
request amount = record {
  payment_id = 1;
  user_id = 2;
  account_id = 3;
  amount_minor_units = amount;
  currency_code = "EUR";
  merchant_id = "m";
  payment_method = "card";
  requested_at_unix_ms = 0;
}

abbrev silent : ScoreRequest → Option ScoreResponse
silent req = none

abbrev answers : Decision → ScoreRequest → Option ScoreResponse
answers d req = some (record { decision = d; risk_score = pos 60 })

-- An outage lets the small amount pass, and not the one at the limit.
outage_at_limit :
    ((screen (pos 5000) silent (request (pos 4999))).proceed ≡ true)
    × ((screen (pos 5000) silent (request (pos 5000))).proceed ≡ false)
    × ((screen (pos 5000) (answers deny) (request (pos 1))).proceed ≡ false)
unfolding screen
outage_at_limit = (refl, refl, refl)

let_through : (screen (pos 5000) silent (request (pos 4999))).proceed ≡ true
unfolding screen
let_through = refl

must_wait : (screen (pos 5000) (answers hold) (request (pos 1))).requires_action ≡ true
unfolding screen
must_wait = refl

screen-decided_example :
    ((screen (pos 5000) silent (request (pos 4999))).proceed ≡ true
      → ((r : ScoreResponse) × (silent (request (pos 4999)) ≡ some r) × (r.decision ≡ approve))
        ⊎ ((silent (request (pos 4999)) ≡ none)
            × (pos 4999 <ℤ pos 5000)
            × ((screen (pos 5000) silent (request (pos 4999))).risk_score ≡ negsuc 0)))
    × ((screen (pos 5000) silent (request (pos 4999))).requires_action ≡ true
        → (r : ScoreResponse) × (silent (request (pos 4999)) ≡ some r)
          × ((r.decision ≡ step_up) ⊎ (r.decision ≡ hold))
          × ((screen (pos 5000) silent (request (pos 4999))).proceed ≡ false))
screen-decided_example = screen-decided (pos 5000) silent (request (pos 4999))
