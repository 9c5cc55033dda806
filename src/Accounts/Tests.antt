-- ===== src/Accounts/Tests.antt =====
-- The requests of internal/accountclient/accountclient.go for two payments.
use peikonpurekkusu_payment.Prelude.{String, ◌≡◌, ◌≢◌, ◌↔◌, refl, none, some}
use peikonpurekkusu_payment.Prelude.Int.{pos}
use peikonpurekkusu_payment.Accounts
use peikonpurekkusu_payment.Accounts.{
  hold_request, capture_request, release_request, hold, capture, release, deadline_exceeded,
  failed_precondition,
}
use peikonpurekkusu_payment.Accounts.Requests.{request_ids_agree}

-- A release that comes too late is no error, and one that was not answered is.
late_release :
    (release (λ req. Accounts.err failed_precondition) "p" "h" "compensation" ≡ none)
    × (release (λ req. Accounts.err deadline_exceeded) "p" "h" "compensation"
        ≡ some deadline_exceeded)
    × (hold (λ req. Accounts.ok req.request_id) "p" "a" (pos 1) "EUR" ≡ Accounts.ok "hold:p")
    × (capture (λ req. Accounts.ok req.request_id) "p" "h" (pos 1) "EUR" ≡ Accounts.ok "capture:p")
unfolding release hold capture hold_request capture_request
late_release = (refl, refl, refl, refl)

abbrev one : String
one = "p"

abbrev two : String
two = "q"

request_ids_agree_example :
    ((hold_request "p" "a" (pos 1) "EUR").request_id
      ≢ (capture_request "q" "h" (pos 2) "USD").request_id)
    × ((hold_request "p" "a" (pos 1) "EUR").request_id ≢ (release_request "q" "h" "r").request_id)
    × ((capture_request "p" "h" (pos 1) "EUR").request_id
        ≢ (release_request "q" "k" "r").request_id)
    × (((hold_request "p" "a" (pos 1) "EUR").request_id
          ≡ (hold_request "q" "b" (pos 2) "USD").request_id)
        ↔ (one ≡ two))
    × (((capture_request "p" "h" (pos 1) "EUR").request_id
          ≡ (capture_request "q" "k" (pos 2) "USD").request_id)
        ↔ (one ≡ two))
    × (((release_request "p" "h" "EUR").request_id ≡ (release_request "q" "k" "USD").request_id)
        ↔ (one ≡ two))
request_ids_agree_example =
    request_ids_agree "p" "q" "a" "b" "h" "k" "r" (pos 1) (pos 2) "EUR" "USD"
