-- ===== src/HttpApi/Tests/Quotes.antt =====
-- Quotes of internal/httpapi/server.go, and its streams.
use peikonpurekkusu_payment.Prelude.{◌≡◌, refl, inl, String, [], ◌∷◌, Option, some}
use peikonpurekkusu_payment.Prelude.Bytes.{Bytes}
use peikonpurekkusu_payment.Payment.{FxQuote, failed, done}
use peikonpurekkusu_payment.Payment.Table.{lookup, lookup_quote}
use peikonpurekkusu_payment.Saga.World.{World, Update}
use peikonpurekkusu_payment.Saga.Tests.{good, start, world}
use peikonpurekkusu_payment.HttpApi.Create.{problem, check_quote}
use peikonpurekkusu_payment.HttpApi.Quotes.{
  ExchangeRate, FxQuoteRequest, quoted, fx_quote, check_quote-fx_quote,
}
use peikonpurekkusu_payment.HttpApi.Reads.{ok_with}
use peikonpurekkusu_payment.HttpApi.Stream.{
  beats, updates, status_frame, keepalive, snapshot_of, stream_events,
}
use peikonpurekkusu_payment.HttpApi.Tests.{out, small, waiting, resumes, waiting_api}

abbrev dollars : ExchangeRate
dollars = record { id = 1; base = "USD"; quote = "EUR"; rate = "0.92000000"; valid_from = 10 }

abbrev pair : Bytes → Option FxQuoteRequest
pair body = some (record { base = "EUR"; target = "USD" })

abbrev inverse : String → String
inverse rate = "1.08695652"

-- The inverse pair, for 90 seconds.
abbrev quote : FxQuote
quote = record {
  id = 77;
  base = "EUR";
  quote = "USD";
  rate = "1.08695652";
  rate_id = 1;
  created_at = 100;
  expires_at = 90100;
}

gives_quote :
    (fx_quote good pair inverse (λ h. 77) 90000 (dollars ∷ []) small start).0 ≡ quoted quote
unfolding fx_quote
gives_quote = refl

abbrev late : World
late = record start { quotes = quote ∷ []; now = 90101 }

check_quote-fx_quote_example :
    (check_quote good out "77" late).0 ≡ inl (problem "fx quote expired — request a new quote")
unfolding fx_quote lookup_quote
check_quote-fx_quote_example =
    check_quote-fx_quote good pair inverse (λ h. 77) 90000 (dollars ∷ []) out small start late quote
      "77" gives_quote refl refl refl refl

-- The stream of a payment ends with the update that ends the payment, but a payment that has ended
-- before keeps it open.
abbrev ended : Update
ended = record { payment_id = 77; status = failed; step = done }

streams :
    (stream_events good resumes (beats ∷ updates ended ∷ beats ∷ []) waiting_api.world
      ≡ ok_with (
          status_frame (snapshot_of 77 (record waiting { id = 77 }))
          ∷ keepalive
          ∷ status_frame ended
          ∷ []))
    × (stream_events good resumes
          (beats ∷ beats ∷ [])
          (world (record waiting { id = 77; status = failed; step = done }))
        ≡ ok_with (status_frame ended ∷ keepalive ∷ keepalive ∷ []))
unfolding stream_events lookup
streams = (refl, refl)
