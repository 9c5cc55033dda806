-- ===== src/Psp/Tests.antt =====
-- The processors of internal/psp/psp.go on an HTTP client with fixed answers.
use peikonpurekkusu_payment.Prelude.{
  ℕ, zero, ◌≡◌, ◌⊎◌, ltb, if◌then◌else◌, inl, refl, true, false, Option, none, some,
}
use peikonpurekkusu_payment.Prelude.Int.{pos}
use peikonpurekkusu_payment.Prelude.Text.{decimal}
use peikonpurekkusu_payment.Psp.{
  declined, unavailable, deadline_exceeded, canceled, Error, ok, err, PaymentProcessor,
}
use peikonpurekkusu_payment.Psp.Retry.{
  Weather, retry, with_resilience, backoff, ends_waiting, no_result,
}
use peikonpurekkusu_payment.Psp.Adapters.{
  HttpClient, response, transport_error, card_processor, read_authorize, read_post, auth_result,
}
use peikonpurekkusu_payment.Psp.Factory.{Factory, for_method, new_factory}
use peikonpurekkusu_payment.Psp.RetryLaws.{Stop, retry-Stop}
use peikonpurekkusu_payment.Psp.Answers.{
  is_refusal, Answered, Canceled, IsContextError, refusal-Answered,
}

abbrev calm : Weather ℕ
calm = record {
  authorize_refused = λ h i. none;
  plain_refused = λ h i. none;
  jitter = λ h i. 0;
  done = λ h i wait. none;
}

calm_context : (h i wait : ℕ) (c : Error) → calm.done h i wait ≡ some c → IsContextError c
calm_context h i wait c e = absurd (cc)

-- The first answer is lost; the second one declines the card.
abbrev http : HttpClient (ℕ × ℕ)
http = record {
  post_authorize = λ h url req. elim (h.1) [
    | zero ↦ transport_error "connection refused"
    | _ ↦ response 200 "declined"
  ];
  post = λ h url. response 503 "";
  decode = λ body. inl (record {
    psp_reference = "ref";
    outcome = body;
    decline_code = "do_not_honor";
    pending = false;
  });
}

abbrev processors : Factory ℕ
processors = new_factory calm calm http "http://psp"

abbrev card : PaymentProcessor ℕ
card = with_resilience calm (card_processor http "http://psp")

-- A lost answer is asked for again; a processor that stays down is unavailable.
second_attempt :
    (card.authorize 0 "p" (pos 1) "EUR" "tok"
      ≡ ok (record { outcome = declined; psp_reference = "ref"; decline_code = "do_not_honor" }))
    × (card.capture 0 "ref"
        ≡ err (record { kind = unavailable; message = "processor unavailable: HTTP 503" }))
unfolding with_resilience card_processor read_authorize auth_result read_post decimal
second_attempt = (refl, refl)

found_card : for_method processors "card" ≡ ok card
unfolding for_method new_factory
found_card = refl

card_refuses : is_refusal (card.authorize 0 "p" (pos 1) "EUR" "tok") ≡ true
unfolding with_resilience card_processor read_authorize auth_result
card_refuses = refl

refusal-Answered_example :
    Answered calm calm http "http://psp" calm_context calm_context 0 "p" (pos 1) "EUR" "tok" "card"
    ⊎ Canceled calm calm http "http://psp" calm_context calm_context 0 "p"
        (pos 1)
        "EUR"
        "tok"
        "card"
refusal-Answered_example =
    refusal-Answered calm calm http "http://psp" calm_context calm_context 0 "p" (pos 1) "EUR" "tok"
      "card" card found_card card_refuses

abbrev lost : Error
lost = record { kind = unavailable; message = "lost" }

abbrev late : Error
late = record { kind = deadline_exceeded; message = "context deadline exceeded" }

abbrev jitter : ℕ → ℕ
jitter i = 50

-- A context that would outlast any wait below 450 ms: it ends in the wait after the second attempt.
abbrev patience : ℕ → ℕ → Option Error
patience i wait = if ltb wait 450 then none else some late

retry_ends : retry {A = ℕ} 0 3 jitter patience (λ i. err lost) ≡ err late
unfolding retry backoff
retry_ends = refl

retry-Stop_example :
    Stop {A = ℕ}
      (ends_waiting jitter patience)
      (λ i. err lost)
      3
      0
      (retry {A = ℕ} 0 3 jitter patience (λ i. err lost))
retry-Stop_example = retry-Stop {A = ℕ} jitter patience (λ i. err lost) 0 2

-- A cancellation in a wait is what the engine takes for a refusal.
canceled_refuses :
    is_refusal (
      retry no_result 3 jitter
        (λ i wait. some (record { kind = canceled; message = "context canceled" }))
        (λ i. err lost))
    ≡ true
unfolding retry
canceled_refuses = refl
