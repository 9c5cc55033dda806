-- ===== src/Psp/Retry.antt =====
-- The resilience decorator of internal/psp/psp.go: bounded retries around a circuit breaker.
-- The breaker is a library: for each attempt it refuses, or lets the call through.
-- The select after an attempt is an argument too: the context's error, if it ends within the wait.
use peikonpurekkusu_payment.Prelude.{
  ℕ, zero, suc, ◌+◌, ◌*◌, ◌^◌, String, Option, none, some, if◌then◌else◌,
}
use peikonpurekkusu_payment.Prelude.Int.{ℤ}
use peikonpurekkusu_payment.Psp.{
  AuthResult, unset, Kind, unavailable, open_state, too_many_requests, Error, Result, ok, err,
  is_unavailable, PaymentProcessor,
}

-- In milliseconds: 200 doubled for each attempt, and a jitter below 150.
unfoldable pub backoff : ℕ → ℕ → ℕ
backoff i jitter = 2 ^ i * 200 + jitter

unfoldable pub as_unavailable_kind : Kind → String → Error
as_unavailable_kind open_state m = record {
  kind = unavailable;
  message = "processor unavailable: circuit open";
}
as_unavailable_kind too_many_requests m = record {
  kind = unavailable;
  message = "processor unavailable: circuit open";
}
as_unavailable_kind k m = record { kind = k; message = m }

unfoldable pub as_unavailable : {A : Type 0} → Result A → Result A
unfolding as_unavailable_kind
as_unavailable (ok a) = ok a
as_unavailable (err e) = err (as_unavailable_kind e.kind e.message)

-- What the breaker refuses an attempt with, if it does.
pub data Refusal : Type 0 where
  is_open too_many : Refusal

abbrev pub refusal : Refusal → Error
refusal is_open = record { kind = open_state; message = "circuit breaker is open" }
refusal too_many = record { kind = too_many_requests; message = "too many requests" }

-- `breaker.Execute`
unfoldable pub execute : {A : Type 0} → Option Refusal → Result A → Result A
execute none r = r
execute (some x) r = err (refusal x)

-- The loop of `retry` from attempt `i`, with `n` attempts left and the outcome so far.
unfoldable pub retry_from :
    {A : Type 0} → ℕ → ℕ → (ℕ → Option Error) → (ℕ → Result A) → Result A → Result A
retry_from zero i done fn last = last
retry_from (suc n) i done fn last = elim (fn i) [
  | ok a ↦ ok a
  | err e ↦
      (let rest = retry_from n (i + 1) done fn (err e) in
        if is_unavailable e.kind then (elim (done i) [ some c ↦ err c | none ↦ rest ]) else err e)
]

-- The context's error after each attempt, if it ends within the wait of that attempt.
abbrev pub ends_waiting : (ℕ → ℕ) → (ℕ → ℕ → Option Error) → ℕ → Option Error
ends_waiting jitter done i = done i (backoff i (jitter i))

-- `zero_value` is what `out` holds if there is no attempt at all.
unfoldable pub retry :
    {A : Type 0} → A → ℕ → (ℕ → ℕ) → (ℕ → ℕ → Option Error) → (ℕ → Result A) → Result A
unfolding retry_from
retry zero_value attempts jitter done fn =
    retry_from attempts 0 (ends_waiting jitter done) fn (ok zero_value)

-- One call of the decorator: what the breaker and the context do at each attempt, the context in a
-- wait of so many milliseconds, and the jitter of that wait.
pub record Weather (H : Type 0) : Type 0 where
  pub authorize_refused : H → ℕ → Option Refusal
  pub plain_refused : H → ℕ → Option Refusal
  pub jitter : H → ℕ → ℕ
  pub done : H → ℕ → ℕ → Option Error

abbrev pub no_result : AuthResult
no_result = record { outcome = unset; psp_reference = ""; decline_code = "" }

module _ {H : Type 0} (weather : Weather H) (inner : PaymentProcessor (H × ℕ)) where
  unfoldable pub resilient_authorize : H → String → ℤ → String → String → Result AuthResult
  unfolding retry execute as_unavailable
  resilient_authorize h payment_id amount currency token =
      retry no_result 3 (weather.jitter h) (weather.done h) (λ i. as_unavailable (
        execute (weather.authorize_refused h i)
          (inner.authorize (h, i) payment_id amount currency token)))

  unfoldable pub resilient_capture : H → String → Result (Unit {0})
  unfolding retry execute as_unavailable
  resilient_capture h ref =
      retry tt 3 (weather.jitter h) (weather.done h)
        (λ i. as_unavailable (execute (weather.plain_refused h i) (inner.capture (h, i) ref)))

  unfoldable pub resilient_reverse : H → String → Result (Unit {0})
  unfolding retry execute as_unavailable
  resilient_reverse h ref =
      retry tt 3 (weather.jitter h) (weather.done h)
        (λ i. as_unavailable (execute (weather.plain_refused h i) (inner.reverse (h, i) ref)))

  unfoldable pub with_resilience : PaymentProcessor H
  unfolding resilient_authorize resilient_capture resilient_reverse
  with_resilience = record {
    authorize = resilient_authorize;
    capture = resilient_capture;
    reverse = resilient_reverse;
    name = inner.name;
  }
