-- ===== src/Psp/Answers.antt =====
-- Unreachable is not refused: what the processors of the factory say of the real processor.
use Prim.Native.String.{◌++◌}
use peikonpurekkusu_payment.Prelude.{
  ℕ, ◌<◌, ◌≡◌, ◌⊎◌, inl, inr, Bool, true, false, Option, none, some, String, [], ◌∷◌, arith, ap,
  sym, ◌∙◌, not, refl,
}
use peikonpurekkusu_payment.Prelude.Int.{ℤ}
use peikonpurekkusu_payment.Psp.{
  declined, AuthResult, deadline_exceeded, canceled, Error, Result, ok, err, PaymentProcessor,
}
use peikonpurekkusu_payment.Psp.Retry.{
  Refusal, Weather, execute, as_unavailable, no_result, ends_waiting, retry, resilient_authorize,
}
use peikonpurekkusu_payment.Psp.Adapters.{
  AuthorizeReq, AuthorizeResp, HttpClient, HttpReply, bad_request, response, read_authorize,
  wallet_result, card_processor, wallet_processor,
}
use text.Mathlib.TextEquality.{eq_iff}
use peikonpurekkusu_payment.Psp.Factory.{Factory, for_method, new_factory}
use peikonpurekkusu_payment.Psp.RetryLaws.{retry-Stop}
use peikonpurekkusu_payment.Saga.Steps.{is_transient}

-- The results with which `stepSubmit` of internal/saga/saga.go fails the payment: a decline, and an
-- error that it does not take for a transient one.
abbrev pub is_refusal : Result AuthResult → Bool
is_refusal (ok r) = elim (r.outcome) [ declined ↦ true | _ ↦ false ]
is_refusal (err e) = not (is_transient e.kind)

-- The processor has answered, with no error of its own; or the request could not be built.
abbrev pub IsAnswer : HttpReply → Type 0
IsAnswer (response code _) = code < 500
IsAnswer (bad_request _) = Unit
IsAnswer _ = ⊥

read_authorize-IsAnswer :
    (decode : String → AuthorizeResp ⊎ String) (r : HttpReply)
    → is_refusal (read_authorize decode r) ≡ true
    → IsAnswer r
unfolding read_authorize
read_authorize-IsAnswer decode r h = ground arith

wallet_result-is_refusal :
    (r : Result AuthResult) → is_refusal (wallet_result r) ≡ true → is_refusal r ≡ true
unfolding wallet_result
wallet_result-is_refusal r h = ground arith

as_unavailable-is_refusal :
    (x : Option Refusal) (r : Result AuthResult)
    → is_refusal (as_unavailable (execute x r)) ≡ true
    → (x ≡ none) × (is_refusal r ≡ true)
unfolding as_unavailable execute
as_unavailable-is_refusal x r h = ground arith

-- The errors of a context are the two that the context library documents.
abbrev pub IsContextError : Error → Type 0
IsContextError c = (c.kind ≡ deadline_exceeded) ⊎ (c.kind ≡ canceled)

-- Of the two only a cancellation is taken for a refusal.
context-is_refusal : (c : Error) → IsContextError c → is_refusal (err c) ≡ true → c.kind ≡ canceled
context-is_refusal c h r = ground arith

-- The context was canceled in the wait after one of three attempts.
abbrev pub IsCanceled : (ℕ → Option Error) → Type 0
IsCanceled ended = (j : ℕ) × (j < 3) × ((c : Error) × (ended j ≡ some c) × (c.kind ≡ canceled))

retry-is_refusal :
    (jitter : ℕ → ℕ) (done : ℕ → ℕ → Option Error) (fn : ℕ → Result AuthResult)
    → ((i wait : ℕ) (c : Error) → done i wait ≡ some c → IsContextError c)
    → is_refusal (retry no_result 3 jitter done fn) ≡ true
    → ((j : ℕ) × (j < 3) × (is_refusal (fn j) ≡ true)) ⊎ IsCanceled (ends_waiting jitter done)
retry-is_refusal jitter done fn ctx h =
    let s = retry-Stop jitter done fn no_result 2 in
    let lt : s.last < 3 = omega (arith, s.in_bounds) in
    elim s.ends [
      | inl (e, _) ↦ inl (s.last, lt, ap is_refusal (sym e) ∙ h)
      | inr (_, (c, d, e)) ↦
          inr (
            s.last,
            lt,
            (c, d, context-is_refusal c (ctx s.last _ c d) (ap is_refusal (sym e) ∙ h)),
          )
    ]

abbrev pub ends_call : {H : Type 0} → Weather H → H → ℕ → Option Error
ends_call weather h = ends_waiting (weather.jitter h) (weather.done h)

module _ {H : Type 0} (weather : Weather H) (inner : PaymentProcessor (H × ℕ))
    (context : (h : H) (i wait : ℕ) (c : Error)
      → weather.done h i wait ≡ some c
      → IsContextError c) where
  resilient-is_refusal :
      (h : H) (payment_id : String) (amount : ℤ) (currency token : String)
      → is_refusal (resilient_authorize weather inner h payment_id amount currency token) ≡ true
      → ((j : ℕ) × (j < 3)
          × (is_refusal (inner.authorize (h, j) payment_id amount currency token) ≡ true))
        ⊎ IsCanceled (ends_call weather h)
  unfolding resilient_authorize
  resilient-is_refusal h payment_id amount currency token r =
      elim (retry-is_refusal (weather.jitter h) (weather.done h)
        (λ i. as_unavailable (
          execute (weather.authorize_refused h i)
            (inner.authorize (h, i) payment_id amount currency token)))
        (context h) r) [
          | inl (j, lt, f) ↦
              inl (j, lt, (as_unavailable-is_refusal (weather.authorize_refused h j) _ f).1)
          | inr over ↦ inr over
        ]

find_processor-card :
    {H : Type 0} (p q r : PaymentProcessor H) (method : String)
    → for_method (("card", q) ∷ ("wallet", r) ∷ []) method ≡ ok p
    → ((method ≡ "card") × (p ≡ q)) ⊎ ((method ≡ "wallet") × (p ≡ r))
unfolding for_method
find_processor-card p q r method h = ground (arith, eq_iff "card" method, eq_iff "wallet" method)

module _ {H : Type 0} (card_weather wallet_weather : Weather H) (http : HttpClient (H × ℕ))
    (base_url : String)
    (card_context : (h : H) (i wait : ℕ) (c : Error)
      → card_weather.done h i wait ≡ some c
      → IsContextError c)
    (wallet_context : (h : H) (i wait : ℕ) (c : Error)
      → wallet_weather.done h i wait ≡ some c
      → IsContextError c) where
  abbrev factory : Factory H
  factory = new_factory card_weather wallet_weather http base_url

  abbrev pub request_of : String → String → ℤ → String → String → AuthorizeReq
  request_of method payment_id amount currency token = record {
    reference = payment_id;
    amount_minor = amount;
    currency = currency;
    method = method;
    token = token;
  }

  module _ (h : H) (payment_id : String) (amount : ℤ) (currency token : String) where
    -- One of at most three attempts was answered.
    abbrev pub Answered : String → Type 0
    Answered method =
        (j : ℕ) × (j < 3)
        × IsAnswer (
            http.post_authorize (h, j) (base_url ++ "/authorize")
              (request_of method payment_id amount currency token))

    card-Answered :
        is_refusal (
            resilient_authorize card_weather
              (card_processor http base_url)
              h
              payment_id
              amount
              currency
              token)
          ≡ true
        → Answered "card" ⊎ IsCanceled (ends_call card_weather h)
    unfolding card_processor
    card-Answered r =
        elim (resilient-is_refusal card_weather (card_processor http base_url) card_context h
          payment_id amount currency token r) [
            | inl (j, lt, f) ↦ inl (j, lt, read_authorize-IsAnswer http.decode _ f)
            | inr over ↦ inr over
          ]

    wallet-Answered :
        is_refusal (
            resilient_authorize wallet_weather
              (wallet_processor http base_url)
              h
              payment_id
              amount
              currency
              token)
          ≡ true
        → Answered "wallet" ⊎ IsCanceled (ends_call wallet_weather h)
    unfolding wallet_processor
    wallet-Answered r =
        elim (resilient-is_refusal wallet_weather (wallet_processor http base_url) wallet_context h
          payment_id amount currency token r) [
            | inl (j, lt, f) ↦
                inl (j, lt, read_authorize-IsAnswer http.decode _ (wallet_result-is_refusal _ f))
            | inr over ↦ inr over
          ]

    -- The processor of the method is refused by a cancellation of its own call's context.
    abbrev pub Canceled : String → Type 0
    Canceled method =
        ((method ≡ "card") × IsCanceled (ends_call card_weather h))
        ⊎ ((method ≡ "wallet") × IsCanceled (ends_call wallet_weather h))

    -- The processor that the factory gives for a method gives a result with which the engine fails
    -- the payment only if one of at most three requests to the real processor was answered with a
    -- status below 500, or could not be built, or if the context was canceled while it waited
    -- between them; the context's errors are the two documented ones. So open circuits, lost
    -- connections, server errors and a deadline that passes never read as a refusal.
    pub refusal-Answered :
        (method : String) (p : PaymentProcessor H)
        → for_method (new_factory card_weather wallet_weather http base_url) method ≡ ok p
        → is_refusal (p.authorize h payment_id amount currency token) ≡ true
        → Answered method ⊎ Canceled method
    unfolding new_factory
    refusal-Answered method p found r = elim (find_processor-card p _ _ method found) [
      | inl (m, e) ↦ rw m (elim (card-Answered (rw e at r)) [
        | inl told ↦ inl told
        | inr over ↦ inr (inl (refl, over))
      ])
      | inr (m, e) ↦ rw m (elim (wallet-Answered (rw e at r)) [
        | inl told ↦ inl told
        | inr over ↦ inr (inr (refl, over))
      ])
    ]
