-- ===== src/Gateway/Tests.antt =====
-- Concrete requests to the middleware of internal/gatewayauth/gatewayauth.go.
use mathlib.Core.List.{Memᴰ}
use peikonpurekkusu_payment.Gateway.Keys.{verifier, context_error, unreachable, new_verifier}
use peikonpurekkusu_payment.Prelude.{
  arith, ◌≡◌, refl, sym, ◌∙◌, ◌⊎◌, true, String, [], ◌∷◌, some, All, ℕ, false, inl, inr, ◌==◌,
  if◌then◌else◌, ltb,
}
use peikonpurekkusu_payment.Prelude.Int.{pos, ltb_ℤ}
use peikonpurekkusu_payment.Prelude.Fields.{codes, trim_space}
use peikonpurekkusu_payment.Prelude.Text.{decimal}
use peikonpurekkusu_payment.Payment.{Row}
use peikonpurekkusu_payment.Saga.Tests.{good, start}
use peikonpurekkusu_payment.HttpApi.{Headers, Request, get}
use peikonpurekkusu_payment.HttpApi.StepUp.{mfa}
use peikonpurekkusu_payment.HttpApi.Create.{create_payment}
use peikonpurekkusu_payment.HttpApi.Tests.{out, api, asks, probe, cons_ne}
use peikonpurekkusu_payment.Gateway.{
  Claims, Parsed, parse_error, token, string, number, array, entry, other, forwarded, rejected,
  claim, has_prefix, middleware,
}
use peikonpurekkusu_payment.Gateway.Identity.{IsVerified, middleware-IsVerified}
use peikonpurekkusu_payment.Gateway.Factor.{IsPlain}
use peikonpurekkusu_payment.Gateway.Secured.{IsRecent, methods, guarded_create}

abbrev claims : Claims
claims =
    ("sub", string "77")
    ∷ ("amr", array (entry "pwd" ∷ other ∷ entry "mfa" ∷ []))
    ∷ ("auth_time", number (pos 10))
    ∷ []

-- One text is a signed assertion.
abbrev parse : String → Parsed
parse s = token true (some claims)

-- A request with a forged identity, and a signed one.
abbrev inbound : Headers
inbound =
    ("X-User-Id", "1")
    ∷ ("X-Session-Id", "forged")
    ∷ ("Idempotency-Key", "k")
    ∷ ("X-Gateway-Assertion", "signed")
    ∷ []

abbrev passed_on : Headers
passed_on =
    ("X-Auth-Time", "10")
    ∷ ("X-Auth-Amr", "pwd,mfa")
    ∷ ("X-User-Roles", "")
    ∷ ("X-User-Id", "77")
    ∷ ("Idempotency-Key", "k")
    ∷ []

verdicts :
    (middleware parse "/payments" inbound ≡ forwarded passed_on)
    × (middleware parse "/payments" [] ≡ rejected "missing gateway assertion")
    × (middleware (λ s. parse_error) "/payments" inbound ≡ rejected "invalid gateway assertion")
    × (middleware (λ s. token true (some [])) "/payments" inbound
        ≡ rejected "invalid gateway assertion")
    × (middleware (λ s. parse_error) "/health/live" [] ≡ forwarded [])
unfolding middleware decimal
verdicts = (refl, refl, refl, refl, refl)

middleware-IsVerified_example : IsVerified parse "/payments" inbound passed_on
unfolding middleware has_prefix decimal
middleware-IsVerified_example = middleware-IsVerified parse "/payments" inbound passed_on refl refl

pwd-IsPlain : IsPlain "pwd"
unfolding trim_space
pwd-IsPlain = record { no_comma = ground arith; trimmed = refl; not_empty = refl }

mfa-IsPlain : IsPlain "mfa"
unfolding trim_space
mfa-IsPlain = record { no_comma = ground arith; trimmed = refl; not_empty = refl }

methods_are-IsPlain :
    (c : Claims) → parse "signed" ≡ token true (some c) → All IsPlain (methods (claim "amr" c))
unfolding claim methods
methods_are-IsPlain c h = rw⁻¹ (claims_inj h) (pwd-IsPlain, (mfa-IsPlain, tt))
  where
    claims_inj : {a b : Claims} → token true (some a) ≡ token true (some b) → a ≡ b
    claims_inj e = cc

abbrev request : Request
request = asks inbound 200

starts_large : (create_payment good out (asks passed_on 200) (api start)).1.started ≡ 500 ∷ []
unfolding create_payment
starts_large = refl

guarded_create_example :
    (c : Claims) × (sub : String) × (row : Row) × (parse "signed" ≡ token true (some c))
    × ((create_payment good out (asks passed_on 200) (api start)).1.started ≡ row.id ∷ [])
    × ((create_payment good out (asks passed_on 200) (api start)).1.world.payments
        ≡ row ∷ start.payments)
    × (claim "sub" c ≡ some (string sub))
    × (good.uuid_parse sub ≡ some row.user_id)
    × ((ltb_ℤ row.amount out.step_up_limit ≡ true)
        ⊎ (((m : String) × Memᴰ m (methods (claim "amr" c)) × (codes m ≡ mfa))
            × IsRecent start.now out.step_up_max_age c))
unfolding middleware has_prefix get decimal
guarded_create_example =
    guarded_create good out parse "/payments" request (api start) passed_on probe
      methods_are-IsPlain refl refl (λ e. cons_ne (sym starts_large ∙ e))

-- The keys come with the third fetch.
abbrev third : ℕ → String ⊎ ℕ
third attempt = if ltb attempt 3 then inl "connection refused" else inr 7

abbrev never : ℕ → String ⊎ ℕ
never attempt = inl "connection refused"

fetches :
    (new_verifier third (λ i. false) ≡ verifier 7)
    × (new_verifier third (λ i. i == 2) ≡ context_error)
    × (new_verifier never (λ i. false) ≡ unreachable "connection refused")
unfolding new_verifier
fetches = (refl, refl, refl)
