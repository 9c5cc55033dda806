-- ===== src/Psp/Factory.antt =====
-- `NewFactory` and `Factory.For` of internal/psp/psp.go.
use Prim.Native.String.{◌++◌}
use text.Mathlib.Text.{◌==◌}
use peikonpurekkusu_payment.Prelude.{ℕ, String, List, [], ◌∷◌, Option, none, some, if◌then◌else◌}
use peikonpurekkusu_payment.Psp.{PaymentProcessor, Result, ok, err}
use peikonpurekkusu_payment.Psp.Retry.{Weather, with_resilience}
use peikonpurekkusu_payment.Psp.Adapters.{HttpClient, plain_error, card_processor, wallet_processor}

-- The map from a payment method to its processor.
abbrev pub Factory : Type 0 → Type 0
Factory H = List (String × PaymentProcessor H)

module _ {H : Type 0} where
  unfoldable pub find_processor : String → Factory H → Option (PaymentProcessor H)
  find_processor method [] = none
  find_processor method ((m, p) ∷ rest) = if m == method then some p else find_processor method rest

  -- A method of letters only, as every method of the instruments table is, is quoted as it stands.
  unfoldable pub for_method : Factory H → String → Result (PaymentProcessor H)
  unfolding find_processor
  for_method f method = elim (find_processor method f) [
    | none ↦ err (plain_error ("unsupported payment method \"" ++ method ++ "\""))
    | some p ↦ ok p
  ]

  unfoldable pub new_factory : Weather H → Weather H → HttpClient (H × ℕ) → String → Factory H
  unfolding with_resilience card_processor wallet_processor
  new_factory card_weather wallet_weather http base_url =
      ("card", with_resilience card_weather (card_processor http base_url))
      ∷ ("wallet", with_resilience wallet_weather (wallet_processor http base_url))
      ∷ []
