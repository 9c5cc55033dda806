-- ===== src/Platform/Probe.antt =====
-- `selfProbe` of cmd/server/main.go, the health check of the container. The HTTP client is an argument:
-- the status that a URL is answered with, if it is answered.
use Prim.Native.String.{◌++◌}
use text.Mathlib.Text.{◌==◌ as str_eq}
use peikonpurekkusu_payment.Prelude.{
  ℕ, ◌≡◌, refl, ◌&&◌, Bool, true, false, String, Option, none, some, if◌then◌else◌, ◌==◌,
}
use peikonpurekkusu_payment.HttpApi.Health.{ready}

unfoldable pub exit_code : Option ℕ → ℕ
exit_code none = 1
exit_code (some status) = if status == 200 then 0 else 1

module _ (env : String → String) (get : String → Option ℕ) where
  unfoldable pub probe_url : String
  probe_url =
      "http://localhost:"
      ++ (if str_eq (env "HTTP_PORT") "" then "8080" else env "HTTP_PORT")
      ++ "/health/ready"

  unfoldable pub self_probe : ℕ
  unfolding exit_code probe_url
  self_probe = exit_code (get probe_url)

  -- If the server that listens there answers with its readiness, the probe succeeds just if the
  -- database and the broker are up.
  self_probe-ready :
      (ping_ok kafka_ok : Bool)
      → get probe_url ≡ some (ready ping_ok kafka_ok).code
      → self_probe ≡ (if ping_ok && kafka_ok then 0 else 1)
  unfolding self_probe ready
  self_probe-ready true true h = rw h refl
  self_probe-ready true false h = rw h refl
  self_probe-ready false kafka_ok h = rw h refl
