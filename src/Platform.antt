-- ===== src/Platform.antt =====
-- internal/platform/config.go, and the comma-separated lists of cmd/server/main.go. The environment is
-- a function, and so is the parser of durations; durations are in milliseconds.
pub mod Lists
pub mod Probe
mod Tests
use Prim.Native.String.{◌++◌}
use text.Mathlib.Text.{◌==◌ as str_eq}
use peikonpurekkusu_payment.Prelude.{
  ℕ, ◌*◌, ◌||◌, Bool, true, false, String, List, [], ◌∷◌, Option, none, some, ◌⊎◌, inl, inr,
  if◌then◌else◌, ◌==◌,
}
use peikonpurekkusu_payment.Prelude.Int.{ℤ, pos, negsuc}
use peikonpurekkusu_payment.Prelude.Text.{decimal}
use peikonpurekkusu_payment.Prelude.Fields.{codes, parse_int64, is_empty}
use peikonpurekkusu_payment.Gateway.{format_int}

pub record Config : Type 0 where
  pub db_host : String
  pub db_port : ℤ
  pub db_user : String
  pub db_password : String
  pub db_name : String
  pub kafka_bootstrap : String
  pub schema_registry_url : String
  pub jwks_url : String
  pub account_grpc_addr : String
  pub fraud_grpc_addr : String
  pub mock_psp_base_url : String
  pub http_port : ℤ
  pub fraud_deadline : ℤ
  pub fraud_fail_open_limit : ℤ
  pub fx_quote_ttl : ℤ
  pub resume_interval : ℤ
  pub wallet_timeout : ℤ
  pub step_up_amount_limit : ℤ
  pub step_up_max_age : ℤ
  pub requires_action_timeout : ℤ
  pub gateway_submit_timeout : ℤ
  pub gateway_capture_timeout : ℤ
  pub reconcile_interval : ℤ
  pub reconcile_grace : ℤ

module _ (env : String → String) (parse_duration : String → Option ℤ) where
  unfoldable pub getenv : String → String → String
  getenv key def = if str_eq (env key) "" then def else env key

  unfoldable pub parsed_or : Option ℤ → ℤ → ℤ
  parsed_or none def = def
  parsed_or (some n) def = n

  -- `getint` and `getint64`: an int has 64 bits.
  unfoldable pub getint : String → ℤ → ℤ
  unfolding parsed_or parse_int64
  getint key def =
      if str_eq (env key) "" then def else parsed_or (parse_int64 (codes (env key))) def

  unfoldable pub getdur : String → ℤ → ℤ
  unfolding parsed_or
  getdur key def = if str_eq (env key) "" then def else parsed_or (parse_duration (env key)) def

  unfoldable pub config : Config
  unfolding getenv getint getdur
  config = record {
    db_host = getenv "PAYMENT_DB_HOST" "payment-db";
    db_port = getint "PAYMENT_DB_PORT" (pos 5432);
    db_user = env "PAYMENT_DB_USER";
    db_password = env "PAYMENT_DB_PASSWORD";
    db_name = env "PAYMENT_DB_NAME";
    kafka_bootstrap = getenv "KAFKA_BOOTSTRAP_SERVERS" "kafka:19092";
    schema_registry_url =
        getenv "SCHEMA_REGISTRY_URL" "http://apicurio-registry:8080/apis/ccompat/v7";
    jwks_url = getenv "GATEWAY_JWKS_URL" "http://user-service:8080/.well-known/jwks.json";
    account_grpc_addr = getenv "ACCOUNT_GRPC_ADDR" "account-service:9090";
    fraud_grpc_addr = getenv "FRAUD_GRPC_ADDR" "fraud-service:9090";
    mock_psp_base_url = getenv "MOCK_PSP_BASE_URL" "http://mock-psp:8080";
    http_port = getint "HTTP_PORT" (pos 8080);
    fraud_deadline = getdur "FRAUD_DEADLINE" (pos 150);
    fraud_fail_open_limit = getint "FRAUD_FAIL_OPEN_LIMIT" (pos 5000);
    fx_quote_ttl = getdur "FX_QUOTE_TTL" (pos 90000);
    resume_interval = getdur "SAGA_RESUME_INTERVAL" (pos 15000);
    wallet_timeout = getdur "WALLET_RESULT_TIMEOUT" (pos 600000);
    step_up_amount_limit = getint "STEPUP_AMOUNT_LIMIT" (pos 100000);
    step_up_max_age = getdur "STEPUP_MAX_AGE" (pos 900000);
    requires_action_timeout = getdur "REQUIRES_ACTION_TIMEOUT" (pos 900000);
    gateway_submit_timeout = getdur "GATEWAY_SUBMIT_TIMEOUT" (pos 300000);
    gateway_capture_timeout = getdur "GATEWAY_CAPTURE_TIMEOUT" (pos 300000);
    reconcile_interval = getdur "RECONCILE_INTERVAL" (pos 60000);
    reconcile_grace = getdur "RECONCILE_GRACE" (pos 60000);
  }

  unfoldable pub load : String ⊎ Config
  unfolding config
  load =
      if str_eq config.db_user "" || str_eq config.db_password "" || str_eq config.db_name ""
      then inl "PAYMENT_DB_USER/PASSWORD/NAME are required"
      else inr config

unfoldable pub dsn : Config → String
unfolding format_int
dsn c =
    "postgres://"
    ++ c.db_user
    ++ ":"
    ++ c.db_password
    ++ "@"
    ++ c.db_host
    ++ ":"
    ++ format_int c.db_port
    ++ "/"
    ++ c.db_name
    ++ "?sslmode=disable"
