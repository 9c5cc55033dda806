-- ===== src/Payment.antt =====
-- The payments table of migrations/00001_initial.sql and 00002_psp_captured_step.sql, and the
-- saga aggregate that internal/saga/saga.go loads from it.
-- A uuid is the number of its 128 bits, and a time counts milliseconds.
pub mod Table
pub mod Keys
use peikonpurekkusu_payment.Prelude.{ℕ, Bool, true, false, String, List, Option, ◌==◌}
use peikonpurekkusu_payment.Prelude.Int.{ℤ}

abbrev pub Uuid : Type 0
Uuid = ℕ

abbrev pub Time : Type 0
Time = ℕ

-- The values that the check constraint on `status` allows.
pub data Status : Type 0 where
  requires_action processing succeeded failed canceled refunded : Status

-- The values that the check constraint on `step` allows, after the second migration.
pub data Step : Type 0 where
  requested fraud_screened funds_held submitted_to_gateway psp_captured captured : Step
  recorded notified compensating done : Step

abbrev pub is_processing : Status → Bool
is_processing processing = true
is_processing _ = false

abbrev pub is_requires_action : Status → Bool
is_requires_action requires_action = true
is_requires_action _ = false

abbrev pub step_code : Step → ℕ
step_code requested = 0
step_code fraud_screened = 1
step_code funds_held = 2
step_code submitted_to_gateway = 3
step_code psp_captured = 4
step_code captured = 5
step_code recorded = 6
step_code notified = 7
step_code compensating = 8
step_code done = 9

-- The comparison of two step texts.
abbrev pub step_eq : Step → Step → Bool
step_eq a b = step_code a == step_code b

-- A row of `payments`.
pub record Row : Type 0 where
  pub id : Uuid
  pub user_id : Uuid
  pub account_id : Uuid
  pub merchant_id : String
  pub instrument_id : Uuid
  pub amount : ℤ
  pub currency : String
  pub fx_quote_id : Option Uuid
  pub status : Status
  pub step : Step
  pub hold_id : Option Uuid
  pub psp_reference : Option String
  pub failure_code : Option String
  pub failure_detail : Option String
  pub risk_score : Option ℤ
  pub version : ℕ
  pub created_at : Time
  pub updated_at : Time

-- A row of `instruments`.
pub record Instrument : Type 0 where
  pub id : Uuid
  pub method : String
  pub brand : Option String
  pub last4 : Option String
  pub exp_month : Option ℤ
  pub exp_year : Option ℤ
  pub gateway_token : String

-- A row of `fx_quotes`.
pub record FxQuote : Type 0 where
  pub id : Uuid
  pub base : String
  pub quote : String
  pub rate : String
  pub rate_id : Uuid
  pub created_at : Time
  pub expires_at : Time

-- The aggregate that `load` scans: a payment joined with its instrument.
pub record Payment : Type 0 where
  pub id : Uuid
  pub user_id : Uuid
  pub account_id : Uuid
  pub merchant_id : String
  pub instrument_id : Uuid
  pub method : String
  pub token : String
  pub amount : ℤ
  pub currency : String
  pub fx_quote_id : Option Uuid
  pub status : Status
  pub step : Step
  pub hold_id : Option Uuid
  pub psp_reference : Option String
  pub risk_score : Option ℤ
