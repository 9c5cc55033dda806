-- ===== src/Saga/Tests.antt =====
-- The engine of internal/saga/saga.go on a small database, run on services that answer well, and
-- on services that do not.
pub mod Witnesses
use Prim.Native.String.{◌++◌}
use text.Mathlib.Text.{◌==◌ as str_eq}
use peikonpurekkusu_payment.Prelude.{
  ℕ, ◌+◌, ◌<◌, String, List, [], ◌∷◌, Option, some, none, Bool, true, false, ◌≡◌, ◌≢◌, ◌⊎◌, inl,
  inr, refl, arith, map, length, if◌then◌else◌,
}
use peikonpurekkusu_payment.Prelude.Text.{decimal}
use peikonpurekkusu_payment.Prelude.Int.{ℤ, pos}
use peikonpurekkusu_payment.Payment.{
  Uuid, Status, Step, Row, Instrument, requested, funds_held, submitted_to_gateway, psp_captured,
  captured, done, processing, succeeded, failed, requires_action,
}
use peikonpurekkusu_payment.Payment.Table.{lookup, lookup_instrument, put}
use peikonpurekkusu_payment.Fraud
use peikonpurekkusu_payment.Fraud.{screen}
use peikonpurekkusu_payment.Accounts
use peikonpurekkusu_payment.Accounts.{
  Reply, hold_request, capture_request, release_request, is_insufficient_funds,
}
use peikonpurekkusu_payment.Psp
use peikonpurekkusu_payment.Psp.{AuthResult, Outcome, PaymentProcessor}
use peikonpurekkusu_payment.Psp.Factory.{Factory, for_method}
use peikonpurekkusu_payment.Saga.Invariant.{Inv, IsSound}
use peikonpurekkusu_payment.Saga.World.{History, World, Env, Update}
use peikonpurekkusu_payment.Saga.Persist.{
  SagaError, load, write_outbox, touch, transition, transition_with, terminal_tx, release_hold,
  fail_and_compensate, fx_rate_used,
}
use peikonpurekkusu_payment.Saga.Steps.{
  step_fraud, step_hold, step_submit, step_psp_capture, step_ledger_capture,
}
use peikonpurekkusu_payment.Saga.Drive.{
  Ended, returned, crashed, enough_fuel, dispatch, advance, complete_from_gateway,
  resume_after_step_up,
}
use peikonpurekkusu_payment.Saga.Sweep.{expire_stuck_submissions, expire_stale_requires_action}

abbrev pub card : AuthResult → PaymentProcessor History
card result = record {
  authorize = λ h id amount currency token. Psp.ok result;
  capture = λ h ref. Psp.ok tt;
  reverse = λ h ref. Psp.ok tt;
  name = "mockpay-card";
}

abbrev pub approval : AuthResult
approval = record { outcome = Outcome.approved; psp_reference = "ref"; decline_code = "" }

abbrev refused : AuthResult
refused = record { outcome = Outcome.declined; psp_reference = ""; decline_code = "do_not_honor" }

-- The services, with what the fraud check and the card processor answer.
abbrev pub services : Fraud.Decision → AuthResult → Env
services decision result = record {
  query_ok = λ h. true;
  commit_ok = λ h. true;
  fail_open_limit = pos 5000;
  score = λ h req. some (record { decision = decision; risk_score = pos 7 });
  hold_funds = λ h req. Accounts.ok "77";
  capture_funds = λ h req. Accounts.ok "txn";
  release_funds = λ h req. Accounts.ok tt;
  psps = ("card", card result) ∷ [];
  uuid_string = decimal;
  uuid_parse = λ s. some 77;
  uuid_v7 = λ h. 1000 + length h;
}

abbrev pub good : Env
good = services Fraud.approve approval

abbrev declining : Env
declining = services Fraud.approve refused

abbrev cautious : Env
cautious = services Fraud.step_up approval

-- The database answers no transaction.
abbrev pub down : Env
down = record good { commit_ok = λ h. false }

abbrev pub new_row : Row
new_row = record {
  id = 1;
  user_id = 2;
  account_id = 3;
  merchant_id = "m";
  instrument_id = 5;
  amount = pos 900;
  currency = "EUR";
  fx_quote_id = none;
  status = processing;
  step = requested;
  hold_id = none;
  psp_reference = none;
  failure_code = none;
  failure_detail = none;
  risk_score = none;
  version = 1;
  created_at = 0;
  updated_at = 0;
}

abbrev pub card_instrument : Instrument
card_instrument = record {
  id = 5;
  method = "card";
  brand = some "visa";
  last4 = some "4242";
  exp_month = some (pos 12);
  exp_year = some (pos 2030);
  gateway_token = "tok";
}

abbrev pub world : Row → World
world r = record {
  payments = r ∷ [];
  instruments = card_instrument ∷ [];
  quotes = [];
  outbox = [];
  published = [];
  history = [];
  now = 100;
}

abbrev pub start : World
start = world new_row

abbrev finish : Env → World → Ended × World
finish env w = advance env enough_fuel 1 w

abbrev status_of : Row → Status × Step
status_of r = (r.status, r.step)

abbrev statuses : World → List (Status × Step)
statuses w = map status_of w.payments

-- A card payment goes through all of its steps, and leaves two events and five updates.
card_succeeds :
    (statuses (finish good start).1 ≡ (succeeded, captured) ∷ [])
    × (length (finish good start).1.outbox ≡ 2)
    × (length (finish good start).1.published ≡ 5)
unfolding advance dispatch step_fraud step_hold step_submit step_psp_capture step_ledger_capture
    touch transition terminal_tx fail_and_compensate fx_rate_used for_method screen hold_request
    capture_request release_request load lookup lookup_instrument put write_outbox decimal
    is_insufficient_funds
card_succeeds = (refl, refl, refl)

-- A declined card fails the payment, once its hold is asked to be released.
card_declined :
    (statuses (finish declining start).1 ≡ (failed, done) ∷ [])
    × (map (λ r. r.failure_detail) (finish declining start).1.payments ≡ some "do_not_honor" ∷ [])
    × (length (finish declining start).1.outbox ≡ 1)
unfolding advance dispatch step_fraud step_hold step_submit step_psp_capture step_ledger_capture
    touch transition terminal_tx fail_and_compensate fx_rate_used for_method screen hold_request
    capture_request release_request load lookup lookup_instrument put write_outbox decimal
    is_insufficient_funds
card_declined = (refl, refl, refl)

-- A payment that must wait for a second factor waits, and goes on once its owner resumes it.
card_waits :
    (statuses (finish cautious start).1 ≡ (requires_action, Step.fraud_screened) ∷ [])
    × ((resume_after_step_up cautious 1 9 (finish cautious start).1).0
        ≡ some SagaError.not_resumable)
    × ((resume_after_step_up cautious 1 2 (finish cautious start).1).1 ≡ 1 ∷ [])
    × (statuses (finish cautious (resume_after_step_up cautious 1 2 (finish cautious start).1).2).1
        ≡ (succeeded, captured) ∷ [])
unfolding advance dispatch step_fraud step_hold step_submit step_psp_capture step_ledger_capture
    touch transition terminal_tx fail_and_compensate fx_rate_used for_method screen hold_request
    capture_request release_request load lookup lookup_instrument put write_outbox decimal
    is_insufficient_funds resume_after_step_up
card_waits = (refl, refl, refl, refl)

-- What a world with one row keeps, if the row is sound and no capture was booked.
pub only_row : (k : Uuid) (r x : Row) → lookup k (r ∷ []) ≡ some x → x ≡ r
unfolding lookup
only_row k r x h = ground arith

pub world-Inv : (r : Row) → IsSound [] r → Inv (world r)
world-Inv r s = record {
  rows = λ k x found. rw (only_row k r x found) s;
  ordered = tt;
  keyed = (tt, tt);
}
