-- ===== src/Consumer/Tests.antt =====
-- The consumer of internal/consumer/consumer.go on completions of one payment.
mod Rounds
use peikonpurekkusu_payment.Prelude.{
  List, All, suc, arith, ◌≡◌, ◌⊎◌, inr, refl, Bool, true, false, [], ◌∷◌, some, String, map,
}
use peikonpurekkusu_payment.Prelude.Text.{decimal}
use peikonpurekkusu_payment.Payment.{
  Status, Step, Row, submitted_to_gateway, captured, done, succeeded, failed,
}
use peikonpurekkusu_payment.Payment.Table.{lookup, lookup_instrument, put}
use peikonpurekkusu_payment.Accounts.{capture_request, release_request}
use peikonpurekkusu_payment.Psp.Factory.{for_method}
use peikonpurekkusu_payment.Fraud
use peikonpurekkusu_payment.Saga.World.{Env}
use peikonpurekkusu_payment.Saga.Persist.{
  load, touch, transition, terminal_tx, fail_and_compensate, fx_rate_used, write_outbox,
}
use peikonpurekkusu_payment.Saga.Steps.{step_psp_capture, step_ledger_capture}
use peikonpurekkusu_payment.Saga.Drive.{dispatch, advance}
use peikonpurekkusu_payment.Saga.Invariant.{Inv}
use peikonpurekkusu_payment.Consumer.Reports.{IsQuiet, IsReport, handle-Run}
use peikonpurekkusu_payment.Saga.Tests.{world-Inv, services, approval, new_row, world}
use peikonpurekkusu_payment.Prelude.{ℕ, zero, none}
use peikonpurekkusu_payment.Prelude.Bytes.{Bytes}
use peikonpurekkusu_payment.Events.{Envelope, unframe, text_field}
use peikonpurekkusu_payment.Saga.World.{str}
use peikonpurekkusu_payment.Consumer.{
  Validation, Rec, Cause, Outside, Inbox, Settled, settled, handle, handle_with_retry, settle_batch,
}

abbrev env : Env
env = services Fraud.approve approval

-- The last byte of a value is the outcome that its envelope carries.
abbrev outcome_of : Bytes → String
outcome_of (suc zero ∷ []) = "approved"
outcome_of (suc (suc zero) ∷ []) = "declined"
outcome_of _ = ""

abbrev report : Bytes → Envelope
report doc = record {
  event_id = "e";
  event_type = "gateway.psp.completed.v1";
  schema_version = 1;
  occurred_at = 0;
  tenant_id = "peikon";
  correlation_id = "e";
  causation_id = none;
  idempotency_key = none;
  payload =
      ("payment_id", str "1")
      ∷ ("outcome", str (outcome_of doc))
      ∷ ("psp_reference", str "ref")
      ∷ ("decline_code", str "do_not_honor")
      ∷ [];
}

-- The uuids of the event and of the payment.
abbrev ids : Env
ids = record env { uuid_parse = λ s. some 1 }

abbrev outside : Bool → Outside
outside dlq = record {
  validate = λ h i value. Validation.valid;
  context_done = λ h i. false;
  json = record { marshal = λ v. none; unmarshal = λ doc. inr (report doc) };
  dlq_ok = λ h. dlq;
}

abbrev message : ℕ → Rec
message outcome = record {
  topic = "gateway.psp.completed.v1";
  value = 0 ∷ 0 ∷ 0 ∷ 0 ∷ 9 ∷ outcome ∷ [];
}

abbrev waiting : Row
waiting = record new_row { step = submitted_to_gateway; hold_id = some 77 }

abbrev inbox : Inbox
inbox = record { world = world waiting; processed = []; dead = [] }

abbrev step_of : Row → Status × Step
step_of r = (r.status, r.step)

abbrev after : Bool → ℕ → Settled × Inbox
after dlq outcome = handle_with_retry ids (outside dlq) 1 (message outcome) inbox

-- An approval completes the payment, a decline fails it, and a record with no outcome goes to the
-- dead letters, or is not settled if they cannot be reached.
completions :
    ((after true 1).0 ≡ settled)
    × (map step_of (after true 1).1.world.payments ≡ (succeeded, captured) ∷ [])
    × ((after true 1).1.processed ≡ 1 ∷ [])
    × (map step_of (after true 2).1.world.payments ≡ (failed, done) ∷ [])
    × ((after true 0).1.dead ≡ (message 0, Cause.no_outcome) ∷ [])
    × ((after false 0).0 ≡ Settled.unsettled)
unfolding handle_with_retry advance dispatch step_psp_capture step_ledger_capture touch transition
    terminal_tx fail_and_compensate fx_rate_used for_method capture_request release_request load
    lookup lookup_instrument put write_outbox decimal unframe text_field
completions = (refl, refl, refl, refl, refl, refl)

approved_settles : (after true 1).0 ≡ settled
unfolding handle_with_retry advance dispatch step_psp_capture step_ledger_capture touch transition
    terminal_tx fail_and_compensate fx_rate_used for_method capture_request release_request load
    lookup lookup_instrument put write_outbox decimal unframe text_field
approved_settles = refl

handle-Run_example :
    IsQuiet ids
      (outside true)
      (world waiting)
      (handle ids (outside true) 1 (message 1) inbox).1.world
    ⊎ IsReport ids
        (outside true)
        (message 1)
        inbox
        (handle ids (outside true) 1 (message 1) inbox).1.world
handle-Run_example = handle-Run ids (outside true) 1 (message 1) inbox

-- A record with no outcome, an approval, and the same event again.
abbrev batch : List Rec
batch = message 0 ∷ message 1 ∷ message 1 ∷ []

abbrev after_batch : Bool → Settled × Inbox
after_batch dlq = settle_batch ids (outside dlq) 1 batch inbox

batches :
    ((after_batch true).0 ≡ settled)
    × ((after_batch true).1.processed ≡ 1 ∷ [])
    × ((after_batch false).0 ≡ Settled.unsettled)
unfolding settle_batch advance dispatch step_psp_capture step_ledger_capture touch transition
    terminal_tx fail_and_compensate fx_rate_used for_method capture_request release_request load
    lookup lookup_instrument put write_outbox decimal unframe text_field
batches = (refl, refl, refl)
