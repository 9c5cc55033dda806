-- ===== src/Saga/Steps.antt =====
-- The individual steps of internal/saga/saga.go.
use peikonpurekkusu_payment.Prelude.{
  Bool, String, List, [], ◌∷◌, Option, none, some, ◌||◌, if◌then◌else◌,
}
use peikonpurekkusu_payment.Payment.{
  Uuid, Row, Payment, fraud_screened, funds_held, submitted_to_gateway, psp_captured, captured,
  processing, requires_action, succeeded,
}
use peikonpurekkusu_payment.Payment.Table.{lookup, put}
use peikonpurekkusu_payment.Fraud.{ScoreRequest, Verdict, screen}
use peikonpurekkusu_payment.Accounts.{Reply, hold_request, capture_request, is_insufficient_funds}
use peikonpurekkusu_payment.Psp
use peikonpurekkusu_payment.Psp.{
  ok, err, Outcome, AuthResult, Kind, PaymentProcessor, is_unavailable, is_deadline_exceeded,
}
use peikonpurekkusu_payment.Psp.Factory.{for_method}
use peikonpurekkusu_payment.Saga.World.{Value, str, int, Payload, Event, World, Env, record_event}
use peikonpurekkusu_payment.Saga.Persist.{
  SagaError, Tx, deref, deref_s, touch, write_outbox, transition, transition_with, terminal_tx,
  fail_and_compensate, fx_rate_used,
}

-- What a step tells `Advance`: go on, stop, or that the goroutine panics: a nil pointer is read,
-- or `uuid.MustParse` is given a text that is no uuid.
pub data Progress : Type 0 where
  proceed halt panicked : Progress

-- `err == nil`
abbrev pub proceed_if_ok : Option SagaError × World → Progress × World
proceed_if_ok (none, w) = (proceed, w)
proceed_if_ok (some _, w) = (halt, w)

abbrev pub halt_anyway : Option SagaError × World → Progress × World
halt_anyway (_, w) = (halt, w)

abbrev pub no_extra : Tx → Tx
no_extra tx = tx

-- `update payments set … where id = $1`, in the same transaction.
abbrev pub set_row : Uuid → (Row → Row) → Tx → Tx
set_row id f tx = elim (lookup id tx.payments) [
  | none ↦ tx
  | some r ↦ record tx { payments = put (f r) tx.payments }
]

abbrev pub is_transient : Kind → Bool
is_transient k = is_unavailable k || is_deadline_exceeded k

module _ (env : Env) where
  unfoldable pub score_request : Payment → World → ScoreRequest
  score_request p w = record {
    payment_id = p.id;
    user_id = p.user_id;
    account_id = p.account_id;
    amount_minor_units = p.amount;
    currency_code = p.currency;
    merchant_id = p.merchant_id;
    payment_method = p.method;
    requested_at_unix_ms = w.now;
  }

  -- The switch of `stepFraud` on the verdict.
  unfoldable pub act_on_verdict : Payment → Verdict → World → Progress × World
  act_on_verdict p verdict w =
      if verdict.requires_action
      then halt_anyway (
          transition_with env p fraud_screened requires_action "" verdict.reason
            (some verdict.risk_score) no_extra w)
      else if verdict.proceed
      then proceed_if_ok (
          transition env p fraud_screened processing
            (set_row p.id (λ r. record r { risk_score = some verdict.risk_score })) w)
      else (halt, fail_and_compensate env p "fraud_denied" verdict.reason w)

  unfoldable pub step_fraud : Payment → World → Progress × World
  unfolding act_on_verdict score_request
  step_fraud p w =
      let req = score_request p w in
      let verdict = screen env.fail_open_limit (env.score w.history) req in
      act_on_verdict p verdict (record_event (Event.screened req verdict) w)

  -- What `stepHold` does with the account service's reply.
  unfoldable pub act_on_hold : Payment → Reply String → World → Progress × World
  act_on_hold p (Reply.err c) w =
      if is_insufficient_funds c
      then (halt, fail_and_compensate env p "insufficient_funds" "available balance too low" w)
      else (halt, w)
  act_on_hold p (Reply.ok hold_id) w = elim (env.uuid_parse hold_id) [
    | none ↦ (panicked, w)
    | some hid ↦ proceed_if_ok (
        transition env p funds_held processing (set_row p.id (λ r. record r { hold_id = some hid }))
          w)
  ]

  unfoldable pub step_hold : Payment → World → Progress × World
  unfolding act_on_hold
  step_hold p w =
      let req =
        hold_request (env.uuid_string p.id) (env.uuid_string p.account_id) p.amount p.currency in
      let reply = env.hold_funds w.history req in
      act_on_hold p reply (record_event (Event.asked_hold req reply) w)

  unfoldable pub authorized_payload : Payment → AuthResult → Payload
  authorized_payload p result =
      ("payment_id", str (env.uuid_string p.id))
      ∷ ("hold_id", str (deref env.uuid_string p.hold_id))
      ∷ ("psp_reference", str result.psp_reference)
      ∷ ("amount_minor_units", int p.amount)
      ∷ ("currency_code", str p.currency)
      ∷ []

  unfoldable pub persist_approval : Payment → AuthResult → World → Progress × World
  unfolding authorized_payload
  persist_approval p result w = proceed_if_ok (
      transition env p submitted_to_gateway processing
        (λ tx.
          write_outbox env w "payments.payment.authorized.v1" p.id (authorized_payload p result)
            (set_row p.id (λ r. record r { psp_reference = some result.psp_reference }) tx))
        w)

  -- The switch of `stepSubmit` on the outcome.
  unfoldable pub act_on_outcome : Payment → AuthResult → Outcome → World → Progress × World
  unfolding persist_approval
  act_on_outcome p result Outcome.declined w =
      (halt, fail_and_compensate env p "gateway_declined" result.decline_code w)
  act_on_outcome p result Outcome.pending w =
      halt_anyway (transition env p submitted_to_gateway processing no_extra w)
  act_on_outcome p result _ w = persist_approval p result w

  -- What `stepSubmit` does with the processor's result.
  unfoldable pub act_on_authorize : Payment → Psp.Result AuthResult → World → Progress × World
  unfolding act_on_outcome
  act_on_authorize p (Psp.err e) w =
      if is_transient e.kind
      then (halt, touch env p.id w)
      else (halt, fail_and_compensate env p "gateway_declined" e.message w)
  act_on_authorize p (Psp.ok result) w = act_on_outcome p result result.outcome w

  unfoldable pub call_authorize : Payment → PaymentProcessor (List Event) → World → Progress × World
  unfolding act_on_authorize
  call_authorize p processor w =
      let result =
        processor.authorize w.history (env.uuid_string p.id) p.amount p.currency p.token in
      act_on_authorize p result (record_event (Event.authorized p.id result) w)

  -- A method without a processor fails the payment.
  unfoldable pub with_processor :
      Payment
      → (PaymentProcessor (List Event) → World → Progress × World)
      → Psp.Result (PaymentProcessor (List Event))
      → World
      → Progress × World
  with_processor p call (Psp.err e) w =
      (halt, fail_and_compensate env p "gateway_declined" e.message w)
  with_processor p call (Psp.ok processor) w = call processor w

  unfoldable pub step_submit : Payment → World → Progress × World
  unfolding call_authorize with_processor
  step_submit p w = with_processor p (call_authorize p) (for_method env.psps p.method) w

  -- What `stepPSPCapture` does with the processor's result.
  unfoldable pub act_on_psp_capture : Payment → Psp.Result (Unit {0}) → World → Progress × World
  act_on_psp_capture p (Psp.err e) w =
      if is_transient e.kind
      then (halt, touch env p.id w)
      else (halt, fail_and_compensate env p "gateway_capture_failed" e.message w)
  act_on_psp_capture p (Psp.ok _) w =
      proceed_if_ok (transition env p psp_captured processing no_extra w)

  -- A payment with no reference makes the read of `*p.PSPReference` panic.
  unfoldable pub call_psp_capture :
      Payment → Option String → PaymentProcessor (List Event) → World → Progress × World
  unfolding act_on_psp_capture
  call_psp_capture p none processor w = (panicked, w)
  call_psp_capture p (some ref) processor w =
      let result = processor.capture w.history ref in
      act_on_psp_capture p result (record_event (Event.psp_captured p.id ref result) w)

  unfoldable pub step_psp_capture : Payment → World → Progress × World
  unfolding call_psp_capture with_processor
  step_psp_capture p w =
      with_processor p (call_psp_capture p p.psp_reference) (for_method env.psps p.method) w

  unfoldable pub captured_payload : Payment → String → Value → Payload
  captured_payload p ledger_txn fx_rate =
      ("payment_id", str (env.uuid_string p.id))
      ∷ ("user_id", str (env.uuid_string p.user_id))
      ∷ ("account_id", str (env.uuid_string p.account_id))
      ∷ ("merchant_id", str p.merchant_id)
      ∷ ("hold_id", str (deref env.uuid_string p.hold_id))
      ∷ ("ledger_transaction_id", str ledger_txn)
      ∷ ("psp_reference", str (deref_s p.psp_reference))
      ∷ ("amount_minor_units", int p.amount)
      ∷ ("currency_code", str p.currency)
      ∷ ("fx_rate_used", fx_rate)
      ∷ []

  -- What `stepLedgerCapture` does with the account service's reply.
  unfoldable pub act_on_ledger_capture : Payment → Reply String → World → Progress × World
  unfolding captured_payload
  act_on_ledger_capture p (Reply.err c) w = (halt, touch env p.id w)
  act_on_ledger_capture p (Reply.ok ledger_txn) w =
      let (fx_rate, w') = fx_rate_used env p w in
      proceed_if_ok (
        terminal_tx env p captured succeeded
          (write_outbox env w' "payments.payment.captured.v1" p.id
            (captured_payload p ledger_txn fx_rate))
          w')

  -- A payment with no hold makes `p.HoldID.String()` panic.
  unfoldable pub call_ledger_capture : Payment → Option Uuid → World → Progress × World
  unfolding act_on_ledger_capture
  call_ledger_capture p none w = (panicked, w)
  call_ledger_capture p (some hold_id) w =
      let req =
        capture_request (env.uuid_string p.id) (env.uuid_string hold_id) p.amount p.currency in
      let reply = env.capture_funds w.history req in
      act_on_ledger_capture p reply (record_event (Event.asked_capture p.id req reply) w)

  unfoldable pub step_ledger_capture : Payment → World → Progress × World
  unfolding call_ledger_capture
  step_ledger_capture p w = call_ledger_capture p p.hold_id w
