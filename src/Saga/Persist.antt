-- ===== src/Saga/Persist.antt =====
-- The persistence helpers of internal/saga/saga.go, and the compensation.
use peikonpurekkusu_payment.Prelude.{
  ◌+◌, String, List, [], ◌∷◌, Option, none, some, ◌⊎◌, inl, inr, if◌then◌else◌,
}
use text.Mathlib.Text.{◌==◌ as str_eq}
use peikonpurekkusu_payment.Prelude.Int.{ℤ}
use peikonpurekkusu_payment.Payment.{
  Uuid, Status, Step, Row, Instrument, Payment, done, failed, is_processing, step_eq,
}
use peikonpurekkusu_payment.Payment.Table.{lookup, put, lookup_instrument, lookup_quote}
use peikonpurekkusu_payment.Accounts.{release_request}
use peikonpurekkusu_payment.Saga.World.{
  Value, str, int, null, Payload, OutboxRow, Update, queried, wrote, asked_release, World, Env,
  record_event,
}

-- The errors that the engine's operations return.
pub data SagaError : Type 0 where
  database no_rows concurrent_transition no_longer_processing not_resumable : SagaError

-- What a transaction works on.
pub record Tx : Type 0 where
  pub payments : List Row
  pub outbox : List OutboxRow

-- `deref` and `derefS`
unfoldable pub deref : (Uuid → String) → Option Uuid → String
deref uuid_string none = ""
deref uuid_string (some id) = uuid_string id

unfoldable pub deref_s : Option String → String
deref_s none = ""
deref_s (some s) = s

-- `nullif(s, '')`
unfoldable pub null_if_empty : String → Option String
null_if_empty s = if str_eq s "" then none else some s

-- `coalesce(new, old)`
unfoldable pub coalesce : Option ℤ → Option ℤ → Option ℤ
coalesce none old = old
coalesce (some v) old = some v

unfoldable pub of_row : Row → Instrument → Payment
of_row r i = record {
  id = r.id;
  user_id = r.user_id;
  account_id = r.account_id;
  merchant_id = r.merchant_id;
  instrument_id = r.instrument_id;
  method = i.method;
  token = i.gateway_token;
  amount = r.amount;
  currency = r.currency;
  fx_quote_id = r.fx_quote_id;
  status = r.status;
  step = r.step;
  hold_id = r.hold_id;
  psp_reference = r.psp_reference;
  risk_score = r.risk_score;
}

-- The join of a payment with its instrument.
unfoldable pub find_payment : Uuid → World → Option Payment
unfolding of_row
find_payment id w = elim (lookup id w.payments) [
  | none ↦ none
  | some r ↦ elim (lookup_instrument r.instrument_id w.instruments) [
    | none ↦ none
    | some i ↦ some (of_row r i)
  ]
]

-- An `update payments set …, updated_at = now() where id = $1 and …`, on the row that it finds.
abbrev pub touched : World → Row → Row
touched w r = record r { updated_at = w.now }

module _ (env : Env) where
  unfoldable pub load : Uuid → World → (SagaError ⊎ Payment) × World
  unfolding find_payment
  load id w = (
    if env.query_ok w.history
        then (elim (find_payment id w) [ none ↦ inl no_rows | some p ↦ inr p ])
        else inl database,
    record_event queried w,
  )

  unfoldable pub touch : Uuid → World → World
  touch id w =
      let w' = record_event (wrote (env.commit_ok w.history)) w in
      if env.commit_ok w.history
      then (elim (lookup id w.payments) [
        | none ↦ w'
        | some r ↦ record w' { payments = put (touched w r) w.payments }
      ])
      else w'

  -- `pgx.BeginFunc`: the body's writes are kept together or not at all.
  unfoldable pub begin_func : (Tx → SagaError ⊎ Tx) → World → Option SagaError × World
  begin_func body w =
      let w' = record_event (wrote (env.commit_ok w.history)) w in
      if env.commit_ok w.history
      then (elim (body (record { payments = w.payments; outbox = w.outbox })) [
        | inl e ↦ (some e, w')
        | inr tx ↦ (none, record w' { payments = tx.payments; outbox = tx.outbox })
      ])
      else (some database, w')

  -- The outbox writer of internal/outbox: one row in the caller's transaction.
  unfoldable pub write_outbox : World → String → Uuid → Payload → Tx → Tx
  write_outbox w topic payment_id payload tx =
      let row : OutboxRow = record {
        id = env.uuid_v7 w.history;
        aggregate_type = "payment";
        aggregate_id = env.uuid_string payment_id;
        topic = topic;
        payload = payload;
        created_at = w.now;
        processed_at = none;
      } in
      record tx { outbox = row ∷ tx.outbox }

  -- A status update is published once the transaction is committed.
  unfoldable pub publish_if_ok :
      Uuid → Status → Step → Option SagaError × World → Option SagaError × World
  publish_if_ok id status step (none, w) =
      let u : Update = record { payment_id = id; status = status; step = step } in
      (none, record w { published = u ∷ w.published })
  publish_if_ok id status step (some e, w) = (some e, w)

  -- The first statement of `transition`: it applies only while the row is at the loaded step.
  unfoldable pub move_step : World → Payment → Step → Status → Tx → SagaError ⊎ Tx
  move_step w p step status tx = elim (lookup p.id tx.payments) [
    | none ↦ inl concurrent_transition
    | some r ↦
        (if step_eq r.step p.step
          then inr (record tx {
            payments =
                put
                  (record r {
                    step = step;
                    status = status;
                    version = r.version + 1;
                    updated_at = w.now;
                  })
                  tx.payments;
          })
          else inl concurrent_transition)
  ]

  unfoldable pub then_extra : (Tx → Tx) → SagaError ⊎ Tx → SagaError ⊎ Tx
  then_extra extra (inl e) = inl e
  then_extra extra (inr tx) = inr (extra tx)

  unfoldable pub transition : Payment → Step → Status → (Tx → Tx) → World → Option SagaError × World
  unfolding begin_func publish_if_ok move_step then_extra
  transition p step status extra w =
      publish_if_ok p.id status step
        (begin_func (λ tx. then_extra extra (move_step w p step status tx)) w)

  -- The first statement of `transitionWith`: it applies only while the row is processing.
  unfoldable pub move_status :
      World → Payment → Step → Status → String → String → Option ℤ → Tx → SagaError ⊎ Tx
  unfolding null_if_empty coalesce
  move_status w p step status failure_code failure_detail risk_score tx =
      elim (lookup p.id tx.payments) [
        | none ↦ inl no_longer_processing
        | some r ↦
            (if is_processing r.status
              then inr (record tx {
                payments =
                    put
                      (record r {
                        step = step;
                        status = status;
                        failure_code = null_if_empty failure_code;
                        failure_detail = null_if_empty failure_detail;
                        risk_score = coalesce risk_score r.risk_score;
                        version = r.version + 1;
                        updated_at = w.now;
                      })
                      tx.payments;
              })
              else inl no_longer_processing)
      ]

  unfoldable pub transition_with :
      Payment
      → Step
      → Status
      → String
      → String
      → Option ℤ
      → (Tx → Tx)
      → World
      → Option SagaError × World
  unfolding begin_func publish_if_ok move_status then_extra
  transition_with p step status failure_code failure_detail risk_score extra w =
      publish_if_ok p.id status step (
        begin_func
          (λ tx.
            then_extra extra
              (move_status w p step status failure_code failure_detail risk_score tx))
          w)

  unfoldable pub terminal_tx :
      Payment → Step → Status → (Tx → Tx) → World → Option SagaError × World
  unfolding transition_with
  terminal_tx p step status extra w = transition_with p step status "" "" none extra w

  -- The release of a hold, with its request and reply in the history.
  unfoldable pub ask_release : Payment → Uuid → World → World
  ask_release p hold_id w =
      let req = release_request (env.uuid_string p.id) (env.uuid_string hold_id) "compensation" in
      record_event (asked_release p.id req (env.release_funds w.history req)) w

  -- A failing release is only logged.
  unfoldable pub release_hold : Payment → World → World
  unfolding ask_release
  release_hold p w = elim (p.hold_id) [ none ↦ w | some hold_id ↦ ask_release p hold_id w ]

  unfoldable pub failed_payload : Payment → String → String → Payload
  failed_payload p failure_code detail =
      ("payment_id", str (env.uuid_string p.id))
      ∷ ("user_id", str (env.uuid_string p.user_id))
      ∷ ("failure_code", str failure_code)
      ∷ ("failure_detail", str detail)
      ∷ ("amount_minor_units", int p.amount)
      ∷ ("currency_code", str p.currency)
      ∷ []

  -- The error of the transition is only logged, so nothing is returned.
  unfoldable pub fail_and_compensate : Payment → String → String → World → World
  unfolding release_hold transition_with write_outbox failed_payload
  fail_and_compensate p failure_code detail w =
      let w' = release_hold p w in
      let (_, w'') =
        transition_with p done failed failure_code detail none
          (write_outbox w' "payments.payment.failed.v1" p.id (failed_payload p failure_code detail))
          w' in
      w''

  -- none is JSON's null.
  unfoldable pub fx_rate_used : Payment → World → Value × World
  fx_rate_used p w = elim (p.fx_quote_id) [
    | none ↦ (null, w)
    | some q ↦ (
      if env.query_ok w.history
          then (elim (lookup_quote q w.quotes) [ none ↦ null | some r ↦ str r.rate ])
          else null,
      record_event queried w,
    )
  ]
