-- ===== src/Saga/Sweep.antt =====
-- The sweepers of internal/saga/saga.go, which main.go runs on timers.
-- A query with no `order by` gives its rows in the order of the table.
use peikonpurekkusu_payment.Prelude.{
  ℕ, ◌+◌, Bool, true, false, not, ◌&&◌, ◌||◌, String, List, [], ◌∷◌, Option, none, some, ◌⊎◌, inl,
  inr, map, length, take, ltb, is_some, if◌then◌else◌,
}
use package.text.Mathlib.Text.{◌==◌ as str_eq}
use peikonpurekkusu_payment.Payment.{
  Uuid, Time, Row, Payment, failed, done, funds_held, submitted_to_gateway, psp_captured,
  is_processing, is_requires_action, step_eq,
}
use peikonpurekkusu_payment.Saga.World.{queried, wrote, World, Env, record_event}
use peikonpurekkusu_payment.Saga.Persist.{SagaError, load, fail_and_compensate}

-- The columns that the migrations give the table `payments`.
abbrev pub payments_columns : List String
payments_columns =
    "id" ∷ "user_id" ∷ "account_id" ∷ "merchant_id" ∷ "instrument_id" ∷ "amount" ∷ "currency"
    ∷ "fx_quote_id" ∷ "status" ∷ "step" ∷ "hold_id" ∷ "psp_reference" ∷ "failure_code"
    ∷ "failure_detail" ∷ "risk_score" ∷ "version" ∷ "created_at" ∷ "updated_at" ∷ []

unfoldable pub has_column : List String → String → Bool
has_column [] c = false
has_column (d ∷ ds) c = str_eq d c || has_column ds c

unfoldable pub has_columns : List String → List String → Bool
unfolding has_column
has_columns ds [] = true
has_columns ds (c ∷ cs) = has_column ds c && has_columns ds cs

unfoldable pub select_ids : (Row → Bool) → List Row → List Uuid
select_ids test [] = []
select_ids test (r ∷ rs) = if test r then r.id ∷ select_ids test rs else select_ids test rs

-- `updated_at < now() - $1::interval`
abbrev pub is_stale : Time → Time → Row → Bool
is_stale now age r = ltb (r.updated_at + age) now

unfoldable pub resume_due : Time → Time → Row → Bool
resume_due now age r = is_processing r.status && is_stale now age r

unfoldable pub submission_due : Time → Time → Row → Bool
submission_due now age r =
    is_processing r.status && (step_eq r.step funds_held && is_stale now age r)

unfoldable pub capture_due : Time → Time → Row → Bool
capture_due now age r =
    is_processing r.status
    && (step_eq r.step submitted_to_gateway && (is_some r.psp_reference && is_stale now age r))

-- The part of the wallet query that speaks of columns of `payments`.
unfoldable pub wallet_due : Time → Time → Row → Bool
wallet_due now age r =
    is_processing r.status
    && (step_eq r.step submitted_to_gateway
        && (not (is_some r.psp_reference) && is_stale now age r))

unfoldable pub ledger_stalled : Time → Time → Row → Bool
ledger_stalled now age r =
    is_processing r.status && (step_eq r.step psp_captured && is_stale now age r)

unfoldable pub action_expired : Time → Time → Row → Bool
action_expired now age r = is_requires_action r.status && is_stale now age r

unfoldable pub expire_row : Time → Time → Row → Row
unfolding action_expired
expire_row now age r =
    if action_expired now age r
    then record r {
      status = failed;
      step = done;
      failure_code = some "step_up_expired";
      failure_detail = some "second factor was not completed in time";
      updated_at = now;
    }
    else r

module _ (env : Env) where
  -- `select id from payments where … limit 20`: a query that names a column that the table does
  -- not have is an error of the database, and none.
  unfoldable pub scan : List String → (Row → Bool) → World → Option (List Uuid) × World
  unfolding has_columns select_ids
  scan columns test w = (
    if has_columns payments_columns columns && env.query_ok w.history
        then some (take 20 (select_ids test w.payments))
        else none,
    record_event queried w,
  )

  -- The payments whose goroutines start.
  unfoldable pub resume_stale : Time → World → List Uuid × World
  unfolding scan resume_due
  resume_stale older_than w =
      let (ids, w') = scan ("id" ∷ "status" ∷ "updated_at" ∷ []) (resume_due w.now older_than) w in
      (elim ids [ none ↦ [] | some l ↦ l ], w')

  -- The loop that the sweepers share: load, and compensate.
  unfoldable pub fail_loaded : String → String → (SagaError ⊎ Payment) × World → World
  fail_loaded code detail (inl e, w) = w
  fail_loaded code detail (inr p, w) = fail_and_compensate env p code detail w

  unfoldable pub fail_each : String → String → List Uuid → World → World
  unfolding fail_loaded
  fail_each code detail [] w = w
  fail_each code detail (id ∷ ids) w =
      fail_each code detail ids (fail_loaded code detail (load env id w))

  unfoldable pub fail_scanned : String → String → Option (List Uuid) × World → World
  unfolding fail_each
  fail_scanned code detail (none, w) = w
  fail_scanned code detail (some ids, w) = fail_each code detail ids w

  unfoldable pub expire_stale_requires_action : Time → World → World
  unfolding expire_row
  expire_stale_requires_action timeout w =
      let w' = record_event (wrote (env.commit_ok w.history)) w in
      if env.commit_ok w.history
      then record w' { payments = map (expire_row w.now timeout) w.payments }
      else w'

  unfoldable pub expire_stuck_submissions : Time → World → World
  unfolding scan fail_scanned submission_due
  expire_stuck_submissions timeout w =
      fail_scanned "gateway_unavailable" "processor unreachable past the submission timeout"
        (scan ("id" ∷ "status" ∷ "step" ∷ "updated_at" ∷ []) (submission_due w.now timeout) w)

  unfoldable pub expire_stuck_captures : Time → World → World
  unfolding scan fail_scanned capture_due
  expire_stuck_captures timeout w =
      fail_scanned "gateway_capture_failed" "processor did not confirm the capture in time" (
        scan ("id" ∷ "status" ∷ "step" ∷ "psp_reference" ∷ "updated_at" ∷ [])
          (capture_due w.now timeout) w)

  -- The query names the column `method`, which stands in `instruments`.
  unfoldable pub expire_stale_wallets : Time → World → World
  unfolding scan fail_scanned wallet_due
  expire_stale_wallets timeout w =
      fail_scanned "gateway_timeout" "wallet processor did not report an outcome" (
        scan ("id" ∷ "status" ∷ "step" ∷ "method" ∷ "psp_reference" ∷ "updated_at" ∷ [])
          (wallet_due w.now timeout) w)

  -- The number that is logged as an error if it is not 0.
  unfoldable pub alert_stalled_ledger_captures : Time → World → Option ℕ × World
  unfolding select_ids ledger_stalled
  alert_stalled_ledger_captures older_than w = (
    if env.query_ok w.history
        then some (length (select_ids (ledger_stalled w.now older_than) w.payments))
        else none,
    record_event queried w,
  )
