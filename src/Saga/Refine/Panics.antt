-- ===== src/Saga/Refine/Panics.antt =====
-- Where internal/saga/saga.go could panic, and why it does not in a world that keeps the
-- invariant: the pointers that it reads are set, if the account service's hold ids are uuids.
use peikonpurekkusu_payment.Prelude.{
  ℕ, zero, suc, String, Option, some, none, true, ◌≡◌, ◌≢◌, inl, inr, refl, arith, is_some,
  Bool-cases, Option-cases,
}
use peikonpurekkusu_payment.Payment.{
  Uuid, Step, Row, Instrument, Payment, requested, fraud_screened, funds_held, submitted_to_gateway,
  psp_captured, is_processing,
}
use peikonpurekkusu_payment.Payment.Table.{lookup}
use peikonpurekkusu_payment.Accounts
use peikonpurekkusu_payment.Accounts.{Reply, HoldFundsRequest}
use peikonpurekkusu_payment.Psp
use peikonpurekkusu_payment.Psp.{AuthResult, Outcome, PaymentProcessor}
use peikonpurekkusu_payment.Psp.Factory.{for_method}
use peikonpurekkusu_payment.Fraud.{Verdict, screen}
use peikonpurekkusu_payment.Saga.World.{queried, History, World, Env, record_event}
use peikonpurekkusu_payment.Saga.Persist.{SagaError, of_row, load}
use peikonpurekkusu_payment.Saga.Steps.{
  Progress, proceed, halt, panicked, proceed_if_ok, score_request, act_on_verdict, step_fraud,
  act_on_hold, step_hold, act_on_outcome, act_on_authorize, call_authorize, with_processor,
  step_submit, act_on_psp_capture, call_psp_capture, act_on_ledger_capture, call_ledger_capture,
  step_ledger_capture,
}
use peikonpurekkusu_payment.Saga.Drive.{
  Ended, crashed, step_submitted, dispatch, after_step, run_step, after_load, advance,
}
use peikonpurekkusu_payment.Saga.Spec.{itself, saw, Run, Run-one}
use peikonpurekkusu_payment.Saga.Invariant.{Inv, Run-Inv}
use peikonpurekkusu_payment.Saga.Refine.Operations.{load-cases, dispatch-Run}

-- The hold ids that the account service gives are texts of uuids.
abbrev pub GivesUuids : Env → Type 0
GivesUuids env =
    (h : History) (req : HoldFundsRequest) (s : String)
    → env.hold_funds h req ≡ Accounts.ok s
    → (u : Uuid) × (env.uuid_parse s ≡ some u)

proceed_if_ok-safe : (x : Option SagaError × World) → (proceed_if_ok x).0 ≢ panicked
proceed_if_ok-safe (none, w) = λ e. cc
proceed_if_ok-safe (some x, w) = λ e. cc

module _ (env : Env) (p : Payment) where
  verdict_safe : (v : Verdict) (w : World) → (act_on_verdict env p v w).0 ≢ panicked
  unfolding act_on_verdict
  verdict_safe v w = elim (Bool-cases v.requires_action) [
    | inl waits ↦ rw waits (λ e. cc)
    | inr runs ↦ elim (Bool-cases v.proceed) [
      | inl good ↦ rw (runs, good) (proceed_if_ok-safe _)
      | inr bad ↦ rw (runs, bad) (λ e. cc)
    ]
  ]

  hold_safe :
      (reply : Reply String) (w : World)
      → ((s : String) → reply ≡ Accounts.ok s → (u : Uuid) × (env.uuid_parse s ≡ some u))
      → (act_on_hold env p reply w).0 ≢ panicked
  unfolding act_on_hold
  hold_safe (Accounts.err c) w uuids = ground arith
  hold_safe (Accounts.ok s) w uuids =
      let (u, parsed) = uuids s refl in rw (parsed, act_on_hold) (proceed_if_ok-safe _)

  outcome_safe :
      (res : AuthResult) (o : Outcome) (w : World) → (act_on_outcome env p res o w).0 ≢ panicked
  unfolding act_on_outcome
  outcome_safe res Outcome.declined w = λ e. cc
  outcome_safe res Outcome.pending w = λ e. cc
  outcome_safe res _ w = proceed_if_ok-safe _

  authorize_safe :
      (processor : PaymentProcessor History) (res : Psp.Result AuthResult) (w : World)
      → (act_on_authorize env p res w).0 ≢ panicked
  unfolding act_on_authorize
  authorize_safe processor (Psp.err e) w = ground arith
  authorize_safe processor (Psp.ok res) w = outcome_safe res res.outcome w

  psp_capture_safe :
      (res : Psp.Result (Unit {0})) (w : World) → (act_on_psp_capture env p res w).0 ≢ panicked
  unfolding act_on_psp_capture
  psp_capture_safe (Psp.err e) w = ground arith
  psp_capture_safe (Psp.ok _) w = proceed_if_ok-safe _

  ledger_safe :
      (reply : Reply String) (w : World) → (act_on_ledger_capture env p reply w).0 ≢ panicked
  unfolding act_on_ledger_capture
  ledger_safe (Accounts.err c) w = λ e. cc
  ledger_safe (Accounts.ok txn) w = proceed_if_ok-safe _

  with_processor-safe :
      (call : PaymentProcessor History → World → Progress × World)
      (m : Psp.Result (PaymentProcessor History)) (w : World)
      → ((processor : PaymentProcessor History) → (call processor w).0 ≢ panicked)
      → (with_processor env p call m w).0 ≢ panicked
  unfolding with_processor
  with_processor-safe call (Psp.err e) w f = λ e. cc
  with_processor-safe call (Psp.ok processor) w f = f processor

  capture_safe :
      (known : Option String) (processor : PaymentProcessor History) (w : World)
      → is_some known ≡ true
      → (call_psp_capture env p known processor w).0 ≢ panicked
  unfolding call_psp_capture
  capture_safe none processor w h = absurd (cc)
  capture_safe (some ref) processor w h = psp_capture_safe _ _

  book_safe :
      (hold_id : Option Uuid) (w : World)
      → is_some hold_id ≡ true
      → (call_ledger_capture env p hold_id w).0 ≢ panicked
  unfolding call_ledger_capture
  book_safe none w h = absurd (cc)
  book_safe (some hold_id) w h = ledger_safe _ _

module _ (env : Env) (uuids : GivesUuids env) where
  module _ (r : Row) (i : Instrument) where
    submitted_safe : (w : World) → (step_submitted env (of_row r i) w).0 ≢ panicked
    unfolding step_submitted of_row
    submitted_safe w = elim (Option-cases r.psp_reference) [
      | inl waits ↦ rw (waits, step_submitted) (λ e. cc)
      | inr (ref, known) ↦
          rw (known, step_submitted)
            (with_processor-safe env (of_row r i)
              (call_psp_capture env (of_row r i) r.psp_reference) (for_method env.psps i.method) w
              (λ x. capture_safe env (of_row r i) r.psp_reference x w (ground arith)))
    ]

    dispatch_safe :
        (step : Step) (w : World)
        → (step ≡ psp_captured → is_some r.hold_id ≡ true)
        → (dispatch env step (of_row r i) w).0 ≢ panicked
    unfolding dispatch step_fraud step_hold step_submit call_authorize step_ledger_capture of_row
    dispatch_safe requested w held =
        verdict_safe env (of_row r i)
          (screen env.fail_open_limit (env.score w.history) (score_request env (of_row r i) w)) _
    dispatch_safe fraud_screened w held = hold_safe env (of_row r i) _ _ (λ s e. uuids _ _ s e)
    dispatch_safe funds_held w held =
        with_processor-safe env (of_row r i) (call_authorize env (of_row r i))
          (for_method env.psps i.method) w (λ x. authorize_safe env (of_row r i) x _ _)
    dispatch_safe submitted_to_gateway w held = submitted_safe w
    dispatch_safe psp_captured w held = book_safe env (of_row r i) r.hold_id w (held refl)
    dispatch_safe _ w held = λ e. cc

  after_step-safe :
      (again : World → Ended × World) (w : World) (x : Progress × World)
      → Inv w
      → Run itself w x.1
      → x.0 ≢ panicked
      → ((u : World) → Inv u → (again u).0 ≢ crashed)
      → (after_step env again x).0 ≢ crashed
  unfolding after_step
  after_step-safe again w (proceed, u) inv run ok safe = safe u (Run-Inv inv run)
  after_step-safe again w (halt, u) inv run ok safe = λ e. cc
  after_step-safe again w (panicked, u) inv run ok safe = absurd (ok refl)

  run_step-safe :
      (again : World → Ended × World) (r : Row) (i : Instrument) (w : World)
      → Inv w
      → lookup r.id w.payments ≡ some r
      → ((u : World) → Inv u → (again u).0 ≢ crashed)
      → (run_step env again (is_processing (of_row r i).status) (of_row r i) w).0 ≢ crashed
  unfolding run_step of_row
  run_step-safe again r i w inv own safe = elim (Bool-cases (is_processing r.status)) [
    | inr over ↦ rw over (λ e. cc)
    | inl live ↦ rw live (
        after_step-safe again w (dispatch env r.step (of_row r i) w) inv
          (dispatch-Run env r i r.step w (own, ground arith, refl))
          (dispatch_safe r i r.step w
            (λ at. (inv.rows r.id r own).held (rw at (omega arith)) (rw at (omega arith))))
          safe)
  ]

  no_round_crashes :
      (again : World → Ended × World) (id : Uuid) (w : World)
      → Inv w
      → ((u : World) → Inv u → (again u).0 ≢ crashed)
      → (after_load env again (load env id w)).0 ≢ crashed
  unfolding after_load
  no_round_crashes again id w inv safe = elim (load-cases env id w) [
    | inl (e, eq) ↦ rw eq (λ e. cc)
    | inr (p, (r, i, found, own, same), eq) ↦ rw eq (
        rw same (
          run_step-safe again r i (record_event queried w)
            (Run-Inv {c = itself} inv (Run-one (saw queried tt refl))) own safe))
  ]

  -- In a world that keeps the invariant `Advance` never panics, if the account service gives
  -- uuids for hold ids: it reads no nil hold and no nil reference.
  pub advance_never_crashes :
      (fuel : ℕ) (id : Uuid) (w : World) → Inv w → (advance env fuel id w).0 ≢ crashed
  unfolding advance
  advance_never_crashes zero id w inv = λ e. cc
  advance_never_crashes (suc fuel) id w inv =
      no_round_crashes (advance env fuel id) id w inv (λ u. advance_never_crashes fuel id u)
