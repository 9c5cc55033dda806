-- ===== src/Saga/Refine/Progress.antt =====
-- A step of internal/saga/saga.go that lets `Advance` go on has moved the payment forward.
use peikonpurekkusu_payment.Prelude.{
  ℕ, ◌<◌, ◌≤◌, String, Option, some, none, ◌≡◌, inl, inr, refl, arith, Bool-cases, Option-cases, ap,
  ◌∙◌, sym,
}
use peikonpurekkusu_payment.Payment.{
  Uuid, Status, Step, Row, Instrument, Payment, requested, fraud_screened, funds_held,
  submitted_to_gateway, psp_captured, captured, processing, succeeded, step_code,
}
use peikonpurekkusu_payment.Payment.Table.{lookup, put, lookup-put}
use peikonpurekkusu_payment.Fraud.{Verdict, screen}
use peikonpurekkusu_payment.Accounts
use peikonpurekkusu_payment.Accounts.{Reply, is_insufficient_funds}
use peikonpurekkusu_payment.Psp
use peikonpurekkusu_payment.Psp.{AuthResult, Outcome, PaymentProcessor}
use peikonpurekkusu_payment.Psp.Factory.{for_method}
use peikonpurekkusu_payment.Saga.World.{History, World, Env}
use peikonpurekkusu_payment.Saga.Persist.{
  SagaError, Tx, of_row, write_outbox, transition, transition_with, terminal_tx, fx_rate_used,
}
use peikonpurekkusu_payment.Saga.Steps.{
  Progress, proceed, halt, proceed_if_ok, halt_anyway, no_extra, set_row, is_transient,
  score_request, act_on_verdict, step_fraud, act_on_hold, step_hold, act_on_outcome,
  act_on_authorize, call_authorize, with_processor, step_submit, act_on_psp_capture,
  call_psp_capture, act_on_ledger_capture, call_ledger_capture, step_ledger_capture,
}
use peikonpurekkusu_payment.Saga.Drive.{step_submitted, dispatch}
use peikonpurekkusu_payment.Saga.Refine.Saves.{
  set_row-payments, moved, closed, transition_done, transition_failed, transition_with_done,
  transition_with_failed,
}
use peikonpurekkusu_payment.Saga.Refine.Stages.{Stands}

module _ (env : Env) (r : Row) (i : Instrument) where
  abbrev p : Payment
  p = of_row r i

  -- If the result lets the loop go on, the payment is found at a later step.
  abbrev pub Forward : ℕ → Progress × World → Type 0
  Forward code x =
      x.0 ≡ proceed
      → (n : Row) × (lookup r.id x.1.payments ≡ some n)
        × (code < step_code n.step)
        × (step_code n.step ≤ 5)

  Forward-halt : (code : ℕ) (w : World) → Forward code (halt, w)
  Forward-halt code w = λ h. absurd (cc)

  Forward-halt_anyway : (code : ℕ) (x : Option SagaError × World) → Forward code (halt_anyway x)
  Forward-halt_anyway code x = λ h. absurd (cc)

  Forward-proceed :
      (code : ℕ) (n : Row) (x : Option SagaError × World)
      → code < step_code n.step
      → step_code n.step ≤ 5
      → (x.0 ≡ none → lookup r.id x.1.payments ≡ some n)
      → Forward code (proceed_if_ok x)
  Forward-proceed code n (none, w) lt le f = λ h. (n, f refl, lt, le)
  Forward-proceed code n (some e, w) lt le f = λ h. absurd (cc)

  abbrev first : Option SagaError × World → Option SagaError
  first x = x.0

  put_found :
      (n : Row) (w : World)
      → n.id ≡ r.id
      → lookup r.id w.payments ≡ some r
      → lookup r.id (put n w.payments) ≡ some n
  put_found n w same found = ground (arith, lookup-put r.id n w.payments)

  -- A committed transition leaves the row that its extra writes make of the moved row.
  set_found :
      (f : Row → Row) (step : Step) (status : Status) (extra : Tx → Tx) (w : World)
      → (found : lookup r.id w.payments ≡ some r) → ((m : Row) → (f m).id ≡ m.id)
      → ((tx : Tx) → (extra tx).payments ≡ (set_row r.id f tx).payments)
      → (transition env p step status extra w).0 ≡ none
      → lookup r.id (transition env p step status extra w).1.payments
        ≡ some (f (moved env r i w found step status))
  set_found f step status extra w found keeps effect h =
      elim (Bool-cases (env.commit_ok w.history)) [
        | inl fine ↦ rw (transition_done env r i w found step status extra fine) (
            rw effect (
              rw
                (set_row-payments f (moved env r i w found step status) r
                  (record { payments = w.payments; outbox = w.outbox }) (keeps _) found)
                (put_found (f (moved env r i w found step status)) w (keeps _) found)))
        | inr down ↦
            absurd
              (cc (ap first (sym (transition_failed env r i w found step status extra down)) ∙ h))
      ]

  move_found :
      (step : Step) (status : Status) (w : World)
      → (found : lookup r.id w.payments ≡ some r)
      → (transition env p step status no_extra w).0 ≡ none
      → lookup r.id (transition env p step status no_extra w).1.payments
        ≡ some (moved env r i w found step status)
  move_found step status w found h = elim (Bool-cases (env.commit_ok w.history)) [
    | inl fine ↦
        rw (transition_done env r i w found step status no_extra fine)
          (put_found (moved env r i w found step status) w refl found)
    | inr down ↦
        absurd
          (cc (ap first (sym (transition_failed env r i w found step status no_extra down)) ∙ h))
  ]

  close_found :
      (step : Step) (status : Status) (extra : Tx → Tx) (w : World)
      → (found : lookup r.id w.payments ≡ some r) → r.status ≡ processing
      → ((tx : Tx) → (extra tx).payments ≡ tx.payments)
      → (transition_with env p step status "" "" none extra w).0 ≡ none
      → lookup r.id (transition_with env p step status "" "" none extra w).1.payments
        ≡ some (closed env r i w found step status "" "" none)
  close_found step status extra w found live keeps h = elim (Bool-cases (env.commit_ok w.history)) [
    | inl fine ↦
        rw (transition_with_done env r i w found step status "" "" none extra live fine)
          (rw keeps (put_found (closed env r i w found step status "" "" none) w refl found))
    | inr down ↦ absurd (
        cc (
          ap first (sym (transition_with_failed env r i w found step status "" "" none extra down))
          ∙ h))
  ]

  act_on_verdict-Forward :
      (v : Verdict) (w : World) → Stands env r i requested w → Forward 0 (act_on_verdict env p v w)
  unfolding act_on_verdict of_row
  act_on_verdict-Forward v w (found, live, at) = elim (Bool-cases v.requires_action) [
    | inl waits ↦ rw waits (λ h. absurd (cc))
    | inr runs ↦ elim (Bool-cases v.proceed) [
      | inl good ↦
          rw (runs, good)
            (Forward-proceed 0 _ _ (omega arith) (omega arith) (
              set_found (λ m. record m { risk_score = some v.risk_score }) fraud_screened processing
                _ w found (λ m. refl) (λ tx. refl)))
      | inr bad ↦ rw (runs, bad) (λ h. absurd (cc))
    ]
  ]

  act_on_hold-Forward :
      (reply : Reply String) (w : World)
      → Stands env r i fraud_screened w
      → Forward 1 (act_on_hold env p reply w)
  unfolding act_on_hold of_row
  act_on_hold-Forward (Accounts.err c) w s = elim (Bool-cases (is_insufficient_funds c)) [
    | inl short ↦ rw short (λ h. absurd (cc))
    | inr other ↦ rw other (λ h. absurd (cc))
  ]
  act_on_hold-Forward (Accounts.ok answer) w (found, live, at) =
      elim (Option-cases (env.uuid_parse answer)) [
        | inl bad ↦ rw (bad, act_on_hold) (λ h. absurd (cc))
        | inr (hid, good) ↦
            rw (good, act_on_hold)
              (Forward-proceed 1 _ _ (omega arith) (omega arith) (
                set_found (λ n. record n { hold_id = some hid }) funds_held processing _ w found
                  (λ n. refl) (λ tx. refl)))
      ]

  act_on_outcome-Forward :
      (res : AuthResult) (o : Outcome) (w : World)
      → Stands env r i funds_held w
      → Forward 2 (act_on_outcome env p res o w)
  unfolding act_on_outcome of_row write_outbox
  act_on_outcome-Forward res Outcome.declined w s = λ h. absurd (cc)
  act_on_outcome-Forward res Outcome.pending w s = λ h. absurd (cc)
  act_on_outcome-Forward res _ w (found, live, at) =
      Forward-proceed 2 _ _ (omega arith) (omega arith) (
        set_found (λ n. record n { psp_reference = some res.psp_reference }) submitted_to_gateway
          processing _ w found (λ n. refl) (λ tx. refl))

  act_on_authorize-Forward :
      (res : Psp.Result AuthResult) (w : World)
      → Stands env r i funds_held w
      → Forward 2 (act_on_authorize env p res w)
  unfolding act_on_authorize
  act_on_authorize-Forward (Psp.err e) w s = elim (Bool-cases (is_transient e.kind)) [
    | inl away ↦ rw away (λ h. absurd (cc))
    | inr refused ↦ rw refused (λ h. absurd (cc))
  ]
  act_on_authorize-Forward (Psp.ok res) w s = act_on_outcome-Forward res res.outcome w s

  act_on_psp_capture-Forward :
      (res : Psp.Result (Unit {0})) (w : World)
      → Stands env r i submitted_to_gateway w
      → Forward 3 (act_on_psp_capture env p res w)
  unfolding act_on_psp_capture
  act_on_psp_capture-Forward (Psp.err e) w s = elim (Bool-cases (is_transient e.kind)) [
    | inl away ↦ rw away (λ h. absurd (cc))
    | inr refused ↦ rw refused (λ h. absurd (cc))
  ]
  act_on_psp_capture-Forward (Psp.ok _) w (found, live, at) =
      Forward-proceed 3 _ _ (omega arith) (omega arith) (move_found psp_captured processing w found)

  fx_found :
      (w : World)
      → lookup r.id w.payments ≡ some r
      → lookup r.id (fx_rate_used env p w).1.payments ≡ some r
  unfolding fx_rate_used
  fx_found w found = ground arith

  act_on_ledger_capture-Forward :
      (reply : Reply String) (w : World)
      → Stands env r i psp_captured w
      → Forward 4 (act_on_ledger_capture env p reply w)
  unfolding act_on_ledger_capture terminal_tx write_outbox
  act_on_ledger_capture-Forward (Accounts.err c) w s = λ h. absurd (cc)
  act_on_ledger_capture-Forward (Accounts.ok txn) w (found, live, at) =
      Forward-proceed 4 _ _ (omega arith) (omega arith)
        (close_found captured succeeded _ _ (fx_found w found) live (λ tx. refl))

  with_processor-Forward :
      (call : PaymentProcessor History → World → Progress × World) (code : ℕ)
      (m : Psp.Result (PaymentProcessor History)) (w : World)
      → ((processor : PaymentProcessor History) → Forward code (call processor w))
      → Forward code (with_processor env p call m w)
  unfolding with_processor
  with_processor-Forward call code (Psp.err e) w f = λ h. absurd (cc)
  with_processor-Forward call code (Psp.ok processor) w f = f processor

  call_psp_capture-Forward :
      (known : Option String) (processor : PaymentProcessor History) (w : World)
      → Stands env r i submitted_to_gateway w
      → Forward 3 (call_psp_capture env p known processor w)
  unfolding call_psp_capture
  call_psp_capture-Forward none processor w s = λ h. absurd (cc)
  call_psp_capture-Forward (some ref) processor w s = act_on_psp_capture-Forward _ _ s

  call_ledger_capture-Forward :
      (known : Option Uuid) (w : World)
      → Stands env r i psp_captured w
      → Forward 4 (call_ledger_capture env p known w)
  unfolding call_ledger_capture
  call_ledger_capture-Forward none w s = λ h. absurd (cc)
  call_ledger_capture-Forward (some hold_id) w s = act_on_ledger_capture-Forward _ _ s

  step_submitted-Forward :
      (w : World) → Stands env r i submitted_to_gateway w → Forward 3 (step_submitted env p w)
  unfolding step_submitted of_row
  step_submitted-Forward w s = elim (Option-cases r.psp_reference) [
    | inl waits ↦ rw (waits, step_submitted) (λ h. absurd (cc))
    | inr (ref, known) ↦
        rw (known, step_submitted)
          (with_processor-Forward (call_psp_capture env p p.psp_reference) 3
            (for_method env.psps p.method) w (λ x. call_psp_capture-Forward p.psp_reference x w s))
  ]

  -- Every step that lets the loop go on has moved the payment to a later step.
  pub dispatch-Forward :
      (step : Step) (w : World)
      → Stands env r i step w
      → Forward (step_code step) (dispatch env step p w)
  unfolding dispatch step_fraud step_hold step_submit call_authorize step_ledger_capture
  dispatch-Forward requested w s =
      act_on_verdict-Forward
        (screen env.fail_open_limit (env.score w.history) (score_request env p w)) _ s
  dispatch-Forward fraud_screened w s = act_on_hold-Forward _ _ s
  dispatch-Forward funds_held w s =
      with_processor-Forward (call_authorize env p) 2 (for_method env.psps p.method) w
        (λ x. act_on_authorize-Forward _ _ s)
  dispatch-Forward submitted_to_gateway w s = step_submitted-Forward w s
  dispatch-Forward psp_captured w s = call_ledger_capture-Forward p.hold_id w s
  dispatch-Forward _ w s = λ h. absurd (cc)
