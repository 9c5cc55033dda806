-- ===== src/Saga/Refine/Stages.antt =====
-- The steps of internal/saga/saga.go, each for a payment that stands as it was loaded.
use mathlib.Core.List.{Memᴰ}
use mathlib.Core.Path.{subst, sym}
use peikonpurekkusu_payment.Prelude.{
  ◌<◌, String, ◌∷◌, Option, some, none, true, false, ◌≢◌, ◌≡◌, ◌⊎◌, inl, inr, refl, arith,
  Bool-cases, Option-cases,
}
use peikonpurekkusu_payment.Payment.{
  Status, Step, Row, Instrument, Payment, requested, fraud_screened, funds_held,
  submitted_to_gateway, processing, requires_action, step_code,
}
use peikonpurekkusu_payment.Payment.Table.{lookup}
use peikonpurekkusu_payment.Fraud.{Verdict, screen}
use peikonpurekkusu_payment.Accounts
use peikonpurekkusu_payment.Accounts.{
  Code, failed_precondition, Reply, HoldFundsRequest, CaptureFundsRequest, hold_request,
  is_insufficient_funds,
}
use peikonpurekkusu_payment.Psp
use peikonpurekkusu_payment.Psp.{Error, AuthResult, Outcome, PaymentProcessor}
use peikonpurekkusu_payment.Psp.Factory.{find_processor, for_method}
use peikonpurekkusu_payment.Saga.World.{Event, History, World, Env}
use peikonpurekkusu_payment.Saga.Persist.{
  SagaError, Tx, of_row, write_outbox, transition, fail_and_compensate, touch, null_if_empty,
  coalesce,
}
use peikonpurekkusu_payment.Saga.Steps.{
  Progress, proceed_if_ok, no_extra, set_row, is_transient, score_request, act_on_verdict,
  step_fraud, act_on_hold, step_hold, persist_approval, act_on_outcome, act_on_authorize,
  with_processor, call_authorize, step_submit,
}
use peikonpurekkusu_payment.Saga.Spec.{
  Trigger, Reason, Screened, AsksFor, IsHard, Edge, saw, Run, rest, Run-one, Run-trans,
}
use peikonpurekkusu_payment.Saga.Refine.Saves.{
  set_row-payments, moved, transition-Run, transition_with-Run, touch-Run,
}
use peikonpurekkusu_payment.Saga.Refine.Compensation.{fail_and_compensate-Run}

pub proceed_if_ok-world : (x : Option SagaError × World) → (proceed_if_ok x).1 ≡ x.1
proceed_if_ok-world (none, w) = refl
proceed_if_ok-world (some e, w) = refl

module _ (env : Env) (r : Row) (i : Instrument) where
  abbrev p : Payment
  p = of_row r i

  -- A payment that stands in a world as it was loaded, and is processing at a step.
  abbrev pub Stands : Step → World → Type 0
  Stands step w = (lookup r.id w.payments ≡ some r) × (r.status ≡ processing) × (r.step ≡ step)

  pub failing :
      {c : Trigger}
      → (code detail : String) (step : Step) (w : World) → Stands step w
      → step_code step < 4
      → Reason c w.history r code detail
      → Run c w (fail_and_compensate env p code detail w)
  failing code detail step w (found, live, at) early why =
      fail_and_compensate-Run env r i code detail w found live (rw at early) why

  -- An update of the row in the transaction of a transition.
  pub setting :
      {c : Trigger}
      → (f : Row → Row) (step : Step) (status : Status) (extra : Tx → Tx) (w : World)
      → (found : lookup r.id w.payments ≡ some r) → ((m : Row) → (f m).id ≡ m.id)
      → ((tx : Tx) → (extra tx).payments ≡ (set_row r.id f tx).payments)
      → Edge c (Event.wrote true ∷ w.history) r (f (moved env r i w found step status))
      → Run c w (transition env p step status extra w).1
  setting f step status extra w found keeps effect edge =
      transition-Run env r i w found step status extra (f (moved env r i w found step status))
        (keeps _) edge
        (rw effect (
          set_row-payments f (moved env r i w found step status) r
            (record { payments = w.payments; outbox = w.outbox }) (keeps _) found))

  act_on_verdict-Run :
      {c : Trigger}
      → (v : Verdict) (w : World) → Stands requested w
      → Screened r v w.history
      → Run c w (act_on_verdict env p v w).1
  unfolding act_on_verdict of_row null_if_empty coalesce
  act_on_verdict-Run v w (found, live, at) (req, own, m) = elim (Bool-cases v.requires_action) [
    | inl waits ↦ rw waits (
        transition_with-Run env r i w found fraud_screened requires_action "" v.reason
          (some v.risk_score) no_extra _ refl live
          (Edge.park w.now v (null_if_empty v.reason) live at (req, own, Memᴰ.tail m) waits refl)
          refl)
    | inr runs ↦ elim (Bool-cases v.proceed) [
      | inl good ↦
          rw (runs, good)
            (rw proceed_if_ok-world (
              setting (λ m. record m { risk_score = some v.risk_score }) fraud_screened processing _
                w found (λ m. refl) (λ tx. refl)
                (Edge.screen w.now v live at (req, own, Memᴰ.tail m) runs good refl)))
      | inr bad ↦
          rw (runs, bad)
            (failing "fraud_denied" v.reason requested w (found, live, at) (omega arith)
              (Reason.denied v at (req, own, m) runs bad))
    ]
  ]

  pub step_fraud-Run :
      {c : Trigger} → (w : World) → Stands requested w → Run c w (step_fraud env p w).1
  unfolding step_fraud score_request of_row
  step_fraud-Run w s =
      let req = score_request env p w in
      Run-trans (Run-one (saw _ tt refl)) (
        act_on_verdict-Run (screen env.fail_open_limit (env.score w.history) req) _ s
          (req, refl, Memᴰ.head refl))

  short_code : (k : Code) → is_insufficient_funds k ≡ true → k ≡ failed_precondition
  unfolding is_insufficient_funds
  short_code k h = ground arith

  act_on_hold-Run :
      {c : Trigger}
      → (req : HoldFundsRequest) (reply : Reply String) (w : World) → Stands fraud_screened w
      → AsksFor r req
      → Memᴰ (Event.asked_hold req reply) w.history
      → Run c w (act_on_hold env p reply w).1
  unfolding act_on_hold of_row
  act_on_hold-Run req (Accounts.err k) w s a m = elim (Bool-cases (is_insufficient_funds k)) [
    | inl short ↦ rw short (
        failing "insufficient_funds" "available balance too low" fraud_screened w s (omega arith) (
          Reason.unfunded req s.2 a (
            subst (λ x. Memᴰ (Event.asked_hold req (Accounts.err x)) w.history) (short_code k short)
              m)))
    | inr other ↦ rw other rest
  ]
  act_on_hold-Run req (Accounts.ok answer) w (found, live, at) a m =
      elim (Option-cases (env.uuid_parse answer)) [
        | inl bad ↦ rw (bad, act_on_hold) rest
        | inr (hid, good) ↦
            rw (good, act_on_hold)
              (rw proceed_if_ok-world (
                setting (λ n. record n { hold_id = some hid }) funds_held processing _ w found
                  (λ n. refl) (λ tx. refl)
                  (Edge.hold w.now hid req answer live at a (Memᴰ.tail m) refl)))
      ]

  pub step_hold-Run :
      {c : Trigger} → (w : World) → Stands fraud_screened w → Run c w (step_hold env p w).1
  unfolding step_hold hold_request of_row
  step_hold-Run w s =
      Run-trans (Run-one (saw _ tt refl)) (act_on_hold-Run _ _ _ s (refl, refl) (Memᴰ.head refl))

  persist_approval-Run :
      {c : Trigger}
      → (res : AuthResult) (w : World) → Stands funds_held w
      → Memᴰ (Event.authorized r.id (Psp.ok res)) w.history
      → (res.outcome ≢ Outcome.declined) × (res.outcome ≢ Outcome.pending)
      → Run c w (persist_approval env p res w).1
  unfolding persist_approval of_row write_outbox
  persist_approval-Run res w (found, live, at) m good = rw proceed_if_ok-world (
      setting (λ n. record n { psp_reference = some res.psp_reference }) submitted_to_gateway
        processing _ w found (λ n. refl) (λ tx. refl)
        (Edge.authorize w.now res live at (Memᴰ.tail m) good refl))

  act_on_outcome-Run :
      {c : Trigger}
      → (res : AuthResult) (o : Outcome) (w : World) → Stands funds_held w
      → Memᴰ (Event.authorized r.id (Psp.ok res)) w.history
      → res.outcome ≡ o
      → Run c w (act_on_outcome env p res o w).1
  unfolding act_on_outcome
  act_on_outcome-Run res Outcome.declined w s m o =
      failing "gateway_declined" res.decline_code funds_held w s (omega arith)
        (Reason.declined res s.2 m o)
  act_on_outcome-Run res Outcome.pending w (found, live, at) m o =
      transition-Run env r i w found submitted_to_gateway processing no_extra _ refl
        (Edge.submit w.now res live at (Memᴰ.tail m) o refl) refl
  act_on_outcome-Run res Outcome.approved w s m o =
      persist_approval-Run res w s m (λ e. cc, λ e. cc)
  act_on_outcome-Run res Outcome.unset w s m o = persist_approval-Run res w s m (λ e. cc, λ e. cc)

  -- A call of a processor that cannot be reached changes the time stamp alone.
  pub touching :
      {c : Trigger} → (w : World) → lookup r.id w.payments ≡ some r → Run c w (touch env p.id w)
  unfolding of_row
  touching w found = touch-Run env r i w found

  pub hard : (e : Error) → is_transient e.kind ≡ false → IsHard e
  hard e h = (λ k. ground arith, λ k. ground arith)

  act_on_authorize-Run :
      {c : Trigger}
      → (res : Psp.Result AuthResult) (w : World) → Stands funds_held w
      → Memᴰ (Event.authorized r.id res) w.history
      → Run c w (act_on_authorize env p res w).1
  unfolding act_on_authorize
  act_on_authorize-Run (Psp.err e) w s m = elim (Bool-cases (is_transient e.kind)) [
    | inl away ↦ rw away (touching w s.0)
    | inr refused ↦ rw refused (
        failing "gateway_declined" e.message funds_held w s (omega arith)
          (Reason.refused e s.2 m (hard e refused)))
  ]
  act_on_authorize-Run (Psp.ok res) w s m = act_on_outcome-Run res res.outcome w s m refl

  call_authorize-Run :
      {c : Trigger}
      → (processor : PaymentProcessor History) (w : World) → Stands funds_held w
      → Run c w (call_authorize env p processor w).1
  unfolding call_authorize of_row
  call_authorize-Run processor w s =
      Run-trans (Run-one (saw _ tt refl)) (act_on_authorize-Run _ _ s (Memᴰ.head refl))

  pub with_processor-Run :
      {c : Trigger}
      → (call : PaymentProcessor History → World → Progress × World) (step : Step) (method : String)
        (w : World)
      → Stands step w
      → step_code step < 4
      → (step ≡ funds_held) ⊎ (step ≡ submitted_to_gateway)
      → ((processor : PaymentProcessor History) → Run c w (call processor w).1)
      → Run c w (with_processor env p call (for_method env.psps method) w).1
  unfolding with_processor for_method
  with_processor-Run call step method w s early at keeps =
      elim (Option-cases (find_processor method env.psps)) [
        | inl missing ↦
            rw (missing, for_method)
              (failing "gateway_declined" _ step w s early (
                Reason.unsupported method
                  (subst (λ x. (x ≡ funds_held) ⊎ (x ≡ submitted_to_gateway)) (sym s.2) at)))
        | inr (processor, found) ↦ rw (found, for_method) (keeps processor)
      ]

  pub step_submit-Run :
      {c : Trigger} → (w : World) → Stands funds_held w → Run c w (step_submit env p w).1
  unfolding step_submit
  step_submit-Run w s =
      with_processor-Run (call_authorize env p) funds_held p.method w s (omega arith) (inl refl)
        (λ x. call_authorize-Run x w s)
