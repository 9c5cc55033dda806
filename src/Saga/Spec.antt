-- ===== src/Saga/Spec.antt =====
-- What the engine promises, as a step relation on the world: which changes of a payment it may
-- save, on whose account and on what evidence in the history, and when it may ask for a capture or a release.
use mathlib.Core.List.{Memᴰ}
use peikonpurekkusu_payment.Prelude.{
  ◌+◌, ◌<◌, ◌≤◌, Bool, true, false, String, Option, some, none, ◌≡◌, ◌≢◌, ◌⊎◌, map,
}
use peikonpurekkusu_payment.Payment.{
  Uuid, Time, Step, Row, requested, fraud_screened, funds_held, submitted_to_gateway, captured,
  done, requires_action, processing, succeeded, failed, step_code,
}
use peikonpurekkusu_payment.Payment.Table.{lookup, put}
use peikonpurekkusu_payment.Accounts
use peikonpurekkusu_payment.Accounts.{HoldFundsRequest, CaptureFundsRequest, failed_precondition}
use peikonpurekkusu_payment.Psp
use peikonpurekkusu_payment.Psp.{AuthResult, Outcome, Error, unavailable, deadline_exceeded}
use peikonpurekkusu_payment.Saga.Persist.{null_if_empty}
use peikonpurekkusu_payment.Fraud.{ScoreRequest, Verdict}
use Prim.Native.String.{◌++◌}
use peikonpurekkusu_payment.Saga.World.{
  Event, screened, asked_hold, asked_capture, asked_release, authorized, psp_captured, History,
  World, record_event,
}

-- The processor has confirmed that it captured this payment under this reference.
abbrev pub Captured : Uuid → String → History → Type 0
Captured id ref h = Memᴰ (psp_captured id ref (Psp.ok tt)) h

-- The ledger has confirmed that it recorded the capture of this payment.
abbrev pub Booked : Uuid → History → Type 0
Booked id h =
    (req : CaptureFundsRequest) × (txn : String) × Memᴰ (asked_capture id req (Accounts.ok txn)) h

abbrev pub saved_at : Time → Row → Row
saved_at t r = record r { version = r.version + 1; updated_at = t }

-- On whose account the engine moves: its own, that of a report by the processor of a payment, with
-- its outcome, reference and decline code, that of a user who has given a second factor for a payment,
-- or that of a sweeper at a time and with a timeout.
pub data Trigger : Type 0 where
  itself : Trigger
  reported : Uuid → Bool → String → String → Trigger
  stepped_up : Uuid → Uuid → Trigger
  swept : Time → Time → Trigger

-- The fraud check has answered for this payment.
abbrev pub Screened : Row → Verdict → History → Type 0
Screened r v h = (req : ScoreRequest) × (req.payment_id ≡ r.id) × Memᴰ (screened req v) h

-- The request to hold funds asks for the amount of this payment.
abbrev pub AsksFor : Row → HoldFundsRequest → Type 0
AsksFor r req = ((req.amount).minor_units ≡ r.amount) × ((req.amount).currency_code ≡ r.currency)

abbrev pub IsHard : Error → Type 0
IsHard e = (e.kind ≢ unavailable) × (e.kind ≢ deadline_exceeded)

-- Why a payment may be failed, with the failure code and its detail.
pub data Reason (c : Trigger) (h : History) (r : Row) : String → String → Type 0 where
  denied :
      (v : Verdict)
      → r.step ≡ requested
      → Screened r v h
      → v.requires_action ≡ false
      → v.proceed ≡ false
      → Reason c h r "fraud_denied" v.reason
  unfunded :
      (req : HoldFundsRequest)
      → r.step ≡ fraud_screened
      → AsksFor r req
      → Memᴰ (asked_hold req (Accounts.err failed_precondition)) h
      → Reason c h r "insufficient_funds" "available balance too low"
  declined :
      (res : AuthResult)
      → r.step ≡ funds_held
      → Memᴰ (authorized r.id (Psp.ok res)) h
      → res.outcome ≡ Outcome.declined
      → Reason c h r "gateway_declined" res.decline_code
  refused :
      (e : Error)
      → r.step ≡ funds_held
      → Memᴰ (authorized r.id (Psp.err e)) h
      → IsHard e
      → Reason c h r "gateway_declined" e.message
  uncaptured :
      (ref : String) (e : Error)
      → r.step ≡ submitted_to_gateway
      → r.psp_reference ≡ some ref
      → Memᴰ (psp_captured r.id ref (Psp.err e)) h
      → IsHard e
      → Reason c h r "gateway_capture_failed" e.message
  unsupported :
      (method : String)
      → (r.step ≡ funds_held) ⊎ (r.step ≡ submitted_to_gateway)
      → Reason c h r "gateway_declined" ("unsupported payment method \"" ++ method ++ "\"")
  -- The processor reports it.
  reported_declined :
      (ref code : String)
      → r.step ≡ submitted_to_gateway
      → c ≡ reported r.id false ref code
      → Reason c h r "gateway_declined" code
  -- It has not changed for longer than the timeout.
  unsubmitted :
      (now timeout : Time)
      → c ≡ swept now timeout
      → r.step ≡ funds_held
      → r.updated_at + timeout < now
      → Reason c h r "gateway_unavailable" "processor unreachable past the submission timeout"
  unconfirmed :
      (now timeout : Time)
      → c ≡ swept now timeout
      → r.step ≡ submitted_to_gateway
      → r.psp_reference ≢ none
      → r.updated_at + timeout < now
      → Reason c h r "gateway_capture_failed" "processor did not confirm the capture in time"
  unreported :
      (now timeout : Time)
      → c ≡ swept now timeout
      → r.step ≡ submitted_to_gateway
      → r.psp_reference ≡ none
      → r.updated_at + timeout < now
      → Reason c h r "gateway_timeout" "wallet processor did not report an outcome"

-- The changes of a row that may be saved after the history `h`.
pub data Edge (c : Trigger) (h : History) (r n : Row) : Type 0 where
  touch : (t : Time) → n ≡ record r { updated_at = t } → Edge c h r n
  screen :
      (t : Time) (v : Verdict)
      → r.status ≡ processing
      → r.step ≡ requested
      → Screened r v h
      → v.requires_action ≡ false
      → v.proceed ≡ true
      → n ≡ record (saved_at t r) {
        step = fraud_screened;
        status = processing;
        risk_score = some v.risk_score;
      }
      → Edge c h r n
  park :
      (t : Time) (v : Verdict) (detail : Option String)
      → r.status ≡ processing
      → r.step ≡ requested
      → Screened r v h
      → v.requires_action ≡ true
      → n ≡ record (saved_at t r) {
        step = fraud_screened;
        status = requires_action;
        failure_code = none;
        failure_detail = detail;
        risk_score = some v.risk_score;
      }
      → Edge c h r n
  hold :
      (t : Time) (hold_id : Uuid) (req : HoldFundsRequest) (answer : String)
      → r.status ≡ processing
      → r.step ≡ fraud_screened
      → AsksFor r req
      → Memᴰ (asked_hold req (Accounts.ok answer)) h
      → n ≡ record (saved_at t r) { step = funds_held; status = processing; hold_id = some hold_id }
      → Edge c h r n
  submit :
      (t : Time) (res : AuthResult)
      → r.status ≡ processing
      → r.step ≡ funds_held
      → Memᴰ (authorized r.id (Psp.ok res)) h
      → res.outcome ≡ Outcome.pending
      → n ≡ record (saved_at t r) { step = submitted_to_gateway; status = processing }
      → Edge c h r n
  authorize :
      (t : Time) (res : AuthResult)
      → r.status ≡ processing
      → r.step ≡ funds_held
      → Memᴰ (authorized r.id (Psp.ok res)) h
      → (res.outcome ≢ Outcome.declined) × (res.outcome ≢ Outcome.pending)
      → n ≡ record (saved_at t r) {
        step = submitted_to_gateway;
        status = processing;
        psp_reference = some res.psp_reference;
      }
      → Edge c h r n
  complete :
      (t : Time) (ref code : String)
      → r.status ≡ processing
      → r.step ≡ submitted_to_gateway
      → c ≡ reported r.id true ref code
      → n ≡ record (saved_at t r) {
        step = submitted_to_gateway;
        status = processing;
        psp_reference = some ref;
      }
      → Edge c h r n
  capture :
      (t : Time) (ref : String)
      → r.status ≡ processing
      → r.step ≡ submitted_to_gateway
      → r.psp_reference ≡ some ref
      → Captured r.id ref h
      → n ≡ record (saved_at t r) { step = Step.psp_captured; status = processing }
      → Edge c h r n
  book :
      (t : Time)
      → r.status ≡ processing
      → r.step ≡ Step.psp_captured
      → Booked r.id h
      → n ≡ record (saved_at t r) {
        step = captured;
        status = succeeded;
        failure_code = none;
        failure_detail = none;
      }
      → Edge c h r n
  fail :
      (t : Time) (code detail : String)
      → r.status ≡ processing
      → step_code r.step < 4
      → Reason c h r code detail
      → n ≡ record (saved_at t r) {
        step = done;
        status = failed;
        failure_code = null_if_empty code;
        failure_detail = null_if_empty detail;
      }
      → Edge c h r n
  resume :
      (t : Time)
      → r.status ≡ requires_action
      → c ≡ stepped_up r.id r.user_id
      → n ≡ record (saved_at t r) { step = fraud_screened; status = processing }
      → Edge c h r n

-- What the expiry of second factors does to a row: it fails one that has waited for longer than the
-- timeout, and leaves any other as it is.
pub data Expiry (now timeout : Time) (r n : Row) : Type 0 where
  waits :
      (r.status ≢ requires_action) ⊎ (now ≤ r.updated_at + timeout) → n ≡ r → Expiry now timeout r n
  lapses :
      r.status ≡ requires_action
      → r.updated_at + timeout < now
      → n ≡ record r {
        status = failed;
        step = done;
        failure_code = some "step_up_expired";
        failure_detail = some "second factor was not completed in time";
        updated_at = now;
      }
      → Expiry now timeout r n

-- When an exchange may take place: the ledger is asked to capture only for a payment whose
-- capture by the processor is recorded, and a hold is released only before that.
abbrev pub IsAllowed : World → Event → Type 0
IsAllowed w (asked_capture id _ _) =
    (r : Row) × (lookup id w.payments ≡ some r)
    × (r.status ≡ processing)
    × (r.step ≡ Step.psp_captured)
IsAllowed w (asked_release id _ _) =
    (r : Row) × (lookup id w.payments ≡ some r) × (r.status ≡ processing) × (step_code r.step < 4)
IsAllowed w _ = Unit

pub data Move (c : Trigger) (w u : World) : Type 0 where
  saw : (e : Event) → IsAllowed w e → u ≡ record_event e w → Move c w u
  saved :
      (r n : Row)
      → lookup n.id w.payments ≡ some r
      → Edge c w.history r n
      → u.payments ≡ put n w.payments
      → u.history ≡ w.history
      → u.instruments ≡ w.instruments
      → Move c w u
  -- The one statement that expires every payment that waited too long for a second factor.
  expired :
      (now timeout : Time) (f : Row → Row)
      → c ≡ swept now timeout
      → ((r : Row) → Expiry now timeout r (f r))
      → u.payments ≡ map f w.payments
      → u.history ≡ w.history
      → u.instruments ≡ w.instruments
      → Move c w u

pub data Run (c : Trigger) (w : World) : World → Type 0 where
  rest : Run c w w
  next : {u v : World} → Run c w u → Move c u v → Run c w v

pub Run-trans : {c : Trigger} {w u v : World} → Run c w u → Run c u v → Run c w v
Run-trans a rest = a
Run-trans a (next b m) = next (Run-trans a b) m

pub Run-one : {c : Trigger} {w u : World} → Move c w u → Run c w u
Run-one m = next rest m
