-- ===== src/Saga/Refine/Compensation.antt =====
-- `failAndCompensate` of internal/saga/saga.go, for a payment that stands as it was loaded.
use mathlib.Core.List.{Memᴰ}
use peikonpurekkusu_payment.Prelude.{
  true, ◌∷◌, ◌<◌, String, some, none, ◌≡◌, inl, inr, refl, Option-cases,
}
use peikonpurekkusu_payment.Payment.{Uuid, Status, Step, Row, Instrument, processing, step_code}
use peikonpurekkusu_payment.Payment.Table.{lookup}
use peikonpurekkusu_payment.Saga.World.{wrote, Event, History, World, Env}
use peikonpurekkusu_payment.Saga.Persist.{
  Tx, of_row, coalesce, transition_with, write_outbox, failed_payload, ask_release, release_hold,
  fail_and_compensate,
}
use peikonpurekkusu_payment.Saga.Spec.{Trigger, Reason, Edge, saw, Run, Run-one, Run-trans}
use peikonpurekkusu_payment.Saga.Refine.Saves.{closed, transition_with-Run}

-- An event takes no reason away.
pub Reason-event :
    {c : Trigger} {code detail : String}
    → (e : Event) (h : History) (r : Row) → Reason c h r code detail
    → Reason c (e ∷ h) r code detail
Reason-event e h r (Reason.denied v at (req, own, m) a b) =
    Reason.denied v at (req, own, Memᴰ.tail m) a b
Reason-event e h r (Reason.unfunded req at a m) = Reason.unfunded req at a (Memᴰ.tail m)
Reason-event e h r (Reason.declined res at m o) = Reason.declined res at (Memᴰ.tail m) o
Reason-event e h r (Reason.refused x at m k) = Reason.refused x at (Memᴰ.tail m) k
Reason-event e h r (Reason.uncaptured ref x at known m k) =
    Reason.uncaptured ref x at known (Memᴰ.tail m) k
Reason-event e h r (Reason.unsupported method at) = Reason.unsupported method at
Reason-event e h r (Reason.reported_declined ref code at t) = Reason.reported_declined ref code at t
Reason-event e h r (Reason.unsubmitted now timeout t at old) =
    Reason.unsubmitted now timeout t at old
Reason-event e h r (Reason.unconfirmed now timeout t at known old) =
    Reason.unconfirmed now timeout t at known old
Reason-event e h r (Reason.unreported now timeout t at none_ old) =
    Reason.unreported now timeout t at none_ old

module _ (env : Env) (r : Row) (i : Instrument) (code detail : String) where
  -- The transaction of the compensation, in any world where the payment stands.
  fail-Run :
      {c : Trigger}
      → (w : World) → lookup r.id w.payments ≡ some r
      → r.status ≡ processing
      → step_code r.step < 4
      → Reason c w.history r code detail
      → (extra : Tx → Tx) → ((tx : Tx) → (extra tx).payments ≡ tx.payments)
      → Run c w
          (transition_with env (of_row r i) Step.done Status.failed code detail none extra w).1
  unfolding coalesce
  fail-Run w found live early why extra keeps =
      transition_with-Run env r i w found Step.done Status.failed code detail none extra
        (closed env r i w found Step.done Status.failed code detail none) refl live
        (Edge.fail w.now code detail live early (Reason-event (wrote true) w.history r why) refl)
        (keeps _)

  -- What is left to do once the release has been asked for.
  abbrev pub after_release : World → World
  after_release w =
      (transition_with env (of_row r i) Step.done Status.failed code detail none
        (write_outbox env w "payments.payment.failed.v1" (of_row r i).id
          (failed_payload env (of_row r i) code detail))
        w).1

  pub fail_and_compensate_lem :
      (w : World)
      → fail_and_compensate env (of_row r i) code detail w
        ≡ after_release (release_hold env (of_row r i) w)
  unfolding fail_and_compensate
  fail_and_compensate_lem w = refl

  after_release-Run :
      {c : Trigger}
      → (w : World) → lookup r.id w.payments ≡ some r
      → r.status ≡ processing
      → step_code r.step < 4
      → Reason c w.history r code detail
      → Run c w (after_release w)
  unfolding write_outbox
  after_release-Run w found live early why = fail-Run w found live early why _ (λ tx. refl)

  pub release_free : (w : World) → r.hold_id ≡ none → release_hold env (of_row r i) w ≡ w
  unfolding release_hold of_row
  release_free w h = rw h

  pub release_held :
      (w : World) (hold_id : Uuid)
      → r.hold_id ≡ some hold_id
      → release_hold env (of_row r i) w ≡ ask_release env (of_row r i) hold_id w
  unfolding release_hold of_row
  release_held w hold_id h = rw (h, release_hold)

  ask_release-Run :
      {c : Trigger}
      → (w : World) (hold_id : Uuid) → lookup r.id w.payments ≡ some r
      → r.status ≡ processing
      → step_code r.step < 4
      → Reason c w.history r code detail
      → Run c w (after_release (ask_release env (of_row r i) hold_id w))
  unfolding ask_release of_row
  ask_release-Run w hold_id found live early why =
      Run-trans (Run-one (saw _ (r, found, live, early) refl))
        (after_release-Run _ found live early (Reason-event _ w.history r why))

  -- A payment that is not yet captured by the processor may be failed for a reason, and its hold released.
  pub fail_and_compensate-Run :
      {c : Trigger}
      → (w : World) → lookup r.id w.payments ≡ some r
      → r.status ≡ processing
      → step_code r.step < 4
      → Reason c w.history r code detail
      → Run c w (fail_and_compensate env (of_row r i) code detail w)
  fail_and_compensate-Run w found live early why = elim (Option-cases r.hold_id) [
    | inl free ↦
        rw (fail_and_compensate_lem w, release_free w free)
          (after_release-Run w found live early why)
    | inr (hold_id, held) ↦
        rw (fail_and_compensate_lem w, release_held w hold_id held)
          (ask_release-Run w hold_id found live early why)
  ]
