-- ===== src/Saga/Refine/Saves.antt =====
-- What the transactions of internal/saga/saga.go do to a world in which the payment stands as it
-- was loaded.
use peikonpurekkusu_payment.Prelude.{
  String, ◌∷◌, Option, some, none, true, false, ◌≡◌, inl, inr, refl, arith, Bool-cases,
}
use peikonpurekkusu_payment.Prelude.Int.{ℤ}
use peikonpurekkusu_payment.Payment.{Status, Step, Row, Instrument, processing}
use peikonpurekkusu_payment.Payment.Table.{lookup, put, lookup-put_self, put-put}
use peikonpurekkusu_payment.Saga.World.{wrote, Update, World, Env, record_event}
use peikonpurekkusu_payment.Saga.Persist.{
  SagaError, Tx, of_row, transition, transition_with, touch, null_if_empty, coalesce,
}
use peikonpurekkusu_payment.Saga.Steps.{set_row}
use peikonpurekkusu_payment.Saga.Spec.{Trigger, Edge, saved_at, saw, saved, Run, next, Run-one}

-- A second write of the row in the same transaction replaces the first.
pub set_row-payments :
    (f : Row → Row) (m r : Row) (tx : Tx)
    → (f m).id ≡ m.id
    → lookup m.id tx.payments ≡ some r
    → (set_row m.id f (record tx { payments = put m tx.payments })).payments ≡ put (f m) tx.payments
set_row-payments f m r tx same found =
    rw (lookup-put_self m tx.payments found, set_row) (put-put (f m) m tx.payments same)

module _ (env : Env) (r : Row) (i : Instrument) (w : World)
    (found : lookup r.id w.payments ≡ some r) where
  abbrev before : Tx
  before = record { payments = w.payments; outbox = w.outbox }

  -- The row after the first statement of `transition`, and the transaction's state there.
  abbrev pub moved : Step → Status → Row
  moved step status = record (saved_at w.now r) { step = step; status = status }

  abbrev pub moved_tx : Row → Tx
  moved_tx m = record { payments = put m w.payments; outbox = w.outbox }

  abbrev pub committed : Step → Status → Tx → World
  committed step status tx =
      let u : Update = record { payment_id = r.id; status = status; step = step } in
      record w {
        payments = tx.payments;
        outbox = tx.outbox;
        published = u ∷ w.published;
        history = wrote true ∷ w.history;
      }

  pub transition_failed :
      (step : Step) (status : Status) (extra : Tx → Tx)
      → env.commit_ok w.history ≡ false
      → transition env (of_row r i) step status extra w
        ≡ (some SagaError.database, record_event (wrote false) w)
  unfolding transition
  transition_failed step status extra h = rw h

  pub transition_done :
      (step : Step) (status : Status) (extra : Tx → Tx)
      → env.commit_ok w.history ≡ true
      → transition env (of_row r i) step status extra w
        ≡ (none, committed step status (extra (moved_tx (moved step status))))
  unfolding transition of_row
  transition_done step status extra h = ground arith

  abbrev pub closed : Step → Status → String → String → Option ℤ → Row
  closed step status failure_code failure_detail risk_score = record (saved_at w.now r) {
    step = step;
    status = status;
    failure_code = null_if_empty failure_code;
    failure_detail = null_if_empty failure_detail;
    risk_score = coalesce risk_score r.risk_score;
  }

  pub transition_with_failed :
      (step : Step) (status : Status) (c d : String) (v : Option ℤ) (extra : Tx → Tx)
      → env.commit_ok w.history ≡ false
      → transition_with env (of_row r i) step status c d v extra w
        ≡ (some SagaError.database, record_event (wrote false) w)
  unfolding transition_with
  transition_with_failed step status c d v extra h = rw h

  pub transition_with_done :
      (step : Step) (status : Status) (c d : String) (v : Option ℤ) (extra : Tx → Tx)
      → r.status ≡ processing
      → env.commit_ok w.history ≡ true
      → transition_with env (of_row r i) step status c d v extra w
        ≡ (none, committed step status (extra (moved_tx (closed step status c d v))))
  unfolding transition_with of_row
  transition_with_done step status c d v extra live h = ground arith

  -- A committed transaction that leaves the row `n` in place is a save along an edge.
  commit-Run :
      {c : Trigger}
      → (step : Step) (status : Status) (n : Row) (tx : Tx) → n.id ≡ r.id
      → Edge c (wrote true ∷ w.history) r n
      → tx.payments ≡ put n w.payments
      → Run c w (committed step status tx)
  commit-Run step status n tx same edge effect =
      next (Run-one (saw (wrote true) tt refl)) (saved r n (rw same found) edge effect refl refl)

  failed-Run : {c : Trigger} → Run c w (record_event (wrote false) w)
  failed-Run = Run-one (saw (wrote false) tt refl)

  -- `transition` is a run of the specification, if the row that it leaves is one along an edge.
  pub transition-Run :
      {c : Trigger}
      → (step : Step) (status : Status) (extra : Tx → Tx) (n : Row) → n.id ≡ r.id
      → Edge c (wrote true ∷ w.history) r n
      → (extra (moved_tx (moved step status))).payments ≡ put n w.payments
      → Run c w (transition env (of_row r i) step status extra w).1
  transition-Run step status extra n same edge effect =
      elim (Bool-cases (env.commit_ok w.history)) [
        | inl yes_ok ↦
            rw (transition_done step status extra yes_ok)
              (commit-Run step status n _ same edge effect)
        | inr not_ok ↦ rw (transition_failed step status extra not_ok) failed-Run
      ]

  pub transition_with-Run :
      {c : Trigger}
      → (step : Step) (status : Status) (code detail : String) (v : Option ℤ) (extra : Tx → Tx)
        (n : Row)
      → n.id ≡ r.id
      → r.status ≡ processing
      → Edge c (wrote true ∷ w.history) r n
      → (extra (moved_tx (closed step status code detail v))).payments ≡ put n w.payments
      → Run c w (transition_with env (of_row r i) step status code detail v extra w).1
  transition_with-Run step status code detail v extra n same live edge effect =
      elim (Bool-cases (env.commit_ok w.history)) [
        | inl yes_ok ↦
            rw (transition_with_done step status code detail v extra live yes_ok)
              (commit-Run step status n _ same edge effect)
        | inr not_ok ↦ rw (transition_with_failed step status code detail v extra not_ok) failed-Run
      ]

  touch_done :
      env.commit_ok w.history ≡ true
      → touch env r.id w ≡ record w {
        payments = put (record r { updated_at = w.now }) w.payments;
        history = wrote true ∷ w.history;
      }
  unfolding touch
  touch_done h = ground arith

  touch_failed : env.commit_ok w.history ≡ false → touch env r.id w ≡ record_event (wrote false) w
  unfolding touch
  touch_failed h = ground arith

  pub touch-Run : {c : Trigger} → Run c w (touch env r.id w)
  touch-Run = elim (Bool-cases (env.commit_ok w.history)) [
    | inl yes_ok ↦ rw (touch_done yes_ok) (
        next (Run-one (saw (wrote true) tt refl))
          (saved r (record r { updated_at = w.now }) found (Edge.touch w.now refl) refl refl refl))
    | inr not_ok ↦ rw (touch_failed not_ok) failed-Run
  ]
