-- ===== src/Saga/Refine/Captures.antt =====
-- The captures by the processor and by the ledger, of internal/saga/saga.go, each for a payment that
-- stands as it was loaded.
use mathlib.Core.List.{Memᴰ}
use peikonpurekkusu_payment.Prelude.{
  String, Option, some, none, ◌≡◌, ◌⊎◌, inl, inr, refl, arith, Bool-cases,
}
use peikonpurekkusu_payment.Payment.{
  Uuid, Row, Instrument, Payment, submitted_to_gateway, psp_captured, captured, processing,
  succeeded,
}
use peikonpurekkusu_payment.Accounts
use peikonpurekkusu_payment.Accounts.{
  Code, failed_precondition, Reply, HoldFundsRequest, CaptureFundsRequest, hold_request,
  is_insufficient_funds,
}
use peikonpurekkusu_payment.Psp
use peikonpurekkusu_payment.Psp.{Error, AuthResult, Outcome, PaymentProcessor}
use peikonpurekkusu_payment.Saga.World.{Event, History, World, Env, record_event}
use peikonpurekkusu_payment.Saga.Persist.{
  Tx, of_row, write_outbox, terminal_tx, null_if_empty, coalesce, fx_rate_used,
}
use peikonpurekkusu_payment.Saga.Steps.{
  proceed_if_ok, no_extra, is_transient, act_on_psp_capture, call_psp_capture, step_psp_capture,
  act_on_ledger_capture, call_ledger_capture, step_ledger_capture,
}
use peikonpurekkusu_payment.Saga.Spec.{Trigger, Reason, Edge, saw, Run, rest, Run-one, Run-trans}
use peikonpurekkusu_payment.Saga.Refine.Saves.{transition-Run, transition_with-Run}
use peikonpurekkusu_payment.Saga.Refine.Stages.{
  proceed_if_ok-world, Stands, failing, touching, with_processor-Run, hard,
}

module _ (env : Env) (r : Row) (i : Instrument) where
  abbrev p : Payment
  p = of_row r i

  act_on_psp_capture-Run :
      {c : Trigger}
      → (ref : String) (res : Psp.Result (Unit {0})) (w : World)
      → Stands env r i submitted_to_gateway w
      → r.psp_reference ≡ some ref
      → Memᴰ (Event.psp_captured r.id ref res) w.history
      → Run c w (act_on_psp_capture env p res w).1
  unfolding act_on_psp_capture
  act_on_psp_capture-Run ref (Psp.err e) w s known m = elim (Bool-cases (is_transient e.kind)) [
    | inl away ↦ rw away (touching env r i w s.0)
    | inr refused ↦ rw refused (
        failing env r i "gateway_capture_failed" e.message submitted_to_gateway w s (omega arith)
          (Reason.uncaptured ref e s.2 known m (hard env r i e refused)))
  ]
  act_on_psp_capture-Run ref (Psp.ok _) w (found, live, at) known m = rw proceed_if_ok-world (
      transition-Run env r i w found psp_captured processing no_extra _ refl
        (Edge.capture w.now ref live at known (Memᴰ.tail m) refl) refl)

  call_psp_capture-Run :
      {c : Trigger}
      → (known : Option String) (processor : PaymentProcessor History) (w : World)
      → Stands env r i submitted_to_gateway w
      → r.psp_reference ≡ known
      → Run c w (call_psp_capture env p known processor w).1
  unfolding call_psp_capture of_row
  call_psp_capture-Run none processor w s e = rest
  call_psp_capture-Run (some ref) processor w s e =
      Run-trans (Run-one (saw _ tt refl)) (act_on_psp_capture-Run ref _ _ s e (Memᴰ.head refl))

  pub step_psp_capture-Run :
      {c : Trigger}
      → (w : World) → Stands env r i submitted_to_gateway w
      → Run c w (step_psp_capture env p w).1
  unfolding step_psp_capture of_row
  step_psp_capture-Run w s =
      with_processor-Run env r i (call_psp_capture env p p.psp_reference) submitted_to_gateway
        p.method w s (omega arith) (inr refl) (λ x. call_psp_capture-Run r.psp_reference x w s refl)

  fx_rate_used-cases :
      (w : World)
      → ((fx_rate_used env p w).1 ≡ w) ⊎ ((fx_rate_used env p w).1 ≡ record_event Event.queried w)
  unfolding fx_rate_used
  fx_rate_used-cases w = ground arith

  book-Run :
      {c : Trigger}
      → (req : CaptureFundsRequest) (txn : String) (extra : Tx → Tx) (w : World)
      → ((tx : Tx) → (extra tx).payments ≡ tx.payments)
      → Stands env r i psp_captured w
      → Memᴰ (Event.asked_capture r.id req (Accounts.ok txn)) w.history
      → Run c w (proceed_if_ok (terminal_tx env p captured succeeded extra w)).1
  unfolding terminal_tx null_if_empty coalesce
  book-Run req txn extra w keeps (found, live, at) m = rw proceed_if_ok-world (
      transition_with-Run env r i w found captured succeeded "" "" none extra _ refl live
        (Edge.book w.now live at (req, txn, Memᴰ.tail m) refl) (keeps _))

  act_on_ledger_capture-Run :
      {c : Trigger}
      → (req : CaptureFundsRequest) (reply : Reply String) (w : World)
      → Stands env r i psp_captured w
      → Memᴰ (Event.asked_capture r.id req reply) w.history
      → Run c w (act_on_ledger_capture env p reply w).1
  unfolding act_on_ledger_capture write_outbox
  act_on_ledger_capture-Run req (Accounts.err c) w s m = touching env r i w s.0
  act_on_ledger_capture-Run req (Accounts.ok txn) w s m = elim (fx_rate_used-cases w) [
    | inl e ↦ rw e (book-Run req txn _ w (λ tx. refl) s m)
    | inr e ↦ rw e (
        Run-trans (Run-one (saw Event.queried tt refl))
          (book-Run req txn _ (record_event Event.queried w) (λ tx. refl) s (Memᴰ.tail m)))
  ]

  call_ledger_capture-Run :
      {c : Trigger}
      → (known : Option Uuid) (w : World) → Stands env r i psp_captured w
      → Run c w (call_ledger_capture env p known w).1
  unfolding call_ledger_capture of_row
  call_ledger_capture-Run none w s = rest
  call_ledger_capture-Run (some hold_id) w s =
      Run-trans (Run-one (saw _ (r, s.0, s.1, s.2) refl))
        (act_on_ledger_capture-Run _ _ _ s (Memᴰ.head refl))

  pub step_ledger_capture-Run :
      {c : Trigger}
      → (w : World) → Stands env r i psp_captured w
      → Run c w (step_ledger_capture env p w).1
  unfolding step_ledger_capture
  step_ledger_capture-Run w s = call_ledger_capture-Run _ w s
