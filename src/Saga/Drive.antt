-- ===== src/Saga/Drive.antt =====
-- `Advance` and the operations of internal/saga/saga.go that start or resume it.
use peikonpurekkusu_payment.Prelude.{
  ℕ, zero, suc, Bool, true, false, not, ◌||◌, String, List, [], ◌∷◌, Option, none, some, ◌⊎◌, inl,
  inr, ◌==◌, if◌then◌else◌,
}
use peikonpurekkusu_payment.Payment.{
  Uuid, Step, Payment, requested, fraud_screened, funds_held, submitted_to_gateway, psp_captured,
  processing, is_processing, is_requires_action, step_eq,
}
use peikonpurekkusu_payment.Saga.World.{World, Env}
use peikonpurekkusu_payment.Saga.Persist.{
  SagaError, not_resumable, load, transition, fail_and_compensate,
}
use peikonpurekkusu_payment.Saga.Steps.{
  Progress, proceed, halt, panicked, no_extra, set_row, step_fraud, step_hold, step_submit,
  step_psp_capture, step_ledger_capture,
}

-- How a run of `Advance` ends. `out_of_fuel` is no end of the program's.
pub data Ended : Type 0 where
  returned crashed out_of_fuel : Ended

-- Five steps and the load that finds the payment finished.
abbrev pub enough_fuel : ℕ
enough_fuel = 6

module _ (env : Env) where
  -- A card payment goes on inline; a wallet payment waits for its completion event.
  unfoldable pub step_submitted : Payment → World → Progress × World
  unfolding step_psp_capture
  step_submitted p w = elim (p.psp_reference) [
    | none ↦ (halt, w)
    | some _ ↦ step_psp_capture env p w
  ]

  -- The switch of `Advance` on the step.
  unfoldable pub dispatch : Step → Payment → World → Progress × World
  unfolding step_submitted
  dispatch requested p w = step_fraud env p w
  dispatch fraud_screened p w = step_hold env p w
  dispatch funds_held p w = step_submit env p w
  dispatch submitted_to_gateway p w = step_submitted p w
  dispatch psp_captured p w = step_ledger_capture env p w
  dispatch _ p w = (halt, w)

  -- One round of the loop of `Advance`: what follows the step, the test of the status, and the
  -- load. `again` is the rest of the loop.
  unfoldable pub after_step : (World → Ended × World) → Progress × World → Ended × World
  after_step again (proceed, w) = again w
  after_step again (halt, w) = (returned, w)
  after_step again (panicked, w) = (crashed, w)

  unfoldable pub run_step : (World → Ended × World) → Bool → Payment → World → Ended × World
  unfolding after_step
  run_step again false p w = (returned, w)
  run_step again true p w = after_step again (dispatch p.step p w)

  unfoldable pub after_load :
      (World → Ended × World) → (SagaError ⊎ Payment) × World → Ended × World
  unfolding run_step
  after_load again (inl e, w) = (returned, w)
  after_load again (inr p, w) = run_step again (is_processing p.status) p w

  unfoldable pub advance : ℕ → Uuid → World → Ended × World
  unfolding after_load
  advance zero id w = (out_of_fuel, w)
  advance (suc fuel) id w = after_load (advance fuel id) (load env id w)

  -- What `CompleteFromGateway` does once its transition has been tried.
  unfoldable pub then_advance : Uuid → Option SagaError × World → Ended × Option SagaError × World
  then_advance id (some e, w) = (returned, some e, w)
  then_advance id (none, w) = let (ended, w') = advance enough_fuel id w in (ended, none, w')

  unfoldable pub apply_completion :
      Payment → Bool → String → String → World → Ended × Option SagaError × World
  unfolding then_advance
  apply_completion p approved psp_ref decline_code w =
      if not (is_processing p.status) || not (step_eq p.step submitted_to_gateway)
      then (returned, none, w)
      else if approved
      then then_advance p.id (
          transition env p submitted_to_gateway processing
            (set_row p.id (λ r. record r { psp_reference = some psp_ref })) w)
      else (returned, none, fail_and_compensate env p "gateway_declined" decline_code w)

  unfoldable pub complete_loaded :
      Bool → String → String → (SagaError ⊎ Payment) × World → Ended × Option SagaError × World
  unfolding apply_completion
  complete_loaded approved psp_ref decline_code (inl e, w) = (returned, some e, w)
  complete_loaded approved psp_ref decline_code (inr p, w) =
      apply_completion p approved psp_ref decline_code w

  unfoldable pub complete_from_gateway :
      Uuid → Bool → String → String → World → Ended × Option SagaError × World
  unfolding complete_loaded
  complete_from_gateway id approved psp_ref decline_code w =
      complete_loaded approved psp_ref decline_code (load env id w)

  -- `go e.Advance` starts a goroutine: the payments whose goroutines start are a result.
  unfoldable pub then_spawn : Uuid → Option SagaError × World → Option SagaError × List Uuid × World
  then_spawn id (some e, w) = (some e, [], w)
  then_spawn id (none, w) = (none, id ∷ [], w)

  unfoldable pub resume_loaded :
      Uuid → (SagaError ⊎ Payment) × World → Option SagaError × List Uuid × World
  unfolding then_spawn
  resume_loaded user_id (inl e, w) = (some e, [], w)
  resume_loaded user_id (inr p, w) =
      if not (p.user_id == user_id) || not (is_requires_action p.status)
      then (some not_resumable, [], w)
      else then_spawn p.id (transition env p fraud_screened processing no_extra w)

  unfoldable pub resume_after_step_up : Uuid → Uuid → World → Option SagaError × List Uuid × World
  unfolding resume_loaded
  resume_after_step_up payment_id user_id w = resume_loaded user_id (load env payment_id w)
