-- ===== src/Saga/Refine/Operations.antt =====
-- `Advance`, the completion, the resumption and the sweepers of internal/saga/saga.go, each as a
-- run of the specification from any world at all.
use peikonpurekkusu_payment.Prelude.{
  ℕ, zero, suc, String, Option, some, none, Bool, true, false, ◌≡◌, ◌⊎◌, inl, inr, refl, arith,
  Bool-cases, Option-cases, ap, sym, ◌∙◌, not, ◌||◌, ◌==◌, if◌then◌else◌,
}
use peikonpurekkusu_payment.Payment.{
  Uuid, Step, Row, Instrument, Payment, requested, fraud_screened, funds_held, submitted_to_gateway,
  psp_captured, processing, requires_action, is_processing, is_requires_action, step_eq,
}
use peikonpurekkusu_payment.Payment.Table.{lookup, lookup_id, lookup_instrument, lookup_own}
use peikonpurekkusu_payment.Saga.World.{queried, World, Env, record_event}
use peikonpurekkusu_payment.Saga.Persist.{
  SagaError, of_row, find_payment, load, transition, fail_and_compensate,
}
use peikonpurekkusu_payment.Saga.Steps.{Progress, proceed, halt, panicked, no_extra, set_row}
use peikonpurekkusu_payment.Saga.Drive.{
  Ended, step_submitted, dispatch, after_step, run_step, advance, then_advance, apply_completion,
  complete_from_gateway, then_spawn, resume_loaded, resume_after_step_up,
}
use peikonpurekkusu_payment.Saga.Spec.{
  Trigger, reported, stepped_up, Reason, Edge, saw, Run, rest, Run-one, Run-trans,
}
use peikonpurekkusu_payment.Saga.Refine.Saves.{transition-Run}
use peikonpurekkusu_payment.Saga.Refine.Compensation.{fail_and_compensate-Run}
use peikonpurekkusu_payment.Saga.Refine.Stages.{
  Stands, setting, step_fraud-Run, step_hold-Run, step_submit-Run,
}
use peikonpurekkusu_payment.Saga.Refine.Captures.{step_psp_capture-Run, step_ledger_capture-Run}

-- A loaded payment is a row of the table, joined with an instrument.
abbrev pub IsRowOf : Uuid → World → Payment → Type 0
IsRowOf id w p =
    (r : Row) × (i : Instrument) × (lookup id w.payments ≡ some r)
    × (lookup r.id w.payments ≡ some r)
    × (p ≡ of_row r i)

find_payment-IsRowOf :
    (id : Uuid) (w : World) (p : Payment) → find_payment id w ≡ some p → IsRowOf id w p
unfolding find_payment
find_payment-IsRowOf id w p h = elim (Option-cases (lookup id w.payments)) [
  | inl absent ↦ absurd (ground arith)
  | inr (r, found) ↦ elim (Option-cases (lookup_instrument r.instrument_id w.instruments)) [
    | inl absent ↦ absurd (ground arith)
    | inr (i, joined) ↦ (r, i, found, lookup_own id w.payments r found, ground arith)
  ]
]

module _ (env : Env) where
  -- A load reads once, and gives an error or a row of the table.
  pub load-cases :
      (id : Uuid) (w : World)
      → ((e : SagaError) × (load env id w ≡ (inl e, record_event queried w)))
        ⊎ ((p : Payment) × IsRowOf id w p × (load env id w ≡ (inr p, record_event queried w)))
  unfolding load
  load-cases id w = elim (Bool-cases (env.query_ok w.history)) [
    | inr down ↦ inl (SagaError.database, rw down)
    | inl up ↦ elim (Option-cases (find_payment id w)) [
      | inl absent ↦ inl (SagaError.no_rows, rw (up, absent))
      | inr (p, found) ↦ inr (p, find_payment-IsRowOf id w p found, rw (up, found))
    ]
  ]

  see : {c : Trigger} → (w : World) → Run c w (record_event queried w)
  see w = Run-one (saw queried tt refl)

  module _ (r : Row) (i : Instrument) where
    step_submitted-Run :
        {c : Trigger}
        → (w : World) → Stands env r i submitted_to_gateway w
        → Run c w (step_submitted env (of_row r i) w).1
    unfolding step_submitted of_row
    step_submitted-Run w s = elim (Option-cases r.psp_reference) [
      | inl waits ↦ rw (waits, step_submitted) rest
      | inr (ref, known) ↦ rw (known, step_submitted) (step_psp_capture-Run env r i w s)
    ]

    pub dispatch-Run :
        {c : Trigger}
        → (step : Step) (w : World) → Stands env r i step w
        → Run c w (dispatch env step (of_row r i) w).1
    unfolding dispatch
    dispatch-Run requested w s = step_fraud-Run env r i w s
    dispatch-Run fraud_screened w s = step_hold-Run env r i w s
    dispatch-Run funds_held w s = step_submit-Run env r i w s
    dispatch-Run submitted_to_gateway w s = step_submitted-Run w s
    dispatch-Run psp_captured w s = step_ledger_capture-Run env r i w s
    dispatch-Run _ w s = rest

    status_of : is_processing r.status ≡ true → r.status ≡ processing
    status_of h = ground arith

    after_step-Run :
        {c : Trigger}
        → (again : World → Ended × World) (w : World) (x : Progress × World)
        → ((u : World) → Run c u (again u).1)
        → Run c w x.1
        → Run c w (after_step env again x).1
    unfolding after_step
    after_step-Run again w (proceed, u) keeps m = Run-trans m (keeps u)
    after_step-Run again w (halt, u) keeps m = m
    after_step-Run again w (panicked, u) keeps m = m

    run_step-Run :
        {c : Trigger}
        → (again : World → Ended × World) (w : World) → lookup r.id w.payments ≡ some r
        → ((u : World) → Run c u (again u).1)
        → Run c w (run_step env again (is_processing (of_row r i).status) (of_row r i) w).1
    unfolding run_step of_row
    run_step-Run again w found keeps = elim (Bool-cases (is_processing r.status)) [
      | inr over ↦ rw over rest
      | inl live ↦ rw live (
          after_step-Run again w (dispatch env r.step (of_row r i) w) keeps
            (dispatch-Run r.step w (found, status_of live, refl)))
    ]

  pub advance-Run :
      {c : Trigger} → (fuel : ℕ) (id : Uuid) (w : World) → Run c w (advance env fuel id w).1
  unfolding advance
  advance-Run zero id w = rest
  advance-Run (suc fuel) id w = elim (load-cases id w) [
    | inl (e, eq) ↦ rw (eq, advance) (see w)
    | inr (p, (r, i, _, found, same), eq) ↦
        rw (eq, advance)
          (rw same (
            Run-trans (see w) (
              run_step-Run r i (advance env fuel id) (record_event queried w) found
                (λ u. advance-Run fuel id u))))
  ]

  then_advance-Run :
      {c : Trigger}
      → (id : Uuid) (w : World) (x : Option SagaError × World) → Run c w x.1
      → Run c w (then_advance env id x).2
  unfolding then_advance
  then_advance-Run id w (some e, u) m = m
  then_advance-Run id w (none, u) m = Run-trans m (advance-Run _ id u)

  then_spawn-world : (id : Uuid) (x : Option SagaError × World) → (then_spawn env id x).2 ≡ x.1
  unfolding then_spawn
  then_spawn-world id (some e, u) = refl
  then_spawn-world id (none, u) = refl

  module _ (r : Row) (i : Instrument) where
    complete_edge :
        {c : Trigger}
        → (ref code : String) (w : World) → c ≡ reported r.id true ref code
        → Stands env r i submitted_to_gateway w
        → Run c w
            (transition env
              (of_row r i)
              submitted_to_gateway
              processing
              (set_row (of_row r i).id (λ n. record n { psp_reference = some ref }))
              w).1
    unfolding of_row
    complete_edge ref code w told (found, live, at) =
        setting env r i (λ n. record n { psp_reference = some ref }) submitted_to_gateway processing
          _ w found (λ n. refl) (λ tx. refl) (Edge.complete w.now ref code live at told refl)

    -- The test at the head of `CompleteFromGateway`.
    awaited :
        (not (is_processing r.status) || not (step_eq r.step submitted_to_gateway)) ≡ false
        → (r.status ≡ processing) × (r.step ≡ submitted_to_gateway)
    awaited h = ground arith

    act_on_completion-Run :
        {c : Trigger}
        → (approved : Bool) (ref code : String) (w : World) → c ≡ reported r.id approved ref code
        → Stands env r i submitted_to_gateway w
        → Run c w
            (if approved
              then then_advance env (of_row r i).id (
                  transition env
                    (of_row r i)
                    submitted_to_gateway
                    processing
                    (set_row (of_row r i).id (λ n. record n { psp_reference = some ref }))
                    w)
              else (
                Ended.returned,
                none,
                fail_and_compensate env (of_row r i) "gateway_declined" code w,
              )).2
    act_on_completion-Run true ref code w told s =
        then_advance-Run (of_row r i).id w _ (complete_edge ref code w told s)
    act_on_completion-Run false ref code w told (found, live, at) =
        fail_and_compensate-Run env r i "gateway_declined" code w found live (rw at (omega arith))
          (Reason.reported_declined ref code at told)

    apply_completion-Run :
        {c : Trigger}
        → (approved : Bool) (ref code : String) (w : World) → c ≡ reported r.id approved ref code
        → lookup r.id w.payments ≡ some r
        → Run c w (apply_completion env (of_row r i) approved ref code w).2
    unfolding apply_completion of_row
    apply_completion-Run approved ref code w told found =
        elim (Bool-cases
          (not (is_processing r.status) || not (step_eq r.step submitted_to_gateway))) [
            | inl over ↦ rw over rest
            | inr waits ↦ rw waits (
                act_on_completion-Run approved ref code w told
                  (found, (awaited waits).0, (awaited waits).1))
          ]

    resume_edge :
        {c : Trigger}
        → (w : World) → c ≡ stepped_up r.id r.user_id
        → lookup r.id w.payments ≡ some r
        → r.status ≡ requires_action
        → Run c w (transition env (of_row r i) fraud_screened processing no_extra w).1
    resume_edge w own found st =
        transition-Run env r i w found fraud_screened processing no_extra _ refl
          (Edge.resume w.now st own refl) refl

    parked_status :
        (user_id : Uuid)
        → (not (r.user_id == user_id) || not (is_requires_action r.status)) ≡ false
        → (r.status ≡ requires_action) × (r.user_id ≡ user_id)
    parked_status user_id h = (ground arith, ground arith)

    resume_loaded-Run :
        {c : Trigger}
        → (user_id : Uuid) (w : World) → c ≡ stepped_up r.id user_id
        → lookup r.id w.payments ≡ some r
        → Run c w (resume_loaded env user_id (inr (of_row r i), w)).2
    unfolding resume_loaded of_row
    resume_loaded-Run user_id w asks found =
        elim (Bool-cases (not (r.user_id == user_id) || not (is_requires_action r.status))) [
          | inl other ↦ rw other rest
          | inr waits ↦ rw waits (
              rw then_spawn-world (
                resume_edge w (asks ∙ ap (stepped_up r.id) (sym (parked_status user_id waits).1))
                  found (parked_status user_id waits).0))
        ]

  -- A completion event keeps to the specification, whatever it says and of whatever payment.
  pub complete_from_gateway-Run :
      (id : Uuid) (approved : Bool) (ref code : String) (w : World)
      → Run (reported id approved ref code) w (complete_from_gateway env id approved ref code w).2
  unfolding complete_from_gateway
  complete_from_gateway-Run id approved ref code w = elim (load-cases id w) [
    | inl (e, eq) ↦ rw (eq, complete_from_gateway) (see w)
    | inr (p, (r, i, at, found, same), eq) ↦
        rw (eq, complete_from_gateway)
          (rw same (
            Run-trans (see w) (
              apply_completion-Run r i approved ref code _
                (ap (λ k. reported k approved ref code) (sym (lookup_id id w.payments r at)))
                found)))
  ]

  -- A resumption keeps to the specification, of whatever payment and whoever asks for it.
  pub resume_after_step_up-Run :
      (id user_id : Uuid) (w : World)
      → Run (stepped_up id user_id) w (resume_after_step_up env id user_id w).2
  unfolding resume_after_step_up
  resume_after_step_up-Run id user_id w = elim (load-cases id w) [
    | inl (e, eq) ↦ rw (eq, resume_after_step_up) (see w)
    | inr (p, (r, i, at, found, same), eq) ↦
        rw (eq, resume_after_step_up)
          (rw same (
            Run-trans (see w) (
              resume_loaded-Run r i user_id _
                (ap (λ k. stepped_up k user_id) (sym (lookup_id id w.payments r at))) found)))
  ]

  -- `CompleteFromGateway`, for any payment and outcome, is a run of the specification on account of
  -- just that report: it saves the reference of an approval of that payment, or fails it with the
  -- code of a decline, and goes on as `Advance` may. `ResumeAfterStepUp` is one on account of just
  -- that user for just that payment: it resumes none but the user's own.
  pub inbound-Run :
      (id user_id : Uuid) (approved : Bool) (ref code : String) (w : World)
      → Run (reported id approved ref code) w (complete_from_gateway env id approved ref code w).2
        × Run (stepped_up id user_id) w (resume_after_step_up env id user_id w).2
  inbound-Run id user_id approved ref code w =
      (complete_from_gateway-Run id approved ref code w, resume_after_step_up-Run id user_id w)
