-- ===== src/Saga/Tests/Witnesses.antt =====
-- The theorems on the engine of internal/saga/saga.go, applied to the small database of the tests.
use peikonpurekkusu_payment.Prelude.{
  ℕ, ◌+◌, ◌≤◌, String, List, [], ◌∷◌, some, none, true, false, ◌≡◌, ◌≢◌, ◌⊎◌, inl, inr, refl, arith,
}
use peikonpurekkusu_payment.Payment.{
  Step, Row, Payment, funds_held, succeeded, failed, requires_action,
}
use peikonpurekkusu_payment.Payment.Table.{lookup, lookup_instrument, put}
use peikonpurekkusu_payment.Prelude.Int.{pos}
use peikonpurekkusu_payment.Prelude.Text.{decimal}
use peikonpurekkusu_payment.Fraud.{screen}
use peikonpurekkusu_payment.Accounts.{
  hold_request, capture_request, release_request, is_insufficient_funds,
}
use peikonpurekkusu_payment.Psp.Factory.{for_method}
use peikonpurekkusu_payment.Psp
use peikonpurekkusu_payment.Psp.{Error, Kind, unavailable, plain}
use peikonpurekkusu_payment.Saga.World.{World, queried, psp_captured, record_event}
use peikonpurekkusu_payment.Saga.Persist.{
  of_row, load, touched, fail_and_compensate, touch, transition, terminal_tx, fx_rate_used,
  write_outbox,
}
use peikonpurekkusu_payment.Saga.Steps.{
  act_on_authorize, act_on_psp_capture, step_fraud, step_hold, step_submit, step_psp_capture,
  step_ledger_capture,
}
use peikonpurekkusu_payment.Saga.Drive.{
  crashed, out_of_fuel, enough_fuel, dispatch, advance, complete_from_gateway, resume_after_step_up,
}
use peikonpurekkusu_payment.Saga.Sweep.{submission_due, capture_due, expire_stale_wallets}
use peikonpurekkusu_payment.Saga.Spec.{reported, stepped_up, Run, Captured, Booked}
use peikonpurekkusu_payment.Saga.Invariant.{Inv}
use peikonpurekkusu_payment.Saga.Life.{
  Operation, advances, completes, resumes, scans_stale, expires_submissions, expires_captures,
  waits, perform_all, perform_all-Inv, succeeded_is_collected,
}
use peikonpurekkusu_payment.Saga.Settled.{terminal_is_final}
use peikonpurekkusu_payment.Saga.Refine.Operations.{inbound-Run}
use peikonpurekkusu_payment.Saga.Refine.Termination.{advance_terminates}
use peikonpurekkusu_payment.Saga.Refine.Panics.{GivesUuids, advance_never_crashes}
use peikonpurekkusu_payment.Saga.Compensate.{
  Failed, Untouched, fail_and_compensate-atomic, fail_and_compensate-any_step,
}
use peikonpurekkusu_payment.Saga.Gaps.{wallets_never_expire, lost_decline, retry_postpones}
use peikonpurekkusu_payment.Saga.Tests.{
  card_instrument, world-Inv, good, down, new_row, world, start,
}

abbrev held_row : Row
held_row = record new_row { step = funds_held; hold_id = some 77 }

abbrev taken_row : Row
taken_row = record held_row { step = Step.psp_captured; psp_reference = some "ref" }

abbrev done_row : Row
done_row = record new_row { step = Step.done; status = failed }

abbrev parked_row : Row
parked_row = record new_row { step = Step.fraud_screened; status = requires_action }

abbrev taken : World
taken = record (world taken_row) { history = psp_captured 1 "ref" (Psp.ok tt) ∷ [] }

start-Inv : Inv start
start-Inv = world-Inv new_row (ground arith)

done-Inv : Inv (world done_row)
done-Inv = world-Inv done_row (ground arith)

abbrev a_day : List Operation
a_day =
    advances 1
    ∷ waits 40000
    ∷ scans_stale 30000
    ∷ advances 1
    ∷ completes 1 true "ref" ""
    ∷ resumes 1 2
    ∷ expires_submissions 300
    ∷ expires_captures 300
    ∷ []

abbrev lost : Error
lost = record { kind = unavailable; message = "connection refused" }

found_start : lookup 1 start.payments ≡ some new_row
unfolding lookup
found_start = refl

found_held : lookup 1 (world held_row).payments ≡ some held_row
unfolding lookup
found_held = refl

found_taken : lookup 1 taken.payments ≡ some taken_row
unfolding lookup
found_taken = refl

found_done : lookup 1 (world done_row).payments ≡ some done_row
unfolding lookup
found_done = refl

abbrev payment : Row → Payment
payment r = of_row r (card_instrument)

loaded_new : load good 1 start ≡ (inr (payment new_row), record_event queried start)
unfolding load lookup lookup_instrument of_row
loaded_new = refl

uuids_good : GivesUuids good
uuids_good h req s e = (77, refl)

perform_all-Inv_example : Inv (perform_all good a_day start)
perform_all-Inv_example = perform_all-Inv good a_day start start-Inv

advance_terminates_example : (advance good enough_fuel 1 start).0 ≢ out_of_fuel
advance_terminates_example = advance_terminates good 1 start

advance_never_crashes_example : (advance good enough_fuel 1 start).0 ≢ crashed
advance_never_crashes_example = advance_never_crashes good uuids_good enough_fuel 1 start start-Inv

terminal_is_final_example :
    (n : Row) × (lookup 1 (perform_all good a_day (world done_row)).payments ≡ some n)
    × (n.status ≡ failed)
terminal_is_final_example =
    terminal_is_final good a_day (world done_row) 1 done_row failed done-Inv found_done (inr refl)
      refl

inbound-Run_example :
    Run (reported 1 true "ref" "") start (complete_from_gateway good 1 true "ref" "" start).2
    × Run (stepped_up 1 2) start (resume_after_step_up good 1 2 start).2
inbound-Run_example = inbound-Run good 1 2 true "ref" "" start

fail_and_compensate-atomic_example :
    Failed good
      (payment held_row)
      "code"
      "detail"
      (world held_row)
      (fail_and_compensate good (payment held_row) "code" "detail" (world held_row))
    ⊎ Untouched good
        (payment held_row)
        "code"
        "detail"
        (world held_row)
        (fail_and_compensate good (payment held_row) "code" "detail" (world held_row))
fail_and_compensate-atomic_example =
    fail_and_compensate-atomic good (payment held_row) "code" "detail" (world held_row)

-- The snapshot is of a payment that had its hold; the row has been captured since.
fail_and_compensate-any_step_example :
    Failed good
      (payment held_row)
      "code"
      "detail"
      taken
      (fail_and_compensate good (payment held_row) "code" "detail" taken)
unfolding of_row
fail_and_compensate-any_step_example =
    fail_and_compensate-any_step good (payment held_row) "code" "detail" taken taken_row found_taken
      refl refl

wallets_never_expire_example : expire_stale_wallets good 300 start ≡ record_event queried start
wallets_never_expire_example = wallets_never_expire good 300 start

lost_decline_example :
    let (_, e, u) = complete_from_gateway down 1 false "" "do_not_honor" start in
    (u.payments ≡ start.payments)
    × (u.outbox ≡ start.outbox)
    × (e ≡ (elim ((load down 1 start).0) [ inl x ↦ some x | inr _ ↦ none ]))
lost_decline_example = lost_decline down 1 "" "do_not_honor" start (λ h. refl)

retry_postpones_example :
    (lookup 1 (act_on_authorize good (payment held_row) (Psp.err lost) (world held_row)).1.payments
      ≡ some (touched (world held_row) held_row))
    × (lookup 1
          (act_on_psp_capture good (payment held_row) (Psp.err lost) (world held_row)).1.payments
        ≡ some (touched (world held_row) held_row))
    × ((now timeout : ℕ)
        → now ≤ 100 + timeout
        → (submission_due now timeout (touched (world held_row) held_row) ≡ false)
          × (capture_due now timeout (touched (world held_row) held_row) ≡ false))
unfolding of_row
retry_postpones_example =
    retry_postpones good (payment held_row) held_row lost (world held_row) found_held refl refl

abbrev settled_row : Row
settled_row = record new_row {
  status = succeeded;
  step = Step.captured;
  hold_id = some 77;
  psp_reference = some "ref";
  risk_score = some (pos 7);
  version = 6;
  updated_at = 100;
}

found_settled : lookup 1 (perform_all good (advances 1 ∷ []) start).payments ≡ some settled_row
unfolding perform_all advance dispatch step_fraud step_hold step_submit step_psp_capture
    step_ledger_capture touch transition terminal_tx fail_and_compensate fx_rate_used for_method
    screen hold_request capture_request release_request load lookup lookup_instrument put
    write_outbox decimal is_insufficient_funds
found_settled = refl

succeeded_is_collected_example :
    (ref : String) × (settled_row.psp_reference ≡ some ref)
    × Captured 1 ref (perform_all good (advances 1 ∷ []) start).history
    × Booked 1 (perform_all good (advances 1 ∷ []) start).history
succeeded_is_collected_example =
    succeeded_is_collected good (advances 1 ∷ []) start 1 settled_row start-Inv found_settled refl

resumed : (resume_after_step_up good 1 2 (world parked_row)).0 ≡ none
unfolding resume_after_step_up transition load lookup lookup_instrument put
resumed = refl
