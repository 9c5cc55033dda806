-- ===== src/Reconcile/Tests.antt =====
-- Concrete runs of the reconciliation of internal/saga/reconcile.go.
use mathlib.Core.List.{Memᴰ}
use peikonpurekkusu_payment.Prelude.{
  arith, ℕ, ◌≡◌, refl, ◌↔◌, true, false, String, List, [], ◌∷◌, Option, some,
}
use peikonpurekkusu_payment.Prelude.Int.{pos}
use peikonpurekkusu_payment.Payment.{Uuid, Time, Row, captured, succeeded}
use peikonpurekkusu_payment.Saga.Tests.{new_row, world, only_row}
use peikonpurekkusu_payment.Saga.Spec.{Captured}
use peikonpurekkusu_payment.Saga.Invariant.{Inv, IsSound}
use peikonpurekkusu_payment.Accounts
use peikonpurekkusu_payment.Accounts.{CaptureFundsRequest, capture_request}
use peikonpurekkusu_payment.Psp
use peikonpurekkusu_payment.Reconcile.Engine.{unsettled_never}
use peikonpurekkusu_payment.Saga.World.{World, asked_capture, psp_captured}
use peikonpurekkusu_payment.Reconcile.{
  SettlementEntry, SettlementReport, unreachable, answered, clean, drift_detected, coverage_gap,
  unavailable, fetch_settlement, booked_references, settled_refs, count_unsettled, run,
}
use peikonpurekkusu_payment.Reconcile.Clean.{IsClean, run-IsClean}

-- Every time is read as 1000.
abbrev parse_time : String → Option Time
parse_time s = some 1000

abbrev settled : String → SettlementEntry
settled ref = record { reference = ref; amount_minor = pos 900; captured_at = "t"; settled = pos 1 }

abbrev report : List SettlementEntry → SettlementReport
report es = record { report_since = "s"; captures = es }

abbrev booked : String → ℕ → Row
booked ref at_ = record new_row {
  status = succeeded;
  step = captured;
  psp_reference = some ref;
  updated_at = at_;
}

abbrev reads : List SettlementEntry → String → Option SettlementReport
reads es body = some (report es)

conditions :
    ((run parse_time
        (reads (settled "a" ∷ []))
        (answered 200 "")
        true
        70000
        60000
        (booked "a" 2000 ∷ [])).status
      ≡ clean)
    × ((run parse_time (reads (settled "a" ∷ [])) (answered 200 "") true 70000 60000 []).status
        ≡ drift_detected)
    × ((run parse_time (reads (settled "a" ∷ [])) (answered 200 "") true 20000 60000 []).status
        ≡ clean)
    × ((run parse_time (reads []) (answered 200 "") true 70000 60000 (booked "a" 2000 ∷ [])).status
        ≡ drift_detected)
    × ((run parse_time (reads []) (answered 200 "") true 70000 60000 (booked "a" 999 ∷ [])).status
        ≡ coverage_gap)
    × ((run parse_time (reads []) unreachable true 70000 60000 []).status ≡ unavailable)
    × ((run parse_time (reads []) (answered 200 "") false 70000 60000 []).status ≡ unavailable)
unfolding run
conditions = (refl, refl, refl, refl, refl, refl, refl)

run-IsClean_example :
    ((run parse_time
        (reads (settled "a" ∷ []))
        (answered 200 "")
        true
        70000
        60000
        (booked "a" 2000 ∷ [])).status
      ≡ clean)
    ↔ IsClean parse_time 70000 60000 1000 (booked "a" 2000 ∷ []) (settled "a" ∷ [])
unfolding fetch_settlement
run-IsClean_example =
    run-IsClean parse_time 70000 60000 (reads (settled "a" ∷ [])) (answered 200 "")
      (booked "a" 2000 ∷ []) (report (settled "a" ∷ [])) 1000 refl refl

abbrev collected : Row
collected = record (booked "a" 2000) { hold_id = some 77 }

abbrev request : CaptureFundsRequest
unfolding capture_request
request = capture_request "1" "77" (pos 900) "EUR"

-- A payment that the processor has captured and the ledger has booked.
abbrev settled_world : World
settled_world = record (world collected) {
  history = asked_capture 1 request (Accounts.ok "txn") ∷ psp_captured 1 "a" (Psp.ok tt) ∷ [];
}

collected-IsSound : IsSound settled_world.history collected
collected-IsSound = record {
  live = λ x. absurd (cc);
  parked = λ x. absurd (cc);
  settled = λ x. (refl, (request, "txn", Memᴰ.head refl));
  closed = λ x. absurd (cc);
  known = (λ x. cc, λ x. cc);
  held = λ lo hi. refl;
  taken = λ x. ("a", refl, Memᴰ.tail (Memᴰ.head refl));
}

settled_world-Inv : Inv settled_world
settled_world-Inv = record {
  rows = λ k x found. rw (only_row k collected x found) collected-IsSound;
  ordered = (("a", Memᴰ.head refl), tt);
  keyed = (tt, tt);
}

a_is_listed :
    (id : Uuid) (ref : String)
    → Captured id ref settled_world.history
    → (e : SettlementEntry) × Memᴰ e (settled "a" ∷ []) × (e.reference ≡ ref)
a_is_listed id ref (Memᴰ.head e) = absurd (cc)
a_is_listed id ref (Memᴰ.tail (Memᴰ.head e)) = (settled "a", Memᴰ.head refl, ground (arith, e))
a_is_listed id ref (Memᴰ.tail (Memᴰ.tail m)) = elim m [ ]

unsettled_never_example :
    count_unsettled
      (settled_refs (settled "a" ∷ []))
      (booked_references 1000 settled_world.payments).0
    ≡ 0
unsettled_never_example =
    unsettled_never settled_world 1000 (settled "a" ∷ []) settled_world-Inv a_is_listed
