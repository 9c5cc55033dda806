-- ===== src/Reconcile.antt =====
-- internal/saga/reconcile.go: the comparison of the processor's settlement report with the ledger.
-- The JSON decoder and the reader of RFC 3339 times are arguments. A map is a list of its keys.
pub mod Drift
pub mod Ledger
pub mod Clean
pub mod Engine
mod Tests
use text.Mathlib.Text.{◌==◌ as str_eq}
use peikonpurekkusu_payment.Prelude.{
  ℕ, zero, suc, ◌+◌, ◌-◌, Bool, true, false, not, ◌&&◌, ◌||◌, String, List, [], ◌∷◌, Option, none,
  some, is_some, ltb, leb, ◌==◌, ◌⊎◌, inl, inr, if◌then◌else◌,
}
use peikonpurekkusu_payment.Prelude.Int.{ℤ, pos, ltb_ℤ}
use peikonpurekkusu_payment.Payment.{Time, Row, Step, captured, step_eq}

pub record SettlementEntry : Type 0 where
  pub reference : String
  pub amount_minor : ℤ
  pub captured_at : String
  pub settled : ℤ

pub record SettlementReport : Type 0 where
  pub report_since : String
  pub captures : List SettlementEntry

-- The processor's answer to a GET.
pub data Answer : Type 0 where
  unreachable : Answer
  answered : ℕ → String → Answer

pub data Condition : Type 0 where
  clean drift_detected coverage_gap unavailable : Condition

-- The texts of the detail are left out.
pub record Snapshot : Type 0 where
  pub status : Condition
  pub ran_at : Time
  pub report_since : String
  pub settled_not_booked : ℕ
  pub booked_not_settled : ℕ
  pub double_settled : ℕ
  pub out_of_coverage : ℕ

unfoldable pub mem_text : String → List String → Bool
mem_text k [] = false
mem_text k (x ∷ xs) = str_eq x k || mem_text k xs

-- A key of a map is there once.
unfoldable pub add_text : String → List String → List String
unfolding mem_text
add_text k xs = if mem_text k xs then xs else k ∷ xs

-- One row of `bookedReferences`, its query's condition first.
unfoldable pub book_row : Time → Row → List String × ℕ → List String × ℕ
unfolding add_text
book_row from r (booked, out) =
    if step_eq r.step captured
    then (elim (r.psp_reference) [
      | none ↦ (booked, out)
      | some ref ↦ (if ltb r.updated_at from then (booked, out + 1) else (add_text ref booked, out))
    ])
    else (booked, out)

unfoldable pub booked_references : Time → List Row → List String × ℕ
unfolding book_row
booked_references from [] = ([], 0)
booked_references from (r ∷ rs) = book_row from r (booked_references from rs)

unfoldable pub settled_refs : List SettlementEntry → List String
unfolding add_text
settled_refs [] = []
settled_refs (e ∷ es) = add_text e.reference (settled_refs es)

unfoldable pub count_double : List SettlementEntry → ℕ
count_double [] = 0
count_double (e ∷ es) =
    let rest = count_double es in if ltb_ℤ (pos 1) e.settled then suc rest else rest

module _ (parse_time : String → Option Time) where
  -- Older than the grace period: a time that cannot be read is not.
  unfoldable pub is_due : Time → Time → SettlementEntry → Bool
  is_due now grace e = elim (parse_time e.captured_at) [
    | none ↦ false
    | some at_ ↦ leb (at_ + grace) now
  ]

  unfoldable pub count_unbooked : Time → Time → List String → List SettlementEntry → ℕ
  unfolding is_due mem_text
  count_unbooked now grace booked [] = 0
  count_unbooked now grace booked (e ∷ es) =
      let rest = count_unbooked now grace booked es in
      if is_due now grace e && not (mem_text e.reference booked) then suc rest else rest

unfoldable pub count_unsettled : List String → List String → ℕ
unfolding mem_text
count_unsettled refs [] = 0
count_unsettled refs (b ∷ bs) =
    let rest = count_unsettled refs bs in if mem_text b refs then rest else suc rest

unfoldable pub condition : ℕ → ℕ → ℕ → ℕ → Condition
condition unbooked unsettled double out =
    if ltb 0 unbooked || ltb 0 unsettled || ltb 0 double
    then drift_detected
    else if ltb 0 out
    then coverage_gap
    else clean

unfoldable pub no_report : Time → Snapshot
no_report now = record {
  status = unavailable;
  ran_at = now;
  report_since = "";
  settled_not_booked = 0;
  booked_not_settled = 0;
  double_settled = 0;
  out_of_coverage = 0;
}

module _ (parse_time : String → Option Time) (decode : String → Option SettlementReport) where
  unfoldable pub fetch_settlement : Answer → Option SettlementReport
  fetch_settlement unreachable = none
  fetch_settlement (answered code body) = if code == 200 then decode body else none

  unfoldable pub compare_all : Time → Time → SettlementReport → List String × ℕ → Snapshot
  unfolding count_unbooked count_unsettled settled_refs count_double condition
  compare_all now grace report (booked, out) =
      let unbooked = count_unbooked parse_time now grace booked report.captures in
      let unsettled = count_unsettled (settled_refs report.captures) booked in
      let double = count_double report.captures in
      record {
        status = condition unbooked unsettled double out;
        ran_at = now;
        report_since = report.report_since;
        settled_not_booked = unbooked;
        booked_not_settled = unsettled;
        double_settled = double;
        out_of_coverage = out;
      }

  unfoldable pub with_report : Bool → Time → Time → List Row → SettlementReport → Snapshot
  unfolding compare_all no_report booked_references
  with_report query_ok now grace rows report = elim (parse_time report.report_since) [
    | none ↦ no_report now
    | some from ↦
        (if query_ok
          then compare_all now grace report (booked_references from rows)
          else no_report now)
  ]

  -- One run, from the processor's answer and the rows that the query reads after it.
  unfoldable pub run : Answer → Bool → Time → Time → List Row → Snapshot
  unfolding with_report fetch_settlement
  run answer query_ok now grace rows = elim (fetch_settlement answer) [
    | none ↦ no_report now
    | some report ↦ with_report query_ok now grace rows report
  ]
