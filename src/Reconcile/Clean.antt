-- ===== src/Reconcile/Clean.antt =====
-- The verdict of internal/saga/reconcile.go against what it is to find: money collected and not
-- booked, money booked and not collected, and money collected twice.
use mathlib.Core.List.{Memᴰ}
use mathlib.Core.Path.{subst}
use text.Mathlib.Text.{◌==◌ as str_eq}
use text.Mathlib.TextEquality.{eq_iff}
use text.Mathlib.TextPositions.{eq_refl}
use peikonpurekkusu_payment.Prelude.{
  ℕ, ◌≡◌, refl, inl, inr, ◌↔◌, arith, true, false, not, ◌&&◌, ◌||◌, String, List, [], ◌∷◌, Option,
  some, ltb, Bool-cases,
}
use peikonpurekkusu_payment.Prelude.Int.{pos, ltb_ℤ}
use peikonpurekkusu_payment.Payment.{Time, Row}
use peikonpurekkusu_payment.Outbox.Rows.{member-cons}
use peikonpurekkusu_payment.Reconcile.{
  SettlementEntry, SettlementReport, Answer, clean, mem_text, booked_references, settled_refs,
  count_double, is_due, count_unbooked, count_unsettled, condition, fetch_settlement, compare_all,
  with_report, run,
}
use peikonpurekkusu_payment.Reconcile.Drift.{
  IsBooked, IsEarly, mem_text-add_same, mem_text-add_keeps, mem_text-add_cases,
}
use peikonpurekkusu_payment.Reconcile.Ledger.{booked-own, booked-all, uncounted, none_counted}

settled-own :
    (k : String) (es : List SettlementEntry)
    → mem_text k (settled_refs es) ≡ true
    → (e : SettlementEntry) × Memᴰ e es × (e.reference ≡ k)
unfolding settled_refs mem_text
settled-own k [] h = absurd (cc)
settled-own k (e ∷ es) h = elim (mem_text-add_cases e.reference k (settled_refs es) h) [
  | inl same ↦ (e, Memᴰ.head refl, same)
  | inr old ↦ (let (x, m, eq) = settled-own k es old in (x, Memᴰ.tail m, eq))
]

pub settled-all :
    (e : SettlementEntry) (es : List SettlementEntry)
    → Memᴰ e es
    → mem_text e.reference (settled_refs es) ≡ true
unfolding settled_refs
settled-all e [] m = elim m [ ]
settled-all e (x ∷ es) (Memᴰ.head same) = rw same (mem_text-add_same x.reference (settled_refs es))
settled-all e (x ∷ es) (Memᴰ.tail m) =
    mem_text-add_keeps x.reference e.reference (settled_refs es) (settled-all e es m)

double-none :
    (es : List SettlementEntry)
    → count_double es ≡ 0
    → (e : SettlementEntry) → Memᴰ e es
    → ltb_ℤ (pos 1) e.settled ≡ false
unfolding count_double
double-none [] h e m = elim m [ ]
double-none (x ∷ es) h e m = elim (Bool-cases (ltb_ℤ (pos 1) x.settled)) [
  | inl twice ↦ absurd (omega (arith, rw twice at h))
  | inr once ↦ elim (member-cons e x es m) [
    | inl same ↦ rw same once
    | inr old ↦ double-none es (rw once at h) e old
  ]
]

none-double :
    (es : List SettlementEntry)
    → ((e : SettlementEntry) → Memᴰ e es → ltb_ℤ (pos 1) e.settled ≡ false)
    → count_double es ≡ 0
unfolding count_double
none-double [] h = refl
none-double (x ∷ es) h = rw (h x (Memᴰ.head refl)) (none-double es (λ e m. h e (Memᴰ.tail m)))

unsettled-none :
    (refs bs : List String)
    → count_unsettled refs bs ≡ 0
    → (b : String) → mem_text b bs ≡ true
    → mem_text b refs ≡ true
unfolding count_unsettled mem_text
unsettled-none refs [] h b m = absurd (cc)
unsettled-none refs (x ∷ bs) h b m = elim (Bool-cases (mem_text x refs)) [
  | inr missing ↦ absurd (omega (arith, rw missing at h))
  | inl there ↦ elim (Bool-cases (str_eq x b)) [
    | inl same ↦ subst (λ k. mem_text k refs ≡ true) ((eq_iff x b).0 same) there
    | inr other ↦ unsettled-none refs bs (rw there at h) b (ground (arith, other, m))
  ]
]

pub none-unsettled :
    (refs bs : List String)
    → ((b : String) → mem_text b bs ≡ true → mem_text b refs ≡ true)
    → count_unsettled refs bs ≡ 0
unfolding count_unsettled mem_text
none-unsettled refs [] h = refl
none-unsettled refs (x ∷ bs) h =
    rw (h x (rw (eq_refl x) refl)) (none-unsettled refs bs (λ b m. h b (ground (arith, m))))

module _ (parse_time : String → Option Time) (now grace : Time) where
  unbooked-none :
      (booked : List String) (es : List SettlementEntry)
      → count_unbooked parse_time now grace booked es ≡ 0
      → (e : SettlementEntry) → Memᴰ e es
      → is_due parse_time now grace e ≡ true
      → mem_text e.reference booked ≡ true
  unfolding count_unbooked
  unbooked-none booked [] h e m due = elim m [ ]
  unbooked-none booked (x ∷ es) h e m due =
      elim (Bool-cases (is_due parse_time now grace x && not (mem_text x.reference booked))) [
        | inl drift ↦ absurd (omega (arith, rw drift at h))
        | inr fine ↦ elim (member-cons e x es m) [
          | inl same ↦ rw same (ground (arith, fine, rw same at due))
          | inr old ↦ unbooked-none booked es (rw fine at h) e old due
        ]
      ]

  none-unbooked :
      (booked : List String) (es : List SettlementEntry)
      → ((e : SettlementEntry)
          → Memᴰ e es
          → is_due parse_time now grace e ≡ true
          → mem_text e.reference booked ≡ true)
      → count_unbooked parse_time now grace booked es ≡ 0
  unfolding count_unbooked
  none-unbooked booked [] h = refl
  none-unbooked booked (x ∷ es) h =
      let rest = none-unbooked booked es (λ e m. h e (Memᴰ.tail m)) in
      elim (Bool-cases (is_due parse_time now grace x)) [
        | inl due ↦ rw due (rw (h x (Memᴰ.head refl) due) rest)
        | inr early ↦ rw early rest
      ]

  -- The report and the ledger agree: every capture that is past the grace period is booked, every
  -- booking of the period is in the report, no capture is settled twice, and no booking lies
  -- before the period.
  pub record IsClean (from : Time) (rows : List Row) (es : List SettlementEntry) : Type 0 where
    pub booked :
        (e : SettlementEntry)
        → Memᴰ e es
        → is_due parse_time now grace e ≡ true
        → (r : Row) × Memᴰ r rows × IsBooked from e.reference r
    pub settled :
        (r : Row) (ref : String)
        → Memᴰ r rows
        → IsBooked from ref r
        → (e : SettlementEntry) × Memᴰ e es × (e.reference ≡ ref)
    pub once : (e : SettlementEntry) → Memᴰ e es → ltb_ℤ (pos 1) e.settled ≡ false
    pub covered : (r : Row) → Memᴰ r rows → IsEarly from r → ⊥

  -- Every count is zero.
  pub record IsZero (a b c d : ℕ) : Type 0 where
    pub unbooked : a ≡ 0
    pub unsettled : b ≡ 0
    pub double : c ≡ 0
    pub out : d ≡ 0

  condition-clean : (a b c d : ℕ) → condition a b c d ≡ clean → IsZero a b c d
  unfolding condition
  condition-clean a b c d h = elim (Bool-cases (ltb 0 a || ltb 0 b || ltb 0 c)) [
    | inl drift ↦ absurd (cc (rw drift at h))
    | inr fine ↦ elim (Bool-cases (ltb 0 d)) [
      | inl gap ↦ absurd (cc (rw gap at (rw fine at h)))
      | inr whole ↦ record {
        unbooked = ground (arith, fine);
        unsettled = ground (arith, fine);
        double = ground (arith, fine);
        out = ground (arith, whole);
      }
    ]
  ]

  clean-condition : (a b c d : ℕ) → IsZero a b c d → condition a b c d ≡ clean
  unfolding condition
  clean-condition a b c d z = rw (z.unbooked, z.unsettled, z.double, z.out) refl

  module _ (from : Time) (rows : List Row) (es : List SettlementEntry) where
    abbrev bookings : List String × ℕ
    unfolding booked_references
    bookings = booked_references from rows

    Counts : Type 0
    unfolding bookings
    Counts =
        IsZero (count_unbooked parse_time now grace bookings.0 es)
          (count_unsettled (settled_refs es) bookings.0) (count_double es) bookings.1

    counted-IsClean : Counts → IsClean from rows es
    unfolding Counts bookings
    counted-IsClean z = record {
      booked = λ e m due.
          booked-own from e.reference rows (unbooked-none bookings.0 es z.unbooked e m due);
      settled = λ r ref m b. settled-own ref es (
          unsettled-none (settled_refs es) bookings.0 z.unsettled ref
            (booked-all from ref r rows m b));
      once = double-none es z.double;
      covered = λ r m. uncounted from r rows z.out m;
    }

    IsClean-counted : IsClean from rows es → Counts
    unfolding Counts bookings
    IsClean-counted c = record {
      unbooked =
          none-unbooked bookings.0 es
            (λ e m due. let (r, k, b) = c.booked e m due in booked-all from e.reference r rows k b);
      unsettled = none-unsettled (settled_refs es) bookings.0 (λ ref m.
          let (r, k, b) = booked-own from ref rows m in
          let (e, n, same) = c.settled r ref k b in
          subst (λ j. mem_text j (settled_refs es) ≡ true) same (settled-all e es n));
      double = none-double es c.once;
      out = none_counted from rows c.covered;
    }

  module _ (decode : String → Option SettlementReport) (answer : Answer) (rows : List Row)
      (report : SettlementReport) (from : Time) where
    run-read :
        fetch_settlement parse_time decode answer ≡ some report
        → parse_time report.report_since ≡ some from
        → (run parse_time decode answer true now grace rows).status
          ≡ (compare_all parse_time decode now grace report (booked_references from rows)).status
    unfolding run with_report
    run-read fetched since = rw (fetched, run) (rw (since, with_report) refl)

    -- With a report that can be read, for a period that can be read, and the bookings read after it,
    -- the run says clean exactly when the report and the ledger agree.
    pub run-IsClean :
        fetch_settlement parse_time decode answer ≡ some report
        → parse_time report.report_since ≡ some from
        → ((run parse_time decode answer true now grace rows).status ≡ clean)
          ↔ IsClean from rows report.captures
    unfolding compare_all Counts bookings
    run-IsClean fetched since = rw (run-read fetched since) (
      λ h. counted-IsClean from rows report.captures (condition-clean _ _ _ _ h),
      λ c. clean-condition _ _ _ _ (IsClean-counted from rows report.captures c),
    )
