-- ===== src/Reconcile/Drift.antt =====
-- What the counts of internal/saga/reconcile.go say of the report and of the ledger.
use text.Mathlib.Text.{◌==◌ as str_eq}
use text.Mathlib.TextEquality.{eq_iff}
use text.Mathlib.TextPositions.{eq_refl}
use peikonpurekkusu_payment.Prelude.{
  ℕ, ◌+◌, ◌≤◌, ◌<◌, ◌≡◌, refl, ◌⊎◌, inl, inr, arith, true, false, String, List, none, some, ltb,
  Bool-cases, Option-cases,
}
use peikonpurekkusu_payment.Payment.{Time, Row, captured, step_eq}
use peikonpurekkusu_payment.Reconcile.{mem_text, add_text, book_row}

pub mem_text-add_same : (k : String) (xs : List String) → mem_text k (add_text k xs) ≡ true
unfolding add_text mem_text
mem_text-add_same k xs = elim (Bool-cases (mem_text k xs)) [
  | inl there ↦ rw there there
  | inr absent ↦ rw absent (rw (eq_refl k) refl)
]

pub mem_text-add_keeps :
    (j k : String) (xs : List String) → mem_text k xs ≡ true → mem_text k (add_text j xs) ≡ true
unfolding add_text mem_text
mem_text-add_keeps j k xs h = elim (Bool-cases (mem_text j xs)) [
  | inl there ↦ rw there h
  | inr absent ↦ rw absent (ground (arith, h))
]

pub mem_text-add_cases :
    (j k : String) (xs : List String)
    → mem_text k (add_text j xs) ≡ true
    → (j ≡ k) ⊎ (mem_text k xs ≡ true)
unfolding add_text mem_text
mem_text-add_cases j k xs h = elim (Bool-cases (mem_text j xs)) [
  | inl there ↦ inr (rw there at h)
  | inr absent ↦ elim (Bool-cases (str_eq j k)) [
    | inl same ↦ inl ((eq_iff j k).0 same)
    | inr other ↦ inr (ground (arith, other, rw absent at h))
  ]
]

-- A row that the ledger has booked under a reference, within the report's period.
abbrev pub IsBooked : Time → String → Row → Type 0
IsBooked from ref r =
    (step_eq r.step captured ≡ true) × (r.psp_reference ≡ some ref) × (from ≤ r.updated_at)

-- One that lies before it.
abbrev pub IsEarly : Time → Row → Type 0
IsEarly from r =
    (ref : String) × (step_eq r.step captured ≡ true)
    × (r.psp_reference ≡ some ref)
    × (r.updated_at < from)

abbrev pub IsNeither : Row → Type 0
IsNeither r = (step_eq r.step captured ≡ false) ⊎ (r.psp_reference ≡ none)

pub book_row-cases :
    (from : Time) (r : Row) (b : List String) (n : ℕ)
    → (IsNeither r × (book_row from r (b, n) ≡ (b, n)))
      ⊎ ((IsEarly from r × (book_row from r (b, n) ≡ (b, n + 1)))
          ⊎ ((ref : String) × IsBooked from ref r × (book_row from r (b, n) ≡ (add_text ref b, n))))
unfolding book_row
book_row-cases from r b n = elim (Bool-cases (step_eq r.step captured)) [
  | inr other ↦ inl (inl other, rw (other, book_row) refl)
  | inl hit ↦ elim (Option-cases r.psp_reference) [
    | inl e ↦ inl (inr e, rw (hit, book_row) (rw e refl))
    | inr (ref, e) ↦ elim (Bool-cases (ltb r.updated_at from)) [
      | inl early ↦
          inr
            (inl ((ref, hit, e, ground (arith, early)), rw (hit, book_row) (rw e (rw early refl))))
      | inr late ↦
          inr (inr (ref, (hit, e, ground (arith, late)), rw (hit, book_row) (rw e (rw late refl))))
    ]
  ]
]
