-- ===== src/Reconcile/Ledger.antt =====
-- `bookedReferences` of internal/saga/reconcile.go: its map holds exactly the references that are
-- booked within the report's period, and its count is zero if none lies before that.
use mathlib.Core.List.{Memᴰ}
use mathlib.Core.Path.{subst}
use peikonpurekkusu_payment.Prelude.{
  ℕ, ◌+◌, ◌≤◌, ◌≡◌, refl, sym, ◌∙◌, ap, ◌⊎◌, inl, inr, arith, true, String, List, [], ◌∷◌, some,
}
use peikonpurekkusu_payment.Payment.{Time, Row, captured, step_eq}
use peikonpurekkusu_payment.Outbox.Rows.{member-cons}
use peikonpurekkusu_payment.Reconcile.{mem_text, add_text, booked_references}
use peikonpurekkusu_payment.Reconcile.Drift.{
  IsBooked, IsEarly, IsNeither, book_row-cases, mem_text-add_same, mem_text-add_keeps,
  mem_text-add_cases,
}

some_inj : {A : Type 0} {a b : A} → some a ≡ some b → a ≡ b
some_inj e = cc

module _ (from : Time) where
  abbrev pub books : List Row → List String × ℕ
  unfolding booked_references
  books rows = booked_references from rows

  row_cases :
      (r : Row) (rows : List Row)
      → (IsNeither r × (books (r ∷ rows) ≡ books rows))
        ⊎ ((IsEarly from r × (books (r ∷ rows) ≡ ((books rows).0, (books rows).1 + 1)))
            ⊎ ((ref : String) × IsBooked from ref r
                × (books (r ∷ rows) ≡ (add_text ref (books rows).0, (books rows).1))))
  unfolding booked_references books
  row_cases r rows =
      book_row-cases from r (booked_references from rows).0 (booked_references from rows).1

  -- What is in the map was booked.
  pub booked-own :
      (k : String) (rows : List Row)
      → mem_text k (books rows).0 ≡ true
      → (r : Row) × Memᴰ r rows × IsBooked from k r
  unfolding booked_references mem_text books
  booked-own k [] h = absurd (cc)
  booked-own k (r ∷ rows) h = elim (row_cases r rows) [
    | inl (skipped, e) ↦ (let (x, m, b) = booked-own k rows (rw e at h) in (x, Memᴰ.tail m, b))
    | inr (inl (early, e)) ↦ (let (x, m, b) = booked-own k rows (rw e at h) in (x, Memᴰ.tail m, b))
    | inr (inr (ref, b, e)) ↦ elim (mem_text-add_cases ref k (books rows).0 (rw e at h)) [
      | inl same ↦ (r, Memᴰ.head refl, rw (sym same) b)
      | inr old ↦ (let (x, m, c) = booked-own k rows old in (x, Memᴰ.tail m, c))
    ]
  ]

  not_neither : (k : String) (r : Row) → IsBooked from k r → IsNeither r → ⊥
  not_neither k r (hit, known, late) (inl other) = absurd (cc (hit, other))
  not_neither k r (hit, known, late) (inr e) = absurd (cc (known, e))

  kept :
      (k : String) (r : Row) (rows : List Row)
      → mem_text k (books rows).0 ≡ true
      → mem_text k (books (r ∷ rows)).0 ≡ true
  kept k r rows h = elim (row_cases r rows) [
    | inl (skipped, e) ↦ rw e h
    | inr (inl (early, e)) ↦ rw e h
    | inr (inr (ref, b, e)) ↦ rw e (mem_text-add_keeps ref k (books rows).0 h)
  ]

  -- What was booked is in the map.
  pub booked-all :
      (k : String) (r : Row) (rows : List Row)
      → Memᴰ r rows
      → IsBooked from k r
      → mem_text k (books rows).0 ≡ true
  booked-all k r [] m b = elim m [ ]
  booked-all k r (x ∷ rows) (Memᴰ.tail m) b = kept k x rows (booked-all k r rows m b)
  booked-all k r (x ∷ rows) (Memᴰ.head same) b = elim (row_cases x rows) [
    | inl (skipped, e) ↦ absurd (not_neither k x (rw same at b) skipped)
    | inr (inl ((ref, hit, known, early), e)) ↦
        (let late : from ≤ x.updated_at = (rw same at b).2 in absurd (omega arith))
    | inr (inr (ref, c, e)) ↦ rw e (
        subst (λ j. mem_text j (add_text ref (books rows).0) ≡ true)
          (some_inj (sym c.1 ∙ (rw same at b).1)) (mem_text-add_same ref (books rows).0))
  ]

  -- Nothing lies before the period exactly when the count says so.
  pub uncounted :
      (r : Row) (rows : List Row) → (books rows).1 ≡ 0 → Memᴰ r rows → IsEarly from r → ⊥
  uncounted r [] h m early = elim m [ ]
  uncounted r (x ∷ rows) h m early = elim (row_cases x rows) [
    | inl (skipped, e) ↦ elim (member-cons r x rows m) [
      | inl same ↦
          (let (ref, hit, known, before) = rw same at early in
            absurd (skips x ref hit known skipped))
      | inr old ↦ uncounted r rows (rw e at h) old early
    ]
    | inr (inl (found, e)) ↦ absurd (omega (arith, rw e at h))
    | inr (inr (ref, b, e)) ↦ elim (member-cons r x rows m) [
      | inl same ↦
          (let (ref', hit, known, before) = rw same at early in
            let late : from ≤ x.updated_at = b.2 in absurd (omega arith))
      | inr old ↦ uncounted r rows (rw e at h) old early
    ]
  ]
    where
      skips :
          (x : Row) (ref : String)
          → step_eq x.step captured ≡ true
          → x.psp_reference ≡ some ref
          → IsNeither x
          → ⊥
      skips x ref hit known (inl other) = absurd (cc (hit, other))
      skips x ref hit known (inr e) = absurd (cc (known, e))

  pub none_counted :
      (rows : List Row) → ((r : Row) → Memᴰ r rows → IsEarly from r → ⊥) → (books rows).1 ≡ 0
  unfolding booked_references books
  none_counted [] h = refl
  none_counted (x ∷ rows) h =
      let rest = none_counted rows (λ r m. h r (Memᴰ.tail m)) in
      elim (row_cases x rows) [
        | inl (skipped, e) ↦ ap (λ y. y.1) e ∙ rest
        | inr (inl (early, e)) ↦ absurd (h x (Memᴰ.head refl) early)
        | inr (inr (ref, b, e)) ↦ ap (λ y. y.1) e ∙ rest
      ]
