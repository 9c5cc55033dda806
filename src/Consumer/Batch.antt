-- ===== src/Consumer/Batch.antt =====
-- The batches of internal/consumer/consumer.go: what was marked or dead-lettered stays so, and a batch
-- whose offsets are committed has lost no record.
use mathlib.Core.List.{Memᴰ}
use mathlib.Core.Path.{subst, sym}
use peikonpurekkusu_payment.Prelude.{
  ℕ, zero, suc, ◌≡◌, ◌⊎◌, inl, inr, refl, true, List, [], ◌∷◌, Option, none, some, arith,
  Bool-cases, Option-cases, All,
}
use text.Mathlib.Text.{◌==◌ as str_eq}
use peikonpurekkusu_payment.Events.{Envelope, UnframeError, unframe, text_field}
use peikonpurekkusu_payment.Payment.{Uuid}
use peikonpurekkusu_payment.Saga.World.{queried, World, Env, record_event}
use peikonpurekkusu_payment.Saga.Persist.{SagaError}
use peikonpurekkusu_payment.Saga.Drive.{
  Ended, returned, crashed, out_of_fuel, complete_from_gateway,
}
use peikonpurekkusu_payment.Consumer.Settles.{IsApplied, IsDead, settled_is_safe}
use peikonpurekkusu_payment.Consumer.{
  settled, unsettled, stopped, after_record, settle_batch, Rec, Cause, Outside, Inbox, Handled,
  handled, poisoned, failed, panics, unfinished, Settled, is_processed, max_attempts,
  hold_for_registry, mark, after_effect, on_new_event, on_ids, on_envelope, on_value, handle,
  dead_letter, after_attempt, attempts_from, handle_with_retry,
}

module _ (env : Env) (out : Outside) where
  -- Nothing is taken out of the table or of the dead letters.
  pub record Grows (s u : Inbox) : Type 0 where
    marks : (e : Uuid) → is_processed e s.processed ≡ true → is_processed e u.processed ≡ true
    letters : (x : Rec × Cause) → Memᴰ x s.dead → Memᴰ x u.dead

  pub same-Grows : (s u : Inbox) → u.processed ≡ s.processed → u.dead ≡ s.dead → Grows s u
  same-Grows s u p d = record { marks = λ e h. rw p h; letters = λ x m. rw d m }

  Grows-trans : {s t u : Inbox} → Grows s t → Grows t u → Grows s u
  Grows-trans a b = record {
    marks = λ e h. b.marks e (a.marks e h);
    letters = λ x m. b.letters x (a.letters x m);
  }

  new_mark :
      (e k : Uuid) (xs : List Uuid) → is_processed k xs ≡ true → is_processed k (e ∷ xs) ≡ true
  unfolding is_processed
  new_mark e k xs h = ground (arith, h)

  mark-Grows : (e : Uuid) (s : Inbox) → Grows s (mark env out e s).1
  unfolding mark
  mark-Grows e s = elim (Bool-cases (env.commit_ok s.world.history)) [
    | inr down ↦ rw (down, mark) (same-Grows s _ refl refl)
    | inl up ↦ elim (Bool-cases (is_processed e s.processed)) [
      | inl old ↦ rw (up, mark) (rw old (same-Grows s _ refl refl))
      | inr new ↦
          rw (up, mark)
            (rw new (record { marks = λ k h. new_mark e k s.processed h; letters = λ x m. m }))
    ]
  ]

  after_effect-Grows :
      (e : Uuid) (s : Inbox) (x : Ended × Option SagaError × World)
      → Grows s (after_effect env out e s.processed s.dead x).1
  unfolding after_effect
  after_effect-Grows e s (crashed, x, w) = same-Grows s _ refl refl
  after_effect-Grows e s (out_of_fuel, x, w) = same-Grows s _ refl refl
  after_effect-Grows e s (returned, some x, w) = same-Grows s _ refl refl
  after_effect-Grows e s (returned, none, w) =
      Grows-trans (same-Grows s (record s { world = w }) refl refl)
        (mark-Grows e (record s { world = w }))

  new_event-Grows :
      (e p : Uuid) (v : Envelope) (s : Inbox) → Grows s (on_new_event env out e p v s).1
  unfolding on_new_event
  new_event-Grows e p v s = elim (Bool-cases (str_eq (text_field "outcome" v.payload) "")) [
    | inl empty ↦ rw (empty, on_new_event) (same-Grows s s refl refl)
    | inr full ↦
        rw (full, on_new_event)
          (after_effect-Grows e s (
            complete_from_gateway env p (str_eq (text_field "outcome" v.payload) "approved")
              (text_field "psp_reference" v.payload) (text_field "decline_code" v.payload) s.world))
  ]

  asked : Inbox → Inbox
  asked s = record s { world = record_event queried s.world }

  ids-Grows : (e p : Uuid) (v : Envelope) (s : Inbox) → Grows s (on_ids env out e p v s).1
  unfolding on_ids asked
  ids-Grows e p v s = elim (Bool-cases (env.query_ok s.world.history)) [
    | inr down ↦ rw (down, on_ids) (same-Grows s (asked s) refl refl)
    | inl up ↦ elim (Bool-cases (is_processed e s.processed)) [
      | inl old ↦ rw (up, on_ids) (rw old (same-Grows s (asked s) refl refl))
      | inr new ↦
          rw (up, on_ids)
            (rw new
              (Grows-trans (same-Grows s (asked s) refl refl) (new_event-Grows e p v (asked s))))
    ]
  ]

  value-Grows : (x : UnframeError ⊎ Envelope) (s : Inbox) → Grows s (on_value env out x s).1
  unfolding on_value on_envelope
  value-Grows (inl m) s = same-Grows s s refl refl
  value-Grows (inr v) s = elim (Option-cases (env.uuid_parse v.event_id)) [
    | inl bad ↦ rw (bad, on_envelope) (same-Grows s s refl refl)
    | inr (e, event) ↦ elim (Option-cases (env.uuid_parse (text_field "payment_id" v.payload))) [
      | inl bad ↦ rw (event, on_envelope) (rw bad (same-Grows s s refl refl))
      | inr (p, payment) ↦ rw (event, on_envelope) (rw payment (ids-Grows e p v s))
    ]
  ]

  handle-Grows : (fuel : ℕ) (rec : Rec) (s : Inbox) → Grows s (handle env out fuel rec s).1
  unfolding handle
  handle-Grows fuel rec s =
      elim (Option-cases (hold_for_registry env out fuel 0 s.world.history rec.value)) [
        | inl passed ↦ rw (passed, handle) (value-Grows (unframe out.json rec.value) s)
        | inr (stop, e) ↦ rw (e, handle) (same-Grows s s refl refl)
      ]

  dead-Grows : (rec : Rec) (c : Cause) (s : Inbox) → Grows s (dead_letter env out rec c s).1
  unfolding dead_letter
  dead-Grows rec c s = elim (Bool-cases (out.dlq_ok s.world.history)) [
    | inl up ↦ rw (up, dead_letter) (record { marks = λ k h. h; letters = λ x m. Memᴰ.tail m })
    | inr down ↦ rw (down, dead_letter) (same-Grows s s refl refl)
  ]

  attempt-Grows :
      (again : Cause → Inbox → Settled × Inbox) (rec : Rec) (s : Inbox) (x : Handled × Inbox)
      → Grows s x.1
      → ((c : Cause) (t : Inbox) → Grows t (again c t).1)
      → Grows s (after_attempt env out again rec x).1
  unfolding after_attempt
  attempt-Grows again rec s (handled, t) g later = g
  attempt-Grows again rec s (poisoned c, t) g later = Grows-trans g (dead-Grows rec c t)
  attempt-Grows again rec s (failed c, t) g later = Grows-trans g (later c t)
  attempt-Grows again rec s (panics, t) g later = g
  attempt-Grows again rec s (unfinished, t) g later = g

  attempts-Grows :
      (n fuel : ℕ) (rec : Rec) (c : Cause) (s : Inbox)
      → Grows s (attempts_from env out n fuel rec c s).1
  unfolding attempts_from
  attempts-Grows zero fuel rec c s = dead-Grows rec c s
  attempts-Grows (suc n) fuel rec c s =
      attempt-Grows (λ d t. attempts_from env out n fuel rec d t) rec s (handle env out fuel rec s)
        (handle-Grows fuel rec s) (λ d t. attempts-Grows n fuel rec d t)

  retry-Grows :
      (fuel : ℕ) (rec : Rec) (s : Inbox) → Grows s (handle_with_retry env out fuel rec s).1
  unfolding handle_with_retry
  retry-Grows fuel rec s = attempts-Grows max_attempts fuel rec Cause.context_ended s

  record-Grows :
      (again : Inbox → Settled × Inbox) (s : Inbox) (x : Settled × Inbox)
      → Grows s x.1
      → ((t : Inbox) → Grows t (again t).1)
      → Grows s (after_record env out again x).1
  unfolding after_record
  record-Grows again s (settled, t) g later = Grows-trans g (later t)
  record-Grows again s (unsettled, t) g later = Grows-trans g (later t)
  record-Grows again s (stopped, t) g later = g

  pub batch-Grows :
      (fuel : ℕ) (recs : List Rec) (s : Inbox) → Grows s (settle_batch env out fuel recs s).1
  unfolding settle_batch
  batch-Grows fuel [] s = same-Grows s s refl refl
  batch-Grows fuel (rec ∷ recs) s =
      record-Grows (λ t. settle_batch env out fuel recs t) s (handle_with_retry env out fuel rec s)
        (retry-Grows fuel rec s) (λ t. batch-Grows fuel recs t)

  never_settled :
      (x : Settled) → (elim x as (λ y. Settled) [ stopped ↦ stopped | _ ↦ unsettled ]) ≡ settled → ⊥
  never_settled settled h = cc
  never_settled unsettled h = cc
  never_settled stopped h = cc

  both_settled :
      (again : Inbox → Settled × Inbox) (x : Settled × Inbox)
      → (after_record env out again x).0 ≡ settled
      → (x.0 ≡ settled)
        × ((again x.1).0 ≡ settled)
        × ((after_record env out again x).1 ≡ (again x.1).1)
  unfolding after_record
  both_settled again (settled, t) h = (refl, h, refl)
  both_settled again (unsettled, t) h = absurd (never_settled (again t).0 h)
  both_settled again (stopped, t) h = absurd (cc)

  -- A record is safe if it was applied and marked, or stands in the dead letters.
  abbrev pub IsSafe : Inbox → Rec → Type 0
  IsSafe u rec = ((t : Inbox) × IsApplied env out rec t u) ⊎ IsDead env out rec u

  pub IsSafe-Grows : (u w : Inbox) (rec : Rec) → Grows u w → IsSafe u rec → IsSafe w rec
  IsSafe-Grows u w rec g (inl (t, (v, e, p, framed, event, payment, (marked, why)))) =
      inl (t, (v, e, p, framed, event, payment, (g.marks e marked, why)))
  IsSafe-Grows u w rec g (inr (c, m)) = inr (c, g.letters (rec, c) m)

  -- The offsets of a batch are committed, that is it is settled as a whole, only if every record
  -- of it has been applied and marked, or stands in the dead letters, in the end.
  pub committed-IsSafe :
      (fuel : ℕ) (recs : List Rec) (s : Inbox)
      → (settle_batch env out fuel recs s).0 ≡ settled
      → All (IsSafe (settle_batch env out fuel recs s).1) recs
  unfolding settle_batch
  committed-IsSafe fuel [] s h = tt
  committed-IsSafe fuel (rec ∷ recs) s h =
      let again : Inbox → Settled × Inbox = λ t. settle_batch env out fuel recs t in
      let (first, later, same) = both_settled again (handle_with_retry env out fuel rec s) h in
      let t : Inbox = (handle_with_retry env out fuel rec s).1 in
      subst (λ u. All (IsSafe u) (rec ∷ recs)) (sym same)
        (
          IsSafe-Grows t (again t).1 rec (batch-Grows fuel recs t)
              (settled_is_safe env out fuel rec s first),
          committed-IsSafe fuel recs t later,
        )
