-- ===== src/Consumer/Trace.antt =====
-- What internal/consumer/consumer.go marks as processed: only the events of completions that the
-- engine has applied with no error, anywhere in a run of the loop.
use mathlib.Core.Path.{subst}
use text.Mathlib.Text.{◌==◌ as str_eq}
use peikonpurekkusu_payment.Prelude.{
  ℕ, zero, suc, ◌≡◌, ◌⊎◌, inl, inr, refl, true, false, List, [], ◌∷◌, Option, none, some, arith,
  Bool-cases, Option-cases, ◌==◌, ==_iff, ◌∙◌, ap, sym,
}
use peikonpurekkusu_payment.Events.{Envelope, UnframeError, unframe, text_field}
use peikonpurekkusu_payment.Payment.{Uuid}
use peikonpurekkusu_payment.Saga.World.{queried, World, Env, record_event}
use peikonpurekkusu_payment.Saga.Persist.{SagaError}
use peikonpurekkusu_payment.Saga.Drive.{
  Ended, returned, crashed, out_of_fuel, complete_from_gateway,
}
use peikonpurekkusu_payment.Consumer.{
  Rec, Cause, Outside, Inbox, Handled, handled, poisoned, failed, panics, unfinished, Settled,
  settled, unsettled, stopped, is_processed, max_attempts, hold_for_registry, mark, after_effect,
  on_new_event, on_ids, on_envelope, on_value, handle, dead_letter, after_attempt, attempts_from,
  handle_with_retry, after_record, settle_batch,
}
use peikonpurekkusu_payment.Consumer.Settles.{reported}

older :
    (k e : Uuid) (xs : List Uuid)
    → (k == e) ≡ false
    → is_processed e (k ∷ xs) ≡ true
    → is_processed e xs ≡ true
unfolding is_processed
older k e xs other h = ground (arith, other, h)

module _ (env : Env) (out : Outside) (fuel : ℕ) where
  -- The inboxes that the consumer reaches from one by handling records and writing dead letters.
  pub data Reached (s : Inbox) : Inbox → Type 0 where
    here : Reached s s
    by_handle : {t : Inbox} → Reached s t → (rec : Rec) → Reached s (handle env out fuel rec t).1
    by_letter :
        {t : Inbox}
        → Reached s t
        → (rec : Rec) (c : Cause) → Reached s (dead_letter env out rec c t).1

  -- The record's event was not marked at `t`, and was completed there with no error.
  abbrev pub IsCompleted : Uuid → Rec → Inbox → Type 0
  IsCompleted e rec t =
      (v : Envelope) × (p : Uuid) × (unframe out.json rec.value ≡ inr v)
      × (env.uuid_parse v.event_id ≡ some e)
      × (env.uuid_parse (text_field "payment_id" v.payload) ≡ some p)
      × (is_processed e t.processed ≡ false)
      × (reported env out p v (record_event queried t.world) ≡ none)

  -- What an attempt does to the marks: nothing, or one more after a completion.
  abbrev Marks : (Uuid → Type 0) → Inbox → Inbox → Type 0
  Marks done t u =
      (u.processed ≡ t.processed) ⊎ ((e : Uuid) × done e × (u.processed ≡ e ∷ t.processed))

  mark-Marks : (e : Uuid) (s : Inbox) → Marks (λ k. k ≡ e) s (mark env out e s).1
  unfolding mark
  mark-Marks e s = elim (Bool-cases (env.commit_ok s.world.history)) [
    | inr down ↦ rw (down, mark) (inl refl)
    | inl up ↦ elim (Bool-cases (is_processed e s.processed)) [
      | inl old ↦ rw (up, mark) (rw old (inl refl))
      | inr new ↦ rw (up, mark) (rw new (inr (e, refl, refl)))
    ]
  ]

  after_effect-Marks :
      (e : Uuid) (s : Inbox) (x : Ended × Option SagaError × World)
      → Marks (λ k. (k ≡ e) × (x.1 ≡ none)) s (after_effect env out e s.processed s.dead x).1
  unfolding after_effect
  after_effect-Marks e s (crashed, x, w) = inl refl
  after_effect-Marks e s (out_of_fuel, x, w) = inl refl
  after_effect-Marks e s (returned, some x, w) = inl refl
  after_effect-Marks e s (returned, none, w) =
      elim (mark-Marks e (record { world = w; processed = s.processed; dead = s.dead })) [
        | inl same ↦ inl same
        | inr (k, own, more) ↦ inr (k, (own, refl), more)
      ]

  new_event-Marks :
      (e p : Uuid) (v : Envelope) (s : Inbox)
      → Marks
          (λ k. (k ≡ e) × (reported env out p v s.world ≡ none))
          s
          (on_new_event env out e p v s).1
  unfolding on_new_event
  new_event-Marks e p v s = elim (Bool-cases (str_eq (text_field "outcome" v.payload) "")) [
    | inl empty ↦ rw (empty, on_new_event) (inl refl)
    | inr full ↦
        rw (full, on_new_event)
          (after_effect-Marks e s (
            complete_from_gateway env p (str_eq (text_field "outcome" v.payload) "approved")
              (text_field "psp_reference" v.payload) (text_field "decline_code" v.payload) s.world))
  ]

  asked : Inbox → Inbox
  asked s = record s { world = record_event queried s.world }

  ids-Marks :
      (e p : Uuid) (v : Envelope) (s : Inbox)
      → Marks
          (λ k.
            (k ≡ e)
            × (is_processed e s.processed ≡ false)
            × (reported env out p v (record_event queried s.world) ≡ none))
          s
          (on_ids env out e p v s).1
  unfolding on_ids asked
  ids-Marks e p v s = elim (Bool-cases (env.query_ok s.world.history)) [
    | inr down ↦ rw (down, on_ids) (inl refl)
    | inl up ↦ elim (Bool-cases (is_processed e s.processed)) [
      | inl old ↦ rw (up, on_ids) (rw old (inl refl))
      | inr new ↦
          rw (up, on_ids)
            (rw new (elim (new_event-Marks e p v (asked s)) [
              | inl same ↦ inl same
              | inr (k, (own, fine), more) ↦ inr (k, (own, refl, fine), more)
            ]))
    ]
  ]

  value-Marks :
      (rec : Rec) (x : UnframeError ⊎ Envelope) (s : Inbox)
      → unframe out.json rec.value ≡ x
      → Marks (λ e. IsCompleted e rec s) s (on_value env out x s).1
  unfolding on_value on_envelope
  value-Marks rec (inl m) s framed = inl refl
  value-Marks rec (inr v) s framed = elim (Option-cases (env.uuid_parse v.event_id)) [
    | inl bad ↦ rw (bad, on_envelope) (inl refl)
    | inr (e, event) ↦ elim (Option-cases (env.uuid_parse (text_field "payment_id" v.payload))) [
      | inl bad ↦ rw (event, on_envelope) (rw bad (inl refl))
      | inr (p, payment) ↦
          rw (event, on_envelope)
            (rw payment (elim (ids-Marks e p v s) [
              | inl same ↦ inl same
              | inr (k, (own, new, fine), more) ↦
                  inr
                    (k, (v, p, framed, event ∙ ap some (sym own), payment, rw own new, fine), more)
            ]))
    ]
  ]

  handle-Marks :
      (rec : Rec) (s : Inbox) → Marks (λ e. IsCompleted e rec s) s (handle env out fuel rec s).1
  unfolding handle
  handle-Marks rec s =
      elim (Option-cases (hold_for_registry env out fuel 0 s.world.history rec.value)) [
        | inl passed ↦ rw (passed, handle) (value-Marks rec (unframe out.json rec.value) s refl)
        | inr (stop, e) ↦ rw (e, handle) (inl refl)
      ]

  letter-processed :
      (rec : Rec) (c : Cause) (s : Inbox) → (dead_letter env out rec c s).1.processed ≡ s.processed
  unfolding dead_letter
  letter-processed rec c s = elim (Bool-cases (out.dlq_ok s.world.history)) [
    | inl up ↦ rw up refl
    | inr down ↦ rw down refl
  ]

  -- One step of the trace: a mark was there before, or its event has just been completed.
  step-marked :
      (e : Uuid) (rec : Rec) (t u : Inbox)
      → Marks (λ k. IsCompleted k rec t) t u
      → is_processed e u.processed ≡ true
      → (is_processed e t.processed ≡ true) ⊎ IsCompleted e rec t
  step-marked e rec t u (inl same) h = inl (rw same at h)
  step-marked e rec t u (inr (k, done, more)) h = elim (Bool-cases (k == e)) [
    | inl own ↦ inr (subst (λ x. IsCompleted x rec t) ((==_iff k e).0 own) done)
    | inr other ↦ inl (older k e t.processed other (rw more at h))
  ]

  -- What stands behind a mark at `u`: it was there in the beginning, or the consumer came by an inbox
  -- that had no such mark, completed the event there with no error, and went on to `u`.
  abbrev pub IsBehind : Uuid → Inbox → Inbox → Type 0
  IsBehind e s u =
      (is_processed e s.processed ≡ true)
      ⊎ ((t : Inbox) × (rec : Rec) × Reached s t
          × IsCompleted e rec t
          × Reached (handle env out fuel rec t).1 u)

  IsBehind-handle :
      (e : Uuid) (s u : Inbox) (rec : Rec)
      → IsBehind e s u
      → IsBehind e s (handle env out fuel rec u).1
  IsBehind-handle e s u rec (inl old) = inl old
  IsBehind-handle e s u rec (inr (t, x, before, done, after)) =
      inr (t, x, before, done, by_handle after rec)

  IsBehind-letter :
      (e : Uuid) (s u : Inbox) (rec : Rec) (c : Cause)
      → IsBehind e s u
      → IsBehind e s (dead_letter env out rec c u).1
  IsBehind-letter e s u rec c (inl old) = inl old
  IsBehind-letter e s u rec c (inr (t, x, before, done, after)) =
      inr (t, x, before, done, by_letter after rec c)

  pub marked-IsBehind :
      (e : Uuid) (s u : Inbox) → Reached s u → is_processed e u.processed ≡ true → IsBehind e s u
  marked-IsBehind e s _ here h = inl h
  marked-IsBehind e s _ (by_handle {t} before rec) h =
      elim (step-marked e rec t (handle env out fuel rec t).1 (handle-Marks rec t) h) [
        | inl old ↦ IsBehind-handle e s t rec (marked-IsBehind e s t before old)
        | inr done ↦ inr (t, rec, before, done, here)
      ]
  marked-IsBehind e s _ (by_letter {t} before rec c) h =
      IsBehind-letter e s t rec c
        (marked-IsBehind e s t before (rw (letter-processed rec c t) at h))

  attempt-Reached :
      (again : Cause → Inbox → Settled × Inbox) (rec : Rec) (s : Inbox) (x : Handled × Inbox)
      → Reached s x.1
      → ((c : Cause) (t : Inbox) → Reached s t → Reached s (again c t).1)
      → Reached s (after_attempt env out again rec x).1
  unfolding after_attempt
  attempt-Reached again rec s (handled, t) g later = g
  attempt-Reached again rec s (poisoned c, t) g later = by_letter g rec c
  attempt-Reached again rec s (failed c, t) g later = later c t g
  attempt-Reached again rec s (panics, t) g later = g
  attempt-Reached again rec s (unfinished, t) g later = g

  attempts-Reached :
      (n : ℕ) (rec : Rec) (c : Cause) (s t : Inbox)
      → Reached s t
      → Reached s (attempts_from env out n fuel rec c t).1
  unfolding attempts_from
  attempts-Reached zero rec c s t g = by_letter g rec c
  attempts-Reached (suc n) rec c s t g =
      attempt-Reached (λ d u. attempts_from env out n fuel rec d u) rec s
        (handle env out fuel rec t) (by_handle g rec) (λ d u k. attempts-Reached n rec d s u k)

  retry-Reached :
      (rec : Rec) (s t : Inbox) → Reached s t → Reached s (handle_with_retry env out fuel rec t).1
  unfolding handle_with_retry
  retry-Reached rec s t g = attempts-Reached max_attempts rec Cause.context_ended s t g

  record-Reached :
      (again : Inbox → Settled × Inbox) (s : Inbox) (x : Settled × Inbox)
      → Reached s x.1
      → ((t : Inbox) → Reached s t → Reached s (again t).1)
      → Reached s (after_record env out again x).1
  unfolding after_record
  record-Reached again s (settled, t) g later = later t g
  record-Reached again s (unsettled, t) g later = later t g
  record-Reached again s (stopped, t) g later = g

  pub batch-Reached :
      (recs : List Rec) (s t : Inbox) → Reached s t → Reached s (settle_batch env out fuel recs t).1
  unfolding settle_batch
  batch-Reached [] s t g = g
  batch-Reached (rec ∷ recs) s t g =
      record-Reached (λ u. settle_batch env out fuel recs u) s
        (handle_with_retry env out fuel rec t) (retry-Reached rec s t g)
        (λ u k. batch-Reached recs s u k)
