-- ===== src/Consumer/Reports.antt =====
-- The handler of internal/consumer/consumer.go, over the specification of the engine that it calls.
use text.Mathlib.Text.{◌==◌ as str_eq}
use peikonpurekkusu_payment.Prelude.{
  ℕ, ◌≡◌, ◌⊎◌, inl, inr, refl, true, false, List, Option, none, some, Bool-cases, Option-cases,
}
use peikonpurekkusu_payment.Events.{Envelope, UnframeError, unframe, text_field}
use peikonpurekkusu_payment.Payment.{Uuid}
use peikonpurekkusu_payment.Saga.World.{queried, wrote, World, Env, record_event}
use peikonpurekkusu_payment.Saga.Persist.{SagaError}
use peikonpurekkusu_payment.Saga.Drive.{
  Ended, returned, crashed, out_of_fuel, complete_from_gateway,
}
use peikonpurekkusu_payment.Saga.Spec.{Trigger, reported, saw, Run, Run-one, Run-trans}
use peikonpurekkusu_payment.Saga.Refine.Operations.{complete_from_gateway-Run}
use peikonpurekkusu_payment.Consumer.{
  Rec, Cause, Outside, Inbox, is_processed, hold_for_registry, mark, after_effect, on_new_event,
  on_ids, on_envelope, on_value, handle,
}

module _ (env : Env) (out : Outside) where
  -- The report of an envelope about a payment.
  abbrev pub report_of : Uuid → Envelope → Trigger
  report_of p v =
      reported p (str_eq (text_field "outcome" v.payload) "approved")
        (text_field "psp_reference" v.payload) (text_field "decline_code" v.payload)

  -- No payment is changed, no event queued, and no update published.
  abbrev pub IsQuiet : World → World → Type 0
  IsQuiet w u = (u.payments ≡ w.payments) × (u.outbox ≡ w.outbox) × (u.published ≡ w.published)

  -- The record holds an event with an outcome that was not marked, and the engine has moved on
  -- account of that event's report.
  abbrev pub IsReport : Rec → Inbox → World → Type 0
  IsReport rec s u =
      (v : Envelope) × (e : Uuid) × (p : Uuid) × (unframe out.json rec.value ≡ inr v)
      × (env.uuid_parse v.event_id ≡ some e)
      × (env.uuid_parse (text_field "payment_id" v.payload) ≡ some p)
      × (is_processed e s.processed ≡ false)
      × (str_eq (text_field "outcome" v.payload) "" ≡ false)
      × Run (report_of p v) s.world u

  mark-Run : {c : Trigger} → (e : Uuid) (s : Inbox) → Run c s.world (mark env out e s).1.world
  unfolding mark
  mark-Run e s = elim (Bool-cases (env.commit_ok s.world.history)) [
    | inr down ↦ rw down (Run-one (saw (wrote false) tt refl))
    | inl up ↦ elim (Bool-cases (is_processed e s.processed)) [
      | inl old ↦ rw up (rw old (Run-one (saw (wrote true) tt refl)))
      | inr new ↦ rw up (rw new (Run-one (saw (wrote true) tt refl)))
    ]
  ]

  after_effect-Run :
      {c : Trigger}
      → (w : World) (e : Uuid) (processed : List Uuid) (dead : List (Rec × Cause))
        (x : Ended × Option SagaError × World)
      → Run c w x.2
      → Run c w (after_effect env out e processed dead x).1.world
  unfolding after_effect
  after_effect-Run w e processed dead (crashed, x, u) m = m
  after_effect-Run w e processed dead (out_of_fuel, x, u) m = m
  after_effect-Run w e processed dead (returned, some x, u) m = m
  after_effect-Run w e processed dead (returned, none, u) m =
      Run-trans m (mark-Run e (record { world = u; processed = processed; dead = dead }))

  new_event-Run :
      (e p : Uuid) (v : Envelope) (s : Inbox)
      → IsQuiet s.world (on_new_event env out e p v s).1.world
        ⊎ ((str_eq (text_field "outcome" v.payload) "" ≡ false)
            × Run (report_of p v) s.world (on_new_event env out e p v s).1.world)
  unfolding on_new_event
  new_event-Run e p v s = elim (Bool-cases (str_eq (text_field "outcome" v.payload) "")) [
    | inl empty ↦ rw (empty, on_new_event) (inl (refl, refl, refl))
    | inr full ↦
        rw (full, on_new_event)
          (inr (
            refl,
            after_effect-Run s.world e s.processed s.dead
                (complete_from_gateway env p (str_eq (text_field "outcome" v.payload) "approved")
                  (text_field "psp_reference" v.payload) (text_field "decline_code" v.payload)
                  s.world)
                (complete_from_gateway-Run env p
                  (str_eq (text_field "outcome" v.payload) "approved")
                  (text_field "psp_reference" v.payload) (text_field "decline_code" v.payload)
                  s.world),
          ))
  ]

  asked : Inbox → Inbox
  asked s = record s { world = record_event queried s.world }

  ids-Run :
      (e p : Uuid) (v : Envelope) (s : Inbox)
      → IsQuiet s.world (on_ids env out e p v s).1.world
        ⊎ ((is_processed e s.processed ≡ false)
            × (str_eq (text_field "outcome" v.payload) "" ≡ false)
            × Run (report_of p v) s.world (on_ids env out e p v s).1.world)
  unfolding on_ids asked
  ids-Run e p v s = elim (Bool-cases (env.query_ok s.world.history)) [
    | inr down ↦ rw (down, on_ids) (inl (refl, refl, refl))
    | inl up ↦ elim (Bool-cases (is_processed e s.processed)) [
      | inl old ↦ rw (up, on_ids) (rw old (inl (refl, refl, refl)))
      | inr new ↦
          rw (up, on_ids)
            (rw new (elim (new_event-Run e p v (asked s)) [
              | inl quiet ↦ inl quiet
              | inr (full, m) ↦ inr (refl, full, Run-trans (Run-one (saw queried tt refl)) m)
            ]))
    ]
  ]

  value-Run :
      (rec : Rec) (x : UnframeError ⊎ Envelope) (s : Inbox)
      → unframe out.json rec.value ≡ x
      → IsQuiet s.world (on_value env out x s).1.world
        ⊎ IsReport rec s (on_value env out x s).1.world
  unfolding on_value on_envelope
  value-Run rec (inl m) s framed = inl (refl, refl, refl)
  value-Run rec (inr v) s framed = elim (Option-cases (env.uuid_parse v.event_id)) [
    | inl bad ↦ rw (bad, on_envelope) (inl (refl, refl, refl))
    | inr (e, event) ↦ elim (Option-cases (env.uuid_parse (text_field "payment_id" v.payload))) [
      | inl bad ↦ rw (event, on_envelope) (rw bad (inl (refl, refl, refl)))
      | inr (p, payment) ↦
          rw (event, on_envelope)
            (rw payment (elim (ids-Run e p v s) [
              | inl quiet ↦ inl quiet
              | inr (new, full, m) ↦ inr (v, e, p, framed, event, payment, new, full, m)
            ]))
    ]
  ]

  -- An attempt at a record changes no payment, queues no event and publishes no update, or the record
  -- holds an event with valid ids, with an outcome, and not marked before, and what it did is a run
  -- of the engine's specification on account of just that event's report: an approval of its payment
  -- if the outcome is "approved", and a decline otherwise.
  pub handle-Run :
      (fuel : ℕ) (rec : Rec) (s : Inbox)
      → IsQuiet s.world (handle env out fuel rec s).1.world
        ⊎ IsReport rec s (handle env out fuel rec s).1.world
  unfolding handle
  handle-Run fuel rec s =
      elim (Option-cases (hold_for_registry env out fuel 0 s.world.history rec.value)) [
        | inl passed ↦ rw (passed, handle) (value-Run rec (unframe out.json rec.value) s refl)
        | inr (stop, e) ↦ rw (e, handle) (inl (refl, refl, refl))
      ]
