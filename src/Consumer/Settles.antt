-- ===== src/Consumer/Settles.antt =====
-- When a record of internal/consumer/consumer.go counts as settled, so that its offset may advance.
use mathlib.Core.List.{Memᴰ}
use mathlib.Core.Path.{subst, sym}
use text.Mathlib.Text.{◌==◌ as str_eq}
use peikonpurekkusu_payment.Prelude.{
  ℕ, zero, suc, ◌+◌, ◌≡◌, ◌≢◌, ◌<◌, ◌⊎◌, inl, inr, refl, true, List, ◌∷◌, Option, none, some, arith,
  Bool-cases, Option-cases, ==_refl, ap,
}
use peikonpurekkusu_payment.Prelude.Bytes.{Bytes}
use peikonpurekkusu_payment.Events.{Envelope, UnframeError, unframe, text_field}
use peikonpurekkusu_payment.Payment.{Uuid}
use peikonpurekkusu_payment.Saga.World.{queried, History, World, Env, record_event}
use peikonpurekkusu_payment.Saga.Persist.{SagaError}
use peikonpurekkusu_payment.Saga.Drive.{
  Ended, returned, crashed, out_of_fuel, complete_from_gateway,
}
use peikonpurekkusu_payment.Consumer.{
  registry_unavailable, Rec, Cause, Outside, Inbox, Handled, handled, poisoned, failed, panics,
  unfinished, Settled, settled, is_processed, max_attempts, hold_for_registry, mark, after_effect,
  on_new_event, on_ids, on_envelope, on_value, handle, dead_letter, after_attempt, attempts_from,
  handle_with_retry,
}

is_processed-cons : (e : Uuid) (xs : List Uuid) → is_processed e (e ∷ xs) ≡ true
unfolding is_processed
is_processed-cons e xs = ground (arith, ==_refl e)

module _ (env : Env) (out : Outside) where
  -- What `CompleteFromGateway` reports for an event.
  abbrev pub reported : Uuid → Envelope → World → Option SagaError
  reported p v w =
      (complete_from_gateway env p (str_eq (text_field "outcome" v.payload) "approved")
        (text_field "psp_reference" v.payload) (text_field "decline_code" v.payload) w).1

  -- The event is marked, and was marked before or has been applied with no error.
  abbrev pub IsMarked : Uuid → Uuid → Envelope → Inbox → Inbox → Type 0
  IsMarked e p v s u =
      (is_processed e u.processed ≡ true)
      × ((is_processed e s.processed ≡ true) ⊎ (reported p v (record_event queried s.world) ≡ none))

  -- The record's event has valid ids, and is marked.
  abbrev pub IsApplied : Rec → Inbox → Inbox → Type 0
  IsApplied rec s u =
      (v : Envelope) × (e : Uuid) × (p : Uuid) × (unframe out.json rec.value ≡ inr v)
      × (env.uuid_parse v.event_id ≡ some e)
      × (env.uuid_parse (text_field "payment_id" v.payload) ≡ some p)
      × IsMarked e p v s u

  not_handled :
      (fuel i : ℕ) (s : Inbox) (value : Bytes)
      → hold_for_registry env out fuel i s.world.history value ≢ some handled
  unfolding hold_for_registry
  not_handled zero i s value h = cc
  not_handled (suc fuel) i s value h = ground (arith, h, not_handled fuel (i + 1) s value)

  here : (i : ℕ) → i + 0 ≡ i
  here i = omega arith

  shifted : (i n : ℕ) → i + suc n ≡ i + 1 + n
  shifted i n = omega arith

  ends_now :
      (fuel i : ℕ) (h : History) (value : Bytes)
      → (out.validate h i value ≢ registry_unavailable) ⊎ (out.context_done h i ≡ true)
      → hold_for_registry env out (suc fuel) i h value ≢ some unfinished
  unfolding hold_for_registry
  ends_now fuel i h value (inl answers) = λ e. ground (arith, answers, e)
  ends_now fuel i h value (inr over) = λ e. ground (arith, over, e)

  goes_on :
      (fuel i : ℕ) (h : History) (value : Bytes)
      → hold_for_registry env out fuel (i + 1) h value ≢ some unfinished
      → hold_for_registry env out (suc fuel) i h value ≢ some unfinished
  unfolding hold_for_registry
  goes_on fuel i h value later = λ e. ground (arith, later, e)

  -- The wait for the schema registry ends with the first question that is answered or finds the
  -- context ended, if it is given more questions than come before that one.
  pub registry_wait_ends :
      (fuel i n : ℕ) (h : History) (value : Bytes)
      → n < fuel
      → (out.validate h (i + n) value ≢ registry_unavailable) ⊎ (out.context_done h (i + n) ≡ true)
      → hold_for_registry env out fuel i h value ≢ some unfinished
  unfolding hold_for_registry
  registry_wait_ends zero i n h value lt stop = absurd (omega arith)
  registry_wait_ends (suc fuel) i zero h value lt stop =
      ends_now fuel i h value (rw (here i) at stop)
  registry_wait_ends (suc fuel) i (suc n) h value lt stop =
      goes_on fuel i h value
        (registry_wait_ends fuel (i + 1) n h value (omega arith) (rw (shifted i n) at stop))

  mark-handled :
      (e : Uuid) (s : Inbox)
      → (mark env out e s).0 ≡ handled
      → is_processed e (mark env out e s).1.processed ≡ true
  unfolding mark
  mark-handled e s h = elim (Bool-cases (env.commit_ok s.world.history)) [
    | inr down ↦ absurd (ground (arith, down, h))
    | inl up ↦ elim (Bool-cases (is_processed e s.processed)) [
      | inl old ↦ rw up (rw old old)
      | inr new ↦ rw up (rw new (is_processed-cons e s.processed))
    ]
  ]

  after_effect-handled :
      (e : Uuid) (processed : List Uuid) (dead : List (Rec × Cause))
      (x : Ended × Option SagaError × World)
      → (after_effect env out e processed dead x).0 ≡ handled
      → (is_processed e (after_effect env out e processed dead x).1.processed ≡ true) × (x.1 ≡ none)
  unfolding after_effect
  after_effect-handled e processed dead (crashed, x, w) h = absurd (cc)
  after_effect-handled e processed dead (out_of_fuel, x, w) h = absurd (cc)
  after_effect-handled e processed dead (returned, some x, w) h = absurd (cc)
  after_effect-handled e processed dead (returned, none, w) h =
      (mark-handled e (record { world = w; processed = processed; dead = dead }) h, refl)

  module _ (e p : Uuid) (v : Envelope) where
    new_event-handled :
        (s : Inbox)
        → (on_new_event env out e p v s).0 ≡ handled
        → (is_processed e (on_new_event env out e p v s).1.processed ≡ true)
          × (reported p v s.world ≡ none)
    unfolding on_new_event
    new_event-handled s h = elim (Bool-cases (str_eq (text_field "outcome" v.payload) "")) [
      | inl empty ↦ absurd (ground (arith, empty, h))
      | inr full ↦
          rw (full, on_new_event)
            (after_effect-handled e s.processed s.dead
              (complete_from_gateway env p (str_eq (text_field "outcome" v.payload) "approved")
                (text_field "psp_reference" v.payload) (text_field "decline_code" v.payload)
                s.world)
              (rw full at h))
    ]

    ids-handled :
        (s : Inbox)
        → (on_ids env out e p v s).0 ≡ handled
        → IsMarked e p v s (on_ids env out e p v s).1
    unfolding on_ids
    ids-handled s h = elim (Bool-cases (env.query_ok s.world.history)) [
      | inr down ↦ absurd (ground (arith, down, h))
      | inl up ↦ elim (Bool-cases (is_processed e s.processed)) [
        | inl old ↦ rw (up, on_ids) (rw old (old, inl refl))
        | inr new ↦
            let (marked, applied) =
              new_event-handled (record s { world = record_event queried s.world })
                (rw new at (rw up at h)) in
            rw (up, on_ids) (rw new (marked, inr applied))
      ]
    ]

  pub Framed-cases :
      (x : UnframeError ⊎ Envelope)
      → ((m : UnframeError) × (x ≡ inl m)) ⊎ ((v : Envelope) × (x ≡ inr v))
  Framed-cases (inl m) = inl (m, refl)
  Framed-cases (inr v) = inr (v, refl)

  bad_value : (m : UnframeError) (s : Inbox) → (on_value env out (inl m) s).0 ≡ handled → ⊥
  unfolding on_value
  bad_value m s h = cc

  stop_handled : (stop : Handled) → stop ≡ handled → some stop ≡ some handled
  stop_handled stop h = ap some h

  envelope-handled :
      (rec : Rec) (v : Envelope) (s : Inbox)
      → unframe out.json rec.value ≡ inr v
      → (on_value env out (inr v) s).0 ≡ handled
      → IsApplied rec s (on_value env out (inr v) s).1
  unfolding on_value on_envelope
  envelope-handled rec v s framed h = elim (Option-cases (env.uuid_parse v.event_id)) [
    | inl bad ↦ absurd (ground (arith, bad, h))
    | inr (e, event) ↦ elim (Option-cases (env.uuid_parse (text_field "payment_id" v.payload))) [
      | inl bad ↦ absurd (ground (arith, event, bad, h))
      | inr (p, payment) ↦ (
        v,
        e,
        p,
        framed,
        event,
        payment,
        rw (event, on_envelope)
            (rw payment (ids-handled e p v s (rw payment at (rw (event, on_envelope) at h)))),
      )
    ]
  ]

  value-handled :
      (rec : Rec) (s : Inbox)
      → (on_value env out (unframe out.json rec.value) s).0 ≡ handled
      → IsApplied rec s (on_value env out (unframe out.json rec.value) s).1
  value-handled rec s h = elim (Framed-cases (unframe out.json rec.value)) [
    | inl (m, bad) ↦ absurd (bad_value m s (rw bad at h))
    | inr (v, good) ↦
        subst (λ x. IsApplied rec s (on_value env out x s).1) (sym good)
          (envelope-handled rec v s good (rw good at h))
  ]

  handle-handled :
      (fuel : ℕ) (rec : Rec) (s : Inbox)
      → (handle env out fuel rec s).0 ≡ handled
      → IsApplied rec s (handle env out fuel rec s).1
  unfolding handle
  handle-handled fuel rec s h =
      elim (Option-cases (hold_for_registry env out fuel 0 s.world.history rec.value)) [
        | inl passed ↦ rw (passed, handle) (value-handled rec s (rw (passed, handle) at h))
        | inr (stop, e) ↦
            absurd (not_handled fuel 0 s rec.value (rw e (stop_handled stop (rw (e, handle) at h))))
      ]

  -- The record is dead-lettered, with a cause.
  abbrev pub IsDead : Rec → Inbox → Type 0
  IsDead rec u = (c : Cause) × Memᴰ (rec, c) u.dead

  IsDead-settled :
      (rec : Rec) (c : Cause) (s : Inbox)
      → (dead_letter env out rec c s).0 ≡ settled
      → IsDead rec (dead_letter env out rec c s).1
  unfolding dead_letter
  IsDead-settled rec c s h = elim (Bool-cases (out.dlq_ok s.world.history)) [
    | inl up ↦ rw up (c, Memᴰ.head refl)
    | inr down ↦ absurd (ground (arith, down, h))
  ]

  -- Applied by some attempt, or dead-lettered.
  IsSafe : Rec → Inbox → Type 0
  IsSafe rec u = ((s : Inbox) × IsApplied rec s u) ⊎ IsDead rec u

  attempt-settled :
      (again : Cause → Inbox → Settled × Inbox) (rec : Rec) (s : Inbox) (x : Handled × Inbox)
      → (x.0 ≡ handled → IsApplied rec s x.1)
      → ((c : Cause) (t : Inbox) → (again c t).0 ≡ settled → IsSafe rec (again c t).1)
      → (after_attempt env out again rec x).0 ≡ settled
      → IsSafe rec (after_attempt env out again rec x).1
  unfolding after_attempt IsSafe
  attempt-settled again rec s (handled, t) applied later h = inl (s, applied refl)
  attempt-settled again rec s (poisoned c, t) applied later h = inr (IsDead-settled rec c t h)
  attempt-settled again rec s (failed c, t) applied later h = later c t h
  attempt-settled again rec s (panics, t) applied later h = absurd (cc)
  attempt-settled again rec s (unfinished, t) applied later h = absurd (cc)

  attempts-settled :
      (n fuel : ℕ) (rec : Rec) (c : Cause) (s : Inbox)
      → (attempts_from env out n fuel rec c s).0 ≡ settled
      → IsSafe rec (attempts_from env out n fuel rec c s).1
  unfolding attempts_from IsSafe
  attempts-settled zero fuel rec c s h = inr (IsDead-settled rec c s h)
  attempts-settled (suc n) fuel rec c s h =
      attempt-settled (λ d t. attempts_from env out n fuel rec d t) rec s
        (handle env out fuel rec s) (handle-handled fuel rec s)
        (λ d t. attempts-settled n fuel rec d t) h

  -- A record is settled only if its event is marked as processed, after it was applied by a
  -- completion that reported no error or was marked before, or if it stands in the dead letters.
  pub settled_is_safe :
      (fuel : ℕ) (rec : Rec) (s : Inbox)
      → (handle_with_retry env out fuel rec s).0 ≡ settled
      → ((t : Inbox) × IsApplied rec t (handle_with_retry env out fuel rec s).1)
        ⊎ IsDead rec (handle_with_retry env out fuel rec s).1
  unfolding handle_with_retry IsSafe
  settled_is_safe fuel rec s h = attempts-settled max_attempts fuel rec Cause.context_ended s h
