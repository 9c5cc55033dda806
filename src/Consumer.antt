-- ===== src/Consumer.antt =====
-- internal/consumer/consumer.go: the consumer of gateway.psp.completed.v1. The context, the broker
-- and the JSON decoder are arguments, and so is what the validator of Events/Validator answers.
pub mod Settles
pub mod Reports
pub mod Batch
pub mod Run
pub mod Commits
pub mod Passed
pub mod Trace
pub mod Committed
mod Tests
use text.Mathlib.Text.{◌==◌ as str_eq}
use peikonpurekkusu_payment.Prelude.{
  ℕ, zero, suc, ◌+◌, Bool, true, false, ◌||◌, String, List, [], ◌∷◌, Option, none, some, ◌⊎◌, inl,
  inr, ◌==◌, if◌then◌else◌,
}
use peikonpurekkusu_payment.Prelude.Bytes.{Bytes}
use peikonpurekkusu_payment.Events.{Envelope, Json, UnframeError, unframe, text_field}
use peikonpurekkusu_payment.Payment.{Uuid}
use peikonpurekkusu_payment.Saga.World.{queried, wrote, History, World, Env, record_event}
use peikonpurekkusu_payment.Saga.Persist.{SagaError}
use peikonpurekkusu_payment.Saga.Drive.{
  Ended, returned, crashed, out_of_fuel, complete_from_gateway,
}

abbrev pub max_attempts : ℕ
max_attempts = 3

-- What the validator says of a value: an error of its own carries its text.
pub data Validation : Type 0 where
  valid registry_unavailable : Validation
  invalid : String → Validation

pub record Rec : Type 0 where
  pub topic : String
  pub value : Bytes

-- Why an event was not handled.
pub data Cause : Type 0 where
  invalid_value : String → Cause
  bad_frame : UnframeError → Cause
  bad_event_id bad_payment_id no_outcome context_ended database_error : Cause
  not_applied : SagaError → Cause

-- The validator's answer may differ from one question to the next, since its registry's may.
pub record Outside : Type 0 where
  pub validate : History → ℕ → Bytes → Validation
  pub context_done : History → ℕ → Bool
  pub json : Json
  pub dlq_ok : History → Bool

-- The database of the engine, the table `processed_events`, and the dead letters.
pub record Inbox : Type 0 where
  pub world : World
  pub processed : List Uuid
  pub dead : List (Rec × Cause)

-- `unfinished` is no end of the program's: a handler that still waits for the registry, or whose
-- completion ran out of fuel.
pub data Handled : Type 0 where
  handled : Handled
  poisoned failed : Cause → Handled
  panics unfinished : Handled

pub data Settled : Type 0 where
  settled unsettled : Settled
  -- The process is down, or still waits.
  stopped : Settled

unfoldable pub is_processed : Uuid → List Uuid → Bool
is_processed e [] = false
is_processed e (x ∷ xs) = (x == e) || is_processed e xs

module _ (env : Env) (out : Outside) where
  -- The loop that waits for the schema registry, from question `i` on.
  unfoldable pub hold_for_registry : ℕ → ℕ → History → Bytes → Option Handled
  hold_for_registry zero i h value = some unfinished
  hold_for_registry (suc fuel) i h value = elim (out.validate h i value) [
    | valid ↦ none
    | invalid m ↦ some (poisoned (invalid_value m))
    | registry_unavailable ↦
        (let rest = hold_for_registry fuel (i + 1) h value in
          if out.context_done h i then some (failed context_ended) else rest)
  ]

  -- `insert into processed_events … on conflict do nothing`
  unfoldable pub mark : Uuid → Inbox → Handled × Inbox
  unfolding is_processed
  mark e s =
      let s' = record s { world = record_event (wrote (env.commit_ok s.world.history)) s.world } in
      if env.commit_ok s.world.history
      then (
        handled,
        (if is_processed e s.processed then s' else record s' { processed = e ∷ s.processed }),
      )
      else (failed database_error, s')

  unfoldable pub after_effect :
      Uuid → List Uuid → List (Rec × Cause) → Ended × Option SagaError × World → Handled × Inbox
  unfolding mark
  after_effect e processed dead (crashed, x, w) =
      (panics, record { world = w; processed = processed; dead = dead })
  after_effect e processed dead (out_of_fuel, x, w) =
      (unfinished, record { world = w; processed = processed; dead = dead })
  after_effect e processed dead (returned, some x, w) =
      (failed (not_applied x), record { world = w; processed = processed; dead = dead })
  after_effect e processed dead (returned, none, w) =
      mark e (record { world = w; processed = processed; dead = dead })

  unfoldable pub on_new_event : Uuid → Uuid → Envelope → Inbox → Handled × Inbox
  unfolding after_effect complete_from_gateway
  on_new_event e p v s =
      if str_eq (text_field "outcome" v.payload) ""
      then (poisoned no_outcome, s)
      else after_effect e s.processed s.dead (
          complete_from_gateway env p (str_eq (text_field "outcome" v.payload) "approved")
            (text_field "psp_reference" v.payload) (text_field "decline_code" v.payload) s.world)

  unfoldable pub on_ids : Uuid → Uuid → Envelope → Inbox → Handled × Inbox
  unfolding on_new_event is_processed
  on_ids e p v s =
      let s' = record s { world = record_event queried s.world } in
      if env.query_ok s.world.history
      then (if is_processed e s.processed then (handled, s') else on_new_event e p v s')
      else (failed database_error, s')

  unfoldable pub on_envelope : Envelope → Inbox → Handled × Inbox
  unfolding on_ids
  on_envelope v s = elim (env.uuid_parse v.event_id) [
    | none ↦ (poisoned bad_event_id, s)
    | some e ↦ elim (env.uuid_parse (text_field "payment_id" v.payload)) [
      | none ↦ (poisoned bad_payment_id, s)
      | some p ↦ on_ids e p v s
    ]
  ]

  unfoldable pub on_value : UnframeError ⊎ Envelope → Inbox → Handled × Inbox
  unfolding on_envelope
  on_value (inl m) s = (poisoned (bad_frame m), s)
  on_value (inr v) s = on_envelope v s

  unfoldable pub handle : ℕ → Rec → Inbox → Handled × Inbox
  unfolding hold_for_registry on_value
  handle fuel rec s = elim (hold_for_registry fuel 0 s.world.history rec.value) [
    | some stop ↦ (stop, s)
    | none ↦ on_value (unframe out.json rec.value) s
  ]

  unfoldable pub dead_letter : Rec → Cause → Inbox → Settled × Inbox
  dead_letter rec cause s =
      if out.dlq_ok s.world.history
      then (settled, record s { dead = (rec, cause) ∷ s.dead })
      else (unsettled, s)

  -- What follows one attempt; `again` is the rest of the loop.
  unfoldable pub after_attempt :
      (Cause → Inbox → Settled × Inbox) → Rec → Handled × Inbox → Settled × Inbox
  unfolding dead_letter
  after_attempt again rec (handled, s) = (settled, s)
  after_attempt again rec (poisoned c, s) = dead_letter rec c s
  after_attempt again rec (failed c, s) = again c s
  after_attempt again rec (panics, s) = (stopped, s)
  after_attempt again rec (unfinished, s) = (stopped, s)

  unfoldable pub attempts_from : ℕ → ℕ → Rec → Cause → Inbox → Settled × Inbox
  unfolding after_attempt handle
  attempts_from zero fuel rec last s = dead_letter rec last s
  attempts_from (suc n) fuel rec last s =
      after_attempt (λ c t. attempts_from n fuel rec c t) rec (handle fuel rec s)

  -- The first cause is never used: there is at least one attempt.
  unfoldable pub handle_with_retry : ℕ → Rec → Inbox → Settled × Inbox
  unfolding attempts_from
  handle_with_retry fuel rec s = attempts_from max_attempts fuel rec context_ended s

  -- One record of a batch: an unsettled one does not keep the rest from being handled.
  unfoldable pub after_record : (Inbox → Settled × Inbox) → Settled × Inbox → Settled × Inbox
  after_record again (settled, s) = again s
  after_record again (unsettled, s) =
      let (rest, s') = again s in (elim rest [ stopped ↦ stopped | _ ↦ unsettled ], s')
  after_record again (stopped, s) = (stopped, s)

  -- The records of one fetch: `Run` commits their offsets if they are all settled.
  unfoldable pub settle_batch : ℕ → List Rec → Inbox → Settled × Inbox
  unfolding after_record handle_with_retry
  settle_batch fuel [] s = (settled, s)
  settle_batch fuel (rec ∷ recs) s =
      after_record (λ t. settle_batch fuel recs t) (handle_with_retry fuel rec s)
