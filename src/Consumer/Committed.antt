-- ===== src/Consumer/Committed.antt =====
-- The committed offsets of the loop `Run` of internal/consumer/consumer.go, and what the engine has
-- done for them.
use peikonpurekkusu_payment.Prelude.{ℕ, ◌≡◌, inr, true, some}
use peikonpurekkusu_payment.Events.{Envelope, unframe, text_field}
use peikonpurekkusu_payment.Payment.{Uuid}
use peikonpurekkusu_payment.Saga.World.{Env}
use peikonpurekkusu_payment.Consumer.{Rec, Outside, Inbox, is_processed}
use peikonpurekkusu_payment.Consumer.Run.{Client}
use peikonpurekkusu_payment.Consumer.Trace.{IsBehind}

module _ {S : Type 0} (client : Client S) (env : Env) (out : Outside) (fuel : ℕ) where
  -- The record's event has valid ids and is marked at the end, and what stands behind the mark.
  abbrev pub IsApplied : Inbox → Inbox → Rec → Type 0
  IsApplied s u z =
      (v : Envelope) × (e : Uuid) × (p : Uuid) × (unframe out.json z.value ≡ inr v)
      × (env.uuid_parse v.event_id ≡ some e)
      × (env.uuid_parse (text_field "payment_id" v.payload) ≡ some p)
      × (is_processed e u.processed ≡ true)
      × IsBehind env out fuel e s u
