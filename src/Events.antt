-- ===== src/Events.antt =====
-- internal/events/events.go: the envelope, and the wire format around its JSON.
-- The JSON encoder and decoder are arguments.
pub mod Registry
pub mod Validator
pub mod RoundTrip
pub mod Verdicts
mod Tests
use text.Mathlib.Text.{◌==◌ as str_eq}
use peikonpurekkusu_payment.Prelude.{
  ℕ, ◌||◌, Bool, true, false, String, List, [], ◌∷◌, Option, none, some, ◌⊎◌, inl, inr, ◌==◌,
  if◌then◌else◌,
}
use peikonpurekkusu_payment.Prelude.Int.{ℤ}
use peikonpurekkusu_payment.Prelude.Bytes.{Bytes, put_uint32, uint32, to_uint32, to_int32}
use peikonpurekkusu_payment.Payment.{Time}
use peikonpurekkusu_payment.Saga.World.{Value, str, Payload}

pub record Envelope : Type 0 where
  pub event_id : String
  pub event_type : String
  pub schema_version : ℕ
  pub occurred_at : Time
  pub tenant_id : String
  pub correlation_id : String
  pub causation_id : Option String
  pub idempotency_key : Option String
  pub payload : Payload

unfoldable pub new_envelope : String → String → String → Time → Payload → Envelope
new_envelope event_id topic correlation_id occurred_at payload = record {
  event_id = event_id;
  event_type = topic;
  schema_version = 1;
  occurred_at = occurred_at;
  tenant_id = "peikon";
  correlation_id = correlation_id;
  causation_id = none;
  idempotency_key = none;
  payload = payload;
}

-- encoding/json on envelopes.
pub record Json : Type 0 where
  pub marshal : Envelope → Option Bytes
  pub unmarshal : Bytes → String ⊎ Envelope

-- Why a value is no event.
pub data UnframeError : Type 0 where
  not_framed no_event_id : UnframeError
  bad_envelope : String → UnframeError

-- The five bytes of the frame, if the value has one more and the magic byte: the schema id, and
-- the rest.
unfoldable pub header : Bytes → Option (ℤ × Bytes)
unfolding uint32 to_int32
header (m ∷ a ∷ b ∷ c ∷ d ∷ e ∷ rest) =
    if m == 0 then some (to_int32 (uint32 a b c d), e ∷ rest) else none
header _ = none

-- The envelope must name its event and its type.
unfoldable pub named : Envelope → UnframeError ⊎ Envelope
named v = if str_eq v.event_id "" || str_eq v.event_type "" then inl no_event_id else inr v

unfoldable pub parsed : String ⊎ Envelope → UnframeError ⊎ Envelope
unfolding named
parsed (inl m) = inl (bad_envelope m)
parsed (inr v) = named v

module _ (json : Json) where
  unfoldable pub frame : ℤ → Envelope → Option Bytes
  unfolding put_uint32 to_uint32
  frame schema_id v = elim (json.marshal v) [
    | none ↦ none
    | some payload ↦ some (0 ∷ put_uint32 (to_uint32 schema_id) payload)
  ]

  unfoldable pub unframe : Bytes → UnframeError ⊎ Envelope
  unfolding header parsed
  unframe value = elim (header value) [
    | none ↦ inl not_framed
    | some (id, doc) ↦ parsed (json.unmarshal doc)
  ]

-- `str(payload[key])`: the empty text if the key is missing or holds no text.
unfoldable pub text_field : String → Payload → String
text_field key [] = ""
text_field key ((k, v) ∷ rest) =
    if str_eq k key then (elim v [ str s ↦ s | _ ↦ "" ]) else text_field key rest
