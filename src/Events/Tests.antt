-- ===== src/Events/Tests.antt =====
-- Concrete runs of the framing and of the validator.
use peikonpurekkusu_payment.Prelude.{
  String, arith, ℕ, ◌≡◌, refl, [], ◌∷◌, Option, none, some, inl, inr, ◌==◌,
}
use peikonpurekkusu_payment.Prelude.Int.{ℤ, pos}
use peikonpurekkusu_payment.Prelude.Bytes.{Bytes}
use peikonpurekkusu_payment.Events.{
  Envelope, new_envelope, Json, not_framed, header, frame, unframe,
}
use peikonpurekkusu_payment.Events.Registry.{Reply, unreachable}
use peikonpurekkusu_payment.Events.Validator.{registry_unavailable, Library, validate, find_schema}
use peikonpurekkusu_payment.Events.RoundTrip.{unframe-frame}
use peikonpurekkusu_payment.Events.Verdicts.{IsHonest, IsCoherent, IsRight, validate-reference}

abbrev event : Envelope
unfolding new_envelope
event = new_envelope "e-1" "payments.payment.requested.v1" "e-1" 1000 []

-- An encoder that writes one byte, and the decoder of it.
abbrev one_byte : Json
one_byte = record { marshal = λ v. some (7 ∷ []); unmarshal = λ b. inr event }

framed : frame one_byte (pos 258) event ≡ some (0 ∷ 0 ∷ 0 ∷ 1 ∷ 2 ∷ 7 ∷ [])
unfolding frame
framed = refl

raw_json_is_no_event : unframe one_byte (123 ∷ 34 ∷ 97 ∷ 34 ∷ 58 ∷ 49 ∷ []) ≡ inl not_framed
unfolding unframe
raw_json_is_no_event = refl

empty_is_no_event : unframe one_byte (0 ∷ 0 ∷ 0 ∷ 1 ∷ 2 ∷ []) ≡ inl not_framed
unfolding unframe
empty_is_no_event = refl

unframe-frame_example :
    (value : Bytes) × (frame one_byte (pos 258) event ≡ some value)
    × (header value ≡ some (pos 258, 7 ∷ []))
    × (unframe one_byte value ≡ inr event)
unfolding event
unframe-frame_example =
    unframe-frame one_byte (pos 258) event 7 [] (omega arith) refl refl refl refl

-- A document is its first byte, and a schema is what that byte has to be.
abbrev first_byte : Bytes → Option ℕ
first_byte [] = none
first_byte (b ∷ _) = some b

abbrev bytewise : Library ℕ ℕ
bytewise = record {
  parse_doc = first_byte;
  accepts = λ s d. s == d;
  decode_schema = λ body. some body;
  compile = λ id text. some 7;
}

abbrev always_down : ℤ → Reply
always_down id = unreachable

abbrev all_sevens : ℤ → Option String
all_sevens id = some "7"

down-IsHonest : IsHonest bytewise all_sevens always_down
down-IsHonest id = inl tt

empty-IsCoherent : IsCoherent bytewise all_sevens []
unfolding find_schema
empty-IsCoherent id s h = absurd (cc)

an_outage_is_no_verdict :
    (validate bytewise always_down (0 ∷ 0 ∷ 0 ∷ 0 ∷ 1 ∷ 7 ∷ []) []).0 ≡ some registry_unavailable
unfolding validate
an_outage_is_no_verdict = refl

the_cache_bridges_it :
    validate bytewise always_down (0 ∷ 0 ∷ 0 ∷ 0 ∷ 1 ∷ 7 ∷ []) ((pos 1, 7) ∷ [])
    ≡ (none, (pos 1, 7) ∷ [])
unfolding validate
the_cache_bridges_it = refl

validate-reference_example :
    IsRight bytewise all_sevens always_down
      (0 ∷ 0 ∷ 0 ∷ 0 ∷ 1 ∷ 7 ∷ [])
      []
      (some registry_unavailable)
    × IsCoherent bytewise all_sevens []
unfolding validate
validate-reference_example =
    validate-reference bytewise all_sevens always_down (0 ∷ 0 ∷ 0 ∷ 0 ∷ 1 ∷ 7 ∷ []) [] down-IsHonest
      empty-IsCoherent
