-- ===== src/Events/RoundTrip.antt =====
-- What is framed by internal/events/events.go is read back, and under the schema that it was framed
-- with.
use text.Mathlib.Text.{◌==◌ as str_eq}
use peikonpurekkusu_payment.Prelude.{ℕ, ◌≡◌, refl, false, ◌∷◌, some, inr, ◌∙◌, ap}
use peikonpurekkusu_payment.Prelude.Int.{ℤ}
use peikonpurekkusu_payment.Prelude.Bytes.{
  Bytes, put_uint32, to_uint32, to_int32, IsInt32, to_int32-to_uint32, to_uint32-bound, uint32-put,
}
use peikonpurekkusu_payment.Events.{Envelope, Json, header, named, parsed, frame, unframe}

-- The header of a frame gives the id and the document back, if there is a document.
header-frame :
    (id : ℤ) (c : ℕ) (doc : Bytes)
    → IsInt32 id
    → header (0 ∷ put_uint32 (to_uint32 id) (c ∷ doc)) ≡ some (id, c ∷ doc)
unfolding header put_uint32
header-frame id c doc h =
    ap (λ i. some (i, c ∷ doc))
      (ap to_int32 (uint32-put (to_uint32 id) (to_uint32-bound id)) ∙ to_int32-to_uint32 id h)

module _ (json : Json) (id : ℤ) (v : Envelope) (c : ℕ) (doc : Bytes) where
  unframe_read :
      (value : Bytes)
      → header value ≡ some (id, c ∷ doc)
      → json.unmarshal (c ∷ doc) ≡ inr v
      → str_eq v.event_id "" ≡ false
      → str_eq v.event_type "" ≡ false
      → unframe json value ≡ inr v
  unfolding unframe
  unframe_read value h read event kind =
      rw (h, unframe) (rw (read, parsed) (rw (event, named) (rw kind refl)))

  -- A framed event, whose JSON is not empty and is decoded to what was encoded, is read back as it
  -- was, and its header holds the schema id, if the event has an id and a type and the schema id is
  -- an int32.
  pub unframe-frame :
      IsInt32 id
      → json.marshal v ≡ some (c ∷ doc)
      → json.unmarshal (c ∷ doc) ≡ inr v
      → str_eq v.event_id "" ≡ false
      → str_eq v.event_type "" ≡ false
      → (value : Bytes) × (frame json id v ≡ some value)
        × (header value ≡ some (id, c ∷ doc))
        × (unframe json value ≡ inr v)
  unfolding frame unframe
  unframe-frame small written read event kind =
      let h : header (0 ∷ put_uint32 (to_uint32 id) (c ∷ doc)) ≡ some (id, c ∷ doc) =
        header-frame id c doc small in
      (
        0 ∷ put_uint32 (to_uint32 id) (c ∷ doc),
        rw (written, frame) refl,
        h,
        unframe_read (0 ∷ put_uint32 (to_uint32 id) (c ∷ doc)) h read event kind,
      )
