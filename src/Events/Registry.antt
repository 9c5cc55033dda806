-- ===== src/Events/Registry.antt =====
-- `Registry.SchemaID` of internal/events/events.go, with its cache.
use text.Mathlib.Text.{◌==◌ as str_eq}
use text.Mathlib.TextPositions.{eq_refl}
use peikonpurekkusu_payment.Prelude.{
  ℕ, ◌≡◌, refl, String, List, [], ◌∷◌, Option, none, some, ◌==◌, if◌then◌else◌, arith, Option-cases,
  inl, inr, ◌∙◌,
}
use peikonpurekkusu_payment.Prelude.Int.{ℤ}

-- What the registry answers to a GET: nothing, or a status and a body.
pub data Reply : Type 0 where
  unreachable : Reply
  answered : ℕ → String → Reply

abbrev pub Ids : Type 0
Ids = List (String × ℤ)

unfoldable pub find_id : String → Ids → Option ℤ
find_id topic [] = none
find_id topic ((t, id) ∷ rest) = if str_eq t topic then some id else find_id topic rest

-- The decoder of the body is an argument. A failed lookup leaves the cache as it is.
module _ (decode_id : String → Option ℤ) where
  unfoldable pub read_id : Reply → Option ℤ
  read_id unreachable = none
  read_id (answered code body) = if code == 200 then decode_id body else none

  unfoldable pub cache_id : String → Option ℤ → Ids → Option ℤ × Ids
  cache_id topic none ids = (none, ids)
  cache_id topic (some id) ids = (some id, (topic, id) ∷ ids)

  unfoldable pub schema_id : String → Reply → Ids → Option ℤ × Ids
  unfolding find_id read_id cache_id
  schema_id topic reply ids = elim (find_id topic ids) [
    | some id ↦ (some id, ids)
    | none ↦ cache_id topic (read_id reply) ids
  ]

  found_again : (topic : String) (id : ℤ) (ids : Ids) → find_id topic ((topic, id) ∷ ids) ≡ some id
  unfolding find_id
  found_again topic id ids = rw (eq_refl topic) refl

  from_cache :
      (topic : String) (later : Reply) (ids : Ids) (id : ℤ)
      → find_id topic ids ≡ some id
      → schema_id topic later ids ≡ (some id, ids)
  unfolding schema_id
  from_cache topic later ids id e = rw (e, schema_id) refl

  -- What a lookup returns stands in the cache that it leaves.
  pub schema_id-find_id :
      (topic : String) (reply : Reply) (ids : Ids) (id : ℤ)
      → (schema_id topic reply ids).0 ≡ some id
      → find_id topic (schema_id topic reply ids).1 ≡ some id
  unfolding schema_id
  schema_id-find_id topic reply ids id h = elim (Option-cases (find_id topic ids)) [
    | inr (i, e) ↦ rw (e, schema_id) (e ∙ (rw (e, schema_id) at h))
    | inl e ↦ elim (Option-cases (read_id reply)) [
      | inl f ↦ absurd (ground (arith, e, f, h))
      | inr (i, f) ↦
          rw (e, schema_id) (rw f (found_again topic i ids ∙ (rw f at (rw (e, schema_id) at h))))
    ]
  ]

  -- An id that was found once is found again, whatever the registry answers later.
  pub schema_id-again :
      (topic : String) (reply later : Reply) (ids : Ids) (id : ℤ)
      → (schema_id topic reply ids).0 ≡ some id
      → schema_id topic later (schema_id topic reply ids).1
        ≡ (some id, (schema_id topic reply ids).1)
  schema_id-again topic reply later ids id h =
      from_cache topic later _ id (schema_id-find_id topic reply ids id h)
