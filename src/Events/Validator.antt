-- ===== src/Events/Validator.antt =====
-- internal/events/validate.go: the validator, with its cache of compiled schemas. Documents, schemas
-- and what the JSON schema library does with them are arguments.
use peikonpurekkusu_payment.Prelude.{
  Bool, false, String, List, [], ◌∷◌, Option, none, some, ◌⊎◌, inl, inr, ◌==◌, if◌then◌else◌,
}
use peikonpurekkusu_payment.Prelude.Int.{ℤ}
use peikonpurekkusu_payment.Prelude.Bytes.{Bytes}
use peikonpurekkusu_payment.Events.{header}
use peikonpurekkusu_payment.Events.Registry.{Reply, unreachable, answered}

-- ErrSchemaInvalid, ErrUnknownSchema and ErrRegistryUnavailable.
pub data Fault : Type 0 where
  schema_invalid unknown_schema registry_unavailable : Fault

unfoldable pub int_eq : ℤ → ℤ → Bool
int_eq (ℤ.pos a) (ℤ.pos b) = a == b
int_eq (ℤ.negsuc a) (ℤ.negsuc b) = a == b
int_eq _ _ = false

-- `decode_schema` reads the text of a schema from the registry's body; `compile` is none for any
-- error of the schema library.
pub record Library (Doc Schema : Type 0) : Type 0 where
  pub parse_doc : Bytes → Option Doc
  pub accepts : Schema → Doc → Bool
  pub decode_schema : String → Option String
  pub compile : ℤ → String → Option Schema

module _ {Doc Schema : Type 0} (lib : Library Doc Schema) where
  abbrev pub Cache : Type 0
  Cache = List (ℤ × Schema)

  unfoldable pub find_schema : ℤ → List (ℤ × Schema) → Option Schema
  unfolding int_eq
  find_schema id [] = none
  find_schema id ((i, s) ∷ rest) = if int_eq i id then some s else find_schema id rest

  unfoldable pub compiled : Option Schema → Fault ⊎ Schema
  compiled none = inl schema_invalid
  compiled (some s) = inr s

  unfoldable pub fetch_schema : ℤ → Reply → Fault ⊎ Schema
  unfolding compiled
  fetch_schema id unreachable = inl registry_unavailable
  fetch_schema id (answered code body) =
      if code == 404
      then inl unknown_schema
      else if code == 200
      then (elim (lib.decode_schema body) [
        | none ↦ inl registry_unavailable
        | some text ↦ compiled (lib.compile id text)
      ])
      else inl registry_unavailable

  unfoldable pub keep_schema :
      ℤ → Fault ⊎ Schema → List (ℤ × Schema) → (Fault ⊎ Schema) × List (ℤ × Schema)
  keep_schema id (inl f) cache = (inl f, cache)
  keep_schema id (inr s) cache = (inr s, (id, s) ∷ cache)

  unfoldable pub schema : ℤ → Reply → List (ℤ × Schema) → (Fault ⊎ Schema) × List (ℤ × Schema)
  unfolding find_schema fetch_schema keep_schema
  schema id reply cache = elim (find_schema id cache) [
    | some s ↦ (inr s, cache)
    | none ↦ keep_schema id (fetch_schema id reply) cache
  ]

  -- The document against its schema: none is no error.
  unfoldable pub check : Bytes → Fault ⊎ Schema → Option Fault
  check doc (inl f) = some f
  check doc (inr s) = elim (lib.parse_doc doc) [
    | none ↦ some schema_invalid
    | some d ↦ (if lib.accepts s d then none else some schema_invalid)
  ]

  -- `replies` is what the registry would answer for each id.
  unfoldable pub validate :
      (ℤ → Reply) → Bytes → List (ℤ × Schema) → Option Fault × List (ℤ × Schema)
  unfolding header schema check
  validate replies value cache = elim (header value) [
    | none ↦ (some schema_invalid, cache)
    | some (id, doc) ↦
        (let (found, cache') = schema id (replies id) cache in (check doc found, cache'))
  ]
