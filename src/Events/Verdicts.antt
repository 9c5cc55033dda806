-- ===== src/Events/Verdicts.antt =====
-- The validator of internal/events/validate.go against a reference: what the schemas that the
-- registry has published say of a value, with no cache and no network.
use peikonpurekkusu_payment.Prelude.{
  ◌≢◌, String, arith, if◌then◌else◌, ◌≡◌, refl, true, List, ◌∷◌, Option, none, some, ◌⊎◌, inl, inr,
  Bool-cases, Option-cases, ==_iff, ◌∙◌, ap, sym,
}
use peikonpurekkusu_payment.Prelude.Int.{ℤ, pos, negsuc}
use peikonpurekkusu_payment.Prelude.Bytes.{Bytes}
use peikonpurekkusu_payment.Events.{header}
use peikonpurekkusu_payment.Events.Registry.{Reply, unreachable, answered}
use peikonpurekkusu_payment.Events.Validator.{
  Fault, schema_invalid, unknown_schema, registry_unavailable, compiled, int_eq, Library,
  find_schema, fetch_schema, keep_schema, schema, check, validate,
}

int_eq-own : (a b : ℤ) → int_eq a b ≡ true → a ≡ b
unfolding int_eq
int_eq-own (pos a) (pos b) h = ap pos ((==_iff a b).0 h)
int_eq-own (negsuc a) (negsuc b) h = ap negsuc ((==_iff a b).0 h)
int_eq-own (pos a) (negsuc b) h = absurd (cc)
int_eq-own (negsuc a) (pos b) h = absurd (cc)

some_inj : {A : Type 0} {a b : A} → some a ≡ some b → a ≡ b
some_inj e = cc

module _ {Doc Schema : Type 0} (lib : Library Doc Schema) (published : ℤ → Option String) where
  -- The schema that is published under an id, or what is wrong with it.
  unfoldable pub published_schema : ℤ → Fault ⊎ Schema
  published_schema id = elim (published id) [
    | none ↦ inl unknown_schema
    | some text ↦ (elim (lib.compile id text) [ none ↦ inl schema_invalid | some s ↦ inr s ])
  ]

  unfoldable pub judge : Bytes → Fault ⊎ Schema → Option Fault
  judge doc (inl f) = some f
  judge doc (inr s) = elim (lib.parse_doc doc) [
    | none ↦ some schema_invalid
    | some d ↦ (if lib.accepts s d then none else some schema_invalid)
  ]

  -- The verdict by the published schemas. `published` gives the text of the schema of an id, if the
  -- registry has one.
  unfoldable pub reference : Bytes → Option Fault
  unfolding judge published_schema
  reference value = elim (header value) [
    | none ↦ some schema_invalid
    | some (id, doc) ↦ judge doc (published_schema id)
  ]

  -- A registry that cannot be reached, or fails, or answers what is no schema.
  abbrev pub IsOutage : Reply → Type 0
  IsOutage unreachable = Unit
  IsOutage (answered code body) = (code ≢ 404) × ((code ≢ 200) ⊎ (lib.decode_schema body ≡ none))

  -- What is published under the id: that there is nothing, or the schema's text.
  abbrev pub IsTold : ℤ → Reply → Type 0
  IsTold id unreachable = ⊥
  IsTold id (answered code body) =
      ((code ≡ 404) × (published id ≡ none))
      ⊎ ((code ≡ 200)
          × ((text : String) × (lib.decode_schema body ≡ some text) × (published id ≡ some text)))

  -- A registry that keeps its word: it answers what is published, or fails.
  abbrev pub IsHonest : (ℤ → Reply) → Type 0
  IsHonest replies = (id : ℤ) → IsOutage (replies id) ⊎ IsTold id (replies id)

  fetch_schema-outage :
      (id : ℤ) (r : Reply) → IsOutage r → fetch_schema lib id r ≡ inl registry_unavailable
  unfolding fetch_schema
  fetch_schema-outage id unreachable h = refl
  fetch_schema-outage id (answered code body) h = ground (arith, h)

  fetch_schema-told :
      (id : ℤ) (r : Reply) → IsTold id r → fetch_schema lib id r ≡ published_schema id
  unfolding fetch_schema published_schema compiled
  fetch_schema-told id unreachable h = absurd h
  fetch_schema-told id (answered code body) (inl (missing, e)) =
      rw missing (rw (e, published_schema) refl)
  fetch_schema-told id (answered code body) (inr (fine, (text, d, e))) = rw fine (
      rw (d, e, published_schema)
        (elim (Option-cases (lib.compile id text)) [
          | inl bad ↦ rw bad refl
          | inr (s, good) ↦ rw good refl
        ]))

  check-judge : (doc : Bytes) (x : Fault ⊎ Schema) → check lib doc x ≡ judge doc x
  unfolding check judge
  check-judge doc (inl f) = refl
  check-judge doc (inr s) = refl

  -- The cache holds published schemas only.
  abbrev pub IsCoherent : List (ℤ × Schema) → Type 0
  IsCoherent cache =
      (id : ℤ) (s : Schema) → find_schema lib id cache ≡ some s → published_schema id ≡ inr s

  kept-IsCoherent :
      (id : ℤ) (s : Schema) (cache : List (ℤ × Schema))
      → published_schema id ≡ inr s
      → IsCoherent cache
      → IsCoherent ((id, s) ∷ cache)
  unfolding find_schema
  kept-IsCoherent id s cache known sound i t found = elim (Bool-cases (int_eq id i)) [
    | inl same ↦
        sym (ap published_schema (int_eq-own id i same))
        ∙ known
        ∙ ap inr (some_inj (rw same at found))
    | inr other ↦ sound i t (rw other at found)
  ]

  keep-IsCoherent :
      (id : ℤ) (x : Fault ⊎ Schema) (cache : List (ℤ × Schema))
      → (x ≡ inl registry_unavailable) ⊎ (x ≡ published_schema id)
      → IsCoherent cache
      → IsCoherent (keep_schema lib id x cache).1
  unfolding keep_schema
  keep-IsCoherent id (inl f) cache honest sound = sound
  keep-IsCoherent id (inr s) cache (inl e) sound = absurd (cc)
  keep-IsCoherent id (inr s) cache (inr e) sound = kept-IsCoherent id s cache (sym e) sound

  keep_same :
      (id : ℤ) (x : Fault ⊎ Schema) (cache : List (ℤ × Schema)) → (keep_schema lib id x cache).0 ≡ x
  unfolding keep_schema
  keep_same id (inl f) cache = refl
  keep_same id (inr s) cache = refl

  -- What the validator's `schema` gives: what is published, or an outage of a registry that it had to
  -- ask.
  schema-published :
      (replies : ℤ → Reply) (id : ℤ) (cache : List (ℤ × Schema))
      → IsHonest replies
      → IsCoherent cache
      → (((schema lib id (replies id) cache).0 ≡ published_schema id)
          ⊎ (((schema lib id (replies id) cache).0 ≡ inl registry_unavailable)
              × (find_schema lib id cache ≡ none)
              × IsOutage (replies id)))
        × IsCoherent (schema lib id (replies id) cache).1
  unfolding schema
  schema-published replies id cache honest sound = elim (Option-cases (find_schema lib id cache)) [
    | inr (s, e) ↦ rw (e, schema) (inl (sym (sound id s e)), sound)
    | inl e ↦
        let same : (keep_schema lib id (fetch_schema lib id (replies id)) cache).0
            ≡ fetch_schema lib id (replies id) =
          keep_same id _ cache in
        rw (e, schema)
          (elim (honest id) [
            | inl out ↦
                let down = fetch_schema-outage id (replies id) out in
                (inr (same ∙ down, refl, out), keep-IsCoherent id _ cache (inl down) sound)
            | inr told ↦
                let known = fetch_schema-told id (replies id) told in
                (inl (same ∙ known), keep-IsCoherent id _ cache (inr known) sound)
          ])
  ]

  outage_verdict :
      (doc : Bytes) → check lib doc (inl registry_unavailable) ≡ some registry_unavailable
  unfolding check
  outage_verdict doc = refl

  -- A verdict that follows from the published schemas, or holds the record back for an outage that
  -- the cache could not bridge.
  abbrev pub IsRight : (ℤ → Reply) → Bytes → List (ℤ × Schema) → Option Fault → Type 0
  IsRight replies value cache verdict =
      (verdict ≡ reference value)
      ⊎ ((verdict ≡ some registry_unavailable)
          × ((id : ℤ) × (doc : Bytes) × (header value ≡ some (id, doc))
              × (find_schema lib id cache ≡ none)
              × IsOutage (replies id)))

  -- With a registry that answers what it has published or fails, and a cache of published schemas,
  -- the validator gives the verdict by the published schemas, or says that the registry is not
  -- available, which it does only if the schema that the value names is not in the cache and the
  -- registry fails on it; and its cache stays one of published schemas.
  pub validate-reference :
      (replies : ℤ → Reply) (value : Bytes) (cache : List (ℤ × Schema))
      → IsHonest replies
      → IsCoherent cache
      → IsRight replies value cache (validate lib replies value cache).0
        × IsCoherent (validate lib replies value cache).1
  unfolding validate reference
  validate-reference replies value cache honest sound = elim (Option-cases (header value)) [
    | inl e ↦ rw (e, validate) (rw (e, reference) (inl refl, sound))
    | inr ((id, doc), e) ↦
        let (told, still) = schema-published replies id cache honest sound in
        rw (e, validate)
          (rw (e, reference)
            (
              elim told [
                | inl same ↦ inl (ap (check lib doc) same ∙ check-judge doc (published_schema id))
                | inr (down, miss, out) ↦
                    inr (ap (check lib doc) down ∙ outage_verdict doc, (id, doc, refl, miss, out))
              ],
              still,
            ))
  ]
