-- ===== src/Gateway/Secured.antt =====
-- A creation behind the middleware: internal/gatewayauth/gatewayauth.go in front of `createPayment` of
-- internal/httpapi/server.go, as cmd/server/main.go puts them together.
use mathlib.Core.List.{Memᴰ}
use text.Mathlib.Text.{◌==◌ as str_eq}
use peikonpurekkusu_payment.Prelude.{
  ℕ, ◌≡◌, ◌≢◌, refl, sym, ◌∙◌, ap, ◌⊎◌, inl, inr, arith, true, false, String, List, [], ◌∷◌, Option,
  none, some, Bool-cases, Option-cases, All, map,
}
use peikonpurekkusu_payment.Prelude.Int.{ℤ, ltb_ℤ}
use peikonpurekkusu_payment.Prelude.Fields.{codes, codes_eq, split, parse_int64}
use peikonpurekkusu_payment.Payment.{Row, Time}
use peikonpurekkusu_payment.Saga.World.{Env}
use peikonpurekkusu_payment.HttpApi.{Request, Headers, get}
use peikonpurekkusu_payment.HttpApi.StepUp.{
  amr_fields, has_mfa, mfa, stepped_up, fresh, read_auth_strength, unix, is_recent,
}
use peikonpurekkusu_payment.HttpApi.Create.{Api, Outside, create_payment}
use peikonpurekkusu_payment.HttpApi.Secured.{IsProbe, create_needs_factor}
use peikonpurekkusu_payment.Gateway.{
  Claim, string, number, array, anything, Claims, Parsed, token, forwarded, assertion_header, texts,
  join, join_strings, claim, subject, has_prefix, middleware,
}
use peikonpurekkusu_payment.Gateway.Identity.{
  IsIdentity, IsVerified, middleware-IsVerified, time_text,
}
use peikonpurekkusu_payment.Gateway.Factor.{IsPlain, amr_fields-join}

-- The methods of authentication that a claim lists.
unfoldable pub methods : Option Claim → List String
unfolding texts
methods (some (array es)) = texts es
methods _ = []

join_strings-methods : (c : Option Claim) → join_strings c ≡ join (methods c)
unfolding join_strings join methods
join_strings-methods none = refl
join_strings-methods (some (string s)) = refl
join_strings-methods (some (number n)) = refl
join_strings-methods (some (array es)) = refl
join_strings-methods (some anything) = refl

codes_eq-own : (xs ys : List ℕ) → codes_eq xs ys ≡ true → xs ≡ ys
codes_eq-own [] [] h = refl
codes_eq-own [] (y ∷ ys) h = absurd (cc)
codes_eq-own (x ∷ xs) [] h = absurd (cc)
codes_eq-own (x ∷ xs) (y ∷ ys) h = ground (arith, codes_eq-own xs ys)

-- A method that reads "mfa" is one of the list.
has_mfa-member :
    (ms : List String) → has_mfa (map codes ms) ≡ true → (m : String) × Memᴰ m ms × (codes m ≡ mfa)
unfolding has_mfa
has_mfa-member [] h = absurd (cc)
has_mfa-member (m ∷ ms) h = elim (Bool-cases (codes_eq (codes m) mfa)) [
  | inl same ↦ (m, Memᴰ.head refl, codes_eq-own (codes m) mfa same)
  | inr other_ ↦ (let (n, k, e) = has_mfa-member ms (rw other_ at h) in (n, Memᴰ.tail k, e))
]

some_inj : {A : Type 0} {a b : A} → some a ≡ some b → a ≡ b
some_inj e = cc

-- A subject that is not empty is a text.
named_text :
    (c : Option Claim) (sub : String)
    → subject c ≡ some sub
    → str_eq sub "" ≡ false
    → c ≡ some (string sub)
unfolding subject
named_text none sub e full =
    let same : sub ≡ "" = sym (some_inj e) in
    let wrong : str_eq "" "" ≡ false = rw same at full in absurd (cc (wrong))
named_text (some (string s)) sub e full = cc
named_text (some (number n)) sub e full = absurd (cc)
named_text (some (array es)) sub e full = absurd (cc)
named_text (some anything) sub e full = absurd (cc)

-- When the claims say that the user logged in, as the service reads it; none if they do not say it.
abbrev pub login_time : Claims → Option ℤ
login_time claims = unix (parse_int64 (codes (time_text (claim "auth_time" claims))))

-- The login of the claims is not older than the limit.
abbrev pub IsRecent : Time → Time → Claims → Type 0
IsRecent now max_age claims =
    (t : ℤ) × (login_time claims ≡ some t) × (is_recent now max_age t ≡ true)

module _ (env : Env) (out : Outside) (parse : String → Parsed) (path : String) (r : Request)
    (s : Api) where
  -- The request as the handler gets it.
  abbrev pub seen : Headers → Request
  seen h' = record r { headers = h' }

  factor_claimed :
      (claims : Claims) (sub : String) (h' : Headers)
      → IsIdentity sub claims r.headers h'
      → All IsPlain (methods (claim "amr" claims))
      → stepped_up (read_auth_strength h') ≡ true
      → (m : String) × Memᴰ m (methods (claim "amr" claims)) × (codes m ≡ mfa)
  unfolding stepped_up read_auth_strength
  factor_claimed claims sub h' i plain up = has_mfa-member (methods (claim "amr" claims)) (
      ap has_mfa (
        sym (
          ap (λ t. amr_fields (split 44 (codes t)))
            (i.amr ∙ join_strings-methods (claim "amr" claims))
          ∙ amr_fields-join (methods (claim "amr" claims)) plain))
      ∙ up)

  login_claimed :
      (claims : Claims) (sub : String) (h' : Headers) (now max_age : Time)
      → IsIdentity sub claims r.headers h'
      → fresh now max_age (read_auth_strength h') ≡ true
      → IsRecent now max_age claims
  unfolding fresh read_auth_strength
  login_claimed claims sub h' now max_age i h =
      let same : (read_auth_strength h').auth_time ≡ login_time claims =
        ap (λ t. unix (parse_int64 (codes t))) i.auth_time in
      elim (Option-cases (login_time claims)) [
        | inl unknown ↦ absurd (ground (arith, same, unknown, h))
        | inr (t, known) ↦ (t, known, ground (arith, same, known, h))
      ]

  -- A payment that a request behind the middleware starts is the subject's of an assertion that was
  -- parsed to a valid token; and it is below the limit, or that token claims the method "mfa"
  -- and a login that is recent. The two readers of a body agree on the amount, and the methods that
  -- a valid token claims are plain.
  pub guarded_create :
      (h' : Headers)
      → IsProbe out
      → ((claims : Claims)
          → parse (get assertion_header r.headers) ≡ token true (some claims)
          → All IsPlain (methods (claim "amr" claims)))
      → has_prefix (codes "/health/") (codes path) ≡ false
      → middleware parse path r.headers ≡ forwarded h'
      → (create_payment env out (seen h') s).1.started ≢ s.started
      → (claims : Claims) × (sub : String) × (row : Row) × (parse (get assertion_header r.headers)
          ≡ token true (some claims))
        × ((create_payment env out (seen h') s).1.started ≡ row.id ∷ s.started)
        × ((create_payment env out (seen h') s).1.world.payments ≡ row ∷ s.world.payments)
        × (claim "sub" claims ≡ some (string sub))
        × (env.uuid_parse sub ≡ some row.user_id)
        × ((ltb_ℤ row.amount out.step_up_limit ≡ true)
            ⊎ (((m : String) × Memᴰ m (methods (claim "amr" claims)) × (codes m ≡ mfa))
                × IsRecent s.world.now out.step_up_max_age claims))
  guarded_create h' probe plain guarded passed changed =
      let v : IsVerified parse path r.headers h' =
        middleware-IsVerified parse path r.headers h' guarded passed in
      let (row, started, inserted, caller, allowed) =
        create_needs_factor env out (seen h') s probe changed in
      (
        v.claims,
        v.sub,
        row,
        v.signed,
        started,
        inserted,
        named_text (claim "sub" v.claims) v.sub v.named v.not_empty,
        rw (v.identity).user at caller,
        elim allowed [
          | inl small ↦ inl small
          | inr (up, recent) ↦ inr (
            factor_claimed v.claims v.sub h' v.identity (plain v.claims v.signed) up,
            login_claimed v.claims v.sub h' s.world.now out.step_up_max_age v.identity recent,
          )
        ],
      )
