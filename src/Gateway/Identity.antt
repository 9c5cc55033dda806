-- ===== src/Gateway/Identity.antt =====
-- The identity that the middleware of internal/gatewayauth/gatewayauth.go passes on: it comes from
-- the verified claims alone.
use text.Mathlib.Text.{◌==◌ as str_eq}
use peikonpurekkusu_payment.Prelude.{
  ◌≡◌, refl, ◌∙◌, inl, inr, true, false, String, Option, none, some, Bool-cases,
}
use peikonpurekkusu_payment.Prelude.Fields.{codes}
use peikonpurekkusu_payment.HttpApi.{Headers, get}
use peikonpurekkusu_payment.Gateway.{
  Claim, string, number, array, anything, Claims, Parsed, parse_error, token, Verdict, forwarded,
  assertion_header, identity_headers, del, set, del_all, claim, subject, join_strings, format_int,
  set_auth_time, set_session, identified, with_subject, with_token, has_prefix, middleware,
}
use peikonpurekkusu_payment.Gateway.Header.{
  get-del_same, get-del_other, get-set_same, get-set_other,
}

-- What an optional header is set to.
abbrev pub time_text : Option Claim → String
time_text (some (number n)) = format_int n
time_text _ = ""

abbrev pub session_text : Option Claim → String
session_text (some (string s)) = s
session_text _ = ""

-- A header that is none of the middleware's.
abbrev pub IsOther : String → Type 0
IsOther m =
    (str_eq "X-User-Id" m ≡ false)
    × (str_eq "X-User-Roles" m ≡ false)
    × (str_eq "X-Session-Id" m ≡ false)
    × (str_eq "X-Auth-Amr" m ≡ false)
    × (str_eq "X-Auth-Time" m ≡ false)
    × (str_eq assertion_header m ≡ false)

-- The headers `h'` that are passed on in place of `h`: the identity is that of the claims.
pub record IsIdentity (sub : String) (claims : Claims) (h h' : Headers) : Type 0 where
  pub user : get "X-User-Id" h' ≡ sub
  pub roles : get "X-User-Roles" h' ≡ join_strings (claim "roles" claims)
  pub amr : get "X-Auth-Amr" h' ≡ join_strings (claim "amr" claims)
  pub auth_time : get "X-Auth-Time" h' ≡ time_text (claim "auth_time" claims)
  pub session : get "X-Session-Id" h' ≡ session_text (claim "sid" claims)
  pub assertion : get assertion_header h' ≡ ""
  pub others : (m : String) → IsOther m → get m h' ≡ get m h

time_other :
    (c : Option Claim) (m : String) (h : Headers)
    → str_eq "X-Auth-Time" m ≡ false
    → get m (set_auth_time c h) ≡ get m h
unfolding set_auth_time
time_other none m h e = refl
time_other (some (string s)) m h e = refl
time_other (some (number n)) m h e = get-set_other "X-Auth-Time" (format_int n) m h e
time_other (some (array es)) m h e = refl
time_other (some anything) m h e = refl

time_own :
    (c : Option Claim) (h : Headers)
    → get "X-Auth-Time" h ≡ ""
    → get "X-Auth-Time" (set_auth_time c h) ≡ time_text c
unfolding set_auth_time
time_own none h e = e
time_own (some (string s)) h e = e
time_own (some (number n)) h e = get-set_same "X-Auth-Time" (format_int n) h
time_own (some (array es)) h e = e
time_own (some anything) h e = e

session_other :
    (c : Option Claim) (m : String) (h : Headers)
    → str_eq "X-Session-Id" m ≡ false
    → get m (set_session c h) ≡ get m h
unfolding set_session
session_other none m h e = refl
session_other (some (string s)) m h e = get-set_other "X-Session-Id" s m h e
session_other (some (number n)) m h e = refl
session_other (some (array es)) m h e = refl
session_other (some anything) m h e = refl

session_own :
    (c : Option Claim) (h : Headers)
    → get "X-Session-Id" h ≡ ""
    → get "X-Session-Id" (set_session c h) ≡ session_text c
unfolding set_session
session_own none h e = e
session_own (some (string s)) h e = get-set_same "X-Session-Id" s h
session_own (some (number n)) h e = e
session_own (some (array es)) h e = e
session_own (some anything) h e = e

module _ (sub : String) (claims : Claims) (h : Headers) where
  -- The headers after each step.
  abbrev cleared : Headers
  unfolding del_all
  cleared = del assertion_header (del_all identity_headers h)

  abbrev with_user : Headers
  with_user = set "X-User-Id" sub cleared

  abbrev with_roles : Headers
  with_roles = set "X-User-Roles" (join_strings (claim "roles" claims)) with_user

  abbrev with_amr : Headers
  with_amr = set "X-Auth-Amr" (join_strings (claim "amr" claims)) with_roles

  abbrev with_time : Headers
  with_time = set_auth_time (claim "auth_time" claims) with_amr

  -- A header that is not written after the clearing.
  unwritten :
      (m : String)
      → str_eq "X-User-Id" m ≡ false
      → str_eq "X-User-Roles" m ≡ false
      → str_eq "X-Auth-Amr" m ≡ false
      → get m with_amr ≡ get m cleared
  unwritten m user roles amr =
      get-set_other "X-Auth-Amr" _ m with_roles amr
      ∙ get-set_other "X-User-Roles" _ m with_user roles
      ∙ get-set_other "X-User-Id" sub m cleared user

  cleared_other : (m : String) → IsOther m → get m cleared ≡ get m h
  unfolding del_all cleared
  cleared_other m (user, roles, session, amr, time, assertion) =
      get-del_other _ m _ assertion
      ∙ get-del_other _ m _ time
      ∙ get-del_other _ m _ amr
      ∙ get-del_other _ m _ session
      ∙ get-del_other _ m _ roles
      ∙ get-del_other _ m h user

  cleared_time : get "X-Auth-Time" cleared ≡ ""
  unfolding del_all cleared
  cleared_time =
      get-del_other assertion_header "X-Auth-Time" _ refl
      ∙ get-del_same "X-Auth-Time" "X-Auth-Time"
          (del "X-Auth-Amr" (del "X-Session-Id" (del "X-User-Roles" (del "X-User-Id" h)))) refl

  cleared_session : get "X-Session-Id" cleared ≡ ""
  unfolding del_all cleared
  cleared_session =
      get-del_other assertion_header "X-Session-Id" _ refl
      ∙ get-del_other "X-Auth-Time" "X-Session-Id" _ refl
      ∙ get-del_other "X-Auth-Amr" "X-Session-Id" _ refl
      ∙ get-del_same "X-Session-Id" "X-Session-Id" (del "X-User-Roles" (del "X-User-Id" h)) refl

  identified-IsIdentity : IsIdentity sub claims h (identified sub claims h)
  unfolding identified cleared
  identified-IsIdentity = record {
    user =
        late "X-User-Id" refl refl
        ∙ get-set_other "X-Auth-Amr" _ "X-User-Id" with_roles refl
        ∙ get-set_other "X-User-Roles" _ "X-User-Id" with_user refl
        ∙ get-set_same "X-User-Id" sub cleared;
    roles =
        late "X-User-Roles" refl refl
        ∙ get-set_other "X-Auth-Amr" _ "X-User-Roles" with_roles refl
        ∙ get-set_same "X-User-Roles" _ with_user;
    amr = late "X-Auth-Amr" refl refl ∙ get-set_same "X-Auth-Amr" _ with_roles;
    auth_time =
        session_other (claim "sid" claims) "X-Auth-Time" with_time refl
        ∙ time_own (claim "auth_time" claims) with_amr
            (unwritten "X-Auth-Time" refl refl refl ∙ cleared_time);
    session = session_own (claim "sid" claims) with_time (
        time_other (claim "auth_time" claims) "X-Session-Id" with_amr refl
        ∙ unwritten "X-Session-Id" refl refl refl
        ∙ cleared_session);
    assertion =
        late assertion_header refl refl
        ∙ unwritten assertion_header refl refl refl
        ∙ get-del_same assertion_header assertion_header (del_all identity_headers h) refl;
    others = λ m o. late m o.2 o.4 ∙ unwritten m o.0 o.1 o.3 ∙ cleared_other m o;
  }
    where
      late :
          (m : String)
          → str_eq "X-Session-Id" m ≡ false
          → str_eq "X-Auth-Time" m ≡ false
          → get m (set_session (claim "sid" claims) with_time) ≡ get m with_amr
      late m session time =
          session_other (claim "sid" claims) m with_time session
          ∙ time_other (claim "auth_time" claims) m with_amr time

module _ (parse : String → Parsed) (path : String) (h h' : Headers) where
  -- A verified assertion with a subject, from which the identity is taken.
  pub record IsVerified : Type 0 where
    pub claims : Claims
    pub sub : String
    pub signed : parse (get assertion_header h) ≡ token true (some claims)
    pub named : subject (claim "sub" claims) ≡ some sub
    pub not_empty : str_eq sub "" ≡ false
    pub identity : IsIdentity sub claims h h'

  forwarded_inj : {a b : Headers} → Verdict.forwarded a ≡ Verdict.forwarded b → a ≡ b
  forwarded_inj e = cc

  by_subject :
      (claims : Claims) (o : Option String)
      → parse (get assertion_header h) ≡ token true (some claims)
      → subject (claim "sub" claims) ≡ o
      → with_subject o claims h ≡ forwarded h'
      → IsVerified
  unfolding with_subject
  by_subject claims none signed named e = absurd (cc)
  by_subject claims (some sub) signed named e = elim (Bool-cases (str_eq sub "")) [
    | inl empty ↦ absurd (cc (rw empty at e))
    | inr full ↦ record {
      claims = claims;
      sub = sub;
      signed = signed;
      named = named;
      not_empty = full;
      identity = rw⁻¹ (forwarded_inj (rw full at e)) (identified-IsIdentity sub claims h);
    }
  ]

  by_token :
      (p : Parsed) → parse (get assertion_header h) ≡ p → with_token p h ≡ forwarded h' → IsVerified
  unfolding with_token
  by_token parse_error signed e = absurd (cc)
  by_token (token false claims) signed e = absurd (cc)
  by_token (token true none) signed e = absurd (cc)
  by_token (token true (some claims)) signed e =
      by_subject claims (subject (claim "sub" claims)) signed refl e

  -- What the middleware passes on outside of the health paths carries an assertion that was parsed to
  -- a valid token with a subject; its identity headers are those of the claims, whatever the request
  -- had there, and all other headers but the assertion are as they were.
  pub middleware-IsVerified :
      has_prefix (codes "/health/") (codes path) ≡ false
      → middleware parse path h ≡ forwarded h'
      → IsVerified
  unfolding middleware
  middleware-IsVerified guarded e = elim (Bool-cases (str_eq (get assertion_header h) "")) [
    | inl missing ↦ absurd (cc (rw missing at (rw (guarded, middleware) at e)))
    | inr given ↦
        by_token (parse (get assertion_header h)) refl (rw given at (rw (guarded, middleware) at e))
  ]
