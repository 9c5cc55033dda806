-- ===== src/Gateway.antt =====
-- internal/gatewayauth/gatewayauth.go: the middleware that verifies the gateway's assertion and writes
-- the identity headers from its claims. The token library, with the options that the program
-- passes, is an argument.
pub mod Header
pub mod Identity
pub mod Keys
pub mod Factor
pub mod Secured
mod Tests
use Prim.Native.String.{◌++◌}
use text.Mathlib.Text.{◌==◌ as str_eq}
use peikonpurekkusu_payment.Prelude.{
  ℕ, suc, Bool, true, false, not, ◌&&◌, ◌||◌, ◌==◌, String, List, [], ◌∷◌, Option, none, some,
  if◌then◌else◌,
}
use peikonpurekkusu_payment.Prelude.Int.{ℤ, pos, negsuc}
use peikonpurekkusu_payment.Prelude.Text.{decimal}
use peikonpurekkusu_payment.Prelude.Fields.{codes}
use peikonpurekkusu_payment.HttpApi.{Headers, get}

-- An element of an array claim.
pub data Element : Type 0 where
  entry : String → Element
  other : Element

-- The value of a claim. A number is given by its conversion to int64.
pub data Claim : Type 0 where
  string : String → Claim
  number : ℤ → Claim
  array : List Element → Claim
  anything : Claim

abbrev pub Claims : Type 0
Claims = List (String × Claim)

-- `jwt.Parse`: an error, or a token with its validity and its claims, if they are a map.
pub data Parsed : Type 0 where
  parse_error : Parsed
  token : Bool → Option Claims → Parsed

pub data Verdict : Type 0 where
  rejected : String → Verdict
  forwarded : Headers → Verdict

abbrev pub assertion_header : String
assertion_header = "X-Gateway-Assertion"

abbrev pub identity_headers : List String
identity_headers = "X-User-Id" ∷ "X-User-Roles" ∷ "X-Session-Id" ∷ "X-Auth-Amr" ∷ "X-Auth-Time" ∷ []

-- `Header.Del` and `Header.Set`
unfoldable pub del : String → Headers → Headers
del name [] = []
del name ((n, v) ∷ rest) =
    let rest' = del name rest in if str_eq n name then rest' else (n, v) ∷ rest'

unfoldable pub set : String → String → Headers → Headers
unfolding del
set name v h = (name, v) ∷ del name h

unfoldable pub del_all : List String → Headers → Headers
unfolding del
del_all [] h = h
del_all (n ∷ ns) h = del_all ns (del n h)

unfoldable pub claim : String → Claims → Option Claim
claim name [] = none
claim name ((n, c) ∷ rest) = if str_eq n name then some c else claim name rest

-- `claims.GetSubject`: a missing subject is the empty text, and one that is no text an error.
unfoldable pub subject : Option Claim → Option String
subject none = some ""
subject (some (string s)) = some s
subject (some _) = none

unfoldable pub texts : List Element → List String
texts [] = []
texts (entry s ∷ es) = s ∷ texts es
texts (other ∷ es) = texts es

-- `strings.Join(parts, ",")`
unfoldable pub join : List String → String
join [] = ""
join (s ∷ []) = s
join (s ∷ t ∷ ts) = s ++ "," ++ join (t ∷ ts)

unfoldable pub join_strings : Option Claim → String
unfolding texts join
join_strings (some (array es)) = join (texts es)
join_strings _ = ""

-- `strconv.FormatInt(…, 10)`
unfoldable pub format_int : ℤ → String
format_int (pos n) = decimal n
format_int (negsuc n) = "-" ++ decimal (suc n)

unfoldable pub set_auth_time : Option Claim → Headers → Headers
unfolding set format_int
set_auth_time (some (number n)) h = set "X-Auth-Time" (format_int n) h
set_auth_time _ h = h

unfoldable pub set_session : Option Claim → Headers → Headers
unfolding set
set_session (some (string s)) h = set "X-Session-Id" s h
set_session _ h = h

unfoldable pub identified : String → Claims → Headers → Headers
unfolding set_session set_auth_time set join_strings del_all del claim
identified sub claims h = set_session (claim "sid" claims) (
    set_auth_time (claim "auth_time" claims) (
      set "X-Auth-Amr" (join_strings (claim "amr" claims)) (
        set "X-User-Roles" (join_strings (claim "roles" claims))
          (set "X-User-Id" sub (del assertion_header (del_all identity_headers h))))))

unfoldable pub with_subject : Option String → Claims → Headers → Verdict
unfolding identified
with_subject none claims h = rejected "invalid gateway assertion"
with_subject (some sub) claims h =
    if str_eq sub ""
    then rejected "invalid gateway assertion"
    else forwarded (identified sub claims h)

unfoldable pub with_token : Parsed → Headers → Verdict
unfolding with_subject subject claim
with_token parse_error h = rejected "invalid gateway assertion"
with_token (token false claims) h = rejected "invalid gateway assertion"
with_token (token true none) h = rejected "invalid gateway assertion"
with_token (token true (some claims)) h = with_subject (subject (claim "sub" claims)) claims h

-- `strings.HasPrefix`
unfoldable pub has_prefix : List ℕ → List ℕ → Bool
has_prefix [] cs = true
has_prefix (p ∷ ps) [] = false
has_prefix (p ∷ ps) (c ∷ cs) = (p == c) && has_prefix ps cs

-- What the middleware passes on to the handler for a request to a path.
unfoldable pub middleware : (String → Parsed) → String → Headers → Verdict
unfolding has_prefix with_token get
middleware parse path h =
    if has_prefix (codes "/health/") (codes path)
    then forwarded h
    else if str_eq (get assertion_header h) ""
    then rejected "missing gateway assertion"
    else with_token (parse (get assertion_header h)) h
