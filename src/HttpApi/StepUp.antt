-- ===== src/HttpApi/StepUp.antt =====
-- internal/httpapi/stepup.go: the second factor that a large payment demands. Times are in
-- milliseconds, and the time of a login in seconds.
use peikonpurekkusu_payment.Prelude.{
  ℕ, suc, ◌+◌, ◌-◌, ◌*◌, Bool, false, not, ◌&&◌, ◌||◌, List, [], ◌∷◌, Option, none, some, ltb, leb,
  ◌==◌, if◌then◌else◌,
}
use peikonpurekkusu_payment.Prelude.Int.{ℤ, pos, negsuc, ltb_ℤ}
use peikonpurekkusu_payment.Prelude.Fields.{
  codes, codes_eq, is_empty, split, trim_space, parse_int64,
}
use peikonpurekkusu_payment.Payment.{Time}
use peikonpurekkusu_payment.HttpApi.{Headers, get}

pub record AuthStrength : Type 0 where
  pub amr : List (List ℕ)
  -- In seconds from 1970; none is the zero time.
  pub auth_time : Option ℤ

-- The fields that are left when white space is taken away.
unfoldable pub amr_fields : List (List ℕ) → List (List ℕ)
unfolding trim_space
amr_fields [] = []
amr_fields (m ∷ ms) =
    let rest = amr_fields ms in if is_empty (trim_space m) then rest else trim_space m ∷ rest

-- `time.Unix(secs, 0)` counts from the year 1, in 64 bits: what is too large wraps around. The first
-- second of the year 1 is the zero time.
unfoldable pub wrap_unix : ℤ → ℤ
wrap_unix (pos n) =
    if ltb n (9223372036854775808 - 62135596800) then pos n else negsuc (18446744073709551615 - n)
wrap_unix (negsuc n) = negsuc n

unfoldable pub non_zero : ℤ → Option ℤ
non_zero (pos n) = some (pos n)
non_zero (negsuc n) = if n == 62135596799 then none else some (negsuc n)

unfoldable pub unix : Option ℤ → Option ℤ
unfolding wrap_unix non_zero
unix none = none
unix (some secs) = non_zero (wrap_unix secs)

unfoldable pub read_auth_strength : Headers → AuthStrength
unfolding get split amr_fields unix parse_int64
read_auth_strength h = record {
  amr = amr_fields (split 44 (codes (get "X-Auth-Amr" h)));
  auth_time = unix (parse_int64 (codes (get "X-Auth-Time" h)));
}

-- "mfa"
abbrev pub mfa : List ℕ
mfa = 109 ∷ 102 ∷ 97 ∷ []

unfoldable pub has_mfa : List (List ℕ) → Bool
has_mfa [] = false
has_mfa (m ∷ ms) = codes_eq m mfa || has_mfa ms

unfoldable pub stepped_up : AuthStrength → Bool
unfolding has_mfa
stepped_up s = has_mfa s.amr

-- `time.Since(t) <= maxAge`
unfoldable pub is_recent : Time → Time → ℤ → Bool
is_recent now max_age (pos n) = leb now (max_age + 1000 * n)
is_recent now max_age (negsuc n) = leb (now + 1000 * suc n) max_age

unfoldable pub fresh : Time → Time → AuthStrength → Bool
unfolding is_recent
fresh now max_age s = elim (s.auth_time) [ none ↦ false | some t ↦ is_recent now max_age t ]

unfoldable pub step_up_required : ℤ → Time → Time → Headers → ℤ → Bool
unfolding stepped_up fresh read_auth_strength
step_up_required limit max_age now h amount =
    if ltb_ℤ amount limit
    then false
    else not (stepped_up (read_auth_strength h) && fresh now max_age (read_auth_strength h))
