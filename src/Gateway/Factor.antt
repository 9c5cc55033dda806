-- ===== src/Gateway/Factor.antt =====
-- From the claims that internal/gatewayauth/gatewayauth.go has verified to the second factor that
-- internal/httpapi/stepup.go demands.
use Prim.Native.Char.{code}
use Prim.Native.String.{◌++◌ as str_append}
use Prim.Native.String.append
use peikonpurekkusu_payment.Prelude.{
  ℕ, ◌≡◌, ◌≢◌, refl, ◌∙◌, ap, arith, false, String, List, [], ◌∷◌, All, map, ◌++◌,
}
use peikonpurekkusu_payment.Prelude.Fields.{codes, is_empty, split, cons_head, trim_space}
use peikonpurekkusu_payment.HttpApi.StepUp.{amr_fields}
use peikonpurekkusu_payment.Gateway.{join}

-- A method name as it stands in a list: not empty, without a comma, and with no white space around.
pub record IsPlain (s : String) : Type 0 where
  pub no_comma : All (λ c. c ≢ 44) (codes s)
  pub trimmed : trim_space (codes s) ≡ codes s
  pub not_empty : is_empty (codes s) ≡ false

codes-append : (s t : String) → codes (str_append s t) ≡ codes s ++ codes t
codes-append String.[] t = ap codes (append.nil t)
codes-append (String.◌∷◌ c s) t =
    ap codes (append.cons c s t) ∙ ap (λ cs. code c ∷ cs) (codes-append s t)

split-field : (xs ys : List ℕ) → All (λ c. c ≢ 44) xs → split 44 (xs ++ 44 ∷ ys) ≡ xs ∷ split 44 ys
unfolding split cons_head
split-field [] ys h = refl
split-field (x ∷ xs) ys h = ground (arith, h.0, split-field xs ys h.1)

split-last : (xs : List ℕ) → All (λ c. c ≢ 44) xs → split 44 xs ≡ xs ∷ []
unfolding split cons_head
split-last [] h = refl
split-last (x ∷ xs) h = ground (arith, h.0, split-last xs h.1)

fields_of : List (List ℕ) → List (List ℕ)
fields_of [] = [] ∷ []
fields_of (x ∷ xs) = x ∷ xs

split-join :
    (ms : List String) → All IsPlain ms → split 44 (codes (join ms)) ≡ fields_of (map codes ms)
unfolding join split fields_of
split-join [] h = refl
split-join (m ∷ []) h = split-last (codes m) (h.0).no_comma
split-join (m ∷ n ∷ ms) h =
    ap (split 44) (
      codes-append m (str_append "," (join (n ∷ ms)))
      ∙ ap (λ cs. codes m ++ cs) (codes-append "," (join (n ∷ ms))))
    ∙ split-field (codes m) (codes (join (n ∷ ms))) (h.0).no_comma
    ∙ ap (λ fs. codes m ∷ fs) (split-join (n ∷ ms) h.1)

amr_fields-plain : (ms : List String) → All IsPlain ms → amr_fields (map codes ms) ≡ map codes ms
unfolding amr_fields
amr_fields-plain [] h = refl
amr_fields-plain (m ∷ ms) h = rw ((h.0).trimmed, (h.0).not_empty, amr_fields-plain ms h.1) refl

amr_fields-fields_of :
    (ms : List String) → All IsPlain ms → amr_fields (fields_of (map codes ms)) ≡ map codes ms
unfolding fields_of amr_fields trim_space
amr_fields-fields_of [] h = refl
amr_fields-fields_of (m ∷ ms) h = amr_fields-plain (m ∷ ms) h

-- The methods that a list of plain names is joined to are read back as they were.
pub amr_fields-join :
    (ms : List String) → All IsPlain ms → amr_fields (split 44 (codes (join ms))) ≡ map codes ms
amr_fields-join ms h = ap amr_fields (split-join ms h) ∙ amr_fields-fields_of ms h
