-- ===== src/Gateway/Header.antt =====
-- Reading back the headers that the middleware of internal/gatewayauth/gatewayauth.go sets and deletes.
use text.Mathlib.Text.{◌==◌ as str_eq}
use text.Mathlib.TextEquality.{eq_iff}
use text.Mathlib.TextPositions.{eq_refl}
use peikonpurekkusu_payment.Prelude.{
  ◌≡◌, refl, ap, inl, inr, true, false, String, [], ◌∷◌, if◌then◌else◌, Bool-cases,
}
use peikonpurekkusu_payment.HttpApi.{Headers, get}
use peikonpurekkusu_payment.Gateway.{del, set}

pub get-del_same : (n m : String) (h : Headers) → str_eq n m ≡ true → get m (del n h) ≡ ""
unfolding get del
get-del_same n m [] e = refl
get-del_same n m ((k, v) ∷ rest) e = elim (Bool-cases (str_eq k n)) [
  | inl hit ↦ rw hit (get-del_same n m rest e)
  | inr miss ↦ rw miss (rw (other_key e miss) (get-del_same n m rest e))
]
  where
    other_key : str_eq n m ≡ true → str_eq k n ≡ false → str_eq k m ≡ false
    other_key e f = rw ((eq_iff n m).0 e) at f

pub get-del_other : (n m : String) (h : Headers) → str_eq n m ≡ false → get m (del n h) ≡ get m h
unfolding get del
get-del_other n m [] e = refl
get-del_other n m ((k, v) ∷ rest) e = elim (Bool-cases (str_eq k n)) [
  | inl hit ↦ rw hit (rw ((eq_iff k n).0 hit) (rw e (get-del_other n m rest e)))
  | inr miss ↦ rw miss (ap (λ x. if str_eq k m then v else x) (get-del_other n m rest e))
]

pub get-set_same : (n v : String) (h : Headers) → get n (set n v h) ≡ v
unfolding get set
get-set_same n v h = rw (eq_refl n) refl

pub get-set_other :
    (n v m : String) (h : Headers) → str_eq n m ≡ false → get m (set n v h) ≡ get m h
unfolding get set
get-set_other n v m h e = rw e (get-del_other n m h e)
