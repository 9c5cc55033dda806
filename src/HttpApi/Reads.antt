-- ===== src/HttpApi/Reads.antt =====
-- The handlers of internal/httpapi/server.go that only read: a payment, the lists, the health checks,
-- and the stream of a payment's updates. The database's order of texts is an argument.
use text.Mathlib.Text.{◌==◌ as str_eq}
use peikonpurekkusu_payment.Prelude.{
  ℕ, ◌≡◌, ◌≢◌, refl, ◌∙◌, sym, ap, inl, inr, arith, String, List, [], ◌∷◌, Option, none, some, ◌==◌,
  if◌then◌else◌, Bool-cases,
}
use peikonpurekkusu_payment.Prelude.Int.{ℤ}
use peikonpurekkusu_payment.Payment.{Uuid, Time, Status, Step, Row}
use peikonpurekkusu_payment.Payment.Table.{lookup}
use peikonpurekkusu_payment.Saga.World.{World, Env}
use peikonpurekkusu_payment.HttpApi.{Request, get}
use peikonpurekkusu_payment.HttpApi.Create.{Merchant}

pub data Answer (A : Type 0) : Type 0 where
  failed_with : ℕ → String → Answer A
  ok_with : A → Answer A

-- The JSON of a payment.
pub record PaymentView : Type 0 where
  pub id : Uuid
  pub status : Status
  pub step : Step
  pub amount : ℤ
  pub currency : String
  pub merchant_id : String
  pub merchant_name : String
  pub instrument_id : Uuid
  pub failure_code : Option String
  pub failure_detail : Option String
  pub psp_reference : Option String
  pub created_at : Time
  pub updated_at : Time

unfoldable pub find_merchant : String → List Merchant → Option Merchant
find_merchant id [] = none
find_merchant id (m ∷ ms) = if str_eq m.id id then some m else find_merchant id ms

abbrev pub view_of : Row → Merchant → PaymentView
view_of r m = record {
  id = r.id;
  status = r.status;
  step = r.step;
  amount = r.amount;
  currency = r.currency;
  merchant_id = r.merchant_id;
  merchant_name = m.display_name;
  instrument_id = r.instrument_id;
  failure_code = r.failure_code;
  failure_detail = r.failure_detail;
  psp_reference = r.psp_reference;
  created_at = r.created_at;
  updated_at = r.updated_at;
}

-- `where id = $1 and user_id = $2`
unfoldable pub own_row : Uuid → Uuid → World → Option Row
unfolding lookup
own_row id user_id w = elim (lookup id w.payments) [
  | none ↦ none
  | some r ↦ (if r.user_id == user_id then some r else none)
]

-- The join with the payment's merchant.
unfoldable pub with_merchant : List Merchant → Option Row → Option PaymentView
unfolding find_merchant
with_merchant merchants none = none
with_merchant merchants (some r) = elim (find_merchant r.merchant_id merchants) [
  | none ↦ none
  | some m ↦ some (view_of r m)
]

unfoldable pub found_or_not : {A : Type 0} → Option A → Answer A
found_or_not none = failed_with 404 "payment not found"
found_or_not (some a) = ok_with a

module _ (env : Env) where
  -- The identity and the id of the path, and then `body`.
  unfoldable pub on_path_ids :
      {A : Type 0} → Option Uuid → Option Uuid → (Uuid → Uuid → Answer A) → Answer A
  on_path_ids none id body = failed_with 401 "missing identity"
  on_path_ids (some user_id) none body = failed_with 400 "invalid payment id"
  on_path_ids (some user_id) (some id) body = body user_id id

  unfoldable pub query_payment : List Merchant → World → Uuid → Uuid → Answer PaymentView
  unfolding found_or_not with_merchant own_row
  query_payment merchants w user_id id =
      found_or_not
        (if env.query_ok w.history then with_merchant merchants (own_row id user_id w) else none)

  unfoldable pub get_payment : List Merchant → Request → World → Answer PaymentView
  unfolding query_payment on_path_ids get
  get_payment merchants r w =
      on_path_ids (env.uuid_parse (get "X-User-Id" r.headers)) (env.uuid_parse r.path_id)
        (query_payment merchants w)

  -- A payment of another user is answered as one that does not exist.
  pub get_payment-hides :
      (merchants : List Merchant) (r : Request) (w v : World) (user_id id : Uuid) (row : Row)
      → env.uuid_parse (get "X-User-Id" r.headers) ≡ some user_id
      → env.uuid_parse r.path_id ≡ some id
      → lookup id w.payments ≡ some row
      → row.user_id ≢ user_id
      → lookup id v.payments ≡ none
      → get_payment merchants r w ≡ get_payment merchants r v
  unfolding get_payment query_payment on_path_ids found_or_not with_merchant own_row
  get_payment-hides merchants r w v user_id id row caller path there other absent =
      rw (caller, get_payment)
        (rw path
          (ap found_or_not (nothing w (hidden w there) ∙ sym (nothing v (missing v absent)))))
    where
      hidden : (x : World) → lookup id x.payments ≡ some row → own_row id user_id x ≡ none
      hidden x e = ground (arith, e, other)

      missing : (x : World) → lookup id x.payments ≡ none → own_row id user_id x ≡ none
      missing x e = rw (e, own_row) refl

      nothing :
          (x : World)
          → own_row id user_id x ≡ none
          → (if env.query_ok x.history
              then with_merchant merchants (own_row id user_id x)
              else none)
            ≡ none
      nothing x e = elim (Bool-cases (env.query_ok x.history)) [
        | inl up ↦ rw up (rw (e, with_merchant) refl)
        | inr down ↦ rw down refl
      ]
