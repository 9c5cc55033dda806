-- ===== src/HttpApi/Health.antt =====
-- The lists and the health checks of internal/httpapi/server.go. A row that cannot be read does not
-- occur: the columns have the types that are scanned.
use peikonpurekkusu_payment.Prelude.{
  ℕ, Bool, ◌&&◌, String, List, [], ◌∷◌, Option, if◌then◌else◌, map,
}
use peikonpurekkusu_payment.Prelude.Int.{ℤ}
use peikonpurekkusu_payment.Payment.{Uuid, Instrument}
use peikonpurekkusu_payment.Saga.World.{World, Env}
use peikonpurekkusu_payment.HttpApi.Create.{Merchant}
use peikonpurekkusu_payment.HttpApi.Reads.{Answer, failed_with, ok_with}
use peikonpurekkusu_payment.Reconcile.{Snapshot}

pub record InstrumentView : Type 0 where
  pub id : Uuid
  pub method : String
  pub brand : Option String
  pub last4 : Option String
  pub exp_month : Option ℤ
  pub exp_year : Option ℤ

abbrev pub instrument_view : Instrument → InstrumentView
instrument_view i = record {
  id = i.id;
  method = i.method;
  brand = i.brand;
  last4 = i.last4;
  exp_month = i.exp_month;
  exp_year = i.exp_year;
}

-- The database's order of texts, and `order by` a text.
module _ {A : Type 0} (before : String → String → Bool) (key : A → String) where
  unfoldable pub insert_by : A → List A → List A
  insert_by x [] = x ∷ []
  insert_by x (y ∷ ys) =
      let rest = insert_by x ys in if before (key x) (key y) then x ∷ y ∷ ys else y ∷ rest

  unfoldable pub order_by : List A → List A
  unfolding insert_by
  order_by [] = []
  order_by (x ∷ xs) = insert_by x (order_by xs)

module _ (env : Env) (before : String → String → Bool) where
  unfoldable pub list_instruments : World → Answer (List InstrumentView)
  unfolding order_by
  list_instruments w =
      if env.query_ok w.history
      then ok_with (map instrument_view (order_by before (λ i. i.method) w.instruments))
      else failed_with 500 "internal error"

  unfoldable pub list_merchants : List Merchant → World → Answer (List Merchant)
  unfolding order_by
  list_merchants merchants w =
      if env.query_ok w.history
      then ok_with (order_by before (λ m. m.display_name) merchants)
      else failed_with 500 "internal error"

-- What is up, and the status of the answer.
pub record Readiness : Type 0 where
  pub code : ℕ
  pub postgres_up : Bool
  pub kafka_up : Bool

unfoldable pub ready : Bool → Bool → Readiness
ready ping_ok kafka_ok = record {
  code = if ping_ok && kafka_ok then 200 else 503;
  postgres_up = ping_ok;
  kafka_up = kafka_ok;
}

-- The last result of the reconciler; none is a server without one.
unfoldable pub reconciliation : Option Snapshot → Answer (Option Snapshot)
reconciliation last = ok_with last
