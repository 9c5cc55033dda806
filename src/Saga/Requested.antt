-- ===== src/Saga/Requested.antt =====
-- `WriteRequestedEvent` of internal/saga/saga.go, which the handler that creates a payment calls in
-- the transaction that inserts the row.
use peikonpurekkusu_payment.Prelude.{String, [], ◌∷◌, Option, none, some}
use peikonpurekkusu_payment.Prelude.Int.{ℤ}
use peikonpurekkusu_payment.Payment.{Uuid}
use peikonpurekkusu_payment.Saga.World.{str, int, Payload, World, Env}
use peikonpurekkusu_payment.Saga.Persist.{Tx, write_outbox}

module _ (env : Env) where
  unfoldable pub requested_payload : Uuid → Uuid → String → ℤ → String → Option Uuid → Payload
  requested_payload payment_id user_id merchant_id amount currency fx_quote_id =
      ("payment_id", str (env.uuid_string payment_id))
      ∷ ("user_id", str (env.uuid_string user_id))
      ∷ ("merchant_id", str merchant_id)
      ∷ ("amount_minor_units", int amount)
      ∷ ("currency_code", str currency)
      ∷ (elim fx_quote_id [ none ↦ [] | some q ↦ ("fx_quote_id", str (env.uuid_string q)) ∷ [] ])

  unfoldable pub write_requested_event :
      World → Uuid → Uuid → String → ℤ → String → Option Uuid → Tx → Tx
  unfolding requested_payload write_outbox
  write_requested_event w payment_id user_id merchant_id amount currency fx_quote_id tx =
      write_outbox env w "payments.payment.requested.v1" payment_id
        (requested_payload payment_id user_id merchant_id amount currency fx_quote_id) tx
