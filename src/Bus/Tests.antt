-- ===== src/Bus/Tests.antt =====
-- The status bus of internal/pubsub/pubsub.go with two subscribers.
use peikonpurekkusu_payment.Prelude.{◌≡◌, refl, List, [], ◌∷◌, All, length, map}
use peikonpurekkusu_payment.Payment.{Uuid, Step, processing, requested, fraud_screened, funds_held}
use peikonpurekkusu_payment.Saga.World.{Update}
use peikonpurekkusu_payment.Bus.{Call, subscribes, cancels, publishes, receives, call_all}
use peikonpurekkusu_payment.Bus.Order.{IsFaithful, logged_all, call_all-IsFaithful}

abbrev at : Uuid → Step → Update
at id step = record { payment_id = id; status = processing; step = step }

abbrev calls : List Call
calls =
    subscribes 1 7
    ∷ publishes (at 7 requested)
    ∷ subscribes 2 7
    ∷ publishes (at 8 requested)
    ∷ publishes (at 7 fraud_screened)
    ∷ receives 1
    ∷ publishes (at 7 funds_held)
    ∷ receives 1
    ∷ []

-- The first subscriber has received the two oldest updates of its payment, and the second one waits
-- with the two that came after it; a cancelled one is gone.
two_readers :
    (map (λ ch. ch.received) (call_all calls [])
      ≡ [] ∷ (at 7 fraud_screened ∷ at 7 requested ∷ []) ∷ [])
    × (map (λ ch. ch.buffer) (call_all calls [])
        ≡ (at 7 funds_held ∷ at 7 fraud_screened ∷ []) ∷ (at 7 funds_held ∷ []) ∷ [])
    × (length (call_all (cancels 2 ∷ []) (call_all calls [])) ≡ 1)
unfolding call_all
two_readers = (refl, refl, refl)

abbrev nine : List Call
nine =
    publishes (at 7 requested)
    ∷ publishes (at 7 requested)
    ∷ publishes (at 7 requested)
    ∷ publishes (at 7 requested)
    ∷ publishes (at 7 requested)
    ∷ publishes (at 7 requested)
    ∷ publishes (at 7 requested)
    ∷ publishes (at 7 requested)
    ∷ publishes (at 7 funds_held)
    ∷ []

-- The ninth update is dropped.
ninth_dropped : map (λ ch. length ch.buffer) (call_all (subscribes 1 7 ∷ nine) []) ≡ 8 ∷ []
unfolding call_all
ninth_dropped = refl

call_all-IsFaithful_example : All (IsFaithful (logged_all calls [])) (call_all calls [])
call_all-IsFaithful_example = call_all-IsFaithful calls [] [] tt
