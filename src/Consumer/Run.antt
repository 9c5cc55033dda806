-- ===== src/Consumer/Run.antt =====
-- The loop `Run` of internal/consumer/consumer.go, turn by turn. The Kafka client is an argument.
use peikonpurekkusu_payment.Prelude.{ℕ, zero, suc, Bool, List, if◌then◌else◌}
use peikonpurekkusu_payment.Saga.World.{Env}
use peikonpurekkusu_payment.Consumer.{
  Rec, Outside, Inbox, Settled, settled, unsettled, stopped, settle_batch,
}

-- What `PollFetches` returns, which may be errors beside the records of healthy partitions, and
-- whether the context is over then.
pub record Fetches : Type 0 where
  pub records : List Rec
  pub has_errors : Bool
  pub context_over : Bool

-- `PollFetches`, and `CommitUncommittedOffsets` with its success, on the client's own state.
pub record Client (S : Type 0) : Type 0 where
  pub poll : S → Fetches × S
  pub commit : S → Bool × S

pub record Reader (S : Type 0) : Type 0 where
  pub inbox : Inbox
  pub position : S

pub data Next : Type 0 where
  again over : Next

unfoldable pub after_round : {S : Type 0} → (Reader S → Reader S) → Next × Reader S → Reader S
after_round rest (again, r) = rest r
after_round rest (over, r) = r

module _ {S : Type 0} (client : Client S) where
  -- An error of the commit is only logged.
  unfoldable pub after_batch : Settled × Inbox → S → Next × Reader S
  after_batch (settled, s) c = (again, record { inbox = s; position = (client.commit c).1 })
  after_batch (unsettled, s) c = (again, record { inbox = s; position = c })
  after_batch (stopped, s) c = (over, record { inbox = s; position = c })

  module _ (env : Env) (out : Outside) (fuel : ℕ) where
    unfoldable pub with_fetches : Fetches × S → Inbox → Next × Reader S
    unfolding after_batch settle_batch
    with_fetches (x, c) s =
        if x.context_over
        then (over, record { inbox = s; position = c })
        else if x.has_errors
        then (again, record { inbox = s; position = c })
        else after_batch (settle_batch env out fuel x.records s) c

    unfoldable pub one_round : Reader S → Next × Reader S
    unfolding with_fetches
    one_round r = with_fetches (client.poll r.position) r.inbox

    -- The first rounds of the endless loop.
    unfoldable pub run : ℕ → Reader S → Reader S
    unfolding one_round after_round
    run zero r = r
    run (suc n) r = after_round (λ t. run n t) (one_round r)
