-- ===== src/Saga/World.antt =====
-- What the engine of internal/saga/saga.go works on: the database, the status bus, the clock, and
-- the history of all that was exchanged with other services. An answer of a service may depend
-- on the whole history.
use peikonpurekkusu_payment.Prelude.{Bool, String, List, ◌∷◌, Option}
use peikonpurekkusu_payment.Prelude.Int.{ℤ}
use peikonpurekkusu_payment.Payment.{Uuid, Time, Status, Step, Row, Instrument, FxQuote}
use peikonpurekkusu_payment.Fraud.{ScoreRequest, ScoreResponse, Verdict}
use peikonpurekkusu_payment.Accounts.{
  Reply, HoldFundsRequest, CaptureFundsRequest, ReleaseFundsRequest,
}
use peikonpurekkusu_payment.Psp.{AuthResult, Result}
use peikonpurekkusu_payment.Psp.Factory.{Factory}

-- A value of a JSON payload, as far as the program writes them.
pub data Value : Type 0 where
  str : String → Value
  int : ℤ → Value
  null : Value

abbrev pub Payload : Type 0
Payload = List (String × Value)

-- A row of `outbox`.
pub record OutboxRow : Type 0 where
  pub id : Uuid
  pub aggregate_type : String
  pub aggregate_id : String
  pub topic : String
  pub payload : Payload
  pub created_at : Time
  pub processed_at : Option Time

-- internal/pubsub: what `Publish` is called with.
pub record Update : Type 0 where
  pub payment_id : Uuid
  pub status : Status
  pub step : Step

-- One exchange with the database or another service, the fraud service's as its client reports it. A processor's call stands with the payment
-- that it was made for.
pub data Event : Type 0 where
  queried : Event
  wrote : Bool → Event
  screened : ScoreRequest → Verdict → Event
  asked_hold : HoldFundsRequest → Reply String → Event
  asked_capture : Uuid → CaptureFundsRequest → Reply String → Event
  asked_release : Uuid → ReleaseFundsRequest → Reply (Unit {0}) → Event
  authorized : Uuid → Result AuthResult → Event
  psp_captured : Uuid → String → Result (Unit {0}) → Event

abbrev pub History : Type 0
History = List Event

pub record World : Type 0 where
  pub payments : List Row
  pub instruments : List Instrument
  pub quotes : List FxQuote
  pub outbox : List OutboxRow
  pub published : List Update
  pub history : History
  pub now : Time

-- What is not the program's: whether a query or a transaction succeeds, the answers of the fraud
-- and account services, the processors, and the uuid library.
pub record Env : Type 0 where
  pub query_ok : History → Bool
  pub commit_ok : History → Bool
  pub fail_open_limit : ℤ
  pub score : History → ScoreRequest → Option ScoreResponse
  pub hold_funds : History → HoldFundsRequest → Reply String
  pub capture_funds : History → CaptureFundsRequest → Reply String
  pub release_funds : History → ReleaseFundsRequest → Reply (Unit {0})
  pub psps : Factory History
  pub uuid_string : Uuid → String
  pub uuid_parse : String → Option Uuid
  pub uuid_v7 : History → Uuid

abbrev pub record_event : Event → World → World
record_event e w = record w { history = e ∷ w.history }
