-- ===== src/HttpApi/Create/Execute.antt =====
-- `executeCreate` of internal/httpapi/server.go: the validation, and the transaction that inserts a
-- payment with its event.
use Prim.Native.String.{len}
use text.Mathlib.Text.{◌==◌ as str_eq}
use peikonpurekkusu_payment.Prelude.{
  ℕ, Bool, true, false, not, ◌||◌, String, List, [], ◌∷◌, Option, none, some, is_some, ◌⊎◌, inl,
  inr, ltb, ◌==◌, if◌then◌else◌,
}
use peikonpurekkusu_payment.Prelude.Int.{ℤ, pos, leb_ℤ}
use peikonpurekkusu_payment.Prelude.Bytes.{Bytes}
use peikonpurekkusu_payment.Payment.{Uuid, Time, Row, FxQuote, requested, processing}
use peikonpurekkusu_payment.Payment.Table.{lookup, lookup_instrument, lookup_quote}
use peikonpurekkusu_payment.Saga.World.{World, Env, History, queried, record_event}
use peikonpurekkusu_payment.Saga.Persist.{SagaError, database, Tx, begin_func}
use peikonpurekkusu_payment.Saga.Requested.{write_requested_event}
use peikonpurekkusu_payment.Idempotency.{KeyRow, Db}

-- A row of `merchants`.
pub record Merchant : Type 0 where
  pub id : String
  pub display_name : String
  pub category : String

pub record CreateRequest : Type 0 where
  pub account_id : String
  pub merchant_id : String
  pub instrument_id : String
  pub fx_quote_id : String
  pub minor_units : ℤ
  pub currency_code : String

-- `problem(…)`, `httpError(…)`, and the answers of a creation and of a resumption.
pub data Reply : Type 0 where
  problem : String → Reply
  http_error : ℕ → String → Reply
  created : Uuid → ℤ → String → String → Reply
  resumed : Uuid → Reply

-- A status with a body, or a stored response.
pub data Response : Type 0 where
  responds : ℕ → Reply → Response
  replayed : ℕ → Option String → Response

-- The server's database, and the payments whose `Advance` it has started.
pub record Api : Type 0 where
  pub world : World
  pub keys : List KeyRow
  pub merchants : List Merchant
  pub started : List Uuid

-- The settings, the libraries, and what the idempotency statements of one request meet.
pub record Outside : Type 0 where
  pub step_up_limit : ℤ
  pub step_up_max_age : Time
  pub hash_body : Bytes → String
  pub decode_amount : Bytes → Option ℤ
  pub decode_create : Bytes → Option CreateRequest
  -- The JSON of an answer, in the layout that the jsonb column gives it back in.
  pub encode : Reply → String
  pub new_uuid : History → Uuid
  pub db : Db
  pub complete_ok : Bool

unfoldable pub has_merchant : String → List Merchant → Bool
has_merchant id [] = false
has_merchant id (m ∷ ms) = str_eq m.id id || has_merchant id ms

-- 64 KiB, the limit of the reader.
abbrev pub body_limit : ℕ
body_limit = 65536

module _ (env : Env) (out : Outside) where
  unfoldable pub has_quote : Option Uuid → List FxQuote → Bool
  unfolding lookup_quote
  has_quote none quotes = true
  has_quote (some q) quotes = is_some (lookup_quote q quotes)

  unfoldable pub new_row : World → Uuid → Uuid → Uuid → Uuid → Option Uuid → CreateRequest → Row
  new_row w id user_id account_id instrument_id fx_quote_id req = record {
    id = id;
    user_id = user_id;
    account_id = account_id;
    merchant_id = req.merchant_id;
    instrument_id = instrument_id;
    amount = req.minor_units;
    currency = req.currency_code;
    fx_quote_id = fx_quote_id;
    status = processing;
    step = requested;
    hold_id = none;
    psp_reference = none;
    failure_code = none;
    failure_detail = none;
    risk_score = none;
    version = 0;
    created_at = w.now;
    updated_at = w.now;
  }

  -- `insert into payments …` under its primary key and its foreign keys.
  unfoldable pub insert_payment : World → List Merchant → Row → Tx → SagaError ⊎ Tx
  unfolding has_merchant has_quote lookup lookup_instrument
  insert_payment w merchants r tx =
      if is_some (lookup r.id tx.payments)
        || not (has_merchant r.merchant_id merchants)
        || not (is_some (lookup_instrument r.instrument_id w.instruments))
        || not (has_quote r.fx_quote_id w.quotes)
      then inl database
      else inr (record tx { payments = r ∷ tx.payments })

  unfoldable pub then_event : World → Row → SagaError ⊎ Tx → SagaError ⊎ Tx
  unfolding write_requested_event
  then_event w r (inl e) = inl e
  then_event w r (inr tx) = inr (
      write_requested_event env w r.id r.user_id r.merchant_id r.amount r.currency r.fx_quote_id tx)

  unfoldable pub after_insert : Row → Option SagaError × World → (ℕ × Reply) × List Uuid × World
  after_insert r (some e, w) = ((500, problem "could not create payment"), [], w)
  after_insert r (none, w) = ((202, created r.id r.amount r.currency r.merchant_id), r.id ∷ [], w)

  unfoldable pub persist :
      List Merchant
      → Uuid
      → Uuid
      → Uuid
      → Option Uuid
      → CreateRequest
      → World
      → (ℕ × Reply) × List Uuid × World
  unfolding new_row insert_payment then_event after_insert begin_func
  persist merchants user_id account_id instrument_id fx_quote_id req w =
      let r = new_row w (out.new_uuid w.history) user_id account_id instrument_id fx_quote_id req in
      after_insert r (begin_func env (λ tx. then_event w r (insert_payment w merchants r tx)) w)

  -- The time until which a quote holds. A query that fails leaves the zero time, which has passed.
  unfoldable pub quote_problem : Bool → Option FxQuote → World → Option Reply
  quote_problem false q w = some (problem "fx quote expired — request a new quote")
  quote_problem true none w = some (problem "unknown fx_quote_id")
  quote_problem true (some q) w =
      if ltb q.expires_at w.now
      then some (problem "fx quote expired — request a new quote")
      else none

  unfoldable pub check_quote : String → World → (Reply ⊎ Option Uuid) × World
  unfolding quote_problem lookup_quote
  check_quote fx_quote_id w =
      if str_eq fx_quote_id "" then (inr none, w) else (elim (env.uuid_parse fx_quote_id) [
        | none ↦ (inl (problem "invalid fx_quote_id"), w)
        | some q ↦ (
          elim (quote_problem (env.query_ok w.history) (lookup_quote q w.quotes) w) [
            | none ↦ inr (some q)
            | some r ↦ inl r
          ],
          record_event queried w,
        )
      ])

  unfoldable pub after_quote :
      List Merchant
      → Uuid
      → Uuid
      → Uuid
      → CreateRequest
      → (Reply ⊎ Option Uuid) × World
      → (ℕ × Reply) × List Uuid × World
  unfolding persist
  after_quote merchants user_id account_id instrument_id req (inl r, w) = ((400, r), [], w)
  after_quote merchants user_id account_id instrument_id req (inr q, w) =
      persist merchants user_id account_id instrument_id q req w

  unfoldable pub after_ids :
      List Merchant
      → Uuid
      → Option Uuid
      → Option Uuid
      → CreateRequest
      → World
      → (ℕ × Reply) × List Uuid × World
  unfolding after_quote check_quote
  after_ids merchants user_id (some account_id) (some instrument_id) req w =
      if str_eq req.merchant_id ""
      then ((400, problem "account_id, instrument_id and merchant_id are required"), [], w)
      else if leb_ℤ req.minor_units (pos 0) || not (len req.currency_code == 3)
      then ((400, problem "amount must be positive minor units with ISO-4217 currency"), [], w)
      else after_quote merchants user_id account_id instrument_id req
          (check_quote req.fx_quote_id w)
  after_ids merchants user_id _ _ req w =
      ((400, problem "account_id, instrument_id and merchant_id are required"), [], w)

  unfoldable pub execute_create :
      List Merchant → Uuid → Bytes → World → (ℕ × Reply) × List Uuid × World
  unfolding after_ids
  execute_create merchants user_id body w = elim (out.decode_create body) [
    | none ↦ ((400, problem "malformed JSON body"), [], w)
    | some req ↦
        after_ids merchants user_id (env.uuid_parse req.account_id)
          (env.uuid_parse req.instrument_id) req w
  ]
