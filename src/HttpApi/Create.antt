-- ===== src/HttpApi/Create.antt =====
-- `createPayment` of internal/httpapi/server.go: the step-up test and the idempotency record around an
-- execution.
pub mod Execute
unfoldable pub use Execute.*
use Prim.Native.String.{len}
use text.Mathlib.Text.{◌==◌ as str_eq}
use peikonpurekkusu_payment.Prelude.{
  ℕ, Bool, true, false, not, ◌||◌, String, List, [], ◌∷◌, Option, none, some, is_some, ◌⊎◌, inl,
  inr, ltb, ◌==◌, if◌then◌else◌, take,
}
use peikonpurekkusu_payment.Prelude.Int.{ℤ, pos, leb_ℤ}
use peikonpurekkusu_payment.Prelude.Bytes.{Bytes}
use peikonpurekkusu_payment.Payment.{Uuid, Time, Row, FxQuote, requested, processing}
use peikonpurekkusu_payment.Payment.Table.{lookup, lookup_instrument, lookup_quote}
use peikonpurekkusu_payment.Saga.World.{World, Env, History, queried, record_event}
use peikonpurekkusu_payment.Saga.Persist.{SagaError, database, Tx, begin_func}
use peikonpurekkusu_payment.Saga.Requested.{write_requested_event}
use peikonpurekkusu_payment.Idempotency.{
  KeyRow, Call, Begun, executes, replays, refused, BeginError, payload_mismatch, in_flight, Db,
  begin, complete,
}
use peikonpurekkusu_payment.Idempotency
use peikonpurekkusu_payment.HttpApi.{Request, get}
use peikonpurekkusu_payment.HttpApi.StepUp.{step_up_required}

module _ (env : Env) (out : Outside) where
  -- The execution, and the statement that completes the key: its failure is only logged.
  unfoldable pub after_execute :
      Call
      → List KeyRow
      → List Merchant
      → List Uuid
      → (ℕ × Reply) × List Uuid × World
      → Response × Api
  unfolding complete
  after_execute c keys merchants started ((code, reply), starts, w) = (
    responds code reply,
    record {
      world = w;
      keys = if out.complete_ok then complete c code (out.encode reply) keys else keys;
      merchants = merchants;
      started = (elim starts [ [] ↦ started | id ∷ _ ↦ id ∷ started ]);
    },
  )

  unfoldable pub after_begin : Call → Bytes → Begun × List KeyRow → Api → Response × Api
  unfolding after_execute execute_create
  after_begin c body (executes, keys) s =
      after_execute c keys s.merchants s.started
        (execute_create env out s.merchants c.user_id body s.world)
  after_begin c body (replays code stored, keys) s =
      (replayed code stored, record s { keys = keys })
  after_begin c body (refused payload_mismatch, keys) s = (
    responds 422 (http_error 422 "idempotency key reused with different payload"),
    record s { keys = keys },
  )
  after_begin c body (refused in_flight, keys) s = (
    responds 409 (http_error 409 "request in flight for this idempotency key"),
    record s { keys = keys },
  )
  after_begin c body (refused Idempotency.database, keys) s =
      (responds 500 (http_error 500 "internal error"), record s { keys = keys })

  -- Whether the amount, if one can be read, demands a second factor that the caller lacks.
  unfoldable pub gated : Request → Time → Option ℤ → Bool
  unfolding step_up_required
  gated r now none = false
  gated r now (some amount) =
      step_up_required out.step_up_limit out.step_up_max_age now r.headers amount

  abbrev pub call_of : Uuid → Request → Bytes → Call
  call_of user_id r body = record {
    user_id = user_id;
    key = get "Idempotency-Key" r.headers;
    request_hash = out.hash_body body;
  }

  unfoldable pub with_body : Uuid → Request → Bytes → Api → Response × Api
  unfolding gated after_begin begin get
  with_body user_id r body s =
      if gated r s.world.now (out.decode_amount body)
      then (
        responds 401 (problem "step_up_required: this amount requires a recent second factor"),
        s,
      )
      else after_begin (call_of user_id r body) body (begin out.db (call_of user_id r body) s.keys)
          s

  unfoldable pub on_body : Uuid → Request → Option Bytes → Api → Response × Api
  unfolding with_body
  on_body user_id r none s = (responds 400 (http_error 400 "unreadable body"), s)
  on_body user_id r (some body) s = with_body user_id r (take body_limit body) s

  unfoldable pub with_user : Uuid → Request → Api → Response × Api
  unfolding on_body get
  with_user user_id r s =
      if str_eq (get "Idempotency-Key" r.headers) ""
        || ltb 255 (len (get "Idempotency-Key" r.headers))
      then (responds 400 (http_error 400 "Idempotency-Key header is required"), s)
      else on_body user_id r r.body s

  unfoldable pub create_payment : Request → Api → Response × Api
  unfolding with_user get
  create_payment r s = elim (env.uuid_parse (get "X-User-Id" r.headers)) [
    | none ↦ (responds 401 (http_error 401 "missing identity"), s)
    | some user_id ↦ with_user user_id r s
  ]
