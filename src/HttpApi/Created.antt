-- ===== src/HttpApi/Created.antt =====
-- What `executeCreate` of internal/httpapi/server.go does to the database: one payment with its event
-- and its goroutine, or nothing.
pub mod Insert
pub use Insert.*
use Prim.Native.String.{len}
use text.Mathlib.Text.{◌==◌ as str_eq}
use peikonpurekkusu_payment.Prelude.{
  ℕ, ◌≡◌, ◌≢◌, refl, Bool, false, not, ◌||◌, List, [], ◌∷◌, Option, none, some, is_some, ◌⊎◌, inl,
  inr, arith, map, All, Bool-cases, Option-cases, ◌==◌,
}
use peikonpurekkusu_payment.Prelude.Int.{pos, leb_ℤ}
use peikonpurekkusu_payment.Prelude.Bytes.{Bytes}
use peikonpurekkusu_payment.Payment.{Uuid, Row, requested, processing}
use peikonpurekkusu_payment.Payment.Table.{lookup, lookup_instrument, lookup_quote}
use peikonpurekkusu_payment.Payment.Keys.{row_id}
use peikonpurekkusu_payment.Saga.World.{
  OutboxRow, History, World, Env, queried, wrote, record_event,
}
use peikonpurekkusu_payment.Saga.Persist.{begin_func, write_outbox}
use peikonpurekkusu_payment.Saga.Requested.{requested_payload, write_requested_event}
use peikonpurekkusu_payment.Saga.Spec.{saw}
use peikonpurekkusu_payment.Saga.Invariant.{Inv, IsSound, Move-Inv}
use peikonpurekkusu_payment.HttpApi.Create.{
  Merchant, CreateRequest, Reply, problem, quote_problem, created, Outside, has_merchant, has_quote,
  new_row, insert_payment, then_event, after_insert, persist, check_quote, after_quote, after_ids,
  execute_create,
}

module _ (env : Env) (out : Outside) (user_id : Uuid) (w : World) where
  abbrev pub IsOutcome : CreateRequest → (ℕ × Reply) × List Uuid × World → Type 0
  IsOutcome req x = IsKept env out user_id w x ⊎ IsMade env out user_id w req x

  rejected : (reply : Reply) → IsKept env out user_id w ((400, reply), [], w)
  rejected reply = record {
    starts = refl;
    payments = refl;
    outbox = refl;
    refused = λ e. absurd (omega arith);
    keeps = λ i. i;
  }

  -- The query of a quote changes nothing but the history.
  asked :
      (req : CreateRequest) (x : (ℕ × Reply) × List Uuid × World)
      → IsKept env out user_id (record_event queried w) x
        ⊎ IsMade env out user_id (record_event queried w) req x
      → IsOutcome req x
  asked req x (inl k) = inl (record {
    starts = k.starts;
    payments = k.payments;
    outbox = k.outbox;
    refused = k.refused;
    keeps = λ i. k.keeps (Inv-queried w i);
  })
  asked req x (inr m) = inr (record {
    row = m.row;
    event = m.event;
    fresh = m.fresh;
    payments = m.payments;
    outbox = m.outbox;
    starts = m.starts;
    reply = m.reply;
    state = m.state;
    requested_by = m.requested_by;
    announces = m.announces;
    keeps = λ i. m.keeps (Inv-queried w i);
  })

  module _ (merchants : List Merchant) (account_id instrument_id : Uuid) (req : CreateRequest) where
    abbrev quoted : (Reply ⊎ Option Uuid) × World → (ℕ × Reply) × List Uuid × World
    quoted = after_quote env out merchants user_id account_id instrument_id req

    answered :
        (o : Option Reply) (q : Uuid)
        → IsOutcome req
            (quoted (elim o [ none ↦ inr (some q) | some r ↦ inl r ], record_event queried w))
    unfolding after_quote
    answered none q =
        asked req
          (persist env out merchants user_id account_id instrument_id (some q) req
            (record_event queried w))
          (persist-cases env out user_id (record_event queried w) merchants account_id instrument_id
            (some q) req)
    answered (some r) q =
        asked req ((400, r), [], record_event queried w)
          (inl (record {
            starts = refl;
            payments = refl;
            outbox = refl;
            refused = λ e. absurd (omega arith);
            keeps = λ i. i;
          }))

    parsed :
        (o : Option Uuid)
        → env.uuid_parse req.fx_quote_id ≡ o
        → str_eq req.fx_quote_id "" ≡ false
        → IsOutcome req (quoted (check_quote env out req.fx_quote_id w))
    unfolding check_quote after_quote
    parsed none e given =
        rw (given, check_quote) (rw e (inl (rejected (problem "invalid fx_quote_id"))))
    parsed (some q) e given =
        rw (given, check_quote)
          (rw e (
            answered (quote_problem env out (env.query_ok w.history) (lookup_quote q w.quotes) w)
              q))

    quoted-IsOutcome : IsOutcome req (quoted (check_quote env out req.fx_quote_id w))
    unfolding check_quote after_quote
    quoted-IsOutcome = elim (Bool-cases (str_eq req.fx_quote_id "")) [
      | inl absent ↦
          rw (absent, check_quote)
            (persist-cases env out user_id w merchants account_id instrument_id none req)
      | inr given ↦ parsed (env.uuid_parse req.fx_quote_id) refl given
    ]

  after_ids-IsOutcome :
      (merchants : List Merchant) (account_id instrument_id : Option Uuid) (req : CreateRequest)
      → IsOutcome req (after_ids env out merchants user_id account_id instrument_id req w)
  unfolding after_ids
  after_ids-IsOutcome merchants none _ req = inl (rejected _)
  after_ids-IsOutcome merchants (some a) none req = inl (rejected _)
  after_ids-IsOutcome merchants (some a) (some i) req =
      elim (Bool-cases (str_eq req.merchant_id "")) [
        | inl missing ↦ rw missing (inl (rejected _))
        | inr named ↦
            elim (Bool-cases (leb_ℤ req.minor_units (pos 0) || not (len req.currency_code == 3))) [
              | inl bad ↦ rw named (rw bad (inl (rejected _)))
              | inr good ↦ rw named (rw good (quoted-IsOutcome merchants a i req))
            ]
      ]

  -- Of a request that can be decoded, the execution creates one payment or nothing.
  pub execute_create-IsOutcome :
      (merchants : List Merchant) (body : Bytes)
      → IsKept env out user_id w (execute_create env out merchants user_id body w)
        ⊎ ((req : CreateRequest) × (out.decode_create body ≡ some req)
            × IsMade env out user_id w req (execute_create env out merchants user_id body w))
  unfolding execute_create
  execute_create-IsOutcome merchants body = elim (Option-cases (out.decode_create body)) [
    | inl e ↦ rw (e, execute_create) (inl (rejected _))
    | inr (req, e) ↦
        (let o =
            after_ids-IsOutcome merchants (env.uuid_parse req.account_id)
              (env.uuid_parse req.instrument_id) req in
          rw (e, execute_create) (elim o [ inl k ↦ inl k | inr m ↦ inr (req, refl, m) ]))
  ]
