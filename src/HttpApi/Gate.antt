-- ===== src/HttpApi/Gate.antt =====
-- `createPayment` of internal/httpapi/server.go as a whole: what a request must have shown when a
-- payment is created for it, and that nothing is half done.
use Prim.Native.String.{len}
use text.Mathlib.Text.{◌==◌ as str_eq}
use peikonpurekkusu_payment.Prelude.{
  ℕ, ◌≡◌, refl, sym, false, ◌||◌, List, [], ◌∷◌, Option, none, some, take, ltb, ◌⊎◌, inl, inr,
  Bool-cases, Option-cases,
}
use peikonpurekkusu_payment.Prelude.Bytes.{Bytes}
use peikonpurekkusu_payment.Payment.{Uuid, Row, requested, processing}
use peikonpurekkusu_payment.Payment.Table.{lookup}
use peikonpurekkusu_payment.Saga.World.{OutboxRow, World, Env}
use peikonpurekkusu_payment.Saga.Invariant.{Inv}
use peikonpurekkusu_payment.Idempotency
use peikonpurekkusu_payment.Idempotency.{
  KeyRow, Call, Begun, executes, replays, refused, payload_mismatch, in_flight, begin, complete,
}
use peikonpurekkusu_payment.HttpApi.{Request, get}
use peikonpurekkusu_payment.HttpApi.Create.{
  CreateRequest, Reply, created, Response, responds, Api, Outside, body_limit, after_execute,
  after_begin, gated, call_of, with_body, on_body, with_user, create_payment,
}
use peikonpurekkusu_payment.HttpApi.Created.{IsKept, IsMade, execute_create-IsOutcome}

module _ (env : Env) (out : Outside) (s : Api) where
  -- No payment, no event and no goroutine.
  pub record IsIdle (x : Response × Api) : Type 0 where
    pub payments : x.1.world.payments ≡ s.world.payments
    pub outbox : x.1.world.outbox ≡ s.world.outbox
    pub started : x.1.started ≡ s.started
    pub keeps : Inv s.world → Inv x.1.world

  -- One payment as the body asked for it, its event, its goroutine and its answer.
  pub record IsCreation (user_id : Uuid) (body : Bytes) (x : Response × Api) : Type 0 where
    pub req : CreateRequest
    pub decoded : out.decode_create body ≡ some req
    pub row : Row
    pub event : OutboxRow
    pub fresh : lookup row.id s.world.payments ≡ none
    pub payments : x.1.world.payments ≡ row ∷ s.world.payments
    pub outbox : x.1.world.outbox ≡ event ∷ s.world.outbox
    pub started : x.1.started ≡ row.id ∷ s.started
    pub response : x.0 ≡ responds 202 (created row.id row.amount row.currency row.merchant_id)
    pub state : (row.status ≡ processing) × (row.step ≡ requested)
    pub requested_by :
        (row.user_id ≡ user_id)
        × (row.amount ≡ req.minor_units)
        × (row.merchant_id ≡ req.merchant_id)
    pub announces :
        (event.topic ≡ "payments.payment.requested.v1")
        × (event.aggregate_id ≡ env.uuid_string row.id)
        × (event.processed_at ≡ none)
    pub keeps : Inv s.world → Inv x.1.world

  IsIdle-keys :
      (response : Response) (keys : List KeyRow) → IsIdle (response, record s { keys = keys })
  IsIdle-keys response keys = record {
    payments = refl;
    outbox = refl;
    started = refl;
    keeps = λ i. i;
  }

  idle : (response : Response) → IsIdle (response, s)
  idle response = record { payments = refl; outbox = refl; started = refl; keeps = λ i. i }

  after_execute-kept :
      (c : Call) (keys : List KeyRow) (user_id : Uuid) (x : (ℕ × Reply) × List Uuid × World)
      → IsKept env out user_id s.world x
      → IsIdle (after_execute env out c keys s.merchants s.started x)
  unfolding after_execute
  after_execute-kept c keys user_id ((code, reply), [], w) k = record {
    payments = k.payments;
    outbox = k.outbox;
    started = refl;
    keeps = k.keeps;
  }
  after_execute-kept c keys user_id ((code, reply), id ∷ ids, w) k = absurd (cc (k.starts))

  after_execute-made :
      (c : Call) (keys : List KeyRow) (user_id : Uuid) (body : Bytes) (req : CreateRequest)
      (x : (ℕ × Reply) × List Uuid × World)
      → out.decode_create body ≡ some req
      → IsMade env out user_id s.world req x
      → IsCreation user_id body (after_execute env out c keys s.merchants s.started x)
  unfolding after_execute
  after_execute-made c keys user_id body req ((code, reply), [], w) e m = absurd (cc (m.starts))
  after_execute-made c keys user_id body req ((code, reply), id ∷ ids, w) e m = record {
    req = req;
    decoded = e;
    row = m.row;
    event = m.event;
    fresh = m.fresh;
    payments = m.payments;
    outbox = m.outbox;
    started = cc (m.starts);
    response = cc (m.reply);
    state = m.state;
    requested_by = m.requested_by;
    announces = m.announces;
    keeps = m.keeps;
  }

  -- A creation, by a request that was told to execute.
  after_begin-cases :
      (user_id : Uuid) (c : Call) (body : Bytes) (b : Begun × List KeyRow)
      → c.user_id ≡ user_id
      → IsIdle (after_begin env out c body b s)
        ⊎ ((b.0 ≡ executes) × IsCreation user_id body (after_begin env out c body b s))
  unfolding after_begin
  after_begin-cases user_id c body (replays code stored, keys) own = inl (IsIdle-keys _ keys)
  after_begin-cases user_id c body (refused payload_mismatch, keys) own = inl (IsIdle-keys _ keys)
  after_begin-cases user_id c body (refused in_flight, keys) own = inl (IsIdle-keys _ keys)
  after_begin-cases user_id c body (refused Idempotency.database, keys) own =
      inl (IsIdle-keys _ keys)
  after_begin-cases user_id c body (executes, keys) own =
      elim (execute_create-IsOutcome env out c.user_id s.world s.merchants body) [
        | inl k ↦ inl (after_execute-kept c keys c.user_id _ k)
        | inr (req, e, m) ↦
            inr (refl, rw (sym own) (after_execute-made c keys c.user_id body req _ e m))
      ]

  module _ (r : Request) where
    -- What a request has shown: its caller, its body and that it may pay the amount, and that its key
    -- was free.
    pub record IsPassed (x : Response × Api) : Type 0 where
      pub user_id : Uuid
      pub caller : env.uuid_parse (get "X-User-Id" r.headers) ≡ some user_id
      pub full : Bytes
      pub sent : r.body ≡ some full
      pub gate : gated env out r s.world.now (out.decode_amount (take body_limit full)) ≡ false
      pub claimed :
          (begin out.db (call_of env out user_id r (take body_limit full)) s.keys).0 ≡ executes
      pub creation : IsCreation user_id (take body_limit full) x

    passed :
        (user_id : Uuid) (full : Bytes) (x : Response × Api)
        → env.uuid_parse (get "X-User-Id" r.headers) ≡ some user_id
        → r.body ≡ some full
        → gated env out r s.world.now (out.decode_amount (take body_limit full)) ≡ false
        → IsIdle x
          ⊎ (((begin out.db (call_of env out user_id r (take body_limit full)) s.keys).0 ≡ executes)
              × IsCreation user_id (take body_limit full) x)
        → IsIdle x ⊎ IsPassed x
    passed user_id full x caller sent gate (inl i) = inl i
    passed user_id full x caller sent gate (inr (claimed, made)) = inr (record {
      user_id = user_id;
      caller = caller;
      full = full;
      sent = sent;
      gate = gate;
      claimed = claimed;
      creation = made;
    })

    with_body-cases :
        (user_id : Uuid) (full : Bytes)
        → env.uuid_parse (get "X-User-Id" r.headers) ≡ some user_id
        → r.body ≡ some full
        → let x = with_body env out user_id r (take body_limit full) s in IsIdle x ⊎ IsPassed x
    unfolding with_body
    with_body-cases user_id full caller sent =
        elim (Bool-cases (gated env out r s.world.now (out.decode_amount (take body_limit full)))) [
          | inl shut ↦ rw (shut, with_body) (inl (idle _))
          | inr open_ ↦
              rw (open_, with_body)
                (passed user_id full _ caller sent open_ (
                  after_begin-cases user_id (call_of env out user_id r (take body_limit full))
                    (take body_limit full)
                    (begin out.db (call_of env out user_id r (take body_limit full)) s.keys) refl))
        ]

    on_body-cases :
        (user_id : Uuid) (o : Option Bytes)
        → env.uuid_parse (get "X-User-Id" r.headers) ≡ some user_id
        → r.body ≡ o
        → let x = on_body env out user_id r o s in IsIdle x ⊎ IsPassed x
    unfolding on_body
    on_body-cases user_id none caller e = inl (idle _)
    on_body-cases user_id (some full) caller e = with_body-cases user_id full caller e

    with_user-cases :
        (user_id : Uuid)
        → env.uuid_parse (get "X-User-Id" r.headers) ≡ some user_id
        → let x = with_user env out user_id r s in IsIdle x ⊎ IsPassed x
    unfolding with_user
    with_user-cases user_id caller =
        elim (Bool-cases (
          str_eq (get "Idempotency-Key" r.headers) ""
          || ltb 255 (len (get "Idempotency-Key" r.headers)))) [
            | inl bad ↦ rw (bad, with_user) (inl (idle _))
            | inr good ↦ rw (good, with_user) (on_body-cases user_id r.body caller refl)
          ]

    -- A request either changes nothing or creates one payment, and then it has shown what it must.
    pub create_payment-cases :
        IsIdle (create_payment env out r s) ⊎ IsPassed (create_payment env out r s)
    unfolding create_payment
    create_payment-cases = elim (Option-cases (env.uuid_parse (get "X-User-Id" r.headers))) [
      | inl e ↦ rw (e, create_payment) (inl (idle _))
      | inr (user_id, e) ↦ rw (e, create_payment) (with_user-cases user_id e)
    ]

    -- The creation of a payment keeps the invariant of the engine, whatever the request holds and
    -- the database answers.
    pub create_payment-Inv : Inv s.world → Inv (create_payment env out r s).1.world
    create_payment-Inv i = elim create_payment-cases [
      | inl idle_ ↦ idle_.keeps i
      | inr made ↦ made.creation.keeps i
    ]
