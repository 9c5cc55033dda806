-- ===== src/HttpApi/Once.antt =====
-- A creation by internal/httpapi/server.go and its repetition under one idempotency key.
use Prim.Native.String.{len}
use text.Mathlib.Text.{◌==◌ as str_eq}
use text.Mathlib.TextPositions.{eq_refl}
use peikonpurekkusu_payment.Prelude.{
  ℕ, ◌≡◌, refl, ◌∙◌, ap, Bool, true, false, ◌||◌, String, List, ◌∷◌, Option, none, some, take, ltb,
  inl, inr, Bool-cases,
}
use peikonpurekkusu_payment.Prelude.Bytes.{Bytes}
use peikonpurekkusu_payment.Payment.{Uuid}
use peikonpurekkusu_payment.Saga.World.{World, Env}
use peikonpurekkusu_payment.Idempotency.{
  KeyRow, Call, Begun, executes, replays, find, insert_key, claimed_row, complete, Db, begin,
  after_insert,
}
use peikonpurekkusu_payment.Idempotency.Rows.{claimed_row-is_key}
use peikonpurekkusu_payment.Idempotency.Replay.{begin-complete}
use peikonpurekkusu_payment.HttpApi.{Request, get}
use peikonpurekkusu_payment.HttpApi.Create.{
  Response, problem, Reply, responds, replayed, Api, Outside, body_limit, execute_create,
  after_execute, after_begin, gated, call_of, with_body, on_body, with_user, create_payment,
}

-- The key's first claim.
begin-fresh :
    (db : Db) (c : Call) (rs : List KeyRow)
    → db.ok 0 ≡ true
    → find c rs ≡ none
    → begin db c rs ≡ (executes, claimed_row (db.clock 0) c ∷ rs)
unfolding begin insert_key after_insert
begin-fresh db c rs up absent = rw (up, begin) (rw (absent, insert_key) refl)

-- The answer that demands a second factor.
abbrev pub asks_factor : Response
asks_factor = responds 401 (problem "step_up_required: this amount requires a recent second factor")

-- The limit of a key's length.
abbrev pub is_bad_key : Request → Bool
is_bad_key r =
    str_eq (get "Idempotency-Key" r.headers) "" || ltb 255 (len (get "Idempotency-Key" r.headers))

module _ (env : Env) (r : Request) (user_id : Uuid) (full : Bytes) where
  abbrev body : Bytes
  body = take body_limit full

  module _ (out : Outside) (s : Api) where
    shut_out :
        gated env out r s.world.now (out.decode_amount body) ≡ true
        → with_body env out user_id r body s ≡ (asks_factor, s)
    unfolding with_body
    shut_out shut = rw (shut, with_body) refl

    let_in :
        gated env out r s.world.now (out.decode_amount body) ≡ false
        → with_body env out user_id r body s
          ≡ after_begin env out
              (call_of env out user_id r body)
              body
              (begin out.db (call_of env out user_id r body) s.keys)
              s
    unfolding with_body
    let_in open_ = rw (open_, with_body) refl

    reached :
        env.uuid_parse (get "X-User-Id" r.headers) ≡ some user_id
        → r.body ≡ some full
        → is_bad_key r ≡ false
        → create_payment env out r s ≡ with_body env out user_id r body s
    unfolding create_payment with_user on_body
    reached caller sent good =
        rw (caller, create_payment)
          (rw (good, with_user) (ap (λ o. on_body env out user_id r o s) sent))

  executed :
      (out : Outside) (c : Call) (x : (ℕ × Reply) × List Uuid × World) (s : Api)
      (keys : List KeyRow)
      → out.complete_ok ≡ true
      → ((after_execute env out c keys s.merchants s.started x).0 ≡ responds x.0.0 x.0.1)
        × ((after_execute env out c keys s.merchants s.started x).1.keys
            ≡ complete c x.0.0 (out.encode x.0.1) keys)
  unfolding after_execute
  executed out c ((code, reply), starts, w) s keys ok = (refl, rw ok refl)

  module _ (out : Outside) (s : Api) (again : Db) (u : Api) where
    abbrev pub repeated : Outside
    repeated = record out { db = again }

    -- A request with a new key that passes the step-up test is answered, and recorded.
    first :
        env.uuid_parse (get "X-User-Id" r.headers) ≡ some user_id
        → r.body ≡ some full
        → is_bad_key r ≡ false
        → gated env out r s.world.now (out.decode_amount body) ≡ false
        → find (call_of env out user_id r body) s.keys ≡ none
        → out.db.ok 0 ≡ true
        → out.complete_ok ≡ true
        → let x = execute_create env out s.merchants user_id body s.world in
          ((create_payment env out r s).0 ≡ responds x.0.0 x.0.1)
          × ((create_payment env out r s).1.keys
              ≡ complete
                  (call_of env out user_id r body)
                  x.0.0
                  (out.encode x.0.1)
                  (claimed_row (out.db.clock 0) (call_of env out user_id r body) ∷ s.keys))
    unfolding after_begin
    first caller sent good open_ absent up ok =
        let c : Call = call_of env out user_id r body in
        rw (reached out s caller sent good ∙ let_in out s open_) (
          rw (begin-fresh out.db c s.keys up absent) (
            executed out c (execute_create env out s.merchants user_id body s.world) s
              (claimed_row (out.db.clock 0) c ∷ s.keys) ok))

    claim_found :
        (c : Call) (rs : List KeyRow)
        → find c (claimed_row (out.db.clock 0) c ∷ rs) ≡ some (claimed_row (out.db.clock 0) c)
    unfolding find
    claim_found c rs = rw (claimed_row-is_key (out.db.clock 0) c) refl

    begin_again :
        (c : Call) (code : ℕ) (stored : String) (rs : List KeyRow)
        → u.keys ≡ complete c code stored (claimed_row (out.db.clock 0) c ∷ rs)
        → again.ok 0 ≡ true
        → again.ok 1 ≡ true
        → again.meanwhile 1 u.keys ≡ u.keys
        → begin again c u.keys ≡ (replays code (some stored), u.keys)
    unfolding claimed_row
    begin_again c code stored rs e up still quiet =
        let answer =
          begin-complete again c c code stored (claimed_row (out.db.clock 0) c ∷ rs)
            (claimed_row (out.db.clock 0) c) (claim_found c rs)
            (claimed_row-is_key (out.db.clock 0) c) up still (rw e at quiet) in
        rw e (rw (eq_refl c.request_hash) at answer)

    replay :
        (c : Call) (b : Bytes) (code : ℕ) (stored : Option String) (x : Begun × List KeyRow)
        → x ≡ (replays code stored, u.keys)
        → after_begin env repeated c b x u ≡ (replayed code stored, u)
    unfolding after_begin
    replay c b code stored x e = rw e refl

    -- A request with a new key that passes the step-up test is answered and, if its completion is
    -- recorded, the same request again, at any later state with these keys, changes nothing; it gets
    -- the first answer's status and the body that was stored with it, or, if the step-up test does
    -- not pass any more, the demand for a second factor. The database answers the statements of the keys, and nobody else's come in between.
    pub create_payment-again :
        env.uuid_parse (get "X-User-Id" r.headers) ≡ some user_id
        → r.body ≡ some full
        → is_bad_key r ≡ false
        → gated env out r s.world.now (out.decode_amount body) ≡ false
        → find (call_of env out user_id r body) s.keys ≡ none
        → out.db.ok 0 ≡ true
        → out.complete_ok ≡ true
        → again.ok 0 ≡ true
        → again.ok 1 ≡ true
        → again.meanwhile 1 u.keys ≡ u.keys
        → u.keys ≡ (create_payment env out r s).1.keys
        → (code : ℕ) × (reply : Reply) × ((create_payment env out r s).0 ≡ responds code reply)
          × ((create_payment env repeated r u).1 ≡ u)
          × (gated env repeated r u.world.now (out.decode_amount body) ≡ true
              → (create_payment env repeated r u).0 ≡ asks_factor)
          × (gated env repeated r u.world.now (out.decode_amount body) ≡ false
              → (create_payment env repeated r u).0 ≡ replayed code (some (out.encode reply)))
    create_payment-again caller sent good open_ absent up ok up' still quiet later =
        let c : Call = call_of env out user_id r body in
        let x = execute_create env out s.merchants user_id body s.world in
        let (answer, keys) = first caller sent good open_ absent up ok in
        let told =
          replay c body x.0.0 (some (out.encode x.0.1)) (begin again c u.keys)
            (begin_again c x.0.0 (out.encode x.0.1) s.keys (later ∙ keys) up' still quiet) in
        let whole = reached repeated u caller sent good in
        (
          x.0.0,
          x.0.1,
          answer,
          elim (Bool-cases (gated env repeated r u.world.now (out.decode_amount body))) [
            | inl shut ↦ ap (λ y. y.1) (whole ∙ shut_out repeated u shut)
            | inr in_ ↦ ap (λ y. y.1) (whole ∙ let_in repeated u in_ ∙ told)
          ],
          λ shut. ap (λ y. y.0) (whole ∙ shut_out repeated u shut),
          λ in_. ap (λ y. y.0) (whole ∙ let_in repeated u in_ ∙ told),
        )
