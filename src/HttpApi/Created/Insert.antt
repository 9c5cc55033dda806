-- ===== src/HttpApi/Created/Insert.antt =====
-- The transaction of `executeCreate` of internal/httpapi/server.go: one row with its event, or nothing.
use peikonpurekkusu_payment.Prelude.{
  ℕ, ◌≡◌, ◌≢◌, refl, Bool, false, not, ◌||◌, List, [], ◌∷◌, Option, none, some, is_some, ◌⊎◌, inl,
  inr, arith, map, All, Bool-cases, ◌==◌,
}
use peikonpurekkusu_payment.Payment.{Uuid, Row, requested, processing}
use peikonpurekkusu_payment.Payment.Table.{lookup, lookup_instrument}
use peikonpurekkusu_payment.Payment.Keys.{row_id}
use peikonpurekkusu_payment.Saga.World.{
  OutboxRow, History, World, Env, queried, wrote, record_event,
}
use peikonpurekkusu_payment.Saga.Persist.{begin_func, write_outbox}
use peikonpurekkusu_payment.Saga.Requested.{requested_payload, write_requested_event}
use peikonpurekkusu_payment.Saga.Spec.{itself, saw}
use peikonpurekkusu_payment.Saga.Invariant.{Inv, IsSound, Move-Inv}
use peikonpurekkusu_payment.HttpApi.Create.{
  Merchant, CreateRequest, Reply, created, Outside, has_merchant, has_quote, new_row,
  insert_payment, then_event, after_insert, persist,
}

some_inj : {A : Type 0} {a b : A} → some a ≡ some b → a ≡ b
some_inj e = cc

pub Inv-queried : (w : World) → Inv w → Inv (record_event queried w)
Inv-queried w i = Move-Inv {c = itself} i (saw queried tt refl)

Inv-wrote : (b : Bool) (w : World) → Inv w → Inv (record_event (wrote b) w)
Inv-wrote b w i = Move-Inv {c = itself} i (saw (wrote b) tt refl)

fresh-All : (k : Uuid) (rs : List Row) → lookup k rs ≡ none → All (λ y. y ≢ k) (map row_id rs)
unfolding lookup
fresh-All k [] h = tt
fresh-All k (r ∷ rs) h = elim (Bool-cases (r.id == k)) [
  | inl same ↦ absurd (ground (arith, same, h))
  | inr other ↦ (λ e. ground (arith, e, other), fresh-All k rs (rw other at h))
]

new-IsSound : (h : History) (r : Row) → r.status ≡ processing → r.step ≡ requested → IsSound h r
new-IsSound h r status step = record {
  live = λ x. rw step (omega arith);
  parked = λ x. absurd (cc (x, status));
  settled = λ x. absurd (cc (x, status));
  closed = λ x. absurd (cc (x, status));
  known = (λ x. cc (x, status), λ x. cc (x, status));
  held = λ lo hi. absurd (ground (arith, step, lo));
  taken = λ x. absurd (ground (arith, step, x));
}

-- A new row under a new id, of a payment that is processing at requested, keeps the invariant.
Inv-insert :
    (w u : World) (r : Row)
    → Inv w
    → lookup r.id w.payments ≡ none
    → r.status ≡ processing
    → r.step ≡ requested
    → u.payments ≡ r ∷ w.payments
    → u.history ≡ w.history
    → Inv u
unfolding lookup
Inv-insert w u r i fresh status step p h = record {
  rows = λ k x found. rw h (inserted k x (rw p at found));
  ordered = rw h i.ordered;
  keyed = rw p (fresh-All r.id w.payments fresh, i.keyed);
}
  where
    inserted : (k : Uuid) (x : Row) → lookup k (r ∷ w.payments) ≡ some x → IsSound w.history x
    inserted k x found = elim (Bool-cases (r.id == k)) [
      | inl same ↦ rw (some_inj (rw same at found)) at (new-IsSound w.history r status step)
      | inr other ↦ i.rows k x (rw other at found)
    ]

module _ (env : Env) (out : Outside) (user_id : Uuid) (w : World) where
  -- The database is as it was, and nothing is started.
  pub record IsKept (x : (ℕ × Reply) × List Uuid × World) : Type 0 where
    pub starts : x.1 ≡ []
    pub payments : x.2.payments ≡ w.payments
    pub outbox : x.2.outbox ≡ w.outbox
    pub refused : x.0.0 ≢ 202
    pub keeps : Inv w → Inv x.2

  -- One payment is created, under a new id and as requested, with the event of its creation, and
  -- its `Advance` is started.
  pub record IsMade (req : CreateRequest) (x : (ℕ × Reply) × List Uuid × World) : Type 0 where
    pub row : Row
    pub event : OutboxRow
    pub fresh : lookup row.id w.payments ≡ none
    pub payments : x.2.payments ≡ row ∷ w.payments
    pub outbox : x.2.outbox ≡ event ∷ w.outbox
    pub starts : x.1 ≡ row.id ∷ []
    pub reply : x.0 ≡ (202, created row.id row.amount row.currency row.merchant_id)
    pub state : (row.status ≡ processing) × (row.step ≡ requested)
    pub requested_by :
        (row.user_id ≡ user_id)
        × (row.amount ≡ req.minor_units)
        × (row.merchant_id ≡ req.merchant_id)
    pub announces :
        (event.topic ≡ "payments.payment.requested.v1")
        × (event.aggregate_id ≡ env.uuid_string row.id)
        × (event.processed_at ≡ none)
    pub keeps : Inv w → Inv x.2

  abbrev pub is_refused : List Merchant → Row → Bool
  is_refused merchants r =
      is_some (lookup r.id w.payments)
      || not (has_merchant r.merchant_id merchants)
      || not (is_some (lookup_instrument r.instrument_id w.instruments))
      || not (has_quote env out r.fx_quote_id w.quotes)

  accepted_is_fresh :
      (merchants : List Merchant) (r : Row)
      → is_refused merchants r ≡ false
      → lookup r.id w.payments ≡ none
  accepted_is_fresh merchants r h = ground (arith, h)

  pub persist-cases :
      (merchants : List Merchant) (account_id instrument_id : Uuid) (fx_quote_id : Option Uuid)
      (req : CreateRequest)
      → let x = persist env out merchants user_id account_id instrument_id fx_quote_id req w in
        IsKept x ⊎ IsMade req x
  unfolding persist begin_func insert_payment then_event after_insert new_row write_requested_event
      write_outbox
  persist-cases merchants account_id instrument_id fx_quote_id req =
      let r =
        new_row env out w (out.new_uuid w.history) user_id account_id instrument_id fx_quote_id
          req in
      elim (Bool-cases (env.commit_ok w.history)) [
        | inr down ↦ rw down (
            inl (record {
              starts = refl;
              payments = refl;
              outbox = refl;
              refused = λ e. absurd (omega arith);
              keeps = Inv-wrote false w;
            }))
        | inl up ↦ elim (Bool-cases (is_refused merchants r)) [
          | inl bad ↦ rw up (
              rw bad (
                inl (record {
                  starts = refl;
                  payments = refl;
                  outbox = refl;
                  refused = λ e. absurd (omega arith);
                  keeps = Inv-wrote (env.commit_ok w.history) w;
                })))
          | inr good ↦ rw up (
              rw good (
                inr (record {
                  row = r;
                  event = record {
                    id = env.uuid_v7 w.history;
                    aggregate_type = "payment";
                    aggregate_id = env.uuid_string r.id;
                    topic = "payments.payment.requested.v1";
                    payload =
                        requested_payload env r.id user_id r.merchant_id r.amount r.currency
                          r.fx_quote_id;
                    created_at = w.now;
                    processed_at = none;
                  };
                  fresh = accepted_is_fresh merchants r good;
                  payments = refl;
                  outbox = refl;
                  starts = refl;
                  reply = refl;
                  state = (refl, refl);
                  requested_by = (refl, refl, refl);
                  announces = (refl, refl, refl);
                  keeps = λ i.
                      Inv-insert (record_event (wrote (env.commit_ok w.history)) w) _ r
                        (Inv-wrote (env.commit_ok w.history) w i)
                        (accepted_is_fresh merchants r good) refl refl refl refl;
                })))
        ]
      ]
