-- ===== src/Outbox/Drained.antt =====
-- The relay of internal/outbox/outbox.go when everything answers: its table is drained.
use mathlib.Core.List.{Memᴰ}
use peikonpurekkusu_payment.Prelude.{
  ℕ, suc, ◌≤◌, ◌<◌, ◌≡◌, inl, inr, refl, ◌∙◌, Bool, true, false, List, [], ◌∷◌, Option, none, some,
  arith, map, All, Bool-cases, Option-cases, if◌then◌else◌, String, length, take, ap, ◌==◌,
}
use peikonpurekkusu_payment.Prelude.Int.{ℤ}
use peikonpurekkusu_payment.Prelude.Bytes.{Bytes}
use peikonpurekkusu_payment.Payment.{Uuid, Time}
use peikonpurekkusu_payment.Saga.World.{Payload, OutboxRow}
use peikonpurekkusu_payment.Events.{Envelope, frame}
use peikonpurekkusu_payment.Events.Registry.{Ids, read_id, cache_id, schema_id, find_id}
use peikonpurekkusu_payment.Outbox.{
  Message, Conn, acknowledged, RelayError, Codec, Weather, Relay, is_pending, pending, insert_by_id,
  order_by_id, select_batch, batch_limit, outbox_id, any_id, mark_processed, row_envelope, message,
  after_produce, send, with_schema, publish_row, publish_all, after_publish, drain_batch,
  drain_once, run,
}
use peikonpurekkusu_payment.Outbox.Rows.{select_batch-member}
use peikonpurekkusu_payment.Outbox.Sent.{publish_row-read, publish_all-next}

unfoldable pub count_pending : List OutboxRow → ℕ
count_pending [] = 0
count_pending (r ∷ rs) = let rest = count_pending rs in if is_pending r then suc rest else rest

-- Marking makes nothing pending.
count-mark :
    (now : Time) (ids : List Uuid) (rs : List OutboxRow)
    → count_pending (mark_processed now ids rs) ≤ count_pending rs
unfolding count_pending mark_processed
count-mark now ids [] = omega arith
count-mark now ids (r ∷ rs) = elim (Bool-cases (any_id r.id ids)) [
  | inl hit ↦ ground (arith, hit, count-mark now ids rs)
  | inr miss ↦ ground (arith, miss, count-mark now ids rs)
]

count-mark_hit :
    (now : Time) (ids : List Uuid) (b : OutboxRow) (rs : List OutboxRow)
    → Memᴰ b rs
    → is_pending b ≡ true
    → any_id b.id ids ≡ true
    → count_pending (mark_processed now ids rs) < count_pending rs
unfolding count_pending mark_processed
count-mark_hit now ids b [] m h k = elim m [ ]
count-mark_hit now ids b (r ∷ rs) (Memᴰ.head e) h k =
    ground
      (arith, ap is_pending e, ap outbox_id e, ap (λ x. any_id x.id ids) e, count-mark now ids rs)
count-mark_hit now ids b (r ∷ rs) (Memᴰ.tail m) h k = elim (Bool-cases (any_id r.id ids)) [
  | inl hit ↦ ground (arith, hit, count-mark_hit now ids b rs m h k)
  | inr miss ↦ ground (arith, miss, count-mark_hit now ids b rs m h k)
]

length-insert_by_id :
    (r : OutboxRow) (xs : List OutboxRow) → length (insert_by_id r xs) ≡ suc (length xs)
unfolding insert_by_id
length-insert_by_id r [] = refl
length-insert_by_id r (x ∷ xs) = ground (arith, length-insert_by_id r xs)

length-order_by_id : (xs : List OutboxRow) → length (order_by_id xs) ≡ length xs
unfolding order_by_id
length-order_by_id [] = refl
length-order_by_id (x ∷ xs) =
    length-insert_by_id x (order_by_id xs) ∙ ap suc (length-order_by_id xs)

module _ (locked : Uuid → Bool) (unlocked : (k : Uuid) → locked k ≡ false) where
  length-pending : (rs : List OutboxRow) → length (pending locked rs) ≡ count_pending rs
  unfolding pending count_pending
  length-pending [] = refl
  length-pending (r ∷ rs) = ground (arith, unlocked r.id, length-pending rs)

  take_some : (xs : List OutboxRow) → 0 < length xs → 0 < length (take batch_limit xs)
  take_some [] h = h
  take_some (x ∷ xs) h = omega arith

  selects_some : (rs : List OutboxRow) → 0 < count_pending rs → 0 < length (select_batch locked rs)
  unfolding select_batch
  selects_some rs h =
      take_some (order_by_id (pending locked rs))
        (rw (length-order_by_id (pending locked rs), length-pending rs) h)

-- Every stored payload and every envelope can be encoded and decoded.
pub record IsTotal (codec : Codec) : Type 0 where
  pub rereads : (p : Payload) → (q : Payload) × (codec.reread p ≡ some q)
  pub marshals : (v : Envelope) → (b : Bytes) × (codec.json.marshal v ≡ some b)

module _ (codec : Codec) where
  -- The database, the registry and the broker answer, and no other replica holds a row.
  pub record IsFair (weather : Weather) : Type 0 where
    pub queries : weather.query_ok ≡ true
    pub updates : weather.update_ok ≡ true
    pub unlocked : (k : Uuid) → weather.locked k ≡ false
    pub answers :
        (c : Conn) (topic : String)
        → (id : ℤ) × (read_id codec.decode_id (weather.registry c topic) ≡ some id)
    pub stores : (c : Conn) (m : Message) → weather.produce c m ≡ acknowledged

  module _ (total : IsTotal codec) (weather : Weather) (fair : IsFair weather) where
    send_ok :
        (r : OutboxRow) (value : Bytes) (c : Conn) → (send codec weather r (some value) c).0 ≡ none
    unfolding send after_produce
    send_ok r value c = rw (fair.stores c (message codec r value), after_produce) refl

    with_schema_ok :
        (r : OutboxRow) (p : Payload) (id : ℤ) (ids : Ids) (log : List Message)
        → (with_schema codec weather r p (some id, ids) log).0 ≡ none
    unfolding with_schema frame
    with_schema_ok r p id ids log =
        let (b, e) = total.marshals (row_envelope codec r p) in
        rw (e, frame) (send_ok r _ (record { ids = ids; log = log }))

    with_reply_ok :
        (r : OutboxRow) (p : Payload) (c : Conn)
        → (with_schema codec weather r p
            (schema_id codec.decode_id r.topic (weather.registry c r.topic) c.ids)
            c.log).0
          ≡ none
    unfolding schema_id cache_id
    with_reply_ok r p c = elim (Option-cases (find_id r.topic c.ids)) [
      | inr (id, e) ↦ rw (e, schema_id) (with_schema_ok r p id c.ids c.log)
      | inl e ↦
          (let (id, f) = fair.answers c r.topic in
            rw (e, schema_id)
              (rw (f, cache_id) (with_schema_ok r p id ((r.topic, id) ∷ c.ids) c.log)))
    ]

    publish_row_ok : (r : OutboxRow) (c : Conn) → (publish_row codec weather r c).0 ≡ none
    publish_row_ok r c =
        let (p, read) = total.rereads r.payload in
        rw (publish_row-read codec weather r c p read) (with_reply_ok r p c)

    publish_all_ok : (rs : List OutboxRow) (c : Conn) → (publish_all codec weather rs c).0 ≡ none
    unfolding publish_all
    publish_all_ok [] c = refl
    publish_all_ok (r ∷ rs) c =
        rw (publish_all-next codec weather r rs c (publish_row_ok r c))
          (publish_all_ok rs (publish_row codec weather r c).1)

    after_publish_ok :
        (batch rows : List OutboxRow) (x : Option RelayError × Conn)
        → x.0 ≡ none
        → (after_publish codec weather batch rows x).1.outbox
          ≡ mark_processed weather.now (map outbox_id batch) rows
    unfolding after_publish
    after_publish_ok batch rows (some f, c) h = absurd (cc)
    after_publish_ok batch rows (none, c) h = rw fair.updates refl

    any_id-head :
        (b : OutboxRow) (bs : List OutboxRow) → any_id b.id (map outbox_id (b ∷ bs)) ≡ true
    unfolding any_id
    any_id-head b bs = ground arith

    drain_batch-lt :
        (batch : List OutboxRow) (s : Relay)
        → ((b : OutboxRow) → Memᴰ b batch → Memᴰ b s.outbox × (is_pending b ≡ true))
        → 0 < length batch
        → count_pending (drain_batch codec weather batch s).1.outbox < count_pending s.outbox
    unfolding drain_batch
    drain_batch-lt [] s there h = absurd (omega arith)
    drain_batch-lt (b ∷ bs) s there h =
        let (m, still) = there b (Memᴰ.head refl) in
        rw
          (after_publish_ok (b ∷ bs) s.outbox (publish_all codec weather (b ∷ bs) s.conn)
            (publish_all_ok (b ∷ bs) s.conn))
          (count-mark_hit weather.now (map outbox_id (b ∷ bs)) b s.outbox m still
            (any_id-head b bs))

    drain_batch-le :
        (batch : List OutboxRow) (s : Relay)
        → count_pending (drain_batch codec weather batch s).1.outbox ≤ count_pending s.outbox
    unfolding drain_batch
    drain_batch-le [] s = omega arith
    drain_batch-le (b ∷ bs) s =
        rw
          (after_publish_ok (b ∷ bs) s.outbox (publish_all codec weather (b ∷ bs) s.conn)
            (publish_all_ok (b ∷ bs) s.conn))
          (count-mark weather.now (map outbox_id (b ∷ bs)) s.outbox)

    -- A drain marks at least one row, if one is pending.
    drain_once-lt :
        (s : Relay) (n : ℕ)
        → count_pending s.outbox ≤ suc n
        → count_pending (drain_once codec weather s).1.outbox ≤ n
    unfolding drain_once
    drain_once-lt s n h = elim (Bool-cases (count_pending s.outbox == 0)) [
      | inl none_left ↦
          rw fair.queries
            (ground (arith, none_left, drain_batch-le (select_batch weather.locked s.outbox) s))
      | inr some_left ↦ rw fair.queries (
          ground (
            arith,
            h,
            drain_batch-lt (select_batch weather.locked s.outbox) s
                (λ b m. select_batch-member weather.locked b s.outbox m)
                (selects_some weather.locked fair.unlocked s.outbox (ground (arith, some_left))),
          ))
    ]

  -- When the database, the registry and the broker answer, and the payloads and envelopes can be
  -- encoded and decoded, no row is pending after as many drains as rows were.
  pub run-drained :
      IsTotal codec
      → (ws : List Weather) (s : Relay) → All IsFair ws
      → count_pending s.outbox ≤ length ws
      → count_pending (run codec ws s).outbox ≡ 0
  unfolding run
  run-drained total [] s fair h = omega arith
  run-drained total (w ∷ ws) s fair h =
      run-drained total ws (drain_once codec w s).1 fair.1
        (drain_once-lt total w fair.0 s (length ws) h)
