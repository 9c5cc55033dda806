-- ===== src/Outbox.antt =====
-- internal/outbox/outbox.go: the relay, which publishes the rows of the table `outbox`. Its Writer
-- stands with the engine's transactions. What the registry, the broker and the database answer is
-- an argument, and so are the JSON library and the text of a uuid.
pub mod Rows
pub mod Sent
pub mod Drained
mod Tests
use peikonpurekkusu_payment.Prelude.{
  ℕ, ◌||◌, ◌&&◌, Bool, true, false, not, String, List, [], ◌∷◌, Option, none, some, is_some, ◌⊎◌,
  inl, inr, leb, ◌==◌, if◌then◌else◌, length, take, map,
}
use peikonpurekkusu_payment.Prelude.Int.{ℤ}
use peikonpurekkusu_payment.Prelude.Bytes.{Bytes}
use peikonpurekkusu_payment.Payment.{Uuid, Time}
use peikonpurekkusu_payment.Saga.World.{Payload, OutboxRow}
use peikonpurekkusu_payment.Events.{Envelope, new_envelope, Json, frame}
use peikonpurekkusu_payment.Events.Registry.{Reply, Ids, schema_id}

-- A record of the broker.
pub record Message : Type 0 where
  pub topic : String
  pub key : String
  pub value : Bytes

-- The registry's cache of ids, and what the broker has stored, the newest first.
pub record Conn : Type 0 where
  pub ids : Ids
  pub log : List Message

-- What the broker does with a record: it may have stored one that it does not acknowledge.
pub data Produced : Type 0 where
  acknowledged lost stored_only : Produced

pub data RelayError : Type 0 where
  database bad_payload no_schema no_frame not_produced : RelayError

-- `reread` is the decoding of the stored JSON to a map, where a number becomes a float64.
pub record Codec : Type 0 where
  pub uuid_string : Uuid → String
  pub json : Json
  pub decode_id : String → Option ℤ
  pub reread : Payload → Option Payload

-- What one drain meets. Rows that another replica has locked are skipped.
pub record Weather : Type 0 where
  pub query_ok : Bool
  pub update_ok : Bool
  pub locked : Uuid → Bool
  pub now : Time
  pub registry : Conn → String → Reply
  pub produce : Conn → Message → Produced

pub record Relay : Type 0 where
  pub outbox : List OutboxRow
  pub conn : Conn

abbrev pub batch_limit : ℕ
batch_limit = 50

abbrev pub is_pending : OutboxRow → Bool
is_pending r = not (is_some r.processed_at)

-- `where processed_at is null … for update skip locked`
unfoldable pub pending : (Uuid → Bool) → List OutboxRow → List OutboxRow
pending locked [] = []
pending locked (r ∷ rs) =
    let rest = pending locked rs in if is_pending r && not (locked r.id) then r ∷ rest else rest

-- `order by id`
unfoldable pub insert_by_id : OutboxRow → List OutboxRow → List OutboxRow
insert_by_id r [] = r ∷ []
insert_by_id r (x ∷ xs) =
    let rest = insert_by_id r xs in if leb r.id x.id then r ∷ x ∷ xs else x ∷ rest

unfoldable pub order_by_id : List OutboxRow → List OutboxRow
unfolding insert_by_id
order_by_id [] = []
order_by_id (r ∷ rs) = insert_by_id r (order_by_id rs)

unfoldable pub select_batch : (Uuid → Bool) → List OutboxRow → List OutboxRow
unfolding pending order_by_id
select_batch locked rs = take batch_limit (order_by_id (pending locked rs))

abbrev pub outbox_id : OutboxRow → Uuid
outbox_id r = r.id

unfoldable pub any_id : Uuid → List Uuid → Bool
any_id k [] = false
any_id k (x ∷ xs) = (x == k) || any_id k xs

-- `update outbox set processed_at = now() where id = any($1)`
unfoldable pub mark_processed : Time → List Uuid → List OutboxRow → List OutboxRow
unfolding any_id
mark_processed now ids [] = []
mark_processed now ids (r ∷ rs) =
    let rest = mark_processed now ids rs in
    if any_id r.id ids then record r { processed_at = some now } ∷ rest else r ∷ rest

module _ (codec : Codec) where
  unfoldable pub row_envelope : OutboxRow → Payload → Envelope
  unfolding new_envelope
  row_envelope r payload =
      new_envelope (codec.uuid_string r.id) r.topic (codec.uuid_string r.id) r.created_at payload

  abbrev pub message : OutboxRow → Bytes → Message
  message r value = record { topic = r.topic; key = r.aggregate_id; value = value }

  module _ (weather : Weather) where
    unfoldable pub after_produce : Message → Produced → Conn → Option RelayError × Conn
    after_produce m acknowledged c = (none, record c { log = m ∷ c.log })
    after_produce m lost c = (some not_produced, c)
    after_produce m stored_only c = (some not_produced, record c { log = m ∷ c.log })

    unfoldable pub send : OutboxRow → Option Bytes → Conn → Option RelayError × Conn
    unfolding after_produce
    send r none c = (some no_frame, c)
    send r (some value) c = after_produce (message r value) (weather.produce c (message r value)) c

    unfoldable pub with_schema :
        OutboxRow → Payload → Option ℤ × Ids → List Message → Option RelayError × Conn
    unfolding send frame row_envelope
    with_schema r payload (none, ids) log = (some no_schema, record { ids = ids; log = log })
    with_schema r payload (some id, ids) log =
        send r (frame codec.json id (row_envelope r payload)) (record { ids = ids; log = log })

    -- The body of the loop over a batch.
    unfoldable pub publish_row : OutboxRow → Conn → Option RelayError × Conn
    unfolding with_schema schema_id
    publish_row r c = elim (codec.reread r.payload) [
      | none ↦ (some bad_payload, c)
      | some payload ↦
          with_schema r payload
            (schema_id codec.decode_id r.topic (weather.registry c r.topic) c.ids) c.log
    ]

    unfoldable pub publish_all : List OutboxRow → Conn → Option RelayError × Conn
    unfolding publish_row
    publish_all [] c = (none, c)
    publish_all (r ∷ rs) c =
        let (failure, c') = publish_row r c in
        elim failure [ none ↦ publish_all rs c' | some e ↦ (some e, c') ]

    -- The update, and the end of the transaction.
    unfoldable pub after_publish :
        List OutboxRow → List OutboxRow → Option RelayError × Conn → (RelayError ⊎ ℕ) × Relay
    unfolding mark_processed
    after_publish batch rows (some e, c) = (inl e, record { outbox = rows; conn = c })
    after_publish batch rows (none, c) =
        if weather.update_ok
        then (
          inr (length batch),
          record { outbox = mark_processed weather.now (map outbox_id batch) rows; conn = c },
        )
        else (inl database, record { outbox = rows; conn = c })

    unfoldable pub drain_batch : List OutboxRow → Relay → (RelayError ⊎ ℕ) × Relay
    unfolding after_publish publish_all
    drain_batch [] s = (inr 0, s)
    drain_batch (r ∷ rs) s = after_publish (r ∷ rs) s.outbox (publish_all (r ∷ rs) s.conn)

    unfoldable pub drain_once : Relay → (RelayError ⊎ ℕ) × Relay
    unfolding drain_batch select_batch
    drain_once s =
        if weather.query_ok
        then drain_batch (select_batch weather.locked s.outbox) s
        else (inl database, s)

  -- The ticks of `Run`, one after the other: an error is only logged.
  unfoldable pub run : List Weather → Relay → Relay
  unfolding drain_once
  run [] s = s
  run (w ∷ ws) s = run ws (drain_once w s).1
