-- ===== src/Outbox/Sent.antt =====
-- What internal/outbox/outbox.go has given to the broker when it marks a row.
use mathlib.Core.List.{Memᴰ}
use mathlib.Core.Path.{subst}
use peikonpurekkusu_payment.Prelude.{
  ◌≡◌, inl, inr, refl, sym, true, List, [], ◌∷◌, Option, none, some, is_some, arith, map, All,
  Bool-cases, Option-cases,
}
use peikonpurekkusu_payment.Prelude.Int.{ℤ}
use peikonpurekkusu_payment.Prelude.Bytes.{Bytes}
use peikonpurekkusu_payment.Payment.{Uuid, Time}
use peikonpurekkusu_payment.Payment.Keys.{Distinct}
use peikonpurekkusu_payment.Saga.World.{Payload, OutboxRow}
use peikonpurekkusu_payment.Events.{frame}
use peikonpurekkusu_payment.Events.Registry.{Ids, schema_id}
use peikonpurekkusu_payment.Outbox.{
  Message, Conn, Produced, acknowledged, lost, stored_only, RelayError, Codec, Weather, Relay,
  select_batch, outbox_id, any_id, mark_processed, row_envelope, message, after_produce, send,
  with_schema, publish_row, publish_all, after_publish, drain_batch, drain_once, run,
}
use peikonpurekkusu_payment.Outbox.Rows.{
  member-cons, Distinct-same, select_batch-member, any_id-found, map-mark_processed,
}
use peikonpurekkusu_payment.Prelude.Elements.{All-member}

module _ (codec : Codec) where
  -- The broker has the row's event, framed under a schema id, on its topic and with its key.
  abbrev pub IsSent : List Message → OutboxRow → Type 0
  IsSent log r =
      (id : ℤ) × (payload : Payload) × (value : Bytes) × (codec.reread r.payload ≡ some payload)
      × (frame codec.json id (row_envelope codec r payload) ≡ some value)
      × Memᴰ (message codec r value) log

  -- The broker keeps what it has.
  abbrev Grows : List Message → List Message → Type 0
  Grows log log' = (m : Message) → Memᴰ m log → Memᴰ m log'

  sent_later :
      (log log' : List Message) (r : OutboxRow) → Grows log log' → IsSent log r → IsSent log' r
  sent_later log log' r g (id, payload, value, read, framed, m) =
      (id, payload, value, read, framed, g _ m)

  module _ (weather : Weather) where
    after_produce-Grows :
        (m : Message) (p : Produced) (c : Conn)
        → Grows c.log (after_produce codec weather m p c).1.log
    unfolding after_produce
    after_produce-Grows m acknowledged c = λ x h. Memᴰ.tail h
    after_produce-Grows m lost c = λ x h. h
    after_produce-Grows m stored_only c = λ x h. Memᴰ.tail h

    after_produce-stored :
        (m : Message) (p : Produced) (c : Conn)
        → (after_produce codec weather m p c).0 ≡ none
        → Memᴰ m (after_produce codec weather m p c).1.log
    unfolding after_produce
    after_produce-stored m acknowledged c h = Memᴰ.head refl
    after_produce-stored m lost c h = absurd (cc)
    after_produce-stored m stored_only c h = absurd (cc)

    send-Grows :
        (r : OutboxRow) (v : Option Bytes) (c : Conn) → Grows c.log (send codec weather r v c).1.log
    unfolding send
    send-Grows r none c = λ x h. h
    send-Grows r (some value) c = after_produce-Grows _ _ c

    send-stored :
        (r : OutboxRow) (v : Option Bytes) (c : Conn)
        → (send codec weather r v c).0 ≡ none
        → (value : Bytes) × (v ≡ some value)
          × Memᴰ (message codec r value) (send codec weather r v c).1.log
    unfolding send
    send-stored r none c h = absurd (cc)
    send-stored r (some value) c h =
        (value, refl, after_produce-stored (message codec r value) _ c h)

    with_schema-Grows :
        (r : OutboxRow) (p : Payload) (x : Option ℤ × Ids) (log : List Message)
        → Grows log (with_schema codec weather r p x log).1.log
    unfolding with_schema
    with_schema-Grows r p (none, ids) log = λ x h. h
    with_schema-Grows r p (some id, ids) log = send-Grows r _ _

    with_schema-IsSent :
        (r : OutboxRow) (p : Payload) (x : Option ℤ × Ids) (log : List Message)
        → codec.reread r.payload ≡ some p
        → (with_schema codec weather r p x log).0 ≡ none
        → IsSent (with_schema codec weather r p x log).1.log r
    unfolding with_schema
    with_schema-IsSent r p (none, ids) log read h = absurd (cc)
    with_schema-IsSent r p (some id, ids) log read h =
        let (value, framed, m) =
          send-stored r (frame codec.json id (row_envelope codec r p))
            (record { ids = ids; log = log }) h in
        (id, p, value, read, framed, m)

    publish_row-Grows :
        (r : OutboxRow) (c : Conn) → Grows c.log (publish_row codec weather r c).1.log
    unfolding publish_row
    publish_row-Grows r c = elim (Option-cases (codec.reread r.payload)) [
      | inl e ↦ rw (e, publish_row) (λ x h. h)
      | inr (p, e) ↦ rw (e, publish_row) (with_schema-Grows r p _ c.log)
    ]

    pub publish_row-read :
        (r : OutboxRow) (c : Conn) (p : Payload)
        → codec.reread r.payload ≡ some p
        → publish_row codec weather r c
          ≡ with_schema codec weather r p
              (schema_id codec.decode_id r.topic (weather.registry c r.topic) c.ids)
              c.log
    unfolding publish_row
    publish_row-read r c p e = rw (e, publish_row) refl

    publish_row-IsSent :
        (r : OutboxRow) (c : Conn)
        → (publish_row codec weather r c).0 ≡ none
        → IsSent (publish_row codec weather r c).1.log r
    unfolding publish_row
    publish_row-IsSent r c h = elim (Option-cases (codec.reread r.payload)) [
      | inl e ↦ absurd (ground (arith, e, h))
      | inr (p, e) ↦
          (let read = publish_row-read r c p e in
            subst (λ o. IsSent o.1.log r) (sym read)
              (with_schema-IsSent r p _ c.log e (rw read at h)))
    ]

    pub publish_all-next :
        (r : OutboxRow) (rs : List OutboxRow) (c : Conn)
        → (publish_row codec weather r c).0 ≡ none
        → publish_all codec weather (r ∷ rs) c
          ≡ publish_all codec weather rs (publish_row codec weather r c).1
    unfolding publish_all
    publish_all-next r rs c e = rw (e, publish_all) refl

    publish_all-stop :
        (r : OutboxRow) (rs : List OutboxRow) (c : Conn) (f : RelayError)
        → (publish_row codec weather r c).0 ≡ some f
        → publish_all codec weather (r ∷ rs) c ≡ (some f, (publish_row codec weather r c).1)
    unfolding publish_all
    publish_all-stop r rs c f e = rw (e, publish_all) refl

    publish_all-Grows :
        (rs : List OutboxRow) (c : Conn) → Grows c.log (publish_all codec weather rs c).1.log
    unfolding publish_all
    publish_all-Grows [] c = λ x h. h
    publish_all-Grows (r ∷ rs) c = elim (Option-cases (publish_row codec weather r c).0) [
      | inl e ↦
          subst (λ o. Grows c.log o.1.log) (sym (publish_all-next r rs c e))
            (λ x h.
              publish_all-Grows rs (publish_row codec weather r c).1 x (publish_row-Grows r c x h))
      | inr (f, e) ↦
          subst (λ o. Grows c.log o.1.log) (sym (publish_all-stop r rs c f e))
            (publish_row-Grows r c)
    ]

    publish_all-IsSent :
        (rs : List OutboxRow) (c : Conn)
        → (publish_all codec weather rs c).0 ≡ none
        → All (IsSent (publish_all codec weather rs c).1.log) rs
    publish_all-IsSent [] c h = tt
    publish_all-IsSent (r ∷ rs) c h = elim (Option-cases (publish_row codec weather r c).0) [
      | inl e ↦
          let next : publish_all codec weather (r ∷ rs) c
              ≡ publish_all codec weather rs (publish_row codec weather r c).1 =
            publish_all-next r rs c e in
          subst (λ o. All (IsSent o.1.log) (r ∷ rs)) (sym next)
            (
              sent_later _ _ r (publish_all-Grows rs (publish_row codec weather r c).1)
                  (publish_row-IsSent r c e),
              publish_all-IsSent rs (publish_row codec weather r c).1 (rw next at h),
            )
      | inr (f, e) ↦ absurd (cc (h, publish_all-stop r rs c f e))
    ]

  -- The table of the relay: its ids are distinct, and what is marked has been sent.
  pub record IsCovered (s : Relay) : Type 0 where
    pub keyed : Distinct (map outbox_id s.outbox)
    pub sent :
        (r : OutboxRow) → Memᴰ r s.outbox → is_some r.processed_at ≡ true → IsSent s.conn.log r

  mark-IsSent :
      (now : Time) (ids : List Uuid) (log : List Message) (rs : List OutboxRow)
      → ((r : OutboxRow) → Memᴰ r rs → is_some r.processed_at ≡ true → IsSent log r)
      → ((r : OutboxRow) → Memᴰ r rs → any_id r.id ids ≡ true → IsSent log r)
      → (r : OutboxRow) → Memᴰ r (mark_processed now ids rs)
      → is_some r.processed_at ≡ true
      → IsSent log r
  unfolding mark_processed row_envelope
  mark-IsSent now ids log [] old new r m h = elim m [ ]
  mark-IsSent now ids log (x ∷ rs) old new r m h = elim (Bool-cases (any_id x.id ids)) [
    | inl hit ↦
        elim (member-cons r (record x { processed_at = some now }) (mark_processed now ids rs)
          (rw hit at m)) [
            | inl e ↦ rw e (new x (Memᴰ.head refl) hit)
            | inr n ↦
                mark-IsSent now ids log rs (λ y k. old y (Memᴰ.tail k)) (λ y k. new y (Memᴰ.tail k))
                  r n h
          ]
    | inr miss ↦ elim (member-cons r x (mark_processed now ids rs) (rw miss at m)) [
      | inl e ↦ old r (Memᴰ.head e) h
      | inr n ↦
          mark-IsSent now ids log rs (λ y k. old y (Memᴰ.tail k)) (λ y k. new y (Memᴰ.tail k)) r n h
    ]
  ]

  module _ (weather : Weather) where
    after_publish-IsCovered :
        (batch : List OutboxRow) (s : Relay) (x : Option RelayError × Conn)
        → IsCovered s
        → ((b : OutboxRow) → Memᴰ b batch → Memᴰ b s.outbox)
        → Grows s.conn.log x.1.log
        → (x.0 ≡ none → All (IsSent x.1.log) batch)
        → IsCovered (after_publish codec weather batch s.outbox x).1
    unfolding after_publish
    after_publish-IsCovered batch s (some f, c) i there grows new = record {
      keyed = i.keyed;
      sent = λ r m h. sent_later _ _ r grows (i.sent r m h);
    }
    after_publish-IsCovered batch s (none, c) i there grows new =
        let old : (r : OutboxRow)
            → Memᴰ r s.outbox
            → is_some r.processed_at ≡ true
            → IsSent c.log r =
          λ r m h. sent_later s.conn.log c.log r grows (i.sent r m h) in
        elim (Bool-cases weather.update_ok) [
          | inr down ↦ rw down (record { keyed = i.keyed; sent = old })
          | inl up ↦ rw up (record {
            keyed = rw (map-mark_processed weather.now (map outbox_id batch) s.outbox) i.keyed;
            sent = mark-IsSent weather.now (map outbox_id batch) c.log s.outbox old (λ r m h.
                let (b, k, same) = any_id-found r.id batch h in
                subst (IsSent c.log) (Distinct-same r b s.outbox i.keyed m (there b k) same)
                  (All-member (IsSent c.log) b batch (new refl) k));
          })
        ]

    drain_batch-IsCovered :
        (batch : List OutboxRow) (s : Relay)
        → IsCovered s
        → ((b : OutboxRow) → Memᴰ b batch → Memᴰ b s.outbox)
        → IsCovered (drain_batch codec weather batch s).1
    unfolding drain_batch
    drain_batch-IsCovered [] s i there = i
    drain_batch-IsCovered (r ∷ rs) s i there =
        after_publish-IsCovered (r ∷ rs) s (publish_all codec weather (r ∷ rs) s.conn) i there
          (publish_all-Grows weather (r ∷ rs) s.conn) (publish_all-IsSent weather (r ∷ rs) s.conn)

    drain_once-IsCovered : (s : Relay) → IsCovered s → IsCovered (drain_once codec weather s).1
    unfolding drain_once
    drain_once-IsCovered s i = elim (Bool-cases weather.query_ok) [
      | inr down ↦ rw down i
      | inl up ↦ rw up (
          drain_batch-IsCovered (select_batch weather.locked s.outbox) s i
            (λ b m. (select_batch-member weather.locked b s.outbox m).0))
    ]

  -- After any number of drains, whatever the registry, the broker and the database answer, every
  -- row that is marked as processed has its event in the broker, framed, on its topic and with its
  -- key, if the ids of the table are distinct and that was so of the rows before.
  pub run-IsCovered : (ws : List Weather) (s : Relay) → IsCovered s → IsCovered (run codec ws s)
  unfolding run
  run-IsCovered [] s i = i
  run-IsCovered (w ∷ ws) s i =
      run-IsCovered ws (drain_once codec w s).1 (drain_once-IsCovered w s i)
