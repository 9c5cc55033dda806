-- ===== src/Saga/Compensate.antt =====
-- The compensation of internal/saga/saga.go, `failAndCompensate`: one transaction writes the
-- failure and its outbox event, and the release of the hold comes before it.
use peikonpurekkusu_payment.Prelude.{
  ◌+◌, String, List, ◌∷◌, some, none, true, false, ◌≡◌, ◌⊎◌, inl, inr, refl, arith, Bool-cases,
  Option-cases, sym, ap,
}
use peikonpurekkusu_payment.Payment.{Uuid, Row, Payment, done, processing, failed, is_processing}
use peikonpurekkusu_payment.Payment.Table.{lookup, put, lookup-put, lookup_id}
use peikonpurekkusu_payment.Saga.World.{OutboxRow, Update, World, Env}
use peikonpurekkusu_payment.Saga.Persist.{
  null_if_empty, write_outbox, begin_func, move_status, then_extra, transition_with, release_hold,
  publish_if_ok, fail_and_compensate, failed_payload,
}

-- The change of the row that the compensation saves.
abbrev failed_row : World → String → String → Row → Row
failed_row w code detail r = record r {
  step = done;
  status = failed;
  failure_code = null_if_empty code;
  failure_detail = null_if_empty detail;
  version = r.version + 1;
  updated_at = w.now;
}

abbrev failed_update : Uuid → Update
failed_update id = record { payment_id = id; status = failed; step = done }

module _ (env : Env) (p : Payment) (code detail : String) where
  -- What the compensation saves and announces, all of it.
  pub record Failed (w u : World) : Type 0 where
    pub row : Row
    pub found : lookup p.id w.payments ≡ some row
    pub live : row.status ≡ processing
    pub saved : lookup p.id u.payments ≡ some (failed_row w code detail row)
    pub event : OutboxRow
    pub queued : u.outbox ≡ event ∷ w.outbox
    pub topic : event.topic ≡ "payments.payment.failed.v1"
    pub about : event.aggregate_id ≡ env.uuid_string p.id
    pub payload : event.payload ≡ failed_payload env p code detail
    pub announced : u.published ≡ failed_update p.id ∷ w.published

  abbrev failed_event : World → OutboxRow
  failed_event v = record {
    id = env.uuid_v7 v.history;
    aggregate_type = "payment";
    aggregate_id = env.uuid_string p.id;
    topic = "payments.payment.failed.v1";
    payload = failed_payload env p code detail;
    created_at = v.now;
    processed_at = none;
  }

  abbrev pub Untouched : World → World → Type 0
  Untouched w u = (u.payments ≡ w.payments) × (u.outbox ≡ w.outbox) × (u.published ≡ w.published)

  saved_row :
      (n r : Row) (rs : List Row)
      → lookup p.id rs ≡ some r
      → n.id ≡ r.id
      → lookup p.id (put n rs) ≡ some n
  saved_row n r rs found same = ground (arith, lookup-put p.id n rs, lookup_id p.id rs r found)

  release_hold-Untouched :
      (w : World) → Untouched w (release_hold env p w) × ((release_hold env p w).now ≡ w.now)
  unfolding release_hold
  release_hold-Untouched w = elim (Option-cases p.hold_id) [
    | inl e ↦ rw e ((refl, refl, refl), refl)
    | inr (h, e) ↦ rw e ((refl, refl, refl), refl)
  ]

  transition_hits :
      (w v : World)
      → Untouched w v
      → v.now ≡ w.now
      → env.commit_ok v.history ≡ true
      → (r : Row) → lookup p.id v.payments ≡ some r
      → is_processing r.status ≡ true
      → Failed w
          (transition_with env p done failed code detail none
            (write_outbox env v "payments.payment.failed.v1" p.id
              (failed_payload env p code detail))
            v).1
  unfolding transition_with begin_func publish_if_ok move_status then_extra write_outbox
  transition_hits w v (same, box, bus) clock fine r e live =
      rw (fine, e, live)
        (record {
          row = r;
          found = rw same at e;
          live = ground arith;
          saved = rw (sym clock) (saved_row (failed_row v code detail r) r v.payments e refl);
          event = failed_event v;
          queued = ap (λ l. failed_event v ∷ l) box;
          topic = refl;
          about = refl;
          payload = refl;
          announced = ap (λ l. failed_update p.id ∷ l) bus;
        })

  transition_fails :
      (w v : World)
      → Untouched w v
      → v.now ≡ w.now
      → Failed w
          (transition_with env p done failed code detail none
            (write_outbox env v "payments.payment.failed.v1" p.id
              (failed_payload env p code detail))
            v).1
        ⊎ Untouched w
            (transition_with env p done failed code detail none
              (write_outbox env v "payments.payment.failed.v1" p.id
                (failed_payload env p code detail))
              v).1
  unfolding transition_with begin_func publish_if_ok move_status then_extra write_outbox
  transition_fails w v (same, box, bus) clock = elim (Bool-cases (env.commit_ok v.history)) [
    | inr down ↦ rw down (inr (same, box, bus))
    | inl fine ↦ elim (Option-cases (lookup p.id v.payments)) [
      | inl e ↦ rw (fine, e) (inr (same, box, bus))
      | inr (r, e) ↦ elim (Bool-cases (is_processing r.status)) [
        | inr over ↦ rw (fine, e, over) (inr (same, box, bus))
        | inl live ↦ inl (transition_hits w v (same, box, bus) clock fine r e live)
      ]
    ]
  ]

  -- The compensation does all of its work or none of it, whatever the other services answer: the
  -- row that it found processing is failed, exactly one event, payments.payment.failed.v1 about it, is queued, and
  -- one update is published; or else the table, the outbox and the bus are as they were.
  pub fail_and_compensate-atomic :
      (w : World)
      → Failed w (fail_and_compensate env p code detail w)
        ⊎ Untouched w (fail_and_compensate env p code detail w)
  unfolding fail_and_compensate
  fail_and_compensate-atomic w =
      let (same, clock) = release_hold-Untouched w in
      transition_fails w (release_hold env p w) same clock

  transition_down :
      (w v : World)
      → Untouched w v
      → env.commit_ok v.history ≡ false
      → Untouched w
          (transition_with env p done failed code detail none
            (write_outbox env v "payments.payment.failed.v1" p.id
              (failed_payload env p code detail))
            v).1
  unfolding transition_with begin_func publish_if_ok
  transition_down w v same down = rw down same

  pub fail_and_compensate-down :
      (w : World)
      → env.commit_ok (release_hold env p w).history ≡ false
      → Untouched w (fail_and_compensate env p code detail w)
  unfolding fail_and_compensate
  fail_and_compensate-down w down =
      transition_down w (release_hold env p w) (release_hold-Untouched w).0 down

  -- If its transaction commits, the compensation of a snapshot fails the payment's row whenever
  -- that is still processing, whatever step it has reached since, captured by the processor or not.
  pub fail_and_compensate-any_step :
      (w : World) (r : Row)
      → lookup p.id w.payments ≡ some r
      → r.status ≡ processing
      → env.commit_ok (release_hold env p w).history ≡ true
      → Failed w (fail_and_compensate env p code detail w)
  unfolding fail_and_compensate
  fail_and_compensate-any_step w r found live fine =
      let (same, clock) = release_hold-Untouched w in
      transition_hits w (release_hold env p w) same clock fine r (rw (same.0) found) (ground arith)
