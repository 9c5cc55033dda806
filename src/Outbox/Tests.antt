-- ===== src/Outbox/Tests.antt =====
-- Concrete runs of the relay of internal/outbox/outbox.go.
use mathlib.Core.List.{Memᴰ}
use peikonpurekkusu_payment.Prelude.{
  arith, ℕ, ◌≡◌, ◌≢◌, refl, true, false, [], ◌∷◌, none, some, is_some, inl, inr,
}
use peikonpurekkusu_payment.Prelude.Text.{decimal}
use peikonpurekkusu_payment.Prelude.Int.{pos}
use peikonpurekkusu_payment.Saga.World.{OutboxRow}
use peikonpurekkusu_payment.Events.{Json}
use peikonpurekkusu_payment.Events.Registry.{read_id, answered}
use peikonpurekkusu_payment.Outbox.{
  Message, acknowledged, stored_only, not_produced, Codec, Weather, Relay, drain_once, run,
}
use peikonpurekkusu_payment.Outbox.Sent.{IsCovered, run-IsCovered}
use peikonpurekkusu_payment.Outbox.Drained.{count_pending, IsTotal, IsFair, run-drained}

abbrev empty_doc : Json
empty_doc = record { marshal = λ v. some (123 ∷ 125 ∷ []); unmarshal = λ b. inl "" }

abbrev codec : Codec
codec = record {
  uuid_string = decimal;
  json = empty_doc;
  decode_id = λ body. some (pos 3);
  reread = λ p. some p;
}

abbrev fine : Weather
fine = record {
  query_ok = true;
  update_ok = true;
  locked = λ k. false;
  now = 500;
  registry = λ c topic. answered 200 "{}";
  produce = λ c m. acknowledged;
}

-- The broker stores the record, but its answer is lost.
abbrev unheard : Weather
unheard = record fine { produce = λ c m. stored_only }

abbrev row : ℕ → OutboxRow
row k = record {
  id = k;
  aggregate_type = "payment";
  aggregate_id = "1";
  topic = "payments.payment.failed.v1";
  payload = [];
  created_at = 100;
  processed_at = none;
}

abbrev start : Relay
start = record { outbox = row 9 ∷ row 8 ∷ []; conn = record { ids = []; log = [] } }

abbrev sent : Message
sent = record {
  topic = "payments.payment.failed.v1";
  key = "1";
  value = 0 ∷ 0 ∷ 0 ∷ 0 ∷ 3 ∷ 123 ∷ 125 ∷ [];
}

both_rows : (drain_once codec fine start).0 ≡ inr 2
unfolding drain_once
both_rows = refl

-- An event whose acknowledgement is lost is published again.
at_least_once :
    ((drain_once codec unheard start).0 ≡ inl not_produced)
    × ((run codec (unheard ∷ fine ∷ []) start).conn.log ≡ sent ∷ sent ∷ sent ∷ [])
unfolding drain_once run
at_least_once = (refl, refl)

start-IsCovered : IsCovered codec start
start-IsCovered = record { keyed = ground arith; sent = λ r m h. absurd (none_is_processed r m h) }
  where
    none_is_processed : (r : OutboxRow) → Memᴰ r start.outbox → is_some r.processed_at ≢ true
    none_is_processed r (Memᴰ.head e) h = ground (arith, e, h)
    none_is_processed r (Memᴰ.tail (Memᴰ.head e)) h = ground (arith, e, h)
    none_is_processed r (Memᴰ.tail (Memᴰ.tail m)) h = elim m [ ]

run-IsCovered_example : IsCovered codec (run codec (unheard ∷ fine ∷ []) start)
run-IsCovered_example = run-IsCovered codec (unheard ∷ fine ∷ []) start start-IsCovered

codec-IsTotal : IsTotal codec
codec-IsTotal = record { rereads = λ p. (p, refl); marshals = λ v. (123 ∷ 125 ∷ [], refl) }

fine-IsFair : IsFair codec fine
unfolding read_id
fine-IsFair = record {
  queries = refl;
  updates = refl;
  unlocked = λ k. refl;
  answers = λ c topic. (pos 3, refl);
  stores = λ c m. refl;
}

run-drained_example : count_pending (run codec (fine ∷ fine ∷ []) start).outbox ≡ 0
unfolding count_pending
run-drained_example =
    run-drained codec codec-IsTotal (fine ∷ fine ∷ []) start (fine-IsFair, (fine-IsFair, tt))
      (omega arith)
