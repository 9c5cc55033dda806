-- ===== src/HttpApi/Tests.antt =====
-- Concrete requests to internal/httpapi.
mod Quotes
use peikonpurekkusu_payment.Prelude.{
  arith, ℕ, ◌≡◌, ◌≢◌, refl, sym, ◌∙◌, ◌⊎◌, inl, true, false, String, List, [], ◌∷◌, Option, none,
  some,
}
use peikonpurekkusu_payment.Prelude.Int.{ℤ, pos, negsuc}
use peikonpurekkusu_payment.Prelude.Bytes.{Bytes}
use peikonpurekkusu_payment.Prelude.Fields.{codes, parse_int64}
use peikonpurekkusu_payment.Payment.{Row, FxQuote, requires_action, failed, done, fraud_screened}
use peikonpurekkusu_payment.Payment.Table.{lookup, lookup_instrument, lookup_quote}
use peikonpurekkusu_payment.Saga.Persist.{load, transition}
use peikonpurekkusu_payment.Saga.World.{World, OutboxRow, Update}
use peikonpurekkusu_payment.Saga.Invariant.{Inv, IsSound}
use peikonpurekkusu_payment.Saga.Tests.{card_instrument, good, down, start, world, new_row}
use peikonpurekkusu_payment.Idempotency.{find, Db}
use peikonpurekkusu_payment.HttpApi.{Request, Headers, get}
use peikonpurekkusu_payment.HttpApi.StepUp.{step_up_required}
use peikonpurekkusu_payment.HttpApi.Create.{
  CreateRequest, Reply, problem, created, responds, replayed, Api, Outside, gated, check_quote,
  create_payment,
}
use peikonpurekkusu_payment.HttpApi.Gate.{create_payment-Inv}
use peikonpurekkusu_payment.HttpApi.Secured.{
  IsProbe, IsResumed, create_payment-atomic, resume_needs_factor,
}
use peikonpurekkusu_payment.HttpApi.Quotes.{
  ExchangeRate, FxQuoteRequest, quoted, fx_quote, check_quote-fx_quote,
}
use peikonpurekkusu_payment.HttpApi.Reads.{ok_with}
use peikonpurekkusu_payment.HttpApi.Stream.{
  beats, updates, status_frame, keepalive, snapshot_of, stream_events,
}
use peikonpurekkusu_payment.HttpApi.Resume.{resume_payment}
use peikonpurekkusu_payment.HttpApi.Once.{asks_factor, create_payment-again, repeated}

-- Texts as the program's header values.
numbers :
    (parse_int64 (codes "1700000000") ≡ some (pos 1700000000))
    × (parse_int64 (codes "-9223372036854775808") ≡ some (negsuc 9223372036854775807))
    × (parse_int64 (codes "9223372036854775808") ≡ none)
    × (parse_int64 (codes "not-a-number") ≡ none)
    × (parse_int64 [] ≡ none)
unfolding parse_int64
numbers = (refl, refl, refl, refl, refl)

abbrev pub logged_in : String → String → Headers
logged_in amr auth_time =
    ("X-User-Id", "77")
    ∷ ("Idempotency-Key", "k")
    ∷ ("X-Auth-Amr", amr)
    ∷ ("X-Auth-Time", auth_time)
    ∷ []

-- The tests of internal/httpapi/stepup_test.go, at second 10000 with a limit of 100000 and 15 minutes.
step_up :
    (step_up_required (pos 100000) 900000 10000000 (logged_in "pwd" "10000") (pos 99999) ≡ false)
    × (step_up_required (pos 100000) 900000 10000000 (logged_in "pwd" "10000") (pos 100000) ≡ true)
    × (step_up_required (pos 100000) 900000 10000000 (logged_in "pwd,mfa" "9040") (pos 100000)
        ≡ true)
    × (step_up_required (pos 100000) 900000 10000000 (logged_in "pwd, mfa" "10000") (pos 1000000)
        ≡ false)
    × (step_up_required (pos 100000) 900000 10000000 [] (pos 100000) ≡ true)
    × (step_up_required
          (pos 100000)
          900000
          10000000
          (logged_in "pwd,mfa" "not-a-number")
          (pos 100000)
        ≡ true)
unfolding step_up_required
step_up = (refl, refl, refl, refl, refl, refl)

abbrev wish : ℕ → CreateRequest
wish amount = record {
  account_id = "3";
  merchant_id = "m";
  instrument_id = "5";
  fx_quote_id = "";
  minor_units = pos amount;
  currency_code = "EUR";
}

-- The body is its amount, in one digit.
abbrev decode : Bytes → Option CreateRequest
decode (n ∷ []) = some (wish n)
decode _ = none

abbrev decode_amount : Bytes → Option ℤ
decode_amount (n ∷ []) = some (pos n)
decode_amount _ = none

abbrev alone : ℕ → Db
alone t = record { ok = λ n. true; clock = λ n. t; meanwhile = λ n rs. rs }

abbrev pub out : Outside
out = record {
  step_up_limit = pos 100;
  step_up_max_age = 900000;
  hash_body = λ body. "hash";
  decode_amount = decode_amount;
  decode_create = decode;
  encode = λ reply. "{}";
  new_uuid = λ h. 500;
  db = alone 100;
  complete_ok = true;
}

-- Every uuid text is read as 77.
abbrev pub api : World → Api
api w = record {
  world = record w { instruments = record card_instrument { id = 77 } ∷ w.instruments };
  keys = [];
  merchants = record { id = "m"; display_name = "M"; category = "retail" } ∷ [];
  started = [];
}

abbrev pub asks : Headers → ℕ → Request
asks h amount = record { headers = h; path_id = "1"; body = some (amount ∷ []) }

abbrev small : Request
small = asks (logged_in "pwd" "0") 90

abbrev large : Request
large = asks (logged_in "pwd" "0") 200

abbrev pub large_with_factor : Request
large_with_factor = asks (logged_in "pwd,mfa" "0") 200

-- A payment below the limit, one above it without and with a second factor, one for a merchant that
-- does not exist, and one whose transaction is not committed.
creations :
    ((create_payment good out small (api start)).0 ≡ responds 202 (created 500 (pos 90) "EUR" "m"))
    × ((create_payment good out large (api start)).0
        ≡ responds 401 (problem "step_up_required: this amount requires a recent second factor"))
    × ((create_payment good out large_with_factor (api start)).1.started ≡ 500 ∷ [])
    × ((create_payment good out small (record (api start) { merchants = [] })).0
        ≡ responds 500 (problem "could not create payment"))
    × ((create_payment down out small (api start)).1.started ≡ [])
    × ((create_payment good out (asks (logged_in "pwd" "0") 0) (api start)).0
        ≡ responds 400 (problem "amount must be positive minor units with ISO-4217 currency"))
unfolding create_payment
creations = (refl, refl, refl, refl, refl, refl)

abbrev after_first : Api
after_first = (create_payment good out small (api start)).1

once :
    create_payment good (record out { db = alone 900000 }) small after_first
    ≡ (replayed 202 (some "{}"), after_first)
unfolding create_payment
once = refl

start_is_sound : Inv (api start).world
unfolding lookup
start_is_sound = record { rows = λ k x found. only_row k x found; ordered = tt; keyed = (tt, tt) }
  where
    only_row : (k : ℕ) (x : Row) → lookup k (new_row ∷ []) ≡ some x → IsSound [] x
    only_row k x found = ground arith

create_payment-Inv_example : Inv (create_payment good out small (api start)).1.world
create_payment-Inv_example = create_payment-Inv good out (api start) small start_is_sound

pub probe : IsProbe out
probe [] req h = absurd (cc)
probe (n ∷ []) req h = cc
probe (n ∷ m ∷ ms) req h = absurd (cc)

pub cons_ne : {x : ℕ} {xs : List ℕ} → x ∷ xs ≢ []
cons_ne e = absurd (cc)

starts_large : (create_payment good out large_with_factor (api start)).1.started ≡ 500 ∷ []
unfolding create_payment
starts_large = refl

create_payment-atomic_example :
    let t = (create_payment good out small (api start)).1 in
    ((t.world.payments ≡ start.payments) × (t.world.outbox ≡ start.outbox) × (t.started ≡ []))
    ⊎ ((row : Row) × (event : OutboxRow) × (lookup row.id start.payments ≡ none)
        × (t.world.payments ≡ row ∷ start.payments)
        × (t.world.outbox ≡ event ∷ start.outbox)
        × (event.topic ≡ "payments.payment.requested.v1")
        × (event.aggregate_id ≡ good.uuid_string row.id)
        × (t.started ≡ row.id ∷ []))
create_payment-atomic_example = create_payment-atomic good out small (api start)

create_payment-again_example :
    (code : ℕ) × (reply : Reply) × ((create_payment good out small (api start)).0
      ≡ responds code reply)
    × ((create_payment good
          (repeated good small 77 (90 ∷ []) out (api start) (alone 900000) after_first)
          small
          after_first).1
        ≡ after_first)
    × (gated good
            (repeated good small 77 (90 ∷ []) out (api start) (alone 900000) after_first)
            small
            after_first.world.now
            (decode_amount (90 ∷ []))
          ≡ true
        → (create_payment good
            (repeated good small 77 (90 ∷ []) out (api start) (alone 900000) after_first)
            small
            after_first).0
          ≡ asks_factor)
    × (gated good
            (repeated good small 77 (90 ∷ []) out (api start) (alone 900000) after_first)
            small
            after_first.world.now
            (decode_amount (90 ∷ []))
          ≡ false
        → (create_payment good
            (repeated good small 77 (90 ∷ []) out (api start) (alone 900000) after_first)
            small
            after_first).0
          ≡ replayed code (some "{}"))
unfolding gated find get
create_payment-again_example =
    create_payment-again good small 77 (90 ∷ []) out (api start) (alone 900000) after_first refl
      refl refl refl refl refl refl refl refl refl refl

-- A payment of user 77 that waits for a second factor.
abbrev waiting : Row
waiting = record new_row { user_id = 77; step = fraud_screened; status = requires_action }

abbrev resumes : Request
resumes = record { headers = logged_in "mfa" "0"; path_id = "1"; body = none }

abbrev waiting_api : Api
waiting_api = api (world (record waiting { id = 77 }))

starts_waiting : (resume_payment good out resumes waiting_api).1.started ≡ 77 ∷ []
unfolding resume_payment load lookup lookup_instrument transition
starts_waiting = refl

starts_it : (resume_payment good out resumes waiting_api).1.started ≢ []
starts_it e = cons_ne (sym starts_waiting ∙ e)

resume_needs_factor_example :
    IsResumed good out resumes waiting_api (resume_payment good out resumes waiting_api)
resume_needs_factor_example = resume_needs_factor good out resumes waiting_api starts_it
