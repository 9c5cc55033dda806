-- ===== src/Consumer/Tests/Rounds.antt =====
-- The loop of internal/consumer/consumer.go with a client that keeps its offsets in two lists.
use mathlib.Core.List.{Memᴰ}
use peikonpurekkusu_payment.Prelude.{ℕ, ◌≡◌, refl, Bool, true, false, List, [], ◌∷◌, ◌++◌}
use peikonpurekkusu_payment.Prelude.Elements.{member-append_left, member-append_cases}
use peikonpurekkusu_payment.Prelude.Text.{decimal}
use peikonpurekkusu_payment.Payment.Table.{lookup, lookup_instrument, put}
use peikonpurekkusu_payment.Accounts.{capture_request, release_request}
use peikonpurekkusu_payment.Psp.Factory.{for_method}
use peikonpurekkusu_payment.Saga.Persist.{
  load, touch, transition, terminal_tx, fail_and_compensate, fx_rate_used, write_outbox,
}
use peikonpurekkusu_payment.Saga.Steps.{step_psp_capture, step_ledger_capture}
use peikonpurekkusu_payment.Saga.Drive.{dispatch, advance}
use peikonpurekkusu_payment.Events.{unframe, text_field}
use peikonpurekkusu_payment.Consumer.{Rec, settle_batch}
use peikonpurekkusu_payment.Consumer.Run.{Fetches, Client, Reader, again, one_round, run}
use peikonpurekkusu_payment.Consumer.Commits.{IsClient, skipped_by, skipped}
use peikonpurekkusu_payment.Consumer.Passed.{IsCommitting, skipped_is_committed}
use peikonpurekkusu_payment.Consumer.Tests.{ids, outside, message, inbox}

record Offsets : Type 0 where
  ahead : List Fetches
  polled : List Rec
  committed : List Rec

-- When nothing is ahead, the context is over.
abbrev next_fetches : List Fetches → Fetches × List Fetches
next_fetches [] = (record { records = []; has_errors = false; context_over = true }, [])
next_fetches (x ∷ xs) = (x, xs)

abbrev client : Client Offsets
client = record {
  poll = λ c. (
    (next_fetches c.ahead).0,
    record {
      ahead = (next_fetches c.ahead).1;
      polled = (next_fetches c.ahead).0.records ++ c.polled;
      committed = c.committed;
    },
  );
  commit =
      λ c. (true, record { ahead = c.ahead; polled = []; committed = c.polled ++ c.committed });
}

abbrev client-IsClient : IsClient client
client-IsClient = record {
  polled = λ c. c.polled;
  committed = λ c. c.committed;
  poll-polled = λ c. refl;
  poll-committed = λ c. refl;
  commit-polled = λ c z m. elim m [ ];
  commit-committed = λ c z m. member-append_cases z c.polled c.committed m;
  commit-all = λ c z ok m. member-append_left z c.polled c.committed m;
}

abbrev fetched : Bool → ℕ → Fetches
fetched errors outcome = record {
  records = message outcome ∷ [];
  has_errors = errors;
  context_over = false;
}

abbrev started : List Fetches → Reader Offsets
started xs = record { inbox = inbox; position = record { ahead = xs; polled = []; committed = [] } }

abbrev read : ℕ → List Fetches → Reader Offsets
read rounds xs = run client ids (outside false) 1 rounds (started xs)

-- A completion with no outcome, then an approval.
abbrev unsettled_first : List Fetches
unsettled_first = fetched false 0 ∷ fetched false 1 ∷ []

-- The dead letters cannot be reached: the record with no outcome is lost once the approval after
-- it is committed, and so is a decline that was fetched beside an error.
losses :
    ((read 1 unsettled_first).position.committed ≡ [])
    × ((read 2 unsettled_first).position.committed ≡ message 1 ∷ message 0 ∷ [])
    × ((read 2 unsettled_first).inbox.dead ≡ [])
    × ((read 2 (fetched true 2 ∷ fetched false 1 ∷ [])).position.committed
        ≡ message 1 ∷ message 2 ∷ [])
    × (skipped client ids (outside false) 1 2 (started unsettled_first) ≡ message 0 ∷ [])
unfolding run skipped settle_batch advance dispatch step_psp_capture step_ledger_capture touch
    transition terminal_tx fail_and_compensate fx_rate_used for_method capture_request
    release_request load lookup lookup_instrument put write_outbox decimal unframe text_field
losses = (refl, refl, refl, refl, refl)

unsettled_goes_on : (one_round client ids (outside false) 1 (started unsettled_first)).0 ≡ again
unfolding one_round settle_batch advance dispatch unframe text_field
unsettled_goes_on = refl

unsettled_is_skipped :
    Memᴰ (message 0) (skipped_by client ids (outside false) 1 (fetched false 0) inbox)
unfolding skipped_by settle_batch advance dispatch unframe text_field
unsettled_is_skipped = Memᴰ.head refl

next-IsCommitting :
    IsCommitting client ids
      (outside false)
      1
      client-IsClient
      (one_round client ids (outside false) 1 (started unsettled_first)).1
unfolding one_round settle_batch advance dispatch step_psp_capture step_ledger_capture touch
    transition terminal_tx fail_and_compensate fx_rate_used for_method capture_request
    release_request load lookup lookup_instrument put write_outbox decimal unframe text_field
next-IsCommitting = record { goes_on = refl; no_errors = refl; settles = refl; succeeds = refl }

skipped_is_committed_example : Memᴰ (message 0) (read 2 unsettled_first).position.committed
skipped_is_committed_example =
    skipped_is_committed client ids (outside false) 1 client-IsClient (started unsettled_first)
      (message 0) unsettled_goes_on unsettled_is_skipped next-IsCommitting
