-- ===== src/Idempotency/Tests.antt =====
-- The idempotency records of internal/idempotency/idempotency.go for two requests with one key.
use text.Mathlib.Text.{◌==◌ as str_eq}
use peikonpurekkusu_payment.Prelude.{
  ℕ, ◌≡◌, ◌⊎◌, inr, refl, true, List, [], ◌∷◌, none, some, arith, All, if◌then◌else◌,
}
use peikonpurekkusu_payment.Idempotency.{
  KeyRow, Call, executes, replays, refused, payload_mismatch, in_flight, is_key, find,
  is_reclaimable, locked, complete, claimed_row, Db, begin,
}
use peikonpurekkusu_payment.Idempotency.Lease.{
  Statement, inserts, takes_over, completes, purges, apply_all, IsOther, IsHeld, claim_excludes,
}
use peikonpurekkusu_payment.Idempotency.Replay.{later, begin-complete, begin_executes}

abbrev call : Call
call = record { user_id = 7; key = "k"; request_hash = "abc" }

abbrev other_payload : Call
other_payload = record call { request_hash = "def" }

-- All statements are made at one time, with nobody else about.
abbrev alone : ℕ → Db
alone t = record { ok = λ n. true; clock = λ n. t; meanwhile = λ n rs. rs }

abbrev claim : KeyRow
claim = claimed_row 100 call

abbrev claimed : List KeyRow
claimed = claim ∷ []

-- A claim, a second request while it lasts, one with another payload, one after the lease, and
-- one after the completion.
one_key :
    (begin (alone 100) call [] ≡ (executes, claimed))
    × ((begin (alone 200) call claimed).0 ≡ refused in_flight)
    × ((begin (alone 200) other_payload claimed).0 ≡ refused payload_mismatch)
    × ((begin (alone 120100) call claimed).0 ≡ refused in_flight)
    × ((begin (alone 120101) call claimed).0 ≡ executes)
    × ((begin (alone 900000) call (complete call 201 "{}" claimed)).0 ≡ replays 201 (some "{}"))
unfolding begin complete claimed_row
one_key = (refl, refl, refl, refl, refl, refl)

found_claim : find call claimed ≡ some claim
unfolding find claimed_row
found_claim = refl

same_key : is_key other_payload claim ≡ true
unfolding is_key claimed_row
same_key = refl

begin-complete_example : begin (alone 900000) other_payload (complete call 201 "{}" claimed) ≡ (
  if str_eq "abc" "def" then replays 201 (some "{}") else refused payload_mismatch,
  complete call 201 "{}" claimed,
)
unfolding claimed_row
begin-complete_example =
    begin-complete (alone 900000) call other_payload 201 "{}" claimed claim found_claim same_key
      refl refl refl

let_execute : (begin (alone 120101) call claimed).0 ≡ executes
unfolding begin claimed_row
let_execute = refl

begin_executes_example :
    ((find call claimed ≡ none)
      × (find call (begin (alone 120101) call claimed).1 ≡ some (claimed_row 120101 call)))
    ⊎ ((r : KeyRow) × (find call (later (alone 120101) call claimed) ≡ some r)
        × (is_reclaimable 120101 r ≡ true)
        × (find call (begin (alone 120101) call claimed).1 ≡ some (locked 120101 r)))
begin_executes_example = begin_executes (alone 120101) call claimed let_execute

IsHeld-claim : IsHeld 120100 claim
unfolding claimed_row
IsHeld-claim = record { fresh = omega arith; busy = inr (100, refl, omega arith) }

abbrev rush : List Statement
rush =
    inserts 200 call
    ∷ takes_over 120100 call
    ∷ purges 300
    ∷ completes other_payload 500 "{}"
    ∷ takes_over 120100 call
    ∷ []

claim_excludes_example : All (IsOther 120100 call claim) (apply_all rush claimed).0
claim_excludes_example =
    claim_excludes 120100 call rush claimed claim
      (omega arith, (omega arith, (omega arith, (tt, (omega arith, tt))))) found_claim IsHeld-claim
