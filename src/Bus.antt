-- ===== src/Bus.antt =====
-- internal/pubsub/pubsub.go: the status bus, under its lock one call after the other. A channel has a
-- number for its identity, and keeps what its reader has received; both lists have the newest
-- update first.
pub mod Order
mod Tests
use peikonpurekkusu_payment.Prelude.{
  ℕ, ◌<◌, Bool, true, false, List, [], ◌∷◌, Option, none, some, length, ltb, ◌==◌, if◌then◌else◌,
}
use peikonpurekkusu_payment.Payment.{Uuid}
use peikonpurekkusu_payment.Saga.World.{Update}

-- The capacity of a channel.
abbrev pub capacity : ℕ
capacity = 8

pub record Channel : Type 0 where
  pub number : ℕ
  pub payment_id : Uuid
  pub buffer : List Update
  pub received : List Update

unfoldable pub subscribe : ℕ → Uuid → List Channel → List Channel
subscribe n id chs = record { number = n; payment_id = id; buffer = []; received = [] } ∷ chs

-- The function that `Subscribe` returns: it takes the channel out, and closes it.
unfoldable pub cancel : ℕ → List Channel → List Channel
cancel n [] = []
cancel n (ch ∷ chs) = let rest = cancel n chs in if ch.number == n then rest else ch ∷ rest

-- The select of `Publish`: a full channel drops the update.
unfoldable pub offer : Update → Channel → Channel
offer u ch =
    if ch.payment_id == u.payment_id
    then (if ltb (length ch.buffer) capacity then record ch { buffer = u ∷ ch.buffer } else ch)
    else ch

unfoldable pub publish : Update → List Channel → List Channel
unfolding offer
publish u [] = []
publish u (ch ∷ chs) = offer u ch ∷ publish u chs

-- The oldest element, and the rest.
unfoldable pub take_last : List Update → Option (List Update × Update)
take_last [] = none
take_last (u ∷ us) = elim (take_last us) [
  | none ↦ some ([], u)
  | some (rest, x) ↦ some (u ∷ rest, x)
]

-- A reader's receive, if there is something to receive.
unfoldable pub receive_one : Channel → Channel
unfolding take_last
receive_one ch = elim (take_last ch.buffer) [
  | none ↦ ch
  | some (rest, x) ↦ record ch { buffer = rest; received = x ∷ ch.received }
]

unfoldable pub receive : ℕ → List Channel → List Channel
unfolding receive_one
receive n [] = []
receive n (ch ∷ chs) =
    let rest = receive n chs in if ch.number == n then receive_one ch ∷ rest else ch ∷ rest

pub data Call : Type 0 where
  subscribes : ℕ → Uuid → Call
  cancels : ℕ → Call
  publishes : Update → Call
  receives : ℕ → Call

unfoldable pub call : Call → List Channel → List Channel
unfolding subscribe cancel publish receive
call (subscribes n id) chs = subscribe n id chs
call (cancels n) chs = cancel n chs
call (publishes u) chs = publish u chs
call (receives n) chs = receive n chs

unfoldable pub call_all : List Call → List Channel → List Channel
unfolding call
call_all [] chs = chs
call_all (c ∷ cs) chs = call_all cs (call c chs)
