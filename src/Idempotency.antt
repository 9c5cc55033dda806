-- ===== src/Idempotency.antt =====
-- internal/idempotency/idempotency.go: the records that make a payment's creation repeatable. The
-- table `idempotency_keys` is a list of rows; what the database does with each statement of a
-- request, and what other requests do between two of them, is an argument. The hash is one too.
-- A stored body comes back as the text that was given: jsonb keeps the value, not its layout.
pub mod Rows
pub mod Lease
pub mod Replay
mod Tests
use text.Mathlib.Text.{◌==◌ as str_eq}
use peikonpurekkusu_payment.Prelude.{
  ℕ, ◌+◌, Bool, true, false, not, ◌&&◌, String, List, [], ◌∷◌, Option, none, some, is_some, ltb,
  ◌==◌, if◌then◌else◌,
}
use peikonpurekkusu_payment.Payment.{Uuid, Time}

-- A row of `idempotency_keys`.
pub record KeyRow : Type 0 where
  pub key : String
  pub user_id : Uuid
  pub request_hash : String
  pub response_code : Option ℕ
  pub response_body : Option String
  pub locked_at : Option Time
  pub created_at : Time

-- In milliseconds: 24 hours, and 2 minutes.
abbrev pub key_ttl : Time
key_ttl = 86400000

abbrev pub lock_lease : Time
lock_lease = 120000

-- What `Begin` is called with.
pub record Call : Type 0 where
  pub user_id : Uuid
  pub key : String
  pub request_hash : String

pub data BeginError : Type 0 where
  database payload_mismatch in_flight : BeginError

-- No replay and no error is the answer that the caller should execute.
pub data Begun : Type 0 where
  executes : Begun
  replays : ℕ → Option String → Begun
  refused : BeginError → Begun

-- `user_id = $1 and key = $2`
unfoldable pub is_key : Call → KeyRow → Bool
is_key c r = (r.user_id == c.user_id) && str_eq r.key c.key

unfoldable pub find : Call → List KeyRow → Option KeyRow
unfolding is_key
find c [] = none
find c (r ∷ rs) = if is_key c r then some r else find c rs

-- An update of the row with the call's key.
unfoldable pub update : Call → (KeyRow → KeyRow) → List KeyRow → List KeyRow
unfolding is_key
update c f [] = []
update c f (r ∷ rs) = if is_key c r then f r ∷ rs else r ∷ update c f rs

unfoldable pub claimed_row : Time → Call → KeyRow
claimed_row now c = record {
  key = c.key;
  user_id = c.user_id;
  request_hash = c.request_hash;
  response_code = none;
  response_body = none;
  locked_at = some now;
  created_at = now;
}

-- `insert … on conflict do nothing`, and whether a row was affected.
unfoldable pub insert_key : Time → Call → List KeyRow → Bool × List KeyRow
unfolding find claimed_row
insert_key now c rs = elim (find c rs) [
  | none ↦ (true, claimed_row now c ∷ rs)
  | some _ ↦ (false, rs)
]

-- The condition of the takeover: a time that is null passes no comparison.
unfoldable pub is_reclaimable : Time → KeyRow → Bool
is_reclaimable now r =
    not (is_some r.response_code)
    && (elim (r.locked_at) [ none ↦ false | some l ↦ ltb (l + lock_lease) now ])

abbrev pub locked : Time → KeyRow → KeyRow
locked now r = record r { locked_at = some now }

unfoldable pub take_over : Time → Call → List KeyRow → Bool × List KeyRow
unfolding find update is_reclaimable
take_over now c rs = elim (find c rs) [
  | none ↦ (false, rs)
  | some r ↦ (if is_reclaimable now r then (true, update c (locked now) rs) else (false, rs))
]

abbrev pub completed : ℕ → String → KeyRow → KeyRow
completed code body r = record r {
  response_code = some code;
  response_body = some body;
  locked_at = none;
}

-- The statement of `Complete`.
unfoldable pub complete : Call → ℕ → String → List KeyRow → List KeyRow
unfolding update
complete c code body rs = update c (completed code body) rs

unfoldable pub is_expired : Time → KeyRow → Bool
is_expired now r = ltb (r.created_at + key_ttl) now

-- The statement of `Purge`.
unfoldable pub purge : Time → List KeyRow → List KeyRow
unfolding is_expired
purge now [] = []
purge now (r ∷ rs) = let rest = purge now rs in if is_expired now r then rest else r ∷ rest

-- The statements of one `Begin`, by number: whether it succeeds, its time, and what the table has
-- become by then. The first statement meets the table as it is given.
pub record Db : Type 0 where
  pub ok : ℕ → Bool
  pub clock : ℕ → Time
  pub meanwhile : ℕ → List KeyRow → List KeyRow

module _ (db : Db) (c : Call) where
  unfoldable pub after_take_over : Bool × List KeyRow → Begun × List KeyRow
  after_take_over (true, rs) = (executes, rs)
  after_take_over (false, rs) = (refused in_flight, rs)

  unfoldable pub after_code : Option ℕ → Option String → List KeyRow → Begun × List KeyRow
  unfolding after_take_over take_over
  after_code (some code) body rs = (replays code body, rs)
  after_code none body rs =
      let rs' = db.meanwhile 2 rs in
      if db.ok 2 then after_take_over (take_over (db.clock 2) c rs') else (refused database, rs')

  unfoldable pub after_select : Option KeyRow → List KeyRow → Begun × List KeyRow
  unfolding after_code
  after_select none rs = (refused in_flight, rs)
  after_select (some r) rs =
      if str_eq r.request_hash c.request_hash
      then after_code r.response_code r.response_body rs
      else (refused payload_mismatch, rs)

  unfoldable pub after_insert : Bool × List KeyRow → Begun × List KeyRow
  unfolding after_select find
  after_insert (true, rs) = (executes, rs)
  after_insert (false, rs) =
      let rs' = db.meanwhile 1 rs in
      if db.ok 1 then after_select (find c rs') rs' else (refused database, rs')

  unfoldable pub begin : List KeyRow → Begun × List KeyRow
  unfolding after_insert insert_key
  begin rs = if db.ok 0 then after_insert (insert_key (db.clock 0) c rs) else (refused database, rs)
