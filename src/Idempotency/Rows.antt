-- ===== src/Idempotency/Rows.antt =====
-- The table of internal/idempotency/idempotency.go under its statements, key by key.
use text.Mathlib.TextEquality.{eq_iff}
use peikonpurekkusu_payment.Prelude.{
  ℕ, ◌≡◌, ◌⊎◌, refl, true, false, List, [], ◌∷◌, some, arith, String, sym, ◌∙◌,
}
use peikonpurekkusu_payment.Payment.{Time}
use peikonpurekkusu_payment.Idempotency.{
  KeyRow, Call, is_key, find, update, is_expired, purge, claimed_row, locked, completed,
}

-- A row has the key of a call exactly when their user and key are the same.
is_key-own : (c : Call) (r : KeyRow) → is_key c r ≡ true → (r.user_id ≡ c.user_id) × (r.key ≡ c.key)
unfolding is_key
is_key-own c r h = ground (arith, eq_iff r.key c.key)

-- Calls that share one row share all of them.
pub is_key-agree :
    (c d : Call) (r x : KeyRow) → is_key c r ≡ true → is_key d r ≡ true → is_key c x ≡ is_key d x
unfolding is_key
is_key-agree c d r x h g =
    let (u, k) = is_key-own c r h in let (v, l) = is_key-own d r g in rw (sym u ∙ v, sym k ∙ l) refl

pub find-is_key :
    (c : Call) (rs : List KeyRow) (r : KeyRow) → find c rs ≡ some r → is_key c r ≡ true
unfolding find
find-is_key c [] r h = absurd (cc)
find-is_key c (x ∷ rs) r h = ground (arith, find-is_key c rs r)

-- Calls that share a row of the table find the same row.
pub find-agree :
    (c d : Call) (r : KeyRow) (rs : List KeyRow)
    → is_key c r ≡ true
    → is_key d r ≡ true
    → find c rs ≡ find d rs
unfolding find
find-agree c d r [] h g = refl
find-agree c d r (x ∷ rs) h g = rw (is_key-agree c d r x h g, find-agree c d r rs h g) refl

module _ (f : KeyRow → KeyRow) (keeps : (c : Call) (r : KeyRow) → is_key c (f r) ≡ is_key c r) where
  -- An update is seen under its own key, or not at all.
  pub find-update :
      (c d : Call) (rs : List KeyRow) (r : KeyRow)
      → find c rs ≡ some r
      → (find c (update d f rs) ≡ some r)
        ⊎ ((is_key d r ≡ true) × (find c (update d f rs) ≡ some (f r)))
  unfolding find update
  find-update c d [] r h = absurd (cc)
  find-update c d (x ∷ rs) r h = ground (arith, keeps c x, find-update c d rs r)

  pub find-update_own :
      (c : Call) (rs : List KeyRow) (r : KeyRow)
      → find c rs ≡ some r
      → find c (update c f rs) ≡ some (f r)
  unfolding find update
  find-update_own c [] r h = absurd (cc)
  find-update_own c (x ∷ rs) r h = ground (arith, keeps c x, find-update_own c rs r)

pub find-purge :
    (now : ℕ) (c : Call) (rs : List KeyRow) (r : KeyRow)
    → find c rs ≡ some r
    → is_expired now r ≡ false
    → find c (purge now rs) ≡ some r
unfolding find purge
find-purge now c [] r h e = absurd (cc)
find-purge now c (x ∷ rs) r h e = ground (arith, find-purge now c rs r)

pub claimed_row-is_key : (now : Time) (c : Call) → is_key c (claimed_row now c) ≡ true
unfolding is_key claimed_row
claimed_row-is_key now c = ground (arith, eq_iff c.key c.key)

-- Neither a claim nor a completion changes whose row it is.
pub locked-is_key : (now : Time) (c : Call) (r : KeyRow) → is_key c (locked now r) ≡ is_key c r
unfolding is_key
locked-is_key now c r = refl

pub completed-is_key :
    (code : ℕ) (body : String) (c : Call) (r : KeyRow)
    → is_key c (completed code body r) ≡ is_key c r
unfolding is_key
completed-is_key code body c r = refl
