-- ===== src/Outbox/Rows.antt =====
-- Which rows of the table internal/outbox/outbox.go selects and marks.
use mathlib.Core.List.{Memᴰ}
use peikonpurekkusu_payment.Prelude.{
  ℕ, zero, suc, ◌≡◌, ◌≢◌, ◌⊎◌, inl, inr, refl, sym, ◌∙◌, ap, ◌&&◌, not, Bool, true, List, [], ◌∷◌,
  arith, map, take, leb, All, Bool-cases, ==_iff, ◌==◌,
}
use peikonpurekkusu_payment.Payment.{Uuid, Time}
use peikonpurekkusu_payment.Payment.Keys.{Distinct}
use peikonpurekkusu_payment.Saga.World.{OutboxRow}
use peikonpurekkusu_payment.Outbox.{
  is_pending, pending, insert_by_id, order_by_id, select_batch, outbox_id, any_id, mark_processed,
  batch_limit,
}

key-ne :
    (r b : OutboxRow) (rs : List OutboxRow)
    → All (λ y. y ≢ r.id) (map outbox_id rs)
    → Memᴰ b rs
    → b.id ≢ r.id
key-ne r b [] h m = elim m [ ]
key-ne r b (x ∷ rs) h (Memᴰ.head e) = λ same. h.0 (ap outbox_id (sym e) ∙ same)
key-ne r b (x ∷ rs) h (Memᴰ.tail m) = key-ne r b rs h.1 m

-- Rows of one table that share their id are one row.
pub Distinct-same :
    (r b : OutboxRow) (rs : List OutboxRow)
    → Distinct (map outbox_id rs)
    → Memᴰ r rs
    → Memᴰ b rs
    → b.id ≡ r.id
    → b ≡ r
Distinct-same r b [] d m n same = elim m [ ]
Distinct-same r b (x ∷ rs) d (Memᴰ.head e) (Memᴰ.head f) same = f ∙ sym e
Distinct-same r b (x ∷ rs) d (Memᴰ.head e) (Memᴰ.tail m) same =
    absurd (key-ne x b rs d.0 m (same ∙ ap outbox_id e))
Distinct-same r b (x ∷ rs) d (Memᴰ.tail m) (Memᴰ.head f) same =
    absurd (key-ne x r rs d.0 m (sym same ∙ ap outbox_id f))
Distinct-same r b (x ∷ rs) d (Memᴰ.tail m) (Memᴰ.tail n) same = Distinct-same r b rs d.1 m n same

pub member-cons : {A : Type 0} (b r : A) (rs : List A) → Memᴰ b (r ∷ rs) → (b ≡ r) ⊎ Memᴰ b rs
member-cons b r rs (Memᴰ.head e) = inl e
member-cons b r rs (Memᴰ.tail m) = inr m

pending-member :
    (locked : Uuid → Bool) (b : OutboxRow) (rs : List OutboxRow)
    → Memᴰ b (pending locked rs)
    → Memᴰ b rs × (is_pending b ≡ true)
unfolding pending
pending-member locked b [] m = elim m [ ]
pending-member locked b (r ∷ rs) m = elim (Bool-cases (is_pending r && not (locked r.id))) [
  | inl hit ↦ elim (member-cons b r (pending locked rs) (rw hit at m)) [
    | inl e ↦ (Memᴰ.head e, rw e (ground (arith, hit)))
    | inr n ↦ (let (there, still) = pending-member locked b rs n in (Memᴰ.tail there, still))
  ]
  | inr miss ↦
      (let (there, still) = pending-member locked b rs (rw miss at m) in (Memᴰ.tail there, still))
]

insert-member :
    (r b : OutboxRow) (xs : List OutboxRow) → Memᴰ b (insert_by_id r xs) → (b ≡ r) ⊎ Memᴰ b xs
unfolding insert_by_id
insert-member r b [] m = member-cons b r [] m
insert-member r b (x ∷ xs) m = elim (Bool-cases (leb r.id x.id)) [
  | inl before ↦ member-cons b r (x ∷ xs) (rw before at m)
  | inr later ↦ elim (member-cons b x (insert_by_id r xs) (rw later at m)) [
    | inl e ↦ inr (Memᴰ.head e)
    | inr n ↦ elim (insert-member r b xs n) [ inl e ↦ inl e | inr k ↦ inr (Memᴰ.tail k) ]
  ]
]

order-member : (b : OutboxRow) (rs : List OutboxRow) → Memᴰ b (order_by_id rs) → Memᴰ b rs
unfolding order_by_id
order-member b [] m = elim m [ ]
order-member b (r ∷ rs) m = elim (insert-member r b (order_by_id rs) m) [
  | inl e ↦ Memᴰ.head e
  | inr n ↦ Memᴰ.tail (order-member b rs n)
]

take-member : {A : Type 0} (n : ℕ) (b : A) (xs : List A) → Memᴰ b (take n xs) → Memᴰ b xs
take-member zero b xs m = elim m [ ]
take-member (suc n) b [] m = elim m [ ]
take-member (suc n) b (x ∷ xs) m = elim (member-cons b x (take n xs) m) [
  | inl e ↦ Memᴰ.head e
  | inr k ↦ Memᴰ.tail (take-member n b xs k)
]

-- What is selected stands in the table, and is pending.
pub select_batch-member :
    (locked : Uuid → Bool) (b : OutboxRow) (rs : List OutboxRow)
    → Memᴰ b (select_batch locked rs)
    → Memᴰ b rs × (is_pending b ≡ true)
unfolding select_batch
select_batch-member locked b rs m =
    pending-member locked b rs (order-member b _ (take-member batch_limit b _ m))

-- An id that is marked is that of a row of the batch.
pub any_id-found :
    (k : Uuid) (batch : List OutboxRow)
    → any_id k (map outbox_id batch) ≡ true
    → (b : OutboxRow) × Memᴰ b batch × (b.id ≡ k)
unfolding any_id
any_id-found k [] h = absurd (cc)
any_id-found k (b ∷ bs) h = elim (Bool-cases (b.id == k)) [
  | inl same ↦ (b, Memᴰ.head refl, (==_iff b.id k).0 same)
  | inr other ↦ (let (c, m, e) = any_id-found k bs (rw other at h) in (c, Memᴰ.tail m, e))
]

-- The marking changes no id.
pub map-mark_processed :
    (now : Time) (ids : List Uuid) (rs : List OutboxRow)
    → map outbox_id (mark_processed now ids rs) ≡ map outbox_id rs
unfolding mark_processed
map-mark_processed now ids [] = refl
map-mark_processed now ids (r ∷ rs) = elim (Bool-cases (any_id r.id ids)) [
  | inl hit ↦ rw (hit, map-mark_processed now ids rs) refl
  | inr miss ↦ rw (miss, map-mark_processed now ids rs) refl
]
