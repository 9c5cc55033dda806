-- ===== src/Saga/Invariant.antt =====
-- The invariant of the payments and of the history, kept by every move of the engine.
use mathlib.Core.List.{Memᴰ}
use peikonpurekkusu_payment.Prelude.{
  ◌≤◌, String, [], ◌∷◌, some, Bool, true, false, ◌≡◌, ◌≢◌, inl, inr, refl, arith, map, is_some,
}
use peikonpurekkusu_payment.Payment.{
  Uuid, Time, Step, Row, fraud_screened, captured, done, requires_action, processing, succeeded,
  failed, canceled, refunded, step_code,
}
use peikonpurekkusu_payment.Payment.Table.{lookup, put, lookup-put_cases, lookup_id, lookup-map}
use peikonpurekkusu_payment.Payment.Keys.{Distinct, row_id, map-put, map-map_id}
use peikonpurekkusu_payment.Saga.World.{Event, asked_capture, History, World}
use peikonpurekkusu_payment.Saga.Spec.{
  Captured, Booked, Trigger, Edge, Expiry, waits, lapses, IsAllowed, Move, saw, saved, expired, Run,
  rest, next,
}

-- A payment that is past the capture by the processor, booked or not.
abbrev pub is_taken : Step → Bool
is_taken Step.psp_captured = true
is_taken captured = true
is_taken _ = false

-- Of one row, after the history `h`.
pub record IsSound (h : History) (r : Row) : Type 0 where
  pub live : r.status ≡ processing → step_code r.step ≤ 4
  pub parked : r.status ≡ requires_action → r.step ≡ fraud_screened
  pub settled : r.status ≡ succeeded → (r.step ≡ captured) × Booked r.id h
  pub closed : r.status ≡ failed → r.step ≡ done
  pub known : (r.status ≢ canceled) × (r.status ≢ refunded)
  pub held : 2 ≤ step_code r.step → step_code r.step ≤ 5 → is_some r.hold_id ≡ true
  pub taken :
      is_taken r.step ≡ true → (ref : String) × (r.psp_reference ≡ some ref) × Captured r.id ref h

-- The ledger is asked to record a capture only after the processor has confirmed it.
abbrev pub IsOrdered : History → Type 0
IsOrdered [] = Unit
IsOrdered (asked_capture id _ _ ∷ h) = ((ref : String) × Captured id ref h) × IsOrdered h
IsOrdered (_ ∷ h) = IsOrdered h

pub record Inv (w : World) : Type 0 where
  pub rows : (k : Uuid) (r : Row) → lookup k w.payments ≡ some r → IsSound w.history r
  pub ordered : IsOrdered w.history
  pub keyed : Distinct (map row_id w.payments)

-- An event takes no evidence away.
IsSound-event : (e : Event) (h : History) (r : Row) → IsSound h r → IsSound (e ∷ h) r
IsSound-event e h r s = record {
  live = s.live;
  parked = s.parked;
  settled = λ x. let (st, (req, txn, m)) = s.settled x in (st, (req, txn, Memᴰ.tail m));
  closed = s.closed;
  known = s.known;
  held = s.held;
  taken = λ x. let (ref, e, m) = s.taken x in (ref, e, Memᴰ.tail m);
}

captured_first :
    (h : History) (r : Row)
    → IsSound h r
    → r.step ≡ Step.psp_captured
    → (ref : String) × Captured r.id ref h
captured_first h r s at = let (ref, _, m) = s.taken (ground arith) in (ref, m)

IsOrdered-event : (w : World) (e : Event) → Inv w → IsAllowed w e → IsOrdered (e ∷ w.history)
IsOrdered-event w (asked_capture id req reply) i (r, found, live, at) = (
  rw (lookup_id id w.payments r found) at (captured_first w.history r (i.rows id r found) at),
  i.ordered,
)
IsOrdered-event w _ i a = i.ordered

-- Every change of a row that may be saved keeps it sound.
Edge-IsSound : {c : Trigger} → (h : History) (r n : Row) → Edge c h r n → IsSound h r → IsSound h n
Edge-IsSound h r n (Edge.touch t e) s = rw e (record {
  live = s.live;
  parked = s.parked;
  settled = s.settled;
  closed = s.closed;
  known = s.known;
  held = s.held;
  taken = s.taken;
})
Edge-IsSound h r n (Edge.screen t v st at m a b e) s = rw e (ground arith)
Edge-IsSound h r n (Edge.park t v detail st at m a e) s = rw e (ground arith)
Edge-IsSound h r n (Edge.hold t hold_id req answer st at a m e) s = rw e (ground arith)
Edge-IsSound h r n (Edge.submit t res st at m o e) s = rw e (ground arith)
Edge-IsSound h r n (Edge.authorize t res st at m o e) s = rw e (ground arith)
Edge-IsSound h r n (Edge.complete t ref code st at told e) s = rw e (ground arith)
Edge-IsSound h r n (Edge.capture t ref st at known c e) s = rw e (record {
  live = λ x. omega arith;
  parked = λ x. cc;
  settled = λ x. cc;
  closed = λ x. cc;
  known = (λ x. cc, λ x. cc);
  held = λ lo hi. ground arith;
  taken = λ x. (ref, known, c);
})
Edge-IsSound h r n (Edge.book t st at b e) s = rw e (record {
  live = λ x. cc;
  parked = λ x. cc;
  settled = λ x. (refl, b);
  closed = λ x. cc;
  known = (λ x. cc, λ x. cc);
  held = λ lo hi. ground arith;
  taken = λ x. s.taken (ground arith);
})
Edge-IsSound h r n (Edge.fail t code detail st lt why e) s = rw e (ground arith)
Edge-IsSound h r n (Edge.resume t st own e) s = rw e (ground arith)

pub Expiry-id : (now t : Time) (r n : Row) → Expiry now t r n → n.id ≡ r.id
Expiry-id now t r n (waits h e) = rw e refl
Expiry-id now t r n (lapses st old e) = rw e refl

Expiry-IsSound :
    (h : History) (now t : Time) (r n : Row) → Expiry now t r n → IsSound h r → IsSound h n
Expiry-IsSound h now t r n (waits k e) s = rw e s
Expiry-IsSound h now t r n (lapses st old e) s = rw e (ground arith)

saved-rows :
    {c : Trigger}
    → (w u : World) (r n : Row) → Inv w
    → lookup n.id w.payments ≡ some r
    → Edge c w.history r n
    → u.payments ≡ put n w.payments
    → (k : Uuid) (x : Row) → lookup k u.payments ≡ some x
    → IsSound w.history x
saved-rows w u r n i found e p k x h = elim (lookup-put_cases k n w.payments x (rw p at h)) [
  | inl (_, same) ↦ rw same (Edge-IsSound w.history r n e (i.rows n.id r found))
  | inr old ↦ i.rows k x old
]

expired-rows :
    (w u : World) (now t : Time) (f : Row → Row)
    → ((r : Row) → Expiry now t r (f r))
    → Inv w
    → u.payments ≡ map f w.payments
    → (k : Uuid) (x : Row) → lookup k u.payments ≡ some x
    → IsSound w.history x
expired-rows w u now t f due i p k x h =
    let (r, found, e) =
      lookup-map f (λ y. Expiry-id now t y (f y) (due y)) k w.payments x (rw p at h) in
    rw e (Expiry-IsSound w.history now t r (f r) (due r) (i.rows k r found))

pub Move-Inv : {c : Trigger} {w u : World} → Inv w → Move c w u → Inv u
Move-Inv {w} i (saw e allowed same) = rw same (record {
  rows = λ k r found. IsSound-event e w.history r (i.rows k r found);
  ordered = IsOrdered-event w e i allowed;
  keyed = i.keyed;
})
Move-Inv {w} {u} i (saved r n found e p h _) = record {
  rows = λ k x f. rw h (saved-rows w u r n i found e p k x f);
  ordered = rw h i.ordered;
  keyed = rw p (rw (map-put n w.payments) i.keyed);
}
Move-Inv {w} {u} i (expired now t g _ due p h _) = record {
  rows = λ k x f. rw h (expired-rows w u now t g due i p k x f);
  ordered = rw h i.ordered;
  keyed = rw p (rw (map-map_id g (λ r. Expiry-id now t r (g r) (due r)) w.payments) i.keyed);
}

-- The invariant holds of every world that moves of the engine lead to.
pub Run-Inv : {c : Trigger} {w u : World} → Inv w → Run c w u → Inv u
Run-Inv i rest = i
Run-Inv i (next r m) = Move-Inv (Run-Inv i r) m
