-- ===== src/Saga/Settled.antt =====
-- What of a payment is settled for good, under any sequence of the engine's operations.
use peikonpurekkusu_payment.Prelude.{
  List, [], ◌∷◌, some, ◌≡◌, ◌≢◌, ◌⊎◌, inl, inr, arith, ◌==◌, Bool-cases, ==_iff, sym, ◌∙◌,
}
use peikonpurekkusu_payment.Payment.{
  Uuid, Time, Status, Step, Row, processing, succeeded, failed, requires_action,
}
use peikonpurekkusu_payment.Payment.Table.{
  lookup, put, lookup-put, lookup-put_self, lookup-map_found,
}
use peikonpurekkusu_payment.Saga.World.{History, World, Env}
use peikonpurekkusu_payment.Saga.Spec.{
  Trigger, Edge, Expiry, waits, lapses, Move, saw, saved, expired, Run, rest, next,
}
use peikonpurekkusu_payment.Saga.Invariant.{Inv, Expiry-id}
use peikonpurekkusu_payment.Saga.Life.{Operation, perform, perform_all, perform-Run, perform-Inv}

-- The processor has taken the money, and nobody has given it back.
abbrev pub IsKept : Row → Type 0
IsKept r =
    ((r.status ≡ processing) × (r.step ≡ Step.psp_captured))
    ⊎ ((r.status ≡ succeeded) × (r.step ≡ Step.captured))

-- The payment has reached a terminal status.
abbrev pub IsOver : Status → Row → Type 0
IsOver s r = ((s ≡ succeeded) ⊎ (s ≡ failed)) × (r.status ≡ s)

IsOver-Edge :
    {c : Trigger} → (s : Status) (h : History) (r n : Row) → Edge c h r n → IsOver s r → IsOver s n
IsOver-Edge s h r n (Edge.touch t e) k = rw e k
IsOver-Edge s h r n (Edge.book t st at b e) k = absurd (ground arith)
IsOver-Edge s h r n (Edge.screen t v st at m a b e) k = absurd (ground arith)
IsOver-Edge s h r n (Edge.park t v detail st at m a e) k = absurd (ground arith)
IsOver-Edge s h r n (Edge.hold t hold_id req answer st at a m e) k = absurd (ground arith)
IsOver-Edge s h r n (Edge.submit t res st at m o e) k = absurd (ground arith)
IsOver-Edge s h r n (Edge.authorize t res st at m o e) k = absurd (ground arith)
IsOver-Edge s h r n (Edge.complete t ref code st at told e) k = absurd (ground arith)
IsOver-Edge s h r n (Edge.capture t ref st at known c e) k = absurd (ground arith)
IsOver-Edge s h r n (Edge.fail t code detail st lt why e) k = absurd (ground arith)
IsOver-Edge s h r n (Edge.resume t st own e) k = absurd (ground arith)

some_inj : {a b : Row} → some a ≡ some b → a ≡ b
some_inj e = cc

-- The expiry passes over a payment that does not wait.
passed_over : (now t : Time) (r n : Row) → Expiry now t r n → r.status ≢ requires_action → n ≡ r
passed_over now t r n (waits k e) h = e
passed_over now t r n (lapses st old e) h = absurd (h st)

module _ (P : Row → Type 0)
    (steady : (c : Trigger) (h : History) (r n : Row) → Edge c h r n → P r → P n)
    (awake : (r : Row) → P r → r.status ≢ requires_action) (k : Uuid) where
  -- A row with the property stands under the key.
  abbrev Holds : World → Type 0
  Holds w = (r : Row) × (lookup k w.payments ≡ some r) × P r

  Holds-saved :
      (c : Trigger) (w u : World) (r n : Row)
      → lookup n.id w.payments ≡ some r
      → Edge c w.history r n
      → u.payments ≡ put n w.payments
      → Holds w
      → Holds u
  Holds-saved c w u r n found e p (x, at, holds) = elim (Bool-cases (n.id == k)) [
    | inl same ↦
        let key : n.id ≡ k = (==_iff n.id k).0 same in
        let one : x ≡ r = some_inj (sym at ∙ rw (sym key) found) in
        (
          n,
          rw p (rw (sym key) (lookup-put_self n w.payments found)),
          steady c w.history r n e (rw (sym one) holds),
        )
    | inr other ↦ (x, rw p (rw (lookup-put k n w.payments) (rw other at)), holds)
  ]

  Holds-Move : {c : Trigger} {w u : World} → Move c w u → Holds w → Holds u
  Holds-Move {c} {w} (saw e allowed same) (x, at, holds) = (x, rw same at, holds)
  Holds-Move {c} {w} {u} (saved r n found e p h _) s = Holds-saved c w u r n found e p s
  Holds-Move {c} {w} {u} (expired now t f _ due p h _) (x, at, holds) = (
    f x,
    rw p (lookup-map_found f (λ y. Expiry-id now t y (f y) (due y)) k w.payments x at),
    rw (passed_over now t x (f x) (due x) (awake x holds)) holds,
  )

  Holds-Run : {c : Trigger} {w u : World} → Run c w u → Holds w → Holds u
  Holds-Run rest s = s
  Holds-Run (next r m) s = Holds-Move m (Holds-Run r s)

  Holds-all :
      (env : Env) (ops : List Operation) (w : World)
      → Inv w
      → Holds w
      → Holds (perform_all env ops w)
  unfolding perform_all
  Holds-all env [] w i s = s
  Holds-all env (op ∷ ops) w i s =
      let (c, u, run, p, h) = perform-Run env op w i in
      let (x, at, holds) = Holds-Run run s in
      Holds-all env ops (perform env op w) (perform-Inv env op w i) (x, rw p at, holds)

over-awake : (s : Status) (r : Row) → IsOver s r → r.status ≢ requires_action
over-awake s r k = λ e. ground arith

module _ (env : Env) (ops : List Operation) (w : World) (id : Uuid) (r : Row) where
  -- From a world with the invariant, a payment that has succeeded or failed keeps that status
  -- under every sequence of operations.
  pub terminal_is_final :
      (s : Status)
      → Inv w
      → lookup id w.payments ≡ some r
      → (s ≡ succeeded) ⊎ (s ≡ failed)
      → r.status ≡ s
      → (n : Row) × (lookup id (perform_all env ops w).payments ≡ some n) × (n.status ≡ s)
  terminal_is_final s i found which st =
      let (n, at, (_, same)) =
        Holds-all (IsOver s) (λ c h x y. IsOver-Edge s h x y) (over-awake s) id env ops w i
          (r, found, (which, st)) in
      (n, at, same)
