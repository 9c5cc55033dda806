-- ===== src/Reconcile/Engine.antt =====
-- The engine of internal/saga/saga.go under internal/saga/reconcile.go: what the engine books is
-- never reported as booked and not settled, if the report holds what the processor has confirmed.
use mathlib.Core.List.{Memᴰ}
use mathlib.Core.Path.{subst}
use peikonpurekkusu_payment.Prelude.{
  ◌≡◌, ◌≢◌, sym, ◌∙◌, ap, arith, true, String, List, [], ◌∷◌, some, All, map,
}
use peikonpurekkusu_payment.Payment.{Uuid, Time, Row, Step, step_eq, captured}
use peikonpurekkusu_payment.Payment.Table.{lookup}
use peikonpurekkusu_payment.Payment.Keys.{Distinct, row_id}
use peikonpurekkusu_payment.Saga.World.{World}
use peikonpurekkusu_payment.Saga.Spec.{Captured}
use peikonpurekkusu_payment.Saga.Invariant.{Inv, IsSound, is_taken}
use peikonpurekkusu_payment.Reconcile.{
  SettlementEntry, booked_references, settled_refs, count_unsettled, mem_text,
}
use peikonpurekkusu_payment.Reconcile.Ledger.{booked-own}
use peikonpurekkusu_payment.Reconcile.Clean.{none-unsettled, settled-all}

id_ne :
    (r : Row) (k : Uuid) (rs : List Row) → All (λ y. y ≢ k) (map row_id rs) → Memᴰ r rs → r.id ≢ k
id_ne r k [] h m = elim m [ ]
id_ne r k (x ∷ rs) h (Memᴰ.head e) = λ same. h.0 (ap row_id (sym e) ∙ same)
id_ne r k (x ∷ rs) h (Memᴰ.tail m) = id_ne r k rs h.1 m

-- A row of the table is found under its id.
lookup-member :
    (r : Row) (rs : List Row) → Distinct (map row_id rs) → Memᴰ r rs → lookup r.id rs ≡ some r
unfolding lookup
lookup-member r [] d m = elim m [ ]
lookup-member r (x ∷ rs) d (Memᴰ.head e) = rw e (ground arith)
lookup-member r (x ∷ rs) d (Memᴰ.tail m) =
    ground (arith, id_ne r x.id rs d.0 m, lookup-member r rs d.1 m)

captured_taken : (s : Step) → step_eq s captured ≡ true → is_taken s ≡ true
captured_taken s h = ground arith

some_inj : {A : Type 0} {a b : A} → some a ≡ some b → a ≡ b
some_inj e = cc

-- In a world with the invariant no booking is reported as never settled, if the report has an entry
-- for every reference whose capture the processor has confirmed to the engine.
pub unsettled_never :
    (w : World) (from : Time) (es : List SettlementEntry)
    → Inv w
    → ((id : Uuid) (ref : String)
        → Captured id ref w.history
        → (e : SettlementEntry) × Memᴰ e es × (e.reference ≡ ref))
    → count_unsettled (settled_refs es) (booked_references from w.payments).0 ≡ 0
unfolding booked_references
unsettled_never w from es i complete =
    none-unsettled (settled_refs es) (booked_references from w.payments).0 (λ ref m.
      let (r, k, (hit, known, _)) = booked-own from ref w.payments m in
      let sound : IsSound w.history r = i.rows r.id r (lookup-member r w.payments i.keyed k) in
      let (ref', same, confirmed) = sound.taken (captured_taken r.step hit) in
      let (e, n, listed) = complete r.id ref' confirmed in
      subst (λ j. mem_text j (settled_refs es) ≡ true) (listed ∙ some_inj (sym same ∙ known))
        (settled-all e es n))
