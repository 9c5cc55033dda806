-- ===== src/Saga/Life.antt =====
-- The life of the payments under any sequence of the engine's operations: `Advance`,
-- `CompleteFromGateway`, `ResumeAfterStepUp` and the sweepers of internal/saga/saga.go, each as a
-- whole, in any order, with any time between them.
use peikonpurekkusu_payment.Prelude.{String, List, [], ◌∷◌, some, Bool, ◌≡◌, refl, arith}
use peikonpurekkusu_payment.Payment.{Uuid, Time, Row, succeeded}
use peikonpurekkusu_payment.Payment.Table.{lookup}
use peikonpurekkusu_payment.Saga.World.{queried, World, Env, record_event}
use peikonpurekkusu_payment.Saga.Drive.{
  advance, enough_fuel, complete_from_gateway, resume_after_step_up,
}
use peikonpurekkusu_payment.Saga.Sweep.{
  scan, resume_stale, expire_stale_requires_action, expire_stuck_submissions, expire_stuck_captures,
  expire_stale_wallets,
}
use peikonpurekkusu_payment.Saga.Spec.{Trigger, itself, Captured, Booked, saw, Run, rest, Run-one}
use peikonpurekkusu_payment.Saga.Invariant.{Inv, Run-Inv}
use peikonpurekkusu_payment.Saga.Refine.Operations.{
  advance-Run, complete_from_gateway-Run, resume_after_step_up-Run,
}
use peikonpurekkusu_payment.Saga.Refine.Sweeps.{sweeps-Run}

pub data Operation : Type 0 where
  advances : Uuid → Operation
  completes : Uuid → Bool → String → String → Operation
  resumes : Uuid → Uuid → Operation
  scans_stale : Time → Operation
  expires_submissions expires_captures expires_wallets expires_actions : Time → Operation
  -- The clock is read anew.
  waits : Time → Operation

module _ (env : Env) where
  unfoldable pub perform : Operation → World → World
  unfolding advance complete_from_gateway resume_after_step_up resume_stale
  perform (advances id) w = (advance env enough_fuel id w).1
  perform (completes id approved ref code) w = (complete_from_gateway env id approved ref code w).2
  perform (resumes id user_id) w = (resume_after_step_up env id user_id w).2
  perform (scans_stale t) w = (resume_stale env t w).1
  perform (expires_submissions t) w = expire_stuck_submissions env t w
  perform (expires_captures t) w = expire_stuck_captures env t w
  perform (expires_wallets t) w = expire_stale_wallets env t w
  perform (expires_actions t) w = expire_stale_requires_action env t w
  perform (waits t) w = record w { now = t }

  unfoldable pub perform_all : List Operation → World → World
  unfolding perform
  perform_all [] w = w
  perform_all (op ∷ ops) w = perform_all ops (perform op w)

  -- An operation is a run of the specification, but for the clock.
  pub perform-Run :
      (op : Operation) (w : World)
      → Inv w
      → (c : Trigger) × (u : World) × Run c w u
        × ((perform op w).payments ≡ u.payments)
        × ((perform op w).history ≡ u.history)
  unfolding perform scan resume_stale
  perform-Run (advances id) w i = (itself, _, advance-Run env enough_fuel id w, refl, refl)
  perform-Run (completes id approved ref code) w i =
      (_, _, complete_from_gateway-Run env id approved ref code w, refl, refl)
  perform-Run (resumes id user_id) w i =
      (_, _, resume_after_step_up-Run env id user_id w, refl, refl)
  perform-Run (scans_stale t) w i =
      (itself, record_event queried w, Run-one (saw queried tt refl), refl, refl)
  perform-Run (expires_submissions t) w i = (_, _, (sweeps-Run env t w i.keyed).0, refl, refl)
  perform-Run (expires_captures t) w i = (_, _, (sweeps-Run env t w i.keyed).1, refl, refl)
  perform-Run (expires_wallets t) w i = (_, _, (sweeps-Run env t w i.keyed).2, refl, refl)
  perform-Run (expires_actions t) w i = (_, _, (sweeps-Run env t w i.keyed).3, refl, refl)
  perform-Run (waits t) w i = (itself, w, rest, refl, refl)

  Inv-same : (u v : World) → v.payments ≡ u.payments → v.history ≡ u.history → Inv u → Inv v
  Inv-same u v p h i = record {
    rows = λ k r found. rw h (i.rows k r (rw p at found));
    ordered = rw h i.ordered;
    keyed = rw p i.keyed;
  }

  pub perform-Inv : (op : Operation) (w : World) → Inv w → Inv (perform op w)
  perform-Inv op w i =
      let (c, u, run, p, h) = perform-Run op w i in Inv-same u (perform op w) p h (Run-Inv i run)

  -- Every sequence of operations keeps the invariant: of every payment, its status fits its step,
  -- a held payment has its hold, a captured one its reference and the processor's confirmation,
  -- and a succeeded one the ledger's; the ledger was asked to capture only what the processor had
  -- confirmed; and the ids stay distinct.
  pub perform_all-Inv : (ops : List Operation) (w : World) → Inv w → Inv (perform_all ops w)
  unfolding perform_all
  perform_all-Inv [] w i = i
  perform_all-Inv (op ∷ ops) w i = perform_all-Inv ops (perform op w) (perform-Inv op w i)

  -- Whatever the operations and the answers of the other services, from a world with the
  -- invariant, a payment that is found succeeded was captured by the processor under its
  -- reference, and booked by the ledger.
  pub succeeded_is_collected :
      (ops : List Operation) (w : World) (k : Uuid) (r : Row)
      → Inv w
      → lookup k (perform_all ops w).payments ≡ some r
      → r.status ≡ succeeded
      → (ref : String) × (r.psp_reference ≡ some ref)
        × Captured r.id ref (perform_all ops w).history
        × Booked r.id (perform_all ops w).history
  succeeded_is_collected ops w k r i found st =
      let s = (perform_all-Inv ops w i).rows k r found in
      let (at, booked) = s.settled st in
      let (ref, known, taken) = s.taken (ground arith) in (ref, known, taken, booked)
