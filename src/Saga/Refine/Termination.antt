-- ===== src/Saga/Refine/Termination.antt =====
-- The loop of `Advance` ends: five steps at most, whatever the other services answer.
use peikonpurekkusu_payment.Prelude.{
  ℕ, zero, suc, ◌+◌, ◌≤◌, some, ◌≡◌, ◌≢◌, inl, inr, refl, arith, Bool-cases,
}
use peikonpurekkusu_payment.Payment.{Uuid, Row, Instrument, is_processing, step_code}
use peikonpurekkusu_payment.Payment.Table.{lookup, lookup_id}
use mathlib.Core.Path.{subst, sym}
use peikonpurekkusu_payment.Saga.World.{queried, World, Env, record_event}
use peikonpurekkusu_payment.Saga.Persist.{of_row, load}
use peikonpurekkusu_payment.Saga.Steps.{Progress, proceed, halt, panicked}
use peikonpurekkusu_payment.Saga.Drive.{
  Ended, out_of_fuel, dispatch, after_step, run_step, after_load, advance, enough_fuel,
}
use peikonpurekkusu_payment.Saga.Refine.Operations.{load-cases}
use peikonpurekkusu_payment.Saga.Refine.Progress.{Forward, dispatch-Forward}

module _ (env : Env) where
  -- What the rest of the loop is asked: it ends, if the payment stands far enough.
  abbrev Ends : (World → Ended × World) → ℕ → Uuid → Type 0
  Ends again fuel id =
      (u : World) (n : Row)
      → lookup id u.payments ≡ some n
      → step_code n.step ≤ 5
      → 6 ≤ fuel + step_code n.step
      → (again u).0 ≢ out_of_fuel

  after_step-Ends :
      (again : World → Ended × World) (fuel : ℕ) (r : Row) (i : Instrument) (x : Progress × World)
      → Ends again fuel r.id
      → 5 ≤ fuel + step_code r.step
      → Forward env r i (step_code r.step) x
      → (after_step env again x).0 ≢ out_of_fuel
  unfolding after_step
  after_step-Ends again fuel r i (proceed, u) ends lt f =
      let (n, found, later, bound) = f refl in ends u n found bound (omega arith)
  after_step-Ends again fuel r i (halt, u) ends lt f = λ e. cc
  after_step-Ends again fuel r i (panicked, u) ends lt f = λ e. cc

  run_step-Ends :
      (again : World → Ended × World) (fuel : ℕ) (r : Row) (i : Instrument) (w : World)
      → lookup r.id w.payments ≡ some r
      → Ends again fuel r.id
      → 5 ≤ fuel + step_code r.step
      → (run_step env again (is_processing (of_row r i).status) (of_row r i) w).0 ≢ out_of_fuel
  unfolding run_step of_row
  run_step-Ends again fuel r i w found ends lt = elim (Bool-cases (is_processing r.status)) [
    | inr over ↦ rw over (λ e. cc)
    | inl live ↦ rw live (
        after_step-Ends again fuel r i (dispatch env r.step (of_row r i) w) ends lt
          (dispatch-Forward env r i r.step w (found, ground arith, refl)))
  ]

  one_round :
      (again : World → Ended × World) (fuel : ℕ) (id : Uuid) (w : World)
      → Ends again fuel id
      → ((n : Row) → lookup id w.payments ≡ some n → 5 ≤ fuel + step_code n.step)
      → (after_load env again (load env id w)).0 ≢ out_of_fuel
  unfolding after_load
  one_round again fuel id w ends far = elim (load-cases env id w) [
    | inl (e, eq) ↦ rw eq (λ e. cc)
    | inr (p, (r, i, found, own, same), eq) ↦ rw eq (
        rw same (
          run_step-Ends again fuel r i (record_event queried w) own
            (subst (Ends again fuel) (sym (lookup_id id w.payments r found)) ends) (far r found)))
  ]

  advance-ends :
      (fuel : ℕ) (id : Uuid) (w : World)
      → ((n : Row) → lookup id w.payments ≡ some n → 5 ≤ fuel + step_code n.step)
      → (advance env (suc fuel) id w).0 ≢ out_of_fuel
  unfolding advance
  advance-ends zero id w far =
      one_round (advance env zero id) zero id w (λ u n found bound lt. absurd (omega arith)) far
  advance-ends (suc fuel) id w far =
      one_round (advance env (suc fuel) id) (suc fuel) id w
        (λ u n found bound lt. advance-ends fuel id u (λ m at. ground (arith, at, found, lt))) far

  -- `Advance` returns, or panics, after at most six rounds: whatever the database, the other
  -- services and the processors answer, and wherever the payment stands.
  pub advance_terminates : (id : Uuid) (w : World) → (advance env enough_fuel id w).0 ≢ out_of_fuel
  advance_terminates id w = advance-ends 5 id w (λ n found. omega arith)
