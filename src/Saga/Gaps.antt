-- ===== src/Saga/Gaps.antt =====
-- What internal/saga/saga.go does where a comment or another part of it has it otherwise: the
-- wallet sweeper, completions, retries and their timeouts, and compensation on an old snapshot.
use peikonpurekkusu_payment.Prelude.{
  ◌+◌, ◌≤◌, String, [], ◌∷◌, Option, some, none, Bool, true, false, not, ◌||◌, ◌≡◌, ◌≢◌, ◌⊎◌, inl,
  inr, refl, arith, Bool-cases, ap, ◌∙◌, ◌==◌,
}
use peikonpurekkusu_payment.Payment.{
  Uuid, Time, Row, Instrument, Payment, submitted_to_gateway, fraud_screened, processing,
  requires_action, is_processing, is_requires_action, step_eq,
}
use peikonpurekkusu_payment.Payment.Table.{lookup, put, lookup-put, lookup_id}
use peikonpurekkusu_payment.Psp
use peikonpurekkusu_payment.Psp.{Error}
use peikonpurekkusu_payment.Saga.World.{queried, World, Env, History, record_event}
use peikonpurekkusu_payment.Saga.Persist.{SagaError, of_row, load, touch, touched, transition}
use peikonpurekkusu_payment.Saga.Steps.{
  is_transient, no_extra, act_on_authorize, act_on_psp_capture,
}
use peikonpurekkusu_payment.Saga.Drive.{
  returned, apply_completion, complete_loaded, complete_from_gateway, then_spawn, resume_loaded,
  resume_after_step_up,
}
use peikonpurekkusu_payment.Saga.Sweep.{
  submission_due, capture_due, scan, fail_scanned, expire_stale_wallets,
}
use peikonpurekkusu_payment.Saga.Compensate.{fail_and_compensate-down}
use peikonpurekkusu_payment.Saga.Refine.Operations.{load-cases}

module _ (env : Env) where
  -- The wallet sweeper fails no payment, ever: it does nothing but the query.
  pub wallets_never_expire :
      (t : Time) (w : World) → expire_stale_wallets env t w ≡ record_event queried w
  unfolding expire_stale_wallets scan fail_scanned
  wallets_never_expire t w = refl

  -- A completion whose payment is loaded, and does not stand processing at submitted_to_gateway
  -- then, be it finished or not yet there, reports no error and changes nothing.
  pub completion_ignored :
      (id : Uuid) (approved : Bool) (ref code : String) (w : World) (p : Payment)
      → load env id w ≡ (inr p, record_event queried w)
      → (p.status ≢ processing) ⊎ (p.step ≢ submitted_to_gateway)
      → complete_from_gateway env id approved ref code w ≡ (returned, none, record_event queried w)
  unfolding complete_from_gateway complete_loaded apply_completion
  completion_ignored id approved ref code w p at h =
      let skipped : (not (is_processing p.status) || not (step_eq p.step submitted_to_gateway))
          ≡ true =
        ground (arith, h) in
      rw (at, complete_from_gateway) (rw skipped refl)

  declined_silently :
      (p : Payment) (ref code : String) (w : World)
      → ((h : History) → env.commit_ok h ≡ false)
      → let (_, e, u) = apply_completion env p false ref code w in
        (u.payments ≡ w.payments) × (u.outbox ≡ w.outbox) × (e ≡ none)
  unfolding apply_completion
  declined_silently p ref code w down =
      elim (Bool-cases
        (not (is_processing p.status) || not (step_eq p.step submitted_to_gateway))) [
          | inl skipped ↦ rw skipped (refl, refl, refl)
          | inr due ↦ rw due (
              let (same, box, _) =
                fail_and_compensate-down env p "gateway_declined" code w (down _) in
              (same, box, refl))
        ]

  -- While no transaction commits, a completion that declines a payment changes no payment and
  -- queues no event, and yet the error that it reports is that of the load only.
  pub lost_decline :
      (id : Uuid) (ref code : String) (w : World)
      → ((h : History) → env.commit_ok h ≡ false)
      → let (_, e, u) = complete_from_gateway env id false ref code w in
        (u.payments ≡ w.payments)
        × (u.outbox ≡ w.outbox)
        × (e ≡ (elim ((load env id w).0) [ inl x ↦ some x | inr _ ↦ none ]))
  unfolding complete_from_gateway complete_loaded
  lost_decline id ref code w down = elim (load-cases env id w) [
    | inl (e, eq) ↦ rw (eq, complete_from_gateway) (refl, refl, refl)
    | inr (p, _, eq) ↦
        rw (eq, complete_from_gateway) (declined_silently p ref code (record_event queried w) down)
  ]

  -- An authorization or a capture that finds the processor unavailable leaves the row as it is,
  -- but for the time of its last change, which becomes now, if the update commits. So neither
  -- sweeper of stuck payments selects it until a whole timeout after that attempt.
  pub retry_postpones :
      (p : Payment) (r : Row) (e : Error) (w : World)
      → lookup p.id w.payments ≡ some r
      → env.commit_ok w.history ≡ true
      → is_transient e.kind ≡ true
      → (lookup p.id (act_on_authorize env p (Psp.err e) w).1.payments ≡ some (touched w r))
        × (lookup p.id (act_on_psp_capture env p (Psp.err e) w).1.payments ≡ some (touched w r))
        × ((now timeout : Time)
            → now ≤ w.now + timeout
            → (submission_due now timeout (touched w r) ≡ false)
              × (capture_due now timeout (touched w r) ≡ false))
  unfolding act_on_authorize act_on_psp_capture touch submission_due capture_due
  retry_postpones p r e w found fine soft =
      let again : lookup p.id (put (touched w r) w.payments) ≡ some (touched w r) =
        ground
          (arith, lookup-put p.id (touched w r) w.payments, lookup_id p.id w.payments r found) in
      (rw (soft, fine, found) again, rw (soft, fine, found) again, λ now timeout soon. ground arith)

  some_error : (e : SagaError) → some e ≡ none → ⊥
  some_error e h = cc

  spawned_own :
      (id : Uuid) (x : Option SagaError × World)
      → (then_spawn env id x).0 ≡ none
      → (then_spawn env id x).1 ≡ id ∷ []
  unfolding then_spawn
  spawned_own id (none, w) ok = refl
  spawned_own id (some e, w) ok = absurd (cc)

  resumed_own :
      (r : Row) (i : Instrument) (id user_id : Uuid) (w u : World)
      → lookup id w.payments ≡ some r
      → (resume_loaded env user_id (inr (of_row r i), u)).0 ≡ none
      → (r.user_id ≡ user_id)
        × (r.status ≡ requires_action)
        × ((resume_loaded env user_id (inr (of_row r i), u)).1 ≡ id ∷ [])
  unfolding resume_loaded of_row
  resumed_own r i id user_id w u found ok =
      elim (Bool-cases (not (r.user_id == user_id) || not (is_requires_action r.status))) [
        | inl other ↦ absurd (ground (arith, other, ok))
        | inr waits ↦ (
          ground (arith, waits),
          ground (arith, waits),
          rw waits (
              spawned_own r.id (transition env (of_row r i) fraud_screened processing no_extra u)
                (rw waits at ok)
              ∙ ap (λ k. k ∷ []) (lookup_id id w.payments r found)),
        )
      ]

  -- A resumption that succeeds was asked for by the owner of a payment that waited for a second
  -- factor, and starts exactly that payment.
  pub resume_only_own :
      (id user_id : Uuid) (w : World)
      → (resume_after_step_up env id user_id w).0 ≡ none
      → (r : Row) × (lookup id w.payments ≡ some r)
        × (r.user_id ≡ user_id)
        × (r.status ≡ requires_action)
        × ((resume_after_step_up env id user_id w).1 ≡ id ∷ [])
  unfolding resume_after_step_up resume_loaded
  resume_only_own id user_id w ok = elim (load-cases env id w) [
    | inl (e, eq) ↦ absurd (some_error e (rw (eq, resume_after_step_up) at ok))
    | inr (p, (r, i, found, _, same), eq) ↦
        let (own, waits, starts) =
          resumed_own r i id user_id w (record_event queried w) found
            (rw same at (rw (eq, resume_after_step_up) at ok)) in
        (r, found, own, waits, rw (eq, resume_after_step_up) (rw same starts))
  ]
