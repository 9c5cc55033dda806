-- ===== src/Saga/Refine/Sweeps.antt =====
-- The sweepers of internal/saga/saga.go as runs of the specification.
use peikonpurekkusu_payment.Prelude.{
  ◌+◌, Option, none, is_some, ◌<◌, String, List, [], ◌∷◌, some, none, Bool, true, false, ◌≡◌, ◌≢◌,
  ◌⊎◌, inl, inr, refl, arith, map, All, take, Bool-cases, Option-cases, ◌∙◌, sym, ◌&&◌,
}
use peikonpurekkusu_payment.Payment.{
  Uuid, Time, Status, Step, Row, Instrument, processing, funds_held, submitted_to_gateway,
  step_code, is_requires_action,
}
use peikonpurekkusu_payment.Payment.Table.{lookup, lookup_id, lookup-put}
use mathlib.Core.Path.{subst}
use peikonpurekkusu_payment.Payment.Keys.{
  Distinct, row_id, All-take, take-Distinct, select_ids-Distinct, IsHit, select_ids-IsHit,
}
use peikonpurekkusu_payment.Saga.World.{queried, wrote, History, World, Env, record_event}
use peikonpurekkusu_payment.Saga.Persist.{
  Tx, of_row, transition_with, fail_and_compensate, ask_release, write_outbox,
}
use peikonpurekkusu_payment.Saga.Sweep.{
  is_stale, action_expired, expire_row, payments_columns, has_columns, select_ids, scan,
  submission_due, capture_due, wallet_due, fail_each, fail_scanned, expire_stale_requires_action,
  expire_stuck_submissions, expire_stuck_captures, expire_stale_wallets,
}
use peikonpurekkusu_payment.Saga.Spec.{
  Trigger, swept, Reason, Expiry, waits, lapses, saw, expired, Run, rest, next, Run-one, Run-trans,
}
use peikonpurekkusu_payment.Saga.Refine.Saves.{closed, transition_with_done, transition_with_failed}
use peikonpurekkusu_payment.Saga.Refine.Compensation.{
  fail_and_compensate-Run, fail_and_compensate_lem, after_release, release_free, release_held,
}
use peikonpurekkusu_payment.Prelude.Elements.{All-weaken}
use peikonpurekkusu_payment.Saga.Refine.Operations.{load-cases}

-- A row that a sweeper may fail, as one of those that it is due for.
abbrev pub IsEarly : (Row → Type 0) → List Row → Uuid → Type 0
IsEarly due rows k =
    (r : Row) × (lookup k rows ≡ some r) × due r × (r.status ≡ processing) × (step_code r.step < 4)

some_inj : {a b : Row} → some a ≡ some b → a ≡ b
some_inj e = cc

scan-cases :
    (env : Env) (columns : List String) (test : Row → Bool) (w : World)
    → (scan env columns test w ≡ (none, record_event queried w))
      ⊎ (scan env columns test w
          ≡ (some (take 20 (select_ids test w.payments)), record_event queried w))
unfolding scan
scan-cases env columns test w =
    elim (Bool-cases (has_columns payments_columns columns && env.query_ok w.history)) [
      | inl fine ↦ inr (rw fine)
      | inr bad ↦ inl (rw bad)
    ]

module _ (env : Env) (code detail : String) where
  module _ (r : Row) (i : Instrument) (j : Uuid) (other : j ≢ r.id) where
    fail-frame :
        (extra : Tx → Tx) (w : World)
        → ((tx : Tx) → (extra tx).payments ≡ tx.payments)
        → lookup r.id w.payments ≡ some r
        → r.status ≡ processing
        → lookup j
            (transition_with env
              (of_row r i)
              Step.done
              Status.failed
              code
              detail
              none
              extra
              w).1.payments
          ≡ lookup j w.payments
    fail-frame extra w keeps found live = elim (Bool-cases (env.commit_ok w.history)) [
      | inl yes_ok ↦
          rw
            (transition_with_done env r i w found Step.done Status.failed code detail none extra
              live yes_ok)
            (rw keeps (
              ground (
                arith,
                lookup-put j (closed env r i w found Step.done Status.failed code detail none)
                    w.payments,
              )))
      | inr not_ok ↦
          rw
            (transition_with_failed env r i w found Step.done Status.failed code detail none extra
              not_ok)
            refl
    ]

    after_release-frame :
        (w : World)
        → lookup r.id w.payments ≡ some r
        → r.status ≡ processing
        → lookup j (after_release env r i code detail w).payments ≡ lookup j w.payments
    unfolding write_outbox
    after_release-frame w found live = fail-frame _ w (λ tx. refl) found live

    -- The compensation of one payment leaves every other row alone.
    fail_and_compensate-frame :
        (w : World)
        → lookup r.id w.payments ≡ some r
        → r.status ≡ processing
        → lookup j (fail_and_compensate env (of_row r i) code detail w).payments
          ≡ lookup j w.payments
    unfolding ask_release
    fail_and_compensate-frame w found live = elim (Option-cases r.hold_id) [
      | inl free ↦
          rw
            (fail_and_compensate_lem env r i code detail w, release_free env r i code detail w free)
            (after_release-frame w found live)
      | inr (hold_id, held) ↦
          rw
            (
              fail_and_compensate_lem env r i code detail w,
              release_held env r i code detail w hold_id held,
            )
            (after_release-frame (ask_release env (of_row r i) hold_id w) found live)
    ]

  module _ (c : Trigger) (Due : Row → Type 0)
      (why : (h : History) (r : Row) → Due r → Reason c h r code detail) where
    keep-IsEarly :
        (r : Row) (i : Instrument) (w : World) (ids : List Uuid)
        → lookup r.id w.payments ≡ some r
        → r.status ≡ processing
        → All (λ y. y ≢ r.id) ids
        → All (IsEarly Due w.payments) ids
        → All (IsEarly Due (fail_and_compensate env (of_row r i) code detail w).payments) ids
    keep-IsEarly r i w [] found live fresh h = tt
    keep-IsEarly r i w (k ∷ ks) found live fresh ((x, at, due, st, lt), h) = (
      (x, fail_and_compensate-frame r i k fresh.0 w found live ∙ at, due, st, lt),
      keep-IsEarly r i w ks found live fresh.1 h,
    )

    fail_each-Run :
        (ids : List Uuid) (w : World)
        → Distinct ids
        → All (IsEarly Due w.payments) ids
        → Run c w (fail_each env code detail ids w)
    unfolding fail_each
    fail_each-Run [] w d h = rest
    fail_each-Run (id ∷ ids) w d ((x, at, due, st, lt), h) = elim (load-cases env id w) [
      | inl (e, eq) ↦ rw eq (Run-trans (Run-one (saw queried tt refl)) (fail_each-Run ids _ d.1 h))
      | inr (p, (r, i, found, own, same), eq) ↦
          let live : r.status ≡ processing = ground arith in
          let early : step_code r.step < 4 = ground arith in
          let now_due : Due r = subst Due (some_inj (sym at ∙ found)) due in
          let fresh : All (λ y. y ≢ r.id) ids =
            subst (λ k. All (λ y. y ≢ k) ids) (sym (lookup_id id w.payments r found)) d.0 in
          rw eq (
            rw same (
              Run-trans (Run-one (saw queried tt refl)) (
                Run-trans
                  (fail_and_compensate-Run env r i code detail (record_event queried w) own live
                    early (why _ r now_due))
                  (fail_each-Run ids _ d.1
                    (keep-IsEarly r i (record_event queried w) ids own live fresh h)))))
    ]

    -- A scan that selects only early payments, and the loop over what it selected.
    fail_scanned-Run :
        (columns : List String) (test : Row → Bool) (w : World)
        → Distinct (map row_id w.payments)
        → ((r : Row) → test r ≡ true → Due r × (r.status ≡ processing) × (step_code r.step < 4))
        → Run c w (fail_scanned env code detail (scan env columns test w))
    unfolding fail_scanned
    fail_scanned-Run columns test w d early = elim (scan-cases env columns test w) [
      | inl e ↦ rw e (Run-one (saw queried tt refl))
      | inr e ↦ rw e (
          Run-trans (Run-one (saw queried tt refl)) (
            fail_each-Run (take 20 (select_ids test w.payments)) (record_event queried w)
              (take-Distinct 20 _ (select_ids-Distinct test w.payments d))
              (All-take (IsEarly Due w.payments) 20 _ (
                All-weaken (IsHit test w.payments) (IsEarly Due w.payments) _
                  (λ k hit. (
                    hit.0,
                    hit.1,
                    (early hit.0 hit.2).0,
                    (early hit.0 hit.2).1,
                    (early hit.0 hit.2).2,
                  ))
                  (select_ids-IsHit test w.payments d)))))
    ]

-- Longer unchanged than the timeout.
abbrev Old : Time → Time → Row → Type 0
Old now t r = r.updated_at + t < now

submission_due-early :
    (now t : Time) (r : Row)
    → submission_due now t r ≡ true
    → ((r.step ≡ funds_held) × Old now t r) × (r.status ≡ processing) × (step_code r.step < 4)
unfolding submission_due
submission_due-early now t r h = ground arith

capture_due-early :
    (now t : Time) (r : Row)
    → capture_due now t r ≡ true
    → ((r.step ≡ submitted_to_gateway) × (is_some r.psp_reference ≡ true) × Old now t r)
      × (r.status ≡ processing)
      × (step_code r.step < 4)
unfolding capture_due
capture_due-early now t r h = ground arith

wallet_due-early :
    (now t : Time) (r : Row)
    → wallet_due now t r ≡ true
    → ((r.step ≡ submitted_to_gateway) × (is_some r.psp_reference ≡ false) × Old now t r)
      × (r.status ≡ processing)
      × (step_code r.step < 4)
unfolding wallet_due
wallet_due-early now t r h = ground arith

some_not_none : {A : Type 0} (x : Option A) → is_some x ≡ true → x ≢ none
some_not_none none h = absurd (cc)
some_not_none (some a) h = λ e. cc

none_is_none : {A : Type 0} (x : Option A) → is_some x ≡ false → x ≡ none
none_is_none none h = refl
none_is_none (some a) h = absurd (cc)

expire_row-Expiry : (now t : Time) (r : Row) → Expiry now t r (expire_row now t r)
unfolding expire_row action_expired
expire_row-Expiry now t r = elim (Bool-cases (is_requires_action r.status)) [
  | inr other ↦ waits (inl (λ e. ground arith)) (ground arith)
  | inl parked ↦ elim (Bool-cases (is_stale now t r)) [
    | inr young ↦ waits (inr (ground arith)) (ground arith)
    | inl old ↦ lapses (ground arith) (ground arith) (ground arith)
  ]
]

module _ (env : Env) (timeout : Time) (w : World) where
  abbrev by_sweep : Trigger
  by_sweep = swept w.now timeout

  expire_action-Run : Run by_sweep w (expire_stale_requires_action env timeout w)
  unfolding expire_stale_requires_action
  expire_action-Run = elim (Bool-cases (env.commit_ok w.history)) [
    | inl fine ↦ rw fine (
        next (Run-one (saw (wrote true) tt refl)) (
          expired w.now timeout (expire_row w.now timeout) refl (expire_row-Expiry w.now timeout)
            refl refl refl))
    | inr down ↦ rw down (Run-one (saw (wrote false) tt refl))
  ]

  pub sweeps-Run :
      Distinct (map row_id w.payments)
      → Run by_sweep w (expire_stuck_submissions env timeout w)
        × Run by_sweep w (expire_stuck_captures env timeout w)
        × Run by_sweep w (expire_stale_wallets env timeout w)
        × Run by_sweep w (expire_stale_requires_action env timeout w)
  unfolding expire_stuck_submissions expire_stuck_captures expire_stale_wallets
  sweeps-Run keyed = (
    fail_scanned-Run env "gateway_unavailable" "processor unreachable past the submission timeout"
        by_sweep (λ r. (r.step ≡ funds_held) × Old w.now timeout r)
        (λ h r due. Reason.unsubmitted w.now timeout refl due.0 due.1)
        ("id" ∷ "status" ∷ "step" ∷ "updated_at" ∷ []) (submission_due w.now timeout) w keyed
        (submission_due-early w.now timeout),
    fail_scanned-Run env "gateway_capture_failed" "processor did not confirm the capture in time"
        by_sweep
        (λ r.
          (r.step ≡ submitted_to_gateway) × (is_some r.psp_reference ≡ true) × Old w.now timeout r)
        (λ h r due.
          Reason.unconfirmed w.now timeout refl due.0 (some_not_none r.psp_reference due.1) due.2)
        ("id" ∷ "status" ∷ "step" ∷ "psp_reference" ∷ "updated_at" ∷ []) (capture_due w.now timeout)
        w keyed (capture_due-early w.now timeout),
    fail_scanned-Run env "gateway_timeout" "wallet processor did not report an outcome" by_sweep
        (λ r.
          (r.step ≡ submitted_to_gateway) × (is_some r.psp_reference ≡ false) × Old w.now timeout r)
        (λ h r due.
          Reason.unreported w.now timeout refl due.0 (none_is_none r.psp_reference due.1) due.2)
        ("id" ∷ "status" ∷ "step" ∷ "method" ∷ "psp_reference" ∷ "updated_at" ∷ [])
        (wallet_due w.now timeout) w keyed (wallet_due-early w.now timeout),
    expire_action-Run,
  )
