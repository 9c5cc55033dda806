-- ===== src/HttpApi/Secured.antt =====
-- The second factor in internal/httpapi: which payments are started without one, and that what is
-- started stands in the database.
use peikonpurekkusu_payment.Prelude.{
  ◌≡◌, ◌≢◌, refl, sym, ◌∙◌, ap, ◌⊎◌, inl, inr, arith, true, false, not, ◌||◌, List, [], ◌∷◌, Option,
  none, some, Bool-cases, take, ◌==◌,
}
use peikonpurekkusu_payment.Prelude.Int.{ℤ, ltb_ℤ}
use peikonpurekkusu_payment.Prelude.Bytes.{Bytes}
use peikonpurekkusu_payment.Payment.{Uuid, Row, requires_action}
use peikonpurekkusu_payment.Payment.Table.{lookup}
use peikonpurekkusu_payment.Payment.{fraud_screened, processing, is_requires_action, Payment}
use peikonpurekkusu_payment.Payment.Table.{lookup_id}
use peikonpurekkusu_payment.Saga.Steps.{no_extra}
use peikonpurekkusu_payment.Saga.Persist.{SagaError, transition, load}
use peikonpurekkusu_payment.Saga.World.{OutboxRow, World, Env}
use peikonpurekkusu_payment.Saga.Drive.{then_spawn, resume_loaded, resume_after_step_up}
use peikonpurekkusu_payment.Saga.Gaps.{resume_only_own}
use peikonpurekkusu_payment.HttpApi.{Request, get}
use peikonpurekkusu_payment.HttpApi.StepUp.{stepped_up, fresh, read_auth_strength, step_up_required}
use peikonpurekkusu_payment.HttpApi.Create.{
  CreateRequest, Response, Api, Outside, gated, body_limit, create_payment,
}
use peikonpurekkusu_payment.HttpApi.Gate.{IsPassed, create_payment-cases}
use peikonpurekkusu_payment.HttpApi.Resume.{after_resume, resume_with, resume_ids, resume_payment}

-- The reader of the amount alone agrees with the reader of the whole body.
abbrev pub IsProbe : Outside → Type 0
IsProbe out =
    (body : Bytes) (req : CreateRequest)
    → out.decode_create body ≡ some req
    → out.decode_amount body ≡ some req.minor_units

module _ (env : Env) (out : Outside) (r : Request) (s : Api) where
  -- A second factor, within the time that one counts.
  abbrev pub HasFactor : Type 0
  HasFactor =
      (stepped_up (read_auth_strength r.headers) ≡ true)
      × (fresh s.world.now out.step_up_max_age (read_auth_strength r.headers) ≡ true)

  gate_open :
      (amount : ℤ)
      → step_up_required out.step_up_limit out.step_up_max_age s.world.now r.headers amount ≡ false
      → (ltb_ℤ amount out.step_up_limit ≡ true) ⊎ HasFactor
  unfolding step_up_required
  gate_open amount h = elim (Bool-cases (ltb_ℤ amount out.step_up_limit)) [
    | inl small ↦ inl small
    | inr large ↦ inr (ground (arith, rw large at h))
  ]

  -- What a creation that is let through has shown.
  abbrev pub IsSecured : Response × Api → Type 0
  IsSecured x =
      (row : Row) × (x.1.started ≡ row.id ∷ s.started)
      × (x.1.world.payments ≡ row ∷ s.world.payments)
      × (env.uuid_parse (get "X-User-Id" r.headers) ≡ some row.user_id)
      × ((ltb_ℤ row.amount out.step_up_limit ≡ true) ⊎ HasFactor)

  secured : IsProbe out → (x : Response × Api) → IsPassed env out s r x → IsSecured x
  unfolding gated
  secured probe x p =
      let m = p.creation in
      let (own, amount, _) = m.requested_by in
      let known : out.decode_amount (take body_limit p.full) ≡ some m.row.amount =
        probe (take body_limit p.full) m.req m.decoded ∙ ap (λ a. some a) (sym amount) in
      (
        m.row,
        m.started,
        m.payments,
        p.caller ∙ ap (λ a. some a) (sym own),
        gate_open m.row.amount (rw (known, gated) at p.gate),
      )

  -- If a creation starts anything, it starts one payment of the caller that stands in the table, and
  -- that payment is below the limit, or the caller has a second factor that is recent. The two
  -- readers of the body agree on the amount.
  pub create_needs_factor :
      IsProbe out
      → (create_payment env out r s).1.started ≢ s.started
      → IsSecured (create_payment env out r s)
  create_needs_factor probe changed = elim (create_payment-cases env out s r) [
    | inl i ↦ absurd (changed i.started)
    | inr p ↦ secured probe (create_payment env out r s) p
  ]

  -- A creation inserts a payment, queues its event and starts it, or does nothing of these.
  pub create_payment-atomic :
      let t = (create_payment env out r s).1 in
      ((t.world.payments ≡ s.world.payments)
        × (t.world.outbox ≡ s.world.outbox)
        × (t.started ≡ s.started))
      ⊎ ((row : Row) × (event : OutboxRow) × (lookup row.id s.world.payments ≡ none)
          × (t.world.payments ≡ row ∷ s.world.payments)
          × (t.world.outbox ≡ event ∷ s.world.outbox)
          × (event.topic ≡ "payments.payment.requested.v1")
          × (event.aggregate_id ≡ env.uuid_string row.id)
          × (t.started ≡ row.id ∷ s.started))
  create_payment-atomic = elim (create_payment-cases env out s r) [
    | inl i ↦ inl (i.payments, i.outbox, i.started)
    | inr p ↦
        (let m = p.creation in
          let (topic, key, _) = m.announces in
          inr (m.row, m.event, m.fresh, m.payments, m.outbox, topic, key, m.started))
  ]

  -- What a resumption that is let through has shown.
  abbrev pub IsResumed : Response × Api → Type 0
  IsResumed x =
      (row : Row) × (lookup row.id s.world.payments ≡ some row)
      × (env.uuid_parse r.path_id ≡ some row.id)
      × (env.uuid_parse (get "X-User-Id" r.headers) ≡ some row.user_id)
      × (row.status ≡ requires_action)
      × (x.1.started ≡ row.id ∷ s.started)
      × HasFactor

  Spawns : Option SagaError × List Uuid × World → Type 0
  Spawns x = (x.1 ≡ []) ⊎ (x.0 ≡ none)

  then_spawn-Spawns : (id : Uuid) (x : Option SagaError × World) → Spawns (then_spawn env id x)
  unfolding then_spawn Spawns
  then_spawn-Spawns id (some e, w) = inl refl
  then_spawn-Spawns id (none, w) = inr refl

  resume_loaded-Spawns :
      (user_id : Uuid) (x : (SagaError ⊎ Payment) × World) → Spawns (resume_loaded env user_id x)
  unfolding resume_loaded Spawns
  resume_loaded-Spawns user_id (inl e, w) = inl refl
  resume_loaded-Spawns user_id (inr p, w) =
      elim (Bool-cases (not (p.user_id == user_id) || not (is_requires_action p.status))) [
        | inl bad ↦ rw bad (inl refl)
        | inr good ↦
            rw good (then_spawn-Spawns p.id (transition env p fraud_screened processing no_extra w))
      ]

  -- Nothing is started without success.
  resume-Spawns : (id user_id : Uuid) (w : World) → Spawns (resume_after_step_up env id user_id w)
  unfolding resume_after_step_up
  resume-Spawns id user_id w = resume_loaded-Spawns user_id (load env id w)

  after_resume-idle :
      (id : Uuid) (x : Option SagaError × List Uuid × World)
      → x.1 ≡ []
      → (after_resume env out id s x).1.started ≡ s.started
  unfolding after_resume
  after_resume-idle id (e, [], w) h = refl
  after_resume-idle id (e, p ∷ ps, w) h = absurd (cc)

  after_resume-starts :
      (id p : Uuid) (x : Option SagaError × List Uuid × World)
      → x.1 ≡ p ∷ []
      → (after_resume env out id s x).1.started ≡ p ∷ s.started
  unfolding after_resume
  after_resume-starts id p (e, [], w) h = absurd (cc)
  after_resume-starts id p (e, q ∷ ps, w) h = cc

  IsResumed-row :
      (id user_id : Uuid)
      → env.uuid_parse r.path_id ≡ some id
      → env.uuid_parse (get "X-User-Id" r.headers) ≡ some user_id
      → HasFactor
      → let x = after_resume env out id s (resume_after_step_up env id user_id s.world) in
        x.1.started ≢ s.started → IsResumed x
  unfolding Spawns
  IsResumed-row id user_id path caller factor changed = elim (resume-Spawns id user_id s.world) [
    | inl none_started ↦ absurd (changed (after_resume-idle id _ none_started))
    | inr ok ↦
        (let (row, found, own, waits, starts) = resume_only_own env id user_id s.world ok in
          let same : row.id ≡ id = lookup_id id s.world.payments row found in
          (
            row,
            rw same found,
            rw same path,
            rw own caller,
            waits,
            rw same (after_resume-starts id id _ starts),
            factor,
          ))
  ]

  with_factor :
      (id user_id : Uuid)
      → env.uuid_parse r.path_id ≡ some id
      → env.uuid_parse (get "X-User-Id" r.headers) ≡ some user_id
      → let x = resume_with env out user_id id (read_auth_strength r.headers) s in
        x.1.started ≢ s.started → IsResumed x
  unfolding resume_with
  with_factor id user_id path caller =
      let auth = read_auth_strength r.headers in
      elim (Bool-cases
        (not (stepped_up auth) || not (fresh s.world.now out.step_up_max_age auth))) [
          | inl lacks ↦ rw (lacks, resume_with) (λ changed. absurd (changed refl))
          | inr has ↦
              rw (has, resume_with) (IsResumed-row id user_id path caller (ground (arith, has)))
        ]

  with_ids :
      (o q : Option Uuid)
      → env.uuid_parse (get "X-User-Id" r.headers) ≡ o
      → env.uuid_parse r.path_id ≡ q
      → let x = resume_ids env out o q r s in x.1.started ≢ s.started → IsResumed x
  unfolding resume_ids
  with_ids none q caller path = λ changed. absurd (changed refl)
  with_ids (some user_id) none caller path = λ changed. absurd (changed refl)
  with_ids (some user_id) (some id) caller path = with_factor id user_id path caller

  -- If a resumption starts anything, it starts the payment of its path, which waited for a second
  -- factor and is the caller's, and the caller has a second factor that is recent.
  pub resume_needs_factor :
      (resume_payment env out r s).1.started ≢ s.started → IsResumed (resume_payment env out r s)
  unfolding resume_payment
  resume_needs_factor =
      with_ids (env.uuid_parse (get "X-User-Id" r.headers)) (env.uuid_parse r.path_id) refl refl
