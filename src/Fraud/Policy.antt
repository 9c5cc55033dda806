-- ===== src/Fraud/Policy.antt =====
-- When the fraud check lets a payment go on, stop, or wait.
use peikonpurekkusu_payment.Prelude.{
  ◌≡◌, ◌⊎◌, inl, inr, Option-cases, true, false, Option, none, some, arith,
}
use peikonpurekkusu_payment.Prelude.Int.{ℤ, negsuc, ◌<ℤ◌}
use peikonpurekkusu_payment.Fraud.{
  ScoreRequest, ScoreResponse, Decision, approve, step_up, hold, verdict_of, screen,
}

verdict_of-proceed : (d : Decision) (s : ℤ) → (verdict_of d s).proceed ≡ true → d ≡ approve
unfolding verdict_of
verdict_of-proceed d s h = ground arith

verdict_of-requires_action :
    (d : Decision) (s : ℤ) → (verdict_of d s).requires_action ≡ true → (d ≡ step_up) ⊎ (d ≡ hold)
unfolding verdict_of
verdict_of-requires_action d s h = ground arith

module _ (limit : ℤ) (score : ScoreRequest → Option ScoreResponse) (req : ScoreRequest) where
  -- A payment goes on only if the service approved it, or gave no answer while the amount is
  -- below the limit; the score of the second kind is -1.
  screen-proceed :
      (screen limit score req).proceed ≡ true
      → ((r : ScoreResponse) × (score req ≡ some r) × (r.decision ≡ approve))
        ⊎ ((score req ≡ none)
            × (req.amount_minor_units <ℤ limit)
            × ((screen limit score req).risk_score ≡ negsuc 0))
  unfolding screen
  screen-proceed h = elim (Option-cases (score req)) [
    | inl e ↦ inr (e, ground arith, ground arith)
    | inr (r, e) ↦ inl (r, e, verdict_of-proceed r.decision r.risk_score (ground arith))
  ]

  -- A payment waits for a second factor only if the service answered that it must, and then it
  -- does not go on.
  screen-requires_action :
      (screen limit score req).requires_action ≡ true
      → (r : ScoreResponse) × (score req ≡ some r)
        × ((r.decision ≡ step_up) ⊎ (r.decision ≡ hold))
        × ((screen limit score req).proceed ≡ false)
  unfolding screen
  screen-requires_action h = elim (Option-cases (score req)) [
    | inl e ↦ absurd (ground arith)
    | inr (r, e) ↦
        (r, e, verdict_of-requires_action r.decision r.risk_score (ground arith), ground arith)
  ]

  -- A payment goes on only if the service approved it, or did not answer while the amount is below
  -- the limit, with the score -1; it waits for a second factor only if the service answered that it
  -- must, and then it does not go on.
  pub screen-decided :
      ((screen limit score req).proceed ≡ true
        → ((r : ScoreResponse) × (score req ≡ some r) × (r.decision ≡ approve))
          ⊎ ((score req ≡ none)
              × (req.amount_minor_units <ℤ limit)
              × ((screen limit score req).risk_score ≡ negsuc 0)))
      × ((screen limit score req).requires_action ≡ true
          → (r : ScoreResponse) × (score req ≡ some r)
            × ((r.decision ≡ step_up) ⊎ (r.decision ≡ hold))
            × ((screen limit score req).proceed ≡ false))
  screen-decided = (screen-proceed, screen-requires_action)
