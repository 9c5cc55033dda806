-- ===== src/HttpApi/Resume.antt =====
-- `resumePayment` of internal/httpapi/server.go.
use peikonpurekkusu_payment.Prelude.{not, ◌||◌, List, [], ◌∷◌, Option, none, some, if◌then◌else◌}
use peikonpurekkusu_payment.Payment.{Uuid}
use peikonpurekkusu_payment.Saga.World.{World, Env}
use peikonpurekkusu_payment.Saga.Persist.{SagaError, not_resumable}
use peikonpurekkusu_payment.Saga.Drive.{resume_after_step_up}
use peikonpurekkusu_payment.HttpApi.{Request, get}
use peikonpurekkusu_payment.HttpApi.StepUp.{AuthStrength, stepped_up, fresh, read_auth_strength}
use peikonpurekkusu_payment.HttpApi.Create.{
  problem, http_error, resumed, Response, responds, Api, Outside,
}

module _ (env : Env) (out : Outside) where
  unfoldable pub resume_answer : Uuid → Option SagaError → Response
  resume_answer id none = responds 202 (resumed id)
  resume_answer id (some not_resumable) =
      responds 409 (http_error 409 "payment is not awaiting step-up")
  resume_answer id (some _) = responds 500 (http_error 500 "internal error")

  unfoldable pub after_resume : Uuid → Api → Option SagaError × List Uuid × World → Response × Api
  unfolding resume_answer
  after_resume id s (e, starts, w) = (
    resume_answer id e,
    record s { world = w; started = (elim starts [ [] ↦ s.started | p ∷ _ ↦ p ∷ s.started ]) },
  )

  unfoldable pub resume_with : Uuid → Uuid → AuthStrength → Api → Response × Api
  unfolding after_resume resume_after_step_up stepped_up fresh
  resume_with user_id id auth s =
      if not (stepped_up auth) || not (fresh s.world.now out.step_up_max_age auth)
      then (
        responds 401
            (problem "step_up_required: complete a recent second factor to resume this payment"),
        s,
      )
      else after_resume id s (resume_after_step_up env id user_id s.world)

  unfoldable pub resume_ids : Option Uuid → Option Uuid → Request → Api → Response × Api
  unfolding resume_with read_auth_strength
  resume_ids none _ r s = (responds 401 (http_error 401 "missing identity"), s)
  resume_ids (some user_id) none r s = (responds 400 (http_error 400 "invalid payment id"), s)
  resume_ids (some user_id) (some id) r s = resume_with user_id id (read_auth_strength r.headers) s

  unfoldable pub resume_payment : Request → Api → Response × Api
  unfolding resume_ids get
  resume_payment r s =
      resume_ids (env.uuid_parse (get "X-User-Id" r.headers)) (env.uuid_parse r.path_id) r s
