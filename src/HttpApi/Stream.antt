-- ===== src/HttpApi/Stream.antt =====
-- `streamEvents` of internal/httpapi/server.go: what it writes, for any order in which its select finds
-- updates, ticks of the heartbeat, and the end of the request.
use peikonpurekkusu_payment.Prelude.{
  ◌≡◌, refl, sym, ◌∙◌, ap, false, List, [], ◌∷◌, none, ◌++◌, if◌then◌else◌,
}
use peikonpurekkusu_payment.Payment.{Uuid, Row, is_processing}
use peikonpurekkusu_payment.Saga.World.{Update, World, Env}
use peikonpurekkusu_payment.HttpApi.{Request, get}
use peikonpurekkusu_payment.HttpApi.Reads.{
  Answer, failed_with, ok_with, found_or_not, own_row, on_path_ids,
}

-- What the select finds next.
pub data Signal : Type 0 where
  request_done beats channel_closed : Signal
  updates : Update → Signal

pub data Frame : Type 0 where
  status_frame : Update → Frame
  keepalive : Frame

-- The loop: an update that is no longer processing is the last.
unfoldable pub follow : List Signal → List Frame
follow [] = []
follow (request_done ∷ rest) = []
follow (channel_closed ∷ rest) = []
follow (beats ∷ rest) = keepalive ∷ follow rest
follow (updates u ∷ rest) =
    let later = follow rest in
    if is_processing u.status then status_frame u ∷ later else status_frame u ∷ []

abbrev pub snapshot_of : Uuid → Row → Update
snapshot_of id r = record { payment_id = id; status = r.status; step = r.step }

-- The first frame is the payment's state at the query, which is made before the channel is
-- subscribed.
unfoldable pub stream_row : Uuid → List Signal → Answer Row → Answer (List Frame)
unfolding follow
stream_row id signals (failed_with code text) = failed_with code text
stream_row id signals (ok_with r) = ok_with (status_frame (snapshot_of id r) ∷ follow signals)

module _ (env : Env) where
  unfoldable pub query_status : List Signal → World → Uuid → Uuid → Answer (List Frame)
  unfolding stream_row found_or_not own_row
  query_status signals w user_id id =
      stream_row id signals
        (found_or_not (if env.query_ok w.history then own_row id user_id w else none))

  unfoldable pub stream_events : Request → List Signal → World → Answer (List Frame)
  unfolding query_status on_path_ids get
  stream_events r signals w =
      on_path_ids env (env.uuid_parse (get "X-User-Id" r.headers)) (env.uuid_parse r.path_id)
        (query_status signals w)

-- Nothing is written after an update that is no longer processing.
pub follow-ends :
    (before after : List Signal) (u : Update)
    → is_processing u.status ≡ false
    → follow (before ++ updates u ∷ after) ≡ follow (before ++ updates u ∷ [])
unfolding follow
follow-ends [] after u h =
    ap (λ b. if b then status_frame u ∷ follow after else status_frame u ∷ []) h
    ∙ sym (ap (λ b. if b then status_frame u ∷ [] else status_frame u ∷ []) h)
follow-ends (request_done ∷ rest) after u h = refl
follow-ends (channel_closed ∷ rest) after u h = refl
follow-ends (beats ∷ rest) after u h = ap (λ fs. keepalive ∷ fs) (follow-ends rest after u h)
follow-ends (updates v ∷ rest) after u h =
    ap (λ fs. if is_processing v.status then status_frame v ∷ fs else status_frame v ∷ [])
      (follow-ends rest after u h)
