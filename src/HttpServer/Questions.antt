-- ===== src/HttpServer/Questions.antt =====
-- httpserver/server.go: which requests the handlers `handleGetRecordJob` and
-- `handleCaptureSnapshot` pass on to the actors.
use go2rtc_manager.Prelude.{
  ◌≡◌, refl, ◌⊎◌, inl, inr, Bool, Bool-cases, true, false, ◌||◌, none, some, arith,
}
use go2rtc_manager.Prelude.Results.{Result, ok, Result-cases}
use go2rtc_manager.Prelude.Text.{Text, CaseTable, codes, is_empty, contains}
use go2rtc_manager.Time.{Time, Duration}
use go2rtc_manager.Config.{Config}
use go2rtc_manager.Message.{
  Message, get_record_job_request, record_job_status_result, capture_snapshot_request,
  capture_snapshot_result,
}
use go2rtc_manager.HttpServer.Access.{allowed_of, record_access_allowed}
use go2rtc_manager.HttpServer.Types.{
  post_of_is_post, HttpMethod, http_get, http_post, HttpRequest, SnapshotPayload, SnapshotResponse,
  Future, answered, failed_with, Served, is_get, is_post,
}
use go2rtc_manager.HttpServer.Replies.{job_reply, snapshot_reply}
use go2rtc_manager.HttpServer.Handlers.{
  record_prefix, trim_prefix, handle_get_record_job, ask_snapshot, handle_capture_snapshot,
}

get_of_is_get : (m : HttpMethod) → is_get m ≡ true → m ≡ http_get
get_of_is_get m h = ground arith

job_reply-asked :
    (asked : Message) (job_id : Text) (f : Future) → (job_reply asked job_id f).asked ≡ some asked
unfolding job_reply
job_reply-asked asked job_id (failed_with e) = refl
job_reply-asked asked job_id (answered (record_job_status_result r)) = refl
job_reply-asked asked job_id (answered _) = refl

snapshot_reply-asked :
    (asked : Message) (cam_id : Text) (f : Future)
    → (snapshot_reply asked cam_id f).asked ≡ some asked
unfolding snapshot_reply
snapshot_reply-asked asked cam_id (failed_with e) = refl
snapshot_reply-asked asked cam_id (answered (capture_snapshot_result r)) = ground arith
snapshot_reply-asked asked cam_id (answered _) = refl

-- The job that a path names: what stands behind `/record/`, one segment that is not empty.
pub record NamesJob (path job_id : Text) : Type 0 where
  pub name : job_id ≡ trim_prefix path record_prefix
  pub given : is_empty job_id ≡ false
  pub one : contains job_id (codes "/") ≡ false

module _ (cfg : Config) (table : CaseTable) (parse_duration : Text → Result Duration)
    (ask : Message → Future) (now : Time) where
  -- `GET /record/{job_id}` asks the actors for a job only for a GET from an allowed address, and
  -- for the job that the path names, one segment that is not empty. Every other request is answered
  -- with no message to an actor.
  pub handle_get_record_job-NamesJob :
      (r : HttpRequest (Unit {0}))
      → let served = handle_get_record_job cfg table parse_duration ask now r in
        (served.asked ≡ none)
        ⊎ ((r.method ≡ http_get)
            × (record_access_allowed (allowed_of cfg.recording.allowed_ips) r.remote_addr ≡ true)
            × ((job_id : Text) × (served.asked
                  ≡ some (get_record_job_request (record { job_id = job_id })))
                × NamesJob r.path job_id))
  unfolding handle_get_record_job
  handle_get_record_job-NamesJob r = elim (Bool-cases (is_get r.method)) [
    | inr other ↦ rw (other, handle_get_record_job) (inl refl)
    | inl is ↦ elim (Bool-cases allowed) [
      | inr refused ↦ rw (is, refused, handle_get_record_job) (inl refl)
      | inl let_in ↦ elim (Bool-cases (is_empty id || contains id (codes "/"))) [
        | inl bad ↦ rw (is, let_in, bad, handle_get_record_job) (inl refl)
        | inr good ↦
            rw (is, let_in, good, handle_get_record_job)
              (inr (
                get_of_is_get r.method is,
                refl,
                (
                  id,
                  job_reply-asked _ id (ask _),
                  record { name = refl; given = ground arith; one = ground arith },
                ),
              ))
      ]
    ]
  ]
    where
      allowed : Bool
      allowed = record_access_allowed (allowed_of cfg.recording.allowed_ips) r.remote_addr

      id : Text
      id = trim_prefix r.path record_prefix

-- A decoded body with a camera, and the request for a snapshot of it.
abbrev pub AsksSnapshot : Time → HttpRequest SnapshotPayload → Served SnapshotResponse → Type 0
AsksSnapshot now r served =
    (p : SnapshotPayload) × (r.body ≡ ok p)
    × (is_empty p.cam_id ≡ false)
    × (served.asked
        ≡ some (capture_snapshot_request (record { cam_id = p.cam_id; requested_at = now })))

ask_snapshot-asked :
    (ask : Message → Future) (now : Time) (p : SnapshotPayload)
    → ((ask_snapshot ask now p).asked ≡ none)
      ⊎ ((is_empty p.cam_id ≡ false)
          × ((ask_snapshot ask now p).asked
              ≡ some (capture_snapshot_request (record { cam_id = p.cam_id; requested_at = now }))))
unfolding ask_snapshot
ask_snapshot-asked ask now p = elim (Bool-cases (is_empty p.cam_id)) [
  | inl e ↦ rw (e, ask_snapshot) (inl refl)
  | inr e ↦ rw (e, ask_snapshot) (inr (refl, snapshot_reply-asked _ p.cam_id (ask _)))
]

-- `POST /snapshots` asks the actors for a snapshot only for a POST whose body names a camera, and
-- of that camera. Every other request is answered with no message to an actor.
pub handle_capture_snapshot-AsksSnapshot :
    (ask : Message → Future) (now : Time) (r : HttpRequest SnapshotPayload)
    → ((handle_capture_snapshot ask now r).asked ≡ none)
      ⊎ ((r.method ≡ http_post) × AsksSnapshot now r (handle_capture_snapshot ask now r))
unfolding handle_capture_snapshot
handle_capture_snapshot-AsksSnapshot ask now r = elim (Bool-cases (is_post r.method)) [
  | inr other ↦ rw (other, handle_capture_snapshot) (inl refl)
  | inl post ↦ elim (Result-cases r.body) [
    | inr (e, bad) ↦ rw (post, bad, handle_capture_snapshot) (inl refl)
    | inl (p, good) ↦ elim (ask_snapshot-asked ask now p) [
      | inl nothing ↦ rw (post, good, handle_capture_snapshot) (inl nothing)
      | inr (given, asked) ↦
          rw (post, good, handle_capture_snapshot)
            (inr (post_of_is_post r.method post, (p, refl, given, asked)))
    ]
  ]
]
