-- ===== src/HttpServer/Handlers.antt =====
-- httpserver/server.go: `handleCaptureSnapshot`, `handleStartRecord` and `handleGetRecordJob`.
use go2rtc_manager.Prelude.{not, ◌&&◌, ◌||◌, [], ◌∷◌, Option, none, some, if◌then◌else◌}
use go2rtc_manager.Prelude.Int.{pos, leb_ℤ, ltb_ℤ}
use go2rtc_manager.Prelude.Results.{Result, ok, err}
use go2rtc_manager.Prelude.Text.{
  Text, CaseTable, codes, text_eq, is_empty, trim_space, to_upper, has_prefix, contains,
}
use go2rtc_manager.Time.{Time, Duration}
use go2rtc_manager.Config.{Config}
use go2rtc_manager.Message.{
  Message, capture_snapshot_request, start_record_request, get_record_job_request,
}
use go2rtc_manager.HttpServer.Access.{allowed_of, record_access_allowed}
use go2rtc_manager.HttpServer.Types.{
  HttpRequest, SnapshotPayload, StartRecordPayload, SnapshotResponse, RecordResponse, Future,
  Served, reply, is_post, is_get,
}
use go2rtc_manager.HttpServer.Replies.{
  snapshot_error, snapshot_reply, record_error, start_reply, job_reply,
}

-- `handleCaptureSnapshot` with a body that was decoded.
unfoldable pub ask_snapshot : (Message → Future) → Time → SnapshotPayload → Served SnapshotResponse
unfolding snapshot_reply
ask_snapshot ask now payload =
    if is_empty payload.cam_id
    then reply 400 (snapshot_error [] (codes "cam_id is required"))
    else (let asked =
          capture_snapshot_request (record { cam_id = payload.cam_id; requested_at = now }) in
        snapshot_reply asked payload.cam_id (ask asked))

unfoldable pub handle_capture_snapshot :
    (Message → Future) → Time → HttpRequest SnapshotPayload → Served SnapshotResponse
unfolding ask_snapshot
handle_capture_snapshot ask now r =
    if not (is_post r.method)
    then reply 405 (snapshot_error [] (codes "method not allowed"))
    else elim r.body [
      | err e ↦ reply 400 (snapshot_error [] (codes "invalid json body"))
      | ok payload ↦ ask_snapshot ask now payload
    ]

-- The checks of `handleStartRecord` on the trimmed texts, in their order; `none` is no fault.
unfoldable pub payload_fault : Text → Text → Text → Text → Option Text
payload_fault record_type mac cam_id duration_text =
    if is_empty record_type
    then some (codes "TYPE is required")
    else if not (text_eq record_type (codes "UI")) && not (text_eq record_type (codes "BODYCAM"))
    then some (codes "TYPE must be UI or BODYCAM")
    else if is_empty mac
    then some (codes "mac is required")
    else if is_empty cam_id
    then some (codes "cam_id is required")
    else if is_empty duration_text
    then some (codes "duration is required")
    else none

-- The checks on the duration.
unfoldable pub duration_fault : Duration → Duration → Option Text
duration_fault max_duration duration =
    if leb_ℤ duration (pos 0)
    then some (codes "duration must be greater than zero")
    else if ltb_ℤ max_duration duration
    then some (codes "duration exceeds record.max_duration")
    else none

abbrev pub record_prefix : Text
record_prefix = codes "/record/"

abbrev drop_chars : Text → Text → Text
drop_chars [] s = s
drop_chars (c ∷ p) [] = []
drop_chars (c ∷ p) (d ∷ s) = drop_chars p s

-- `strings.TrimPrefix`
unfoldable pub trim_prefix : Text → Text → Text
unfolding has_prefix
trim_prefix s prefix = if has_prefix s prefix then drop_chars prefix s else s

module _ (cfg : Config) (table : CaseTable) (parse_duration : Text → Result Duration)
    (ask : Message → Future) (now : Time) where
  -- `handleStartRecord` from `time.ParseDuration` on.
  unfoldable pub ask_record : Text → Text → Text → Duration → Served RecordResponse
  unfolding duration_fault start_reply
  ask_record record_type mac cam_id duration =
      elim (duration_fault cfg.recording.max_duration duration) [
        | some e ↦ reply 400 (record_error e)
        | none ↦
            (let asked = start_record_request (record {
              type = record_type;
              mac = mac;
              cam_id = cam_id;
              duration = duration;
              requested_at = now;
            }) in
              start_reply asked mac cam_id (ask asked))
      ]

  -- `handleStartRecord` with a body that was decoded.
  unfoldable pub check_record : StartRecordPayload → Served RecordResponse
  unfolding payload_fault ask_record
  check_record payload =
      let record_type = to_upper table (trim_space payload.type) in
      let mac = trim_space payload.mac in
      let cam_id = trim_space payload.cam_id in
      let duration_text = trim_space payload.duration in
      elim (payload_fault record_type mac cam_id duration_text) [
        | some e ↦ reply 400 (record_error e)
        | none ↦ elim (parse_duration duration_text) [
          | err e ↦ reply 400 (record_error (codes "duration is invalid"))
          | ok duration ↦ ask_record record_type mac cam_id duration
        ]
      ]

  unfoldable pub handle_start_record : HttpRequest StartRecordPayload → Served RecordResponse
  unfolding check_record
  handle_start_record r =
      if not (is_post r.method)
      then reply 405 (record_error (codes "method not allowed"))
      else if not (record_access_allowed (allowed_of cfg.recording.allowed_ips) r.remote_addr)
      then reply 403 (record_error (codes "record access forbidden"))
      else elim r.body [
        | err e ↦ reply 400 (record_error (codes "invalid json body"))
        | ok payload ↦ check_record payload
      ]

  unfoldable pub handle_get_record_job : HttpRequest (Unit {0}) → Served RecordResponse
  unfolding trim_prefix contains job_reply
  handle_get_record_job r =
      let job_id = trim_prefix r.path record_prefix in
      if not (is_get r.method)
      then reply 405 (record_error (codes "method not allowed"))
      else if not (record_access_allowed (allowed_of cfg.recording.allowed_ips) r.remote_addr)
      then reply 403 (record_error (codes "record access forbidden"))
      else if is_empty job_id || contains job_id (codes "/")
      then reply 404 (record_error (codes "record job not found"))
      else (let asked = get_record_job_request (record { job_id = job_id }) in
          job_reply asked job_id (ask asked))
