-- ===== src/Snapshot.antt =====
-- actor/SnapshotActor.go: the actor that fetches one frame of a camera and writes it to a file.
pub mod Frames
pub mod Names
pub mod Saving
use go2rtc_manager.Prelude.{
  ℕ, Bool, true, false, not, ◌&&◌, ◌||◌, List, [], ◌∷◌, ◌++◌, leb, ltb, ◌==◌, if◌then◌else◌,
}
use go2rtc_manager.Prelude.Results.{Result, ok, err, wrap}
use go2rtc_manager.Prelude.Text.{Text, codes, is_empty, trim_space, replace_chars, has_prefix}
use go2rtc_manager.Prelude.Paths.{path_join}
use go2rtc_manager.Config.{Config}
use go2rtc_manager.Message.{
  CaptureSnapshotRequest, CaptureSnapshotResult, Message, capture_snapshot_request,
  capture_snapshot_result,
}
use go2rtc_manager.Effect.{Effect, respond}
use go2rtc_manager.Go2Rtc.Calls.{get, Response, Call, makes_dir, writes_file, Api, request_go2rtc}
use go2rtc_manager.Go2Rtc.Actor.{is_failure, unexpected_status}

pub record SnapshotActor : Type 0 where
  pub config : Config

-- `sanitizeFileName`: `/ \ : * ? " < > |`
abbrev pub is_reserved : ℕ → Bool
is_reserved c =
    c == b'/'
    || c == 92
    || c == b':'
    || c == b'*'
    || c == b'?'
    || c == 34
    || c == b'<'
    || c == b'>'
    || c == b'|'

unfoldable pub sanitize_file_name : Text → Text
unfolding replace_chars trim_space
sanitize_file_name name =
    let clean = trim_space (replace_chars is_reserved b'_' name) in
    if is_empty clean then codes "snapshot" else clean

-- What `fetchSnapshot` makes of an answer.
unfoldable pub read_frame : Text → Response → Result Text
unfolding unexpected_status has_prefix
read_frame cam_id response = elim response.body [
  | err e ↦ err (codes "read response: " ++ e)
  | ok body ↦
      if response.status_code == 404
      then err (codes "stream not found: " ++ cam_id)
      else if is_failure response.status_code
      then err (unexpected_status response.status_code body)
      else if not (is_empty response.content_type)
          && not (has_prefix response.content_type (codes "image/"))
      then err (codes "unexpected content type: " ++ response.content_type)
      else ok body
]

-- A status code, and a value or an error.
abbrev pub Coded {ℓ} : Type ℓ → Type ℓ
Coded A = ℕ × Result A

-- The status and the result of an exchange.
unfoldable pub frame_of : Text → Result Response → Coded Text
unfolding read_frame
frame_of cam_id (err e) = (0, err e)
frame_of cam_id (ok response) = (response.status_code, read_frame cam_id response)

-- `fetchSnapshot`; its caller drops the content type.
unfoldable pub fetch_snapshot : Api → SnapshotActor → Text → List Call × Coded Text
unfolding request_go2rtc frame_of
fetch_snapshot api a cam_id =
    let (calls, response) =
      request_go2rtc api a.config.go2rtc get (codes "/api/frame.jpeg") ((codes "src", cam_id) ∷ [])
        (codes "build request: ") (codes "call go2rtc frame api: ") in
    (calls, frame_of cam_id response)

-- `filepath.Join(storageDir, sanitizeFileName(camID) + ".jpg")`
unfoldable pub full_path : SnapshotActor → Text → Text
unfolding sanitize_file_name path_join
full_path a cam_id =
    path_join (a.config.snapshot.storage_dir ∷ (sanitize_file_name cam_id ++ codes ".jpg") ∷ [])

-- The file write of `captureAndSave`.
unfoldable pub write_frame : Api → SnapshotActor → Text → ℕ → Text → List Call × Coded Text
unfolding full_path
write_frame api a cam_id status body =
    let file = full_path a cam_id in
    elim (api.write_file file body) [
      | err e ↦ (writes_file file body ∷ [], (0, err (codes "write snapshot file: " ++ e)))
      | ok _ ↦ (writes_file file body ∷ [], (status, ok file))
    ]

-- The end of `captureAndSave`, from what `fetchSnapshot` returns.
unfoldable pub save_frame : Api → SnapshotActor → Text → Coded Text → List Call × Coded Text
unfolding write_frame
save_frame api a cam_id (status, err e) = ([], (status, err e))
save_frame api a cam_id (status, ok body) = elim (api.make_dir a.config.snapshot.storage_dir) [
  | err e ↦
      (makes_dir a.config.snapshot.storage_dir ∷ [], (0, err (codes "create storage dir: " ++ e)))
  | ok _ ↦
      let (calls, result) = write_frame api a cam_id status body in
      (makes_dir a.config.snapshot.storage_dir ∷ calls, result)
]

-- `captureAndSave`
unfoldable pub capture_and_save : Api → SnapshotActor → Text → List Call × Coded Text
unfolding fetch_snapshot save_frame
capture_and_save api a cam_id =
    let (calls, frame) = fetch_snapshot api a cam_id in
    let (more, saved) = save_frame api a cam_id frame in (calls ++ more, saved)

unfoldable pub snapshot_result : CaptureSnapshotRequest → Coded Text → CaptureSnapshotResult
snapshot_result msg (status, ok path) = record {
  cam_id = msg.cam_id;
  requested_at = msg.requested_at;
  saved_path = path;
  status_code = status;
  error = [];
}
snapshot_result msg (status, err e) = record {
  cam_id = msg.cam_id;
  requested_at = msg.requested_at;
  saved_path = [];
  status_code = status;
  error = e;
}

unfoldable pub receive : Api → Message → SnapshotActor → List Call × List Effect
unfolding capture_and_save snapshot_result
receive api (capture_snapshot_request msg) a =
    let (calls, saved) = capture_and_save api a msg.cam_id in
    (calls, respond (capture_snapshot_result (snapshot_result msg saved)) ∷ [])
receive api _ a = ([], [])
