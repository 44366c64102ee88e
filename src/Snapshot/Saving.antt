-- ===== src/Snapshot/Saving.antt =====
-- actor/SnapshotActor.go: when a snapshot counts as saved.
use go2rtc_manager.Prelude.{ℕ, ◌≤◌, ◌<◌, ◌≡◌, ◌⊎◌, true, some, List, [], ◌∷◌, ◌++◌}
use go2rtc_manager.Prelude.Results.{ok}
use go2rtc_manager.Prelude.Text.{Text, codes, has_prefix}
use go2rtc_manager.Prelude.Maps.{lookup}
use go2rtc_manager.Prelude.Paths.{path_join}
use go2rtc_manager.Go2Rtc.Calls.{
  get, Url, Request, Response, Call, exchanges, makes_dir, writes_file, Api, trim_right_slashes,
}
use go2rtc_manager.Snapshot.{SnapshotActor, Coded, full_path, capture_and_save, sanitize_file_name}
use go2rtc_manager.Snapshot.Names.{IsFileName}

-- What a saved snapshot rests on: one request to go2rtc for a frame of the camera, its answer, and
-- the file that its body was written to.
pub record Saves (api : Api) (a : SnapshotActor) (cam_id : Text) (status : ℕ) (path : Text)
    : Type 0 where
  pub base : Url
  pub request : Request
  pub response : Response
  pub body : Text
  pub parsed : api.parse_url (trim_right_slashes a.config.go2rtc.base_url) ≡ ok base
  pub gets : request.method ≡ get
  pub from : request.url.path ≡ path_join (base.path ∷ codes "/api/frame.jpeg" ∷ [])
  pub asks : lookup (codes "src") request.url.query ≡ some cam_id
  pub answered : api.exchange request ≡ ok response
  pub code : response.status_code ≡ status
  pub success : (200 ≤ status) × (status < 300)
  pub image :
      (response.content_type ≡ []) ⊎ (has_prefix response.content_type (codes "image/") ≡ true)
  pub read : response.body ≡ ok body
  pub place :
      path
      ≡ path_join (a.config.snapshot.storage_dir ∷ (sanitize_file_name cam_id ++ codes ".jpg") ∷ [])
  pub safe : IsFileName (sanitize_file_name cam_id)
  pub dir : api.make_dir a.config.snapshot.storage_dir ≡ ok tt
  pub written : api.write_file path body ≡ ok tt
  pub order :
      (capture_and_save api a cam_id).0
      ≡ exchanges request ∷ makes_dir a.config.snapshot.storage_dir ∷ writes_file path body ∷ []

-- What the end of `captureAndSave` did, if it saved.
record Wrote (api : Api) (a : SnapshotActor) (cam_id : Text) (frame : Coded Text) (status : ℕ)
    (path : Text) (calls : List Call) : Type 0 where
  body : Text
  got : frame ≡ (status, ok body)
  place : path ≡ full_path a cam_id
  dir : api.make_dir a.config.snapshot.storage_dir ≡ ok tt
  written : api.write_file path body ≡ ok tt
  order : calls ≡ makes_dir a.config.snapshot.storage_dir ∷ writes_file path body ∷ []
