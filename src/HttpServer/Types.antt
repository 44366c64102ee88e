-- ===== src/HttpServer/Types.antt =====
-- httpserver/server.go: requests, payloads and responses of the handlers.
use go2rtc_manager.Prelude.{◌≡◌, arith, ℕ, Bool, true, false, [], Option, none}
use go2rtc_manager.Prelude.Results.{Result}
use go2rtc_manager.Prelude.Text.{Text}
use go2rtc_manager.Message.{RecordStatus, unset, Message}

pub data HttpMethod : Type 0 where
  http_get http_post http_other : HttpMethod

pub record HttpRequest {ℓ} (P : Type ℓ) : Type ℓ where
  pub method : HttpMethod
  pub remote_addr : Text
  pub path : Text
  -- what `json.NewDecoder(r.Body).Decode(&payload)` gives
  pub body : Result P

pub record SnapshotPayload : Type 0 where
  pub cam_id : Text

pub record StartRecordPayload : Type 0 where
  pub type : Text
  pub mac : Text
  pub cam_id : Text
  pub duration : Text

-- `captureSnapshotHTTPResponse`; an empty text is left out of the JSON.
pub record SnapshotResponse : Type 0 where
  pub cam_id : Text
  pub saved_path : Text
  pub error : Text

-- `recordHTTPResponse`
pub record RecordResponse : Type 0 where
  pub job_id : Text
  pub status : RecordStatus
  pub type : Text
  pub mac : Text
  pub cam_id : Text
  pub duration : Text
  pub bucket : Text
  pub object_key : Text
  pub content_type : Text
  pub started_at : Text
  pub completed_at : Text
  pub error : Text

abbrev pub no_record : RecordResponse
no_record = record {
  job_id = [];
  status = unset;
  type = [];
  mac = [];
  cam_id = [];
  duration = [];
  bucket = [];
  object_key = [];
  content_type = [];
  started_at = [];
  completed_at = [];
  error = [];
}

-- How a future ends.
pub data Future : Type 0 where
  answered : Message → Future
  failed_with : Text → Future

-- What a handler does: the message that it asks the master, if any, and what `writeJSON` writes.
pub record Served {ℓ} (R : Type ℓ) : Type ℓ where
  pub asked : Option Message
  pub status_code : ℕ
  pub response : R

abbrev pub reply {ℓ} : {R : Type ℓ} → ℕ → R → Served R
reply status_code response = record { asked = none; status_code = status_code; response = response }

abbrev pub is_post : HttpMethod → Bool
is_post http_post = true
is_post _ = false

abbrev pub is_get : HttpMethod → Bool
is_get http_get = true
is_get _ = false

pub post_of_is_post : (m : HttpMethod) → is_post m ≡ true → m ≡ http_post
post_of_is_post m h = ground arith
