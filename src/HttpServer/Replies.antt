-- ===== src/HttpServer/Replies.antt =====
-- httpserver/server.go: what the handlers answer once the future has ended, and
-- `recordStatusHTTPResponse`.
use go2rtc_manager.Prelude.{ℕ, not, [], some, ◌==◌, if◌then◌else◌}
use go2rtc_manager.Prelude.Int.{pos, ltb_ℤ}
use go2rtc_manager.Prelude.Text.{Text, codes, is_empty}
use go2rtc_manager.Time.{is_zero}
use go2rtc_manager.Time.Format.{rfc3339}
use go2rtc_manager.Time.Print.{print_duration}
use go2rtc_manager.Message.{
  RecordJobStatusResult, Message, capture_snapshot_result, start_record_result,
  record_job_status_result,
}
use go2rtc_manager.HttpServer.Types.{
  SnapshotResponse, RecordResponse, no_record, Future, answered, failed_with, Served,
}

-- The switch on the status of a failed snapshot.
abbrev pub snapshot_status : ℕ → ℕ
snapshot_status status = if status == 404 then 404 else if status == 502 then 502 else 500

abbrev pub snapshot_error : Text → Text → SnapshotResponse
snapshot_error cam_id e = record { cam_id = cam_id; saved_path = []; error = e }

-- The end of `handleCaptureSnapshot`, from the future.
unfoldable pub snapshot_reply : Message → Text → Future → Served SnapshotResponse
snapshot_reply asked cam_id (failed_with e) = record {
  asked = some asked;
  status_code = 504;
  response = snapshot_error cam_id e;
}
snapshot_reply asked cam_id (answered (capture_snapshot_result result)) =
    if not (is_empty result.error)
    then record {
      asked = some asked;
      status_code = snapshot_status result.status_code;
      response = snapshot_error result.cam_id result.error;
    }
    else record {
      asked = some asked;
      status_code = 201;
      response = record { cam_id = result.cam_id; saved_path = result.saved_path; error = [] };
    }
snapshot_reply asked cam_id (answered _) = record {
  asked = some asked;
  status_code = 500;
  response = snapshot_error cam_id (codes "unexpected actor response");
}

abbrev pub record_error : Text → RecordResponse
record_error e = record no_record { error = e }

abbrev pub status_or : ℕ → ℕ → ℕ
status_or status default = if status == 0 then default else status

-- The end of `handleStartRecord`, from the future.
unfoldable pub start_reply : Message → Text → Text → Future → Served RecordResponse
start_reply asked mac cam_id (failed_with e) = record {
  asked = some asked;
  status_code = 504;
  response = record no_record { mac = mac; cam_id = cam_id; error = e };
}
start_reply asked mac cam_id (answered (start_record_result result)) =
    if not (is_empty result.error)
    then record {
      asked = some asked;
      status_code = status_or result.status_code 500;
      response = record no_record {
        type = result.type;
        mac = result.mac;
        cam_id = result.cam_id;
        duration = print_duration result.duration;
        error = result.error;
      };
    }
    else record {
      asked = some asked;
      status_code = 202;
      response = record no_record {
        job_id = result.job_id;
        status = result.status;
        type = result.type;
        mac = result.mac;
        cam_id = result.cam_id;
        duration = print_duration result.duration;
      };
    }
start_reply asked mac cam_id (answered _) = record {
  asked = some asked;
  status_code = 500;
  response = record no_record {
    mac = mac;
    cam_id = cam_id;
    error = codes "unexpected actor response";
  };
}

unfoldable pub record_status_http_response : RecordJobStatusResult → RecordResponse
record_status_http_response result = record {
  job_id = result.job_id;
  status = result.status;
  type = result.type;
  mac = result.mac;
  cam_id = result.cam_id;
  duration = if ltb_ℤ (pos 0) result.duration then print_duration result.duration else [];
  bucket = result.bucket;
  object_key = result.object_key;
  content_type = result.content_type;
  started_at = if is_zero result.started_at then [] else rfc3339 result.started_at;
  completed_at = if is_zero result.completed_at then [] else rfc3339 result.completed_at;
  error = result.error;
}

-- The end of `handleGetRecordJob`, from the future.
unfoldable pub job_reply : Message → Text → Future → Served RecordResponse
unfolding record_status_http_response
job_reply asked job_id (failed_with e) = record {
  asked = some asked;
  status_code = 504;
  response = record no_record { job_id = job_id; error = e };
}
job_reply asked job_id (answered (record_job_status_result result)) = record {
  asked = some asked;
  status_code = status_or result.status_code 200;
  response = record_status_http_response result;
}
job_reply asked job_id (answered _) = record {
  asked = some asked;
  status_code = 500;
  response = record no_record { job_id = job_id; error = codes "unexpected actor response" };
}
