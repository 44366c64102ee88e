-- ===== src/Tests/Requests.antt =====
-- The HTTP handlers and the configuration at concrete requests (httpserver/server.go,
-- config/config.go).
use go2rtc_manager.Prelude.{◌≡◌, ◌↔◌, ◌⊎◌, refl, true, false, [], ◌∷◌, none, some, All}
use go2rtc_manager.Prelude.Results.{Result, ok}
use go2rtc_manager.Prelude.Text.{Text, codes, text_eq, is_space, trim_space, to_lower}
use go2rtc_manager.Time.{Duration}
use go2rtc_manager.Net.Ip.{Ip, parse_ip}
use go2rtc_manager.Net.Cidr.{parse_cidr}
use go2rtc_manager.Config.Load.{validate, check_crons, check_ips}
use go2rtc_manager.Config.Load.Ready.{IsReady, validate-IsReady}
use go2rtc_manager.Message.{StartRecordRequest, Message, start_record_request}
use go2rtc_manager.HttpServer.Access.{allowed_of, record_access_allowed}
use go2rtc_manager.HttpServer.Types.{
  http_post, HttpRequest, StartRecordPayload, Future, failed_with,
}
use go2rtc_manager.HttpServer.Handlers.{handle_start_record}
use go2rtc_manager.HttpServer.Referral.{IsSound}
use go2rtc_manager.HttpServer.Gate.{handle_start_record-IsSound}
use go2rtc_manager.HttpServer.Admission.{Admits, record_access_allowed-Joined}
use go2rtc_manager.Net.HostPort.Joined.{Joined, plainly}
use go2rtc_manager.HttpServer.Types.{http_get, SnapshotPayload}
use go2rtc_manager.HttpServer.Handlers.{handle_get_record_job, handle_capture_snapshot}
use go2rtc_manager.Message.{get_record_job_request}
use go2rtc_manager.HttpServer.Questions.{
  NamesJob, AsksSnapshot, handle_get_record_job-NamesJob, handle_capture_snapshot-AsksSnapshot,
}
use go2rtc_manager.Prelude.{◌*◌, arith}
use go2rtc_manager.Prelude.Int.{pos}
use go2rtc_manager.Time.Parse.{read_duration, exact}
use go2rtc_manager.Message.{
  StartRecordResult, RecordJobStatusResult, accepted, running, start_record_result,
  record_job_status_result,
}
use go2rtc_manager.HttpServer.Types.{answered}
use go2rtc_manager.HttpServer.Replies.{start_reply, job_reply}
use go2rtc_manager.HttpServer.Durations.{read_duration-response}
use go2rtc_manager.Tests.Sample.{sample_config, seconds, ascii_table}

abbrev ten_seconds : Text → Result Duration
ten_seconds s = ok (seconds 10)

abbrev timeout : Message → Future
timeout msg = failed_with (codes "future: timeout")

abbrev request : HttpRequest StartRecordPayload
request = record {
  method = http_post;
  path = codes "/record";
  remote_addr = codes "192.168.0.9:4711";
  body = ok (record {
    type = codes "ui";
    mac = codes "aa:bb";
    cam_id = codes "cam1";
    duration = codes "10s";
  });
}

handle_start_record-IsSound_example :
    ((handle_start_record sample_config ascii_table ten_seconds timeout 7 request).asked ≡ none)
    ⊎ ((http_post ≡ http_post)
        × (record_access_allowed
              (allowed_of sample_config.recording.allowed_ips)
              (codes "192.168.0.9:4711")
            ≡ true)
        × ((m : StartRecordRequest) × ((handle_start_record sample_config ascii_table ten_seconds
                timeout 7 request).asked
              ≡ some (start_record_request m))
            × IsSound sample_config m))
handle_start_record-IsSound_example =
    handle_start_record-IsSound sample_config ascii_table ten_seconds timeout 7 request

visitor_Joined : Joined (codes "192.168.0.9") (codes "192.168.0.9:4711")
visitor_Joined =
    plainly (codes "4711") (ground arith) (ground arith) (ground arith) (ground arith)
      (ground arith) (ground arith)

visitor_filled : All (λ c. is_space c ≡ false) (codes "192.168.0.9")
unfolding is_space
visitor_filled = ground arith

record_access_allowed-Joined_example :
    (record_access_allowed (allowed_of (codes "192.168.0.0/24" ∷ [])) (codes "192.168.0.9:4711")
      ≡ true)
    ↔ ((ip : Ip) × (parse_ip (codes "192.168.0.9") ≡ some ip)
        × Admits (codes "192.168.0.0/24" ∷ []) ip)
record_access_allowed-Joined_example =
    record_access_allowed-Joined (codes "192.168.0.0/24" ∷ []) (codes "192.168.0.9")
      (codes "192.168.0.9:4711") visitor_Joined visitor_filled

abbrev any_cron : Text → Result (Unit {0})
any_cron spec = ok tt

sample_validates : validate ascii_table any_cron sample_config ≡ ok sample_config
unfolding validate check_crons check_ips parse_ip parse_cidr text_eq trim_space to_lower
sample_validates = refl

validate-IsReady_example : IsReady any_cron sample_config
validate-IsReady_example =
    validate-IsReady ascii_table any_cron sample_config sample_config sample_validates

abbrev lookup_request : HttpRequest (Unit {0})
lookup_request = record {
  method = http_get;
  path = codes "/record/record_1";
  remote_addr = codes "127.0.0.1:4711";
  body = ok tt;
}

handle_get_record_job-NamesJob_example :
    ((handle_get_record_job sample_config ascii_table ten_seconds timeout 7 lookup_request).asked
      ≡ none)
    ⊎ ((http_get ≡ http_get)
        × (record_access_allowed
              (allowed_of sample_config.recording.allowed_ips)
              (codes "127.0.0.1:4711")
            ≡ true)
        × ((job_id : Text) × ((handle_get_record_job sample_config ascii_table ten_seconds timeout 7
                lookup_request).asked
              ≡ some (get_record_job_request (record { job_id = job_id })))
            × NamesJob (codes "/record/record_1") job_id))
handle_get_record_job-NamesJob_example =
    handle_get_record_job-NamesJob sample_config ascii_table ten_seconds timeout 7 lookup_request

abbrev snapshot_request : HttpRequest SnapshotPayload
snapshot_request = record {
  method = http_post;
  path = codes "/snapshots";
  remote_addr = codes "10.0.0.9:4711";
  body = ok (record { cam_id = codes "cam1" });
}

handle_capture_snapshot-AsksSnapshot_example :
    ((handle_capture_snapshot timeout 7 snapshot_request).asked ≡ none)
    ⊎ ((http_post ≡ http_post)
        × AsksSnapshot 7 snapshot_request (handle_capture_snapshot timeout 7 snapshot_request))
handle_capture_snapshot-AsksSnapshot_example =
    handle_capture_snapshot-AsksSnapshot timeout 7 snapshot_request

abbrev seven : StartRecordResult
seven = record {
  job_id = codes "record_1";
  status = accepted;
  type = codes "UI";
  mac = codes "aa:bb";
  cam_id = codes "cam1";
  duration = pos (7 * 1000000000);
  status_code = 202;
  error = [];
}

abbrev seven_seconds : RecordJobStatusResult
seven_seconds = record {
  job_id = codes "record_1";
  status = running;
  type = codes "UI";
  mac = codes "aa:bb";
  cam_id = codes "cam1";
  duration = pos (7 * 1000000000);
  bucket = [];
  object_key = [];
  content_type = [];
  started_at = 9;
  completed_at = 0;
  error = [];
  status_code = 200;
}

abbrev question : Message
question = get_record_job_request (record { job_id = codes "record_1" })

read_duration-response_example :
    (read_duration exact
        (start_reply question
          (codes "aa:bb")
          (codes "cam1")
          (answered (start_record_result seven))).response.duration
      ≡ ok (pos (7 * 1000000000)))
    × (read_duration exact
          (job_reply question
            (codes "record_1")
            (answered (record_job_status_result seven_seconds))).response.duration
        ≡ ok (pos (7 * 1000000000)))
read_duration-response_example =
    read_duration-response exact 7 (ground arith) (ground arith) question (codes "aa:bb")
      (codes "cam1") (codes "record_1") seven seven_seconds refl refl
