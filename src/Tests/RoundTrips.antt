-- ===== src/Tests/RoundTrips.antt =====
-- A recording asked for over HTTP and then looked up (httpserver/server.go).
use go2rtc_manager.Prelude.{ℕ, ◌≡◌, ◌⊎◌, refl, true, inl, inr, List, [], ◌∷◌, ◌++◌}
use go2rtc_manager.Prelude.Results.{Result, ok}
use go2rtc_manager.Prelude.Text.{Text, codes, text_eq, trim_space, contains, to_upper}
use go2rtc_manager.Net.Ip.{parse_ip}
use go2rtc_manager.Net.Cidr.{parse_cidr, cidr_contains}
use go2rtc_manager.Net.HostPort.{split_host_port}
use go2rtc_manager.Time.{Duration}
use go2rtc_manager.Time.Parse.{parse_duration, read_duration, exact}
use go2rtc_manager.Message.{Message}
use go2rtc_manager.Effect.{Effect, respond, Context}
use go2rtc_manager.Master.{MasterActor, spawn_children}
use go2rtc_manager.Record.{RecordActor, new_record_actor}
use go2rtc_manager.HttpServer.Access.{allowed_of, record_access_allowed}
use go2rtc_manager.HttpServer.Types.{
  http_post, http_get, HttpRequest, StartRecordPayload, RecordResponse, Future, answered,
  failed_with, Served,
}
use go2rtc_manager.HttpServer.Handlers.{handle_start_record, handle_get_record_job, record_prefix}
use go2rtc_manager.HttpServer.Exchange.{through_master, Ends}
use go2rtc_manager.HttpServer.RoundTrip.{after, handle_start_record-get_record_job}
use go2rtc_manager.Tests.Sample.{sample_config, ascii_table}

abbrev now : Context
now = record { self = 0; parent = 0; now = 63000000000000000000 }

abbrev later : Context
later = record { self = 0; parent = 0; now = 63000000001000000000 }

abbrev random : Result (List ℕ)
random = ok (1 ∷ 2 ∷ 3 ∷ 254 ∷ [])

abbrev master : MasterActor
master = spawn_children sample_config 1

abbrev recorder : RecordActor
recorder = new_record_actor sample_config (ok tt) (ok tt)

abbrev reads : Text → Result Duration
reads s = read_duration exact s

-- The future of a request whose answer comes in time.
abbrev future_of : List Effect → Future
future_of (respond msg ∷ []) = answered msg
future_of _ = failed_with (codes "future: timeout")

future_of-Ends : (es : List Effect) → Ends (future_of es) es
future_of-Ends [] = inl (codes "future: timeout", refl)
future_of-Ends (respond msg ∷ []) = inr (msg, refl, refl)
future_of-Ends _ = inl (codes "future: timeout", refl)

abbrev ask_now : Message → Future
ask_now msg = future_of (through_master now random master recorder msg).effects

abbrev post : HttpRequest StartRecordPayload
post = record {
  method = http_post;
  path = codes "/record";
  remote_addr = codes "192.168.0.9:4711";
  body = ok (record {
    type = codes "ui";
    mac = codes "aa:bb";
    cam_id = codes "cam1";
    duration = codes "10s";
  });
}

abbrev posted : Served RecordResponse
posted = handle_start_record sample_config ascii_table reads ask_now now.now post

abbrev ask_later : Message → Future
ask_later msg =
    future_of
      (through_master later random master (after now random master recorder posted.asked)
        msg).effects

abbrev get : HttpRequest (Unit {0})
get = record {
  method = http_get;
  path = record_prefix ++ posted.response.job_id;
  remote_addr = codes "127.0.0.1:4711";
  body = ok tt;
}

abbrev got : Served RecordResponse
got = handle_get_record_job sample_config ascii_table reads ask_later later.now get

posted_202 : posted.status_code ≡ 202
unfolding parse_duration handle_start_record through_master spawn_children new_record_actor
    record_access_allowed allowed_of trim_space contains parse_ip parse_cidr cidr_contains
    split_host_port text_eq to_upper
posted_202 = refl

get_allowed :
    record_access_allowed (allowed_of sample_config.recording.allowed_ips) (codes "127.0.0.1:4711")
    ≡ true
unfolding record_access_allowed allowed_of trim_space contains parse_ip parse_cidr cidr_contains
    split_host_port text_eq
get_allowed = refl

handle_start_record-get_record_job_example :
    (got.status_code ≡ 504) ⊎ ((got.status_code ≡ 200) × (got.response ≡ posted.response))
handle_start_record-get_record_job_example =
    handle_start_record-get_record_job sample_config ascii_table reads now later random random
      master recorder ask_now ask_later post get (λ q. future_of-Ends _) (λ q. future_of-Ends _)
      posted_202 refl get_allowed refl
