-- ===== src/Tests/Program.antt =====
-- The start of the program at the sample configuration (main.go, logging/logger.go,
-- actor/MasterActor.go, actor/RecordActor.go, httpserver/server.go).
use go2rtc_manager.Prelude.{ℕ, ◌≡◌, ◌≢◌, ◌<◌, arith, refl, inl, List, [], ◌∷◌, ◌++◌, All, some}
use go2rtc_manager.Prelude.Int.{pos}
use go2rtc_manager.Prelude.Results.{Result, ok, err}
use go2rtc_manager.Prelude.Text.{Text, codes, text_eq, trim_space, to_lower}
use go2rtc_manager.Net.Ip.{parse_ip}
use go2rtc_manager.Net.Cidr.{parse_cidr}
use go2rtc_manager.Config.{Config, LogConfig}
use go2rtc_manager.Config.Load.{validate, load, check_crons, check_ips}
use go2rtc_manager.Config.Load.Ready.{validate-IsReady}
use go2rtc_manager.Message.{
  StartRecordRequest, StartRecordResult, start_record_request, start_record_result,
}
use go2rtc_manager.Effect.{respond, Context}
use go2rtc_manager.Master.Schedule.{on_started}
use go2rtc_manager.Master.Schedule.Registered.{Ticks, on_started-Ticks}
use go2rtc_manager.Logging.{stdout_core, file_core, new_logger}
use go2rtc_manager.Logging.Cores.{Logs, new_logger-Logs}
use go2rtc_manager.Main.{
  Action, spawn_master, start_server, await_signal, shutdown_server, stop_master, runs, main,
}
use go2rtc_manager.Main.Ready.{StartsReady, main-StartsReady}
use go2rtc_manager.Record.{refusal, receive, active_record_jobs, new_record_actor}
use go2rtc_manager.Record.Clients.{
  new_mongo_bodycam_lookup, new_minio_object_store, FirstError-refuses,
}
use go2rtc_manager.Record.Submission.{Accepted}
use go2rtc_manager.Record.Room.{room-Accepted}
use go2rtc_manager.Record.Concurrency.{Recording, here}
use go2rtc_manager.Record.Concurrency.Steps.{initial}
use go2rtc_manager.Tests.Sample.{sample_config, seconds, ascii_table}

abbrev any_cron : Text → Result (Unit {0})
any_cron spec = ok tt

-- The sample with a log file.
abbrev logged : Config
logged = record sample_config {
  log = record sample_config.log {
    format = codes "text";
    file_path = codes "/logs/manager.log";
    max_size_mb = pos 100;
    max_backups = pos 10;
    max_age_days = pos 30;
  };
}

logged_validates : validate ascii_table any_cron logged ≡ ok logged
unfolding validate check_crons check_ips parse_ip parse_cidr text_eq trim_space to_lower
logged_validates = refl

abbrev ctx : Context
ctx = record { self = 0; parent = 0; now = 5 }

on_started-Ticks_example :
    ((on_started any_cron ctx logged 1).1.cleanup_scheduler ≡ some logged.schedule.crons)
    × (logged.schedule.crons ≢ [])
    × Ticks logged (on_started any_cron ctx logged 1).1.redis_ticker
on_started-Ticks_example =
    on_started-Ticks ascii_table any_cron logged logged ctx 1 logged_validates

-- Levels are numbers here, and there is one, "info".
abbrev parse_level : Text → Result ℕ
parse_level s = ok 1

abbrev mkdir_all : Text → Result (Unit {0})
mkdir_all path = ok tt

logger_made :
    new_logger 0 parse_level mkdir_all logged.log
    ≡ ok (
        stdout_core 0 parse_level mkdir_all logged.log
        ∷ file_core 0 parse_level mkdir_all logged.log
        ∷ [])
unfolding new_logger
logger_made = refl

new_logger-Logs_example : Logs 0 parse_level mkdir_all logged.log (
    stdout_core 0 parse_level mkdir_all logged.log
    ∷ file_core 0 parse_level mkdir_all logged.log
    ∷ [])
new_logger-Logs_example =
    new_logger-Logs 0 parse_level mkdir_all any_cron logged
      (stdout_core 0 parse_level mkdir_all logged.log
        ∷ file_core 0 parse_level mkdir_all logged.log
        ∷ [])
      (validate-IsReady ascii_table any_cron logged logged logged_validates) logger_made

abbrev any_logger : LogConfig → Result (Unit {0})
any_logger cfg = ok tt

abbrev actions : List Action
actions =
    spawn_master logged ∷ start_server logged ∷ await_signal ∷ shutdown_server ∷ stop_master ∷ []

program_runs : main (load ascii_table any_cron (ok tt) (ok logged)) any_logger ≡ runs actions
unfolding main load check_crons check_ips parse_ip parse_cidr text_eq trim_space to_lower
program_runs = refl

main-StartsReady_example : All (StartsReady ascii_table any_cron) actions
main-StartsReady_example =
    main-StartsReady ascii_table any_cron (ok tt) (ok logged) any_logger actions program_runs

abbrev asked : StartRecordRequest
asked = record {
  type = codes "UI";
  mac = codes "aa:bb";
  cam_id = codes "cam1";
  duration = seconds 10;
  requested_at = 0;
}

abbrev random : Result (List ℕ)
random = ok (1 ∷ 2 ∷ 3 ∷ 254 ∷ [])

abbrev down : Recording
down =
    initial sample_config (new_mongo_bodycam_lookup (err (codes "no such host")))
      (new_minio_object_store (ok tt))

FirstError-refuses_example :
    ((receive ctx random (start_record_request asked) down.actor).effects
      ≡ respond (
          start_record_result
            (refusal asked 500 (codes "connect mongodb: " ++ codes "no such host")))
        ∷ [])
    × ((receive ctx random (start_record_request asked) down.actor).started ≡ [])
FirstError-refuses_example =
    FirstError-refuses sample_config (err (codes "no such host")) (ok tt)
      (codes "connect mongodb: " ++ codes "no such host") (inl (codes "no such host", refl, refl))
      here ctx random asked

abbrev up : Recording
up = initial sample_config (new_mongo_bodycam_lookup (ok tt)) (new_minio_object_store (ok tt))

up_idle : active_record_jobs up.actor < 1
unfolding new_record_actor new_mongo_bodycam_lookup new_minio_object_store active_record_jobs
up_idle = ground arith

room-Accepted_example :
    (r : StartRecordResult) × ((receive ctx random (start_record_request asked) up.actor).effects
      ≡ respond (start_record_result r) ∷ [])
    × Accepted asked (receive ctx random (start_record_request asked) up.actor) r
room-Accepted_example =
    room-Accepted 1 sample_config refl here ctx (1 ∷ 2 ∷ 3 ∷ 254 ∷ []) asked up_idle
