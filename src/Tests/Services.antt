-- ===== src/Tests/Services.antt =====
-- The actors that call go2rtc and Redis at concrete messages (actor/Go2RTCActor.go,
-- actor/SnapshotActor.go, actor/RedisActor.go).
use go2rtc_manager.Prelude.{◌≡◌, ◌↔◌, ◌⊎◌, refl, true, false, [], ◌∷◌, ◌++◌, All}
use go2rtc_manager.Prelude.Results.{ok}
use go2rtc_manager.Prelude.Text.{codes}
use go2rtc_manager.Message.{
  CheckStreamHealth, StreamHealthChecked, RemoveStream, StreamRemovalCompleted, UpdateStreamCount,
  check_stream_health, stream_health_checked, remove_stream, stream_removal_completed,
  update_stream_count,
}
use go2rtc_manager.Effect.{send, Context}
use go2rtc_manager.Go2Rtc.Payload.{
  Json, string, array, object, nil, cons, end, field, payload_has_producer,
}
use go2rtc_manager.Go2Rtc.Payload.Producers.{HasProducer, payload_has_producer_iff}
use go2rtc_manager.Go2Rtc.Actor.{Go2RtcActor, has_producer, remove_stream_call, receive}
use go2rtc_manager.Go2Rtc.Actor.Backup.{is_exchange, BacksUp, remove_stream_call-BacksUp}
use go2rtc_manager.Go2Rtc.Actor.Replies.{
  AnswersCheck, AnswersRemoval, notice, receive-AnswersCheck, receive-AnswersRemoval,
}
use go2rtc_manager.Snapshot.{SnapshotActor, sanitize_file_name}
use go2rtc_manager.Snapshot.Names.{IsFileName, sanitize_file_name-IsFileName}
use go2rtc_manager.Redis
use go2rtc_manager.Redis.{RedisActor, Server}
use go2rtc_manager.Redis.Publishing.{Updates, receive-publishes}
use go2rtc_manager.Tests.Sample.{sample_config, seconds, good_api}

abbrev go2rtc : Go2RtcActor
go2rtc = record { config = sample_config }

abbrev ctx : Context
ctx = record { self = 1; parent = 0; now = 9 }

-- `{"producers": [{"url": "rtsp://a"}]}`
abbrev payload : Json
payload = object (
    field (codes "producers")
      (array (cons (object (field (codes "url") (string (codes "rtsp://a")) end)) nil)) end)

payload_has_producer_iff_example : (payload_has_producer payload ≡ true) ↔ HasProducer payload
payload_has_producer_iff_example = payload_has_producer_iff payload

remove_stream_call-BacksUp_example :
    All (λ c. is_exchange c ≡ false) (remove_stream_call good_api 9 go2rtc (codes "a")).0
    ⊎ BacksUp good_api 9 go2rtc (remove_stream_call good_api 9 go2rtc (codes "a")).0
remove_stream_call-BacksUp_example = remove_stream_call-BacksUp good_api 9 go2rtc (codes "a") refl

abbrev check : CheckStreamHealth
check = record {
  stream_name = codes "a";
  triggered_at = 5;
  attempt = 1;
  requested_by = 6;
  confirm_after = seconds 60;
}

receive-AnswersCheck_example :
    (m : StreamHealthChecked) × ((receive good_api ctx (check_stream_health check) go2rtc).1
      ≡ send 0 (stream_health_checked m) ∷ [])
    × AnswersCheck check (has_producer good_api go2rtc (codes "a")).1 m
receive-AnswersCheck_example = receive-AnswersCheck good_api ctx check go2rtc

abbrev removal : RemoveStream
removal = record { stream_name = codes "a"; triggered_at = 5 }

receive-AnswersRemoval_example :
    (m : StreamRemovalCompleted) × ((receive good_api ctx (remove_stream removal) go2rtc).1
      ≡ notice ctx removal m ++ send 0 (stream_removal_completed m) ∷ [])
    × AnswersRemoval removal (remove_stream_call good_api 9 go2rtc (codes "a")).1 m
receive-AnswersRemoval_example = receive-AnswersRemoval good_api ctx removal go2rtc

abbrev snapshots : SnapshotActor
snapshots = record { config = sample_config }

sanitize_file_name-IsFileName_example :
    IsFileName (sanitize_file_name (codes "cam/1"))
    × (IsFileName (codes "cam/1") ↔ (sanitize_file_name (codes "cam/1") ≡ codes "cam/1"))
sanitize_file_name-IsFileName_example = sanitize_file_name-IsFileName (codes "cam/1")

abbrev up : Server
up = record { ping_answer = ok tt; set_answer = λ key n. ok tt }

abbrev update : UpdateStreamCount
update = record { triggered_at = 5; reason = codes "cron"; alive_streams = 3 }

abbrev redis : RedisActor
redis = record { config = sample_config; has_client = false }

receive-publishes_example :
    Updates up update redis (Redis.receive up (update_stream_count update) redis)
receive-publishes_example = receive-publishes up update redis
