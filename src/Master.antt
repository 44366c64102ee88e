-- ===== src/Master.antt =====
-- actor/MasterActor.go: the routing of `Receive`. The children's processes are fields, nil until
-- `spawnChildren` has run on `Started`; the schedulers' state is their two flags. That cron and the
-- ticker fire is the environment's: each firing is a message that `Receive` takes.
pub mod Schedule
use go2rtc_manager.Prelude.{◌+◌, not, ◌||◌, List, [], ◌∷◌, ◌==◌, if◌then◌else◌}
use go2rtc_manager.Prelude.Int.{pos, leb_ℤ}
use go2rtc_manager.Prelude.Text.{codes, is_empty}
use go2rtc_manager.Config.{Config}
use go2rtc_manager.Message.{
  Pid, Message, trigger_cleanup, cleanup_cycle_started, count_alive_streams_started,
  stream_list_fetched, stream_health_checked, stream_removed, stream_removal_completed,
  execute_action, cleanup_cycle_finished, alive_stream_count_calculated, update_stream_count,
  capture_snapshot_request, start_record_request, get_record_job_request, CleanupCycleFinished,
  AliveStreamCountCalculated,
}
use go2rtc_manager.Effect.{Effect, send, forward, Context}

pub record MasterActor : Type 0 where
  pub config : Config
  pub stream_cleaner_pid : Pid
  pub stream_count_pid : Pid
  pub go2rtc_pid : Pid
  pub snapshot_pid : Pid
  pub record_pid : Pid
  pub action_pid : Pid
  pub redis_pid : Pid

-- `spawnChildren`: the actor system numbers the processes as they are spawned, from `next` on.
unfoldable pub spawn_children : Config → Pid → MasterActor
spawn_children cfg next = record {
  config = cfg;
  go2rtc_pid = next;
  action_pid = next + 1;
  snapshot_pid = next + 2;
  record_pid = next + 3;
  redis_pid = next + 4;
  stream_cleaner_pid = next + 5;
  stream_count_pid = next + 6;
}

-- The case `CleanupCycleFinished` of `Receive`.
unfoldable pub on_cleanup_cycle_finished : CleanupCycleFinished → MasterActor → List Effect
on_cleanup_cycle_finished msg a =
    if msg.removed_streams == 0
    then []
    else send a.redis_pid (
        update_stream_count (record {
          triggered_at = msg.triggered_at;
          reason = codes "cleanup_removed_streams";
          alive_streams = msg.alive_streams;
        }))
      ∷ []

-- The case `AliveStreamCountCalculated` of `Receive`.
unfoldable pub on_alive_stream_count_calculated :
    AliveStreamCountCalculated → MasterActor → List Effect
on_alive_stream_count_calculated msg a =
    if not (is_empty msg.error)
    then []
    else send a.redis_pid (
        update_stream_count (record {
          triggered_at = msg.triggered_at;
          reason = msg.reason;
          alive_streams = msg.alive_streams;
        }))
      ∷ []

-- `Receive`, after `Started` and before `Stopping`: it changes none of the actor's fields.
unfoldable pub receive : Context → Message → MasterActor → List Effect
unfolding on_cleanup_cycle_finished on_alive_stream_count_calculated
receive ctx (trigger_cleanup msg) a =
    send a.stream_cleaner_pid
      (cleanup_cycle_started (record { triggered_at = ctx.now; reason = msg.reason }))
    ∷ []
receive ctx (count_alive_streams_started msg) a =
    send a.stream_count_pid (count_alive_streams_started msg) ∷ []
receive ctx (stream_list_fetched msg) a =
    send a.stream_cleaner_pid (stream_list_fetched msg)
    ∷ send a.stream_count_pid (stream_list_fetched msg)
    ∷ []
receive ctx (stream_health_checked msg) a =
    send a.stream_cleaner_pid (stream_health_checked msg)
    ∷ send a.stream_count_pid (stream_health_checked msg)
    ∷ []
receive ctx (stream_removal_completed msg) a =
    send a.stream_cleaner_pid (stream_removal_completed msg) ∷ []
receive ctx (stream_removed msg) a =
    send a.action_pid (
      execute_action (record {
        stream_name = msg.stream_name;
        action = codes "stream_removed_after_double_check";
      }))
    ∷ []
receive ctx (cleanup_cycle_finished msg) a = on_cleanup_cycle_finished msg a
receive ctx (alive_stream_count_calculated msg) a = on_alive_stream_count_calculated msg a
receive ctx (execute_action msg) a = send a.action_pid (execute_action msg) ∷ []
receive ctx (capture_snapshot_request msg) a =
    forward a.snapshot_pid (capture_snapshot_request msg) ∷ []
receive ctx (start_record_request msg) a = forward a.record_pid (start_record_request msg) ∷ []
receive ctx (get_record_job_request msg) a = forward a.record_pid (get_record_job_request msg) ∷ []
receive ctx _ a = []

-- `startCleanupScheduler`: what it sends at once. `self` is the master.
unfoldable pub start_cleanup_scheduler : Context → MasterActor → List Effect
start_cleanup_scheduler ctx a =
    if a.config.schedule.run_on_start
    then send ctx.self (trigger_cleanup (record { reason = codes "run_on_start" })) ∷ []
    else []

-- `startRedisPublishScheduler`: what its goroutine sends at once.
unfoldable pub start_redis_publish_scheduler : Context → MasterActor → List Effect
start_redis_publish_scheduler ctx a =
    if is_empty a.config.redis.addr || leb_ℤ a.config.redis.publish_interval (pos 0)
    then []
    else send ctx.self (
        count_alive_streams_started
          (record { triggered_at = ctx.now; reason = codes "redis_publish_run_on_start" }))
      ∷ []
