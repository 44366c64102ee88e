-- ===== src/Master/Schedule.antt =====
-- actor/MasterActor.go: the cases `Started` and `Stopping` of `Receive`, and the two schedulers. The
-- parser of robfig/cron is a parameter; `AddFunc` fails when it does. A scheduler or ticker that is
-- nil or stopped is `none`.
pub mod Registered
use go2rtc_manager.Prelude.{
  Bool, true, false, ◌||◌, List, [], ◌∷◌, ◌++◌, Option, none, some, any, if◌then◌else◌,
}
use go2rtc_manager.Prelude.Int.{pos, leb_ℤ}
use go2rtc_manager.Prelude.Results.{Result, ok, err}
use go2rtc_manager.Prelude.Text.{Text, codes, is_empty, text_eq}
use go2rtc_manager.Time.{Duration}
use go2rtc_manager.Config.{Config}
use go2rtc_manager.Message.{Pid, trigger_cleanup, count_alive_streams_started}
use go2rtc_manager.Effect.{Effect, send, Context}
use go2rtc_manager.Master.{
  MasterActor, spawn_children, start_cleanup_scheduler, start_redis_publish_scheduler,
}

pub record Schedulers : Type 0 where
  -- the expressions whose function the cron scheduler calls
  pub cleanup_scheduler : Option (List Text)
  pub redis_ticker : Option Duration
  -- whether the channel is closed
  pub done : Bool

-- The loop over `Schedule.Crons`: an expression that `AddFunc` refuses is logged and left out.
unfoldable pub registered : (Text → Result (Unit {0})) → List Text → List Text
registered parse_cron [] = []
registered parse_cron (spec ∷ more) =
    let rest = registered parse_cron more in
    elim (parse_cron spec) [ ok _ ↦ spec ∷ rest | err e ↦ rest ]

-- The guard of `startRedisPublishScheduler`, and the ticker behind it.
unfoldable pub new_ticker : Config → Option Duration
new_ticker cfg =
    if is_empty cfg.redis.addr || leb_ℤ cfg.redis.publish_interval (pos 0)
    then none
    else some cfg.redis.publish_interval

-- The case `Started`.
unfoldable pub on_started :
    (Text → Result (Unit {0})) → Context → Config → Pid → MasterActor × Schedulers × List Effect
unfolding registered new_ticker spawn_children start_cleanup_scheduler start_redis_publish_scheduler
on_started parse_cron ctx cfg next_pid =
    let a = spawn_children cfg next_pid in
    (
      a,
      record {
        cleanup_scheduler = some (registered parse_cron cfg.schedule.crons);
        redis_ticker = new_ticker cfg;
        done = false;
      },
      start_cleanup_scheduler ctx a ++ start_redis_publish_scheduler ctx a,
    )

-- The case `Stopping`: both stop, and the channel is closed.
unfoldable pub on_stopping : Schedulers → Schedulers
on_stopping s = record { cleanup_scheduler = none; redis_ticker = none; done = true }

-- The function that the cron scheduler calls when an expression is due.
unfoldable pub cron_due : Context → Text → Schedulers → List Effect
unfolding text_eq
cron_due ctx spec s = elim s.cleanup_scheduler [
  | none ↦ []
  | some specs ↦
      if any (text_eq spec) specs
      then send ctx.self (trigger_cleanup (record { reason = codes "scheduled" })) ∷ []
      else []
]

-- The loop of the ticker's goroutine, when the ticker has a tick.
unfoldable pub tick_due : Context → Schedulers → List Effect
tick_due ctx s = elim s.redis_ticker [
  | none ↦ []
  | some interval ↦
      if s.done
      then []
      else send ctx.self (
          count_alive_streams_started
            (record { triggered_at = ctx.now; reason = codes "redis_publish_scheduled" }))
        ∷ []
]
