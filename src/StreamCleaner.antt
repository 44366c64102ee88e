-- ===== src/StreamCleaner.antt =====
-- actor/StreamCleanerActor.go. The counters are Go `int`s that grow by one for a message; that they
-- stay below 2 ^ 63 is taken for granted, so they are numbers.
pub mod DoubleCheck
use go2rtc_manager.Prelude.{
  ℕ, ◌+◌, ◌-◌, Bool, true, false, not, ◌||◌, List, [], ◌∷◌, map, length, ltb, ◌==◌, if◌then◌else◌,
}
use go2rtc_manager.Prelude.Text.{Text, is_empty}
use go2rtc_manager.Prelude.Maps.{Map, has, insert, delete}
use go2rtc_manager.Time.{Time}
use go2rtc_manager.Config.{Config}
use go2rtc_manager.Message.{
  Pid, CleanupCycleStarted, StreamListFetched, StreamHealthChecked, StreamRemovalCompleted, Message,
  cleanup_cycle_started, fetch_stream_list, stream_list_fetched, check_stream_health,
  stream_health_checked, remove_stream, stream_removal_completed, cleanup_cycle_finished,
}
use go2rtc_manager.Effect.{Effect, send, send_after, Context}

pub record StreamCleanerActor : Type 0 where
  pub config : Config
  pub go2rtc_pid : Pid
  pub master_pid : Pid
  pub pending : Map StreamHealthChecked
  pub running : Bool
  pub outstanding : ℕ
  pub triggered_at : Time
  pub reason : Text
  pub alive_count : ℕ
  pub removed_count : ℕ

abbrev pub Outcome : Type 0
Outcome = StreamCleanerActor × List Effect

unfoldable pub new_stream_cleaner_actor : Config → Pid → Pid → StreamCleanerActor
new_stream_cleaner_actor cfg go2rtc_pid master_pid = record {
  config = cfg;
  go2rtc_pid = go2rtc_pid;
  master_pid = master_pid;
  pending = [];
  running = false;
  outstanding = 0;
  triggered_at = 0;
  reason = [];
  alive_count = 0;
  removed_count = 0;
}

unfoldable pub finish_cycle_if_done : Context → StreamCleanerActor → Outcome
finish_cycle_if_done ctx a =
    if not (a.outstanding == 0) then (a, []) else if not a.running then (a, []) else (
      record a { running = false },
      send ctx.parent (
            cleanup_cycle_finished (record {
              triggered_at = a.triggered_at;
              reason = a.reason;
              alive_streams = a.alive_count;
              removed_streams = a.removed_count;
            }))
          ∷ [],
    )

unfoldable pub mark_stream_completed : Context → StreamCleanerActor → Outcome
unfolding finish_cycle_if_done
mark_stream_completed ctx a =
    finish_cycle_if_done ctx
      (if ltb 0 a.outstanding then record a { outstanding = a.outstanding - 1 } else a)

unfoldable pub handle_stream_removal_completed :
    Context → StreamRemovalCompleted → StreamCleanerActor → Outcome
unfolding mark_stream_completed
handle_stream_removal_completed ctx msg a = mark_stream_completed ctx (
    if not (is_empty msg.error)
    then a
    else if msg.removed
    then record a { removed_count = a.removed_count + 1 }
    else a)

unfoldable pub handle_stream_health : Context → StreamHealthChecked → StreamCleanerActor → Outcome
unfolding mark_stream_completed
handle_stream_health ctx msg a =
    if not (is_empty msg.error)
    then mark_stream_completed ctx (record a { pending = delete msg.stream_name a.pending })
    else if msg.has_producer
    then mark_stream_completed ctx
        (record a { pending = delete msg.stream_name a.pending; alive_count = a.alive_count + 1 })
    else if msg.attempt == 1
    then (
      record a { pending = insert msg.stream_name msg a.pending },
      send_after msg.confirm_after a.go2rtc_pid (
            check_stream_health (record {
              stream_name = msg.stream_name;
              triggered_at = msg.triggered_at;
              attempt = 2;
              requested_by = ctx.self;
              confirm_after = msg.confirm_after;
            }))
          ∷ [],
    )
    else if has msg.stream_name a.pending
    then (
      record a { pending = delete msg.stream_name a.pending },
      send a.go2rtc_pid (
            remove_stream
              (record { stream_name = msg.stream_name; triggered_at = msg.triggered_at }))
          ∷ [],
    )
    else mark_stream_completed ctx a

-- The first checks of a cycle, one for each stream of the list.
unfoldable pub first_checks :
    Context → StreamListFetched → StreamCleanerActor → List Text → List Effect
first_checks ctx msg a [] = []
first_checks ctx msg a (stream_name ∷ rest) =
    send a.go2rtc_pid (
      check_stream_health (record {
        stream_name = stream_name;
        triggered_at = msg.triggered_at;
        attempt = 1;
        requested_by = ctx.self;
        confirm_after = a.config.schedule.confirmation_delay;
      }))
    ∷ first_checks ctx msg a rest

-- The case `CleanupCycleStarted` of `Receive`.
unfoldable pub on_cleanup_cycle_started :
    Context → CleanupCycleStarted → StreamCleanerActor → Outcome
on_cleanup_cycle_started ctx msg a = if a.running then (a, []) else (
  record a {
    running = true;
    outstanding = 0;
    pending = [];
    triggered_at = msg.triggered_at;
    reason = msg.reason;
    alive_count = 0;
    removed_count = 0;
  },
  send a.go2rtc_pid
        (fetch_stream_list (record { triggered_at = msg.triggered_at; requested_by = ctx.self }))
      ∷ [],
)

-- The case `StreamListFetched` of `Receive`.
unfoldable pub on_stream_list_fetched : Context → StreamListFetched → StreamCleanerActor → Outcome
unfolding first_checks
on_stream_list_fetched ctx msg a =
    if not a.running
      || not (msg.requested_by == ctx.self)
      || not (msg.triggered_at == a.triggered_at)
    then (a, [])
    else if not (is_empty msg.error)
    then (record a { running = false; outstanding = 0 }, [])
    else if length msg.streams == 0
    then (
      record a { running = false; outstanding = 0 },
      send ctx.parent (
            cleanup_cycle_finished (record {
              triggered_at = a.triggered_at;
              reason = a.reason;
              alive_streams = 0;
              removed_streams = 0;
            }))
          ∷ [],
    )
    else (record a { outstanding = length msg.streams }, first_checks ctx msg a msg.streams)

unfoldable pub receive : Context → Message → StreamCleanerActor → Outcome
unfolding on_cleanup_cycle_started on_stream_list_fetched handle_stream_health
    handle_stream_removal_completed
receive ctx (cleanup_cycle_started msg) a = on_cleanup_cycle_started ctx msg a
receive ctx (stream_list_fetched msg) a = on_stream_list_fetched ctx msg a
receive ctx (stream_health_checked msg) a =
    if not a.running
      || not (msg.requested_by == ctx.self)
      || not (msg.triggered_at == a.triggered_at)
    then (a, [])
    else handle_stream_health ctx msg a
receive ctx (stream_removal_completed msg) a =
    if not a.running || not (msg.triggered_at == a.triggered_at)
    then (a, [])
    else handle_stream_removal_completed ctx msg a
receive ctx _ a = (a, [])
