-- ===== src/StreamCount.antt =====
-- actor/StreamCountActor.go. The counters are numbers, as in StreamCleaner.antt.
use go2rtc_manager.Prelude.{
  ℕ, ◌+◌, ◌-◌, Bool, true, false, not, ◌&&◌, ◌||◌, List, [], ◌∷◌, length, ltb, ◌==◌, if◌then◌else◌,
}
use go2rtc_manager.Prelude.Text.{Text, is_empty}
use go2rtc_manager.Prelude.Maps.{Map, insert, delete}
use go2rtc_manager.Time.{Time}
use go2rtc_manager.Config.{Config}
use go2rtc_manager.Message.{
  Pid, CountAliveStreamsStarted, StreamListFetched, StreamHealthChecked, Message,
  count_alive_streams_started, fetch_stream_list, stream_list_fetched, check_stream_health,
  stream_health_checked, alive_stream_count_calculated,
}
use go2rtc_manager.Effect.{Effect, send, send_after, Context}

pub record StreamCountActor : Type 0 where
  pub config : Config
  pub go2rtc_pid : Pid
  pub pending : Map StreamHealthChecked
  pub running : Bool
  pub outstanding : ℕ
  pub triggered_at : Time
  pub reason : Text
  pub alive_count : ℕ

abbrev pub Outcome : Type 0
Outcome = StreamCountActor × List Effect

unfoldable pub new_stream_count_actor : Config → Pid → StreamCountActor
new_stream_count_actor cfg go2rtc_pid = record {
  config = cfg;
  go2rtc_pid = go2rtc_pid;
  pending = [];
  running = false;
  outstanding = 0;
  triggered_at = 0;
  reason = [];
  alive_count = 0;
}

unfoldable pub finish : Context → StreamCountActor → Outcome
finish ctx a = (
  record a { running = false },
  send ctx.parent (
        alive_stream_count_calculated (record {
          triggered_at = a.triggered_at;
          reason = a.reason;
          alive_streams = a.alive_count;
          error = [];
        }))
      ∷ [],
)

unfoldable pub finish_with_error : Context → Text → StreamCountActor → Outcome
finish_with_error ctx e a = (
  record a { running = false; pending = []; outstanding = 0 },
  send ctx.parent (
        alive_stream_count_calculated (record {
          triggered_at = a.triggered_at;
          reason = a.reason;
          alive_streams = 0;
          error = e;
        }))
      ∷ [],
)

-- The decrement of `markStreamCompleted`.
unfoldable pub complete_one : StreamCountActor → StreamCountActor
complete_one a = if ltb 0 a.outstanding then record a { outstanding = a.outstanding - 1 } else a

unfoldable pub mark_stream_completed : Context → StreamCountActor → Outcome
unfolding finish complete_one
mark_stream_completed ctx a =
    let b = complete_one a in if (b.outstanding == 0) && b.running then finish ctx b else (b, [])

unfoldable pub handle_stream_health : Context → StreamHealthChecked → StreamCountActor → Outcome
unfolding mark_stream_completed finish_with_error
handle_stream_health ctx msg a =
    if not (is_empty msg.error)
    then finish_with_error ctx msg.error (record a { pending = delete msg.stream_name a.pending })
    else if msg.has_producer
    then mark_stream_completed ctx
        (record a { pending = delete msg.stream_name a.pending; alive_count = a.alive_count + 1 })
    else if msg.attempt == 1
    then (
      record a { pending = insert msg.stream_name msg a.pending },
      send_after msg.confirm_after a.go2rtc_pid (
            check_stream_health (record {
              stream_name = msg.stream_name;
              triggered_at = msg.triggered_at;
              attempt = 2;
              requested_by = ctx.self;
              confirm_after = msg.confirm_after;
            }))
          ∷ [],
    )
    else mark_stream_completed ctx (record a { pending = delete msg.stream_name a.pending })

-- The first checks of a count, one for each stream of the list.
unfoldable pub first_checks :
    Context → StreamListFetched → StreamCountActor → List Text → List Effect
first_checks ctx msg a [] = []
first_checks ctx msg a (stream_name ∷ rest) =
    send a.go2rtc_pid (
      check_stream_health (record {
        stream_name = stream_name;
        triggered_at = msg.triggered_at;
        attempt = 1;
        requested_by = ctx.self;
        confirm_after = a.config.schedule.confirmation_delay;
      }))
    ∷ first_checks ctx msg a rest

-- The case `CountAliveStreamsStarted` of `Receive`.
unfoldable pub on_count_alive_streams_started :
    Context → CountAliveStreamsStarted → StreamCountActor → Outcome
on_count_alive_streams_started ctx msg a = if a.running then (a, []) else (
  record a {
    running = true;
    outstanding = 0;
    pending = [];
    triggered_at = msg.triggered_at;
    reason = msg.reason;
    alive_count = 0;
  },
  send a.go2rtc_pid
        (fetch_stream_list (record { triggered_at = msg.triggered_at; requested_by = ctx.self }))
      ∷ [],
)

-- The guard with which `Receive` drops an answer that is not its own.
unfoldable pub is_foreign : Context → Pid → Time → StreamCountActor → Bool
is_foreign ctx requested_by triggered_at a =
    not a.running || not (requested_by == ctx.self) || not (triggered_at == a.triggered_at)

-- The case `StreamListFetched` of `Receive`.
unfoldable pub on_stream_list_fetched : Context → StreamListFetched → StreamCountActor → Outcome
unfolding is_foreign finish finish_with_error first_checks
on_stream_list_fetched ctx msg a =
    if is_foreign ctx msg.requested_by msg.triggered_at a
    then (a, [])
    else if not (is_empty msg.error)
    then finish_with_error ctx msg.error a
    else if length msg.streams == 0
    then finish ctx a
    else (record a { outstanding = length msg.streams }, first_checks ctx msg a msg.streams)

unfoldable pub receive : Context → Message → StreamCountActor → Outcome
unfolding on_count_alive_streams_started is_foreign on_stream_list_fetched handle_stream_health
receive ctx (count_alive_streams_started msg) a = on_count_alive_streams_started ctx msg a
receive ctx (stream_list_fetched msg) a = on_stream_list_fetched ctx msg a
receive ctx (stream_health_checked msg) a =
    if is_foreign ctx msg.requested_by msg.triggered_at a
    then (a, [])
    else handle_stream_health ctx msg a
receive ctx _ a = (a, [])
