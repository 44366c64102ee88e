-- ===== src/System/Weights.antt =====
-- How many deliveries each message can still lead to, with all that it sets off, if go2rtc lists at
-- most `n` streams.
pub mod Rest
use go2rtc_manager.Prelude.{
  ℕ, ◌+◌, ◌*◌, ◌≤◌, ◌<◌, ◌≡◌, refl, Bool, true, false, List, [], ◌∷◌, length, total, arith, ◌==◌,
  if◌then◌else◌, Option, none, some,
}
use go2rtc_manager.Prelude.Text.{Text}
use go2rtc_manager.Prelude.Results.{Result, ok, err}
use go2rtc_manager.Time.{Time}
use go2rtc_manager.Config.{Config}
use go2rtc_manager.Message.{
  Pid, FetchStreamList, StreamListFetched, CheckStreamHealth, RemoveStream, Message,
  trigger_cleanup, cleanup_cycle_started, count_alive_streams_started, cleanup_cycle_finished,
  alive_stream_count_calculated, fetch_stream_list, stream_list_fetched, check_stream_health,
  stream_health_checked, remove_stream, stream_removed, execute_action, stream_removal_completed,
  capture_snapshot_request, start_record_request, get_record_job_request,
}
use go2rtc_manager.Effect.{Effect}
use go2rtc_manager.Master.{spawn_children}
use go2rtc_manager.Master
use go2rtc_manager.StreamCleaner.{StreamCleanerActor}
use go2rtc_manager.StreamCleaner
use go2rtc_manager.StreamCount.{StreamCountActor}
use go2rtc_manager.StreamCount
use go2rtc_manager.Go2Rtc.Calls.{Api}
use go2rtc_manager.Go2Rtc.Actor.{
  Go2RtcActor, answer_list, answer_health, answer_removal, list_stream_names, has_producer,
  remove_stream_call,
}
use go2rtc_manager.Go2Rtc.Actor
use go2rtc_manager.System.{
  master_pid, go2rtc_pid, cleaner_pid, count_pid, Envelope, mailed, context,
}

-- With the master.
unfoldable pub master_weight : ℕ → Message → ℕ
master_weight n (trigger_cleanup m) = 10 + 60 * n
master_weight n (count_alive_streams_started m) = 10 + 60 * n
master_weight n (stream_list_fetched m) = 7 + 60 * length m.streams
master_weight n (stream_health_checked m) = if m.attempt == 1 then 29 else 12
master_weight n (stream_removal_completed m) = 4
master_weight n _ = 2

-- With the cleaner.
unfoldable pub cleaner_weight : ℕ → Message → ℕ
cleaner_weight n (cleanup_cycle_started m) = 9 + 60 * n
cleaner_weight n (stream_list_fetched m) = 3 + 30 * length m.streams
cleaner_weight n (stream_health_checked m) = if m.attempt == 1 then 14 else 8
cleaner_weight n (stream_removal_completed m) = 3
cleaner_weight n _ = 1

-- With the counter.
unfoldable pub count_weight : ℕ → Message → ℕ
count_weight n (count_alive_streams_started m) = 9 + 60 * n
count_weight n (stream_list_fetched m) = 3 + 30 * length m.streams
count_weight n (stream_health_checked m) = if m.attempt == 1 then 14 else 3
count_weight n _ = 1

-- With the go2rtc actor.
unfoldable pub go2rtc_weight : ℕ → Message → ℕ
go2rtc_weight n (fetch_stream_list m) = 8 + 60 * n
go2rtc_weight n (check_stream_health m) = if m.attempt == 1 then 30 else 13
go2rtc_weight n (remove_stream m) = 7
go2rtc_weight n _ = 1

unfoldable pub weight : ℕ → Envelope → ℕ
unfolding master_weight cleaner_weight count_weight go2rtc_weight
weight n (pid, msg) =
    if pid == master_pid
    then master_weight n msg
    else if pid == cleaner_pid
    then cleaner_weight n msg
    else if pid == count_pid
    then count_weight n msg
    else if pid == go2rtc_pid
    then go2rtc_weight n msg
    else 1

abbrev pub weight_of : ℕ → List Envelope → ℕ
weight_of n = total (weight n)

-- go2rtc lists at most `n` streams.
abbrev pub ListsFew : Api → ℕ → Type 0
ListsFew api n =
    (a : Go2RtcActor) (names : List Text)
    → (list_stream_names api a).1 ≡ some (ok names)
    → length names ≤ n

module _ (n : ℕ) where
  pub Master-lightens :
      (now : Time) (msg : Message) (cfg : Config)
      → weight_of n (mailed (Master.receive (context master_pid now) msg (spawn_children cfg 1)))
        < weight n (master_pid, msg)
  unfolding Master.receive spawn_children mailed weight
  Master-lightens now (trigger_cleanup m) cfg = ground arith
  Master-lightens now (count_alive_streams_started m) cfg = ground arith
  Master-lightens now (stream_list_fetched m) cfg = ground arith
  Master-lightens now (stream_health_checked m) cfg = ground arith
  Master-lightens now (stream_removal_completed m) cfg = ground arith
  Master-lightens now (stream_removed m) cfg = ground arith
  Master-lightens now (cleanup_cycle_finished m) cfg = ground arith
  Master-lightens now (alive_stream_count_calculated m) cfg = ground arith
  Master-lightens now (execute_action m) cfg = ground arith
  Master-lightens now (capture_snapshot_request m) cfg = ground arith
  Master-lightens now (start_record_request m) cfg = ground arith
  Master-lightens now (get_record_job_request m) cfg = ground arith
  Master-lightens now _ cfg = ground arith

  cleaner_checks-weight :
      (now : Time) (msg : StreamListFetched) (a : StreamCleanerActor) (names : List Text)
      → a.go2rtc_pid ≡ go2rtc_pid
      → weight_of n (mailed (StreamCleaner.first_checks (context cleaner_pid now) msg a names))
        ≡ 30 * length names
  unfolding StreamCleaner.first_checks mailed weight
  cleaner_checks-weight now msg a [] h = refl
  cleaner_checks-weight now msg a (name ∷ names) h =
      ground (arith, cleaner_checks-weight now msg a names h)

  pub StreamCleaner-lightens :
      (now : Time) (msg : Message) (a : StreamCleanerActor)
      → a.go2rtc_pid ≡ go2rtc_pid
      → weight_of n (mailed (StreamCleaner.receive (context cleaner_pid now) msg a).1)
        < weight n (cleaner_pid, msg)
  unfolding StreamCleaner.receive mailed weight
  StreamCleaner-lightens now (cleanup_cycle_started m) a h = ground arith
  StreamCleaner-lightens now (stream_list_fetched m) a h =
      ground (arith, cleaner_checks-weight now m a m.streams h)
  StreamCleaner-lightens now (stream_health_checked m) a h = ground arith
  StreamCleaner-lightens now (stream_removal_completed m) a h = ground arith
  StreamCleaner-lightens now _ a h = ground arith

  count_checks-weight :
      (now : Time) (msg : StreamListFetched) (a : StreamCountActor) (names : List Text)
      → a.go2rtc_pid ≡ go2rtc_pid
      → weight_of n (mailed (StreamCount.first_checks (context count_pid now) msg a names))
        ≡ 30 * length names
  unfolding StreamCount.first_checks mailed weight
  count_checks-weight now msg a [] h = refl
  count_checks-weight now msg a (name ∷ names) h =
      ground (arith, count_checks-weight now msg a names h)

  pub StreamCount-lightens :
      (now : Time) (msg : Message) (a : StreamCountActor)
      → a.go2rtc_pid ≡ go2rtc_pid
      → weight_of n (mailed (StreamCount.receive (context count_pid now) msg a).1)
        < weight n (count_pid, msg)
  unfolding StreamCount.receive mailed weight
  StreamCount-lightens now (count_alive_streams_started m) a h = ground arith
  StreamCount-lightens now (stream_list_fetched m) a h =
      ground (arith, count_checks-weight now m a m.streams h)
  StreamCount-lightens now (stream_health_checked m) a h = ground arith
  StreamCount-lightens now _ a h = ground arith

  answer_list-lightens :
      (now : Time) (msg : FetchStreamList) (r : Option (Result (List Text)))
      → ((names : List Text) → r ≡ some (ok names) → length names ≤ n)
      → weight_of n (mailed (answer_list (context go2rtc_pid now) msg r))
        < weight n (go2rtc_pid, fetch_stream_list msg)
  unfolding answer_list mailed weight
  answer_list-lightens now msg none few = ground arith
  answer_list-lightens now msg (some (ok streams)) few =
      let bound : length streams ≤ n = few streams refl in ground arith
  answer_list-lightens now msg (some (err e)) few = ground arith

  answer_health-lightens :
      (now : Time) (msg : CheckStreamHealth) (r : Result Bool)
      → weight_of n (mailed (answer_health (context go2rtc_pid now) msg r))
        < weight n (go2rtc_pid, check_stream_health msg)
  unfolding answer_health mailed weight
  answer_health-lightens now msg (ok found) = ground arith
  answer_health-lightens now msg (err e) = ground arith

  answer_removal-lightens :
      (now : Time) (msg : RemoveStream) (r : Result Bool)
      → weight_of n (mailed (answer_removal (context go2rtc_pid now) msg r))
        < weight n (go2rtc_pid, remove_stream msg)
  unfolding answer_removal mailed weight
  answer_removal-lightens now msg (ok true) = ground arith
  answer_removal-lightens now msg (ok false) = ground arith
  answer_removal-lightens now msg (err e) = ground arith

  pub Go2Rtc-lightens :
      (api : Api) (now : Time) (msg : Message) (a : Go2RtcActor)
      → ListsFew api n
      → weight_of n (mailed (Actor.receive api (context go2rtc_pid now) msg a).1)
        < weight n (go2rtc_pid, msg)
  unfolding Actor.receive
  Go2Rtc-lightens api now (fetch_stream_list m) a few =
      answer_list-lightens now m (list_stream_names api a).1 (λ names e. few a names e)
  Go2Rtc-lightens api now (check_stream_health m) a few =
      answer_health-lightens now m (has_producer api a m.stream_name).1
  Go2Rtc-lightens api now (remove_stream m) a few =
      answer_removal-lightens now m (remove_stream_call api now a m.stream_name).1
  Go2Rtc-lightens api now _ a few = unfold mailed weight in ground arith
