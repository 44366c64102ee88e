-- ===== src/System/Effort.antt =====
-- How many deliveries a cleanup cycle still needs, counted by its streams.
use go2rtc_manager.Prelude.{
  ℕ, ◌+◌, ◌*◌, ◌≤◌, ◌<◌, ◌≡◌, refl, Bool, true, false, ◌&&◌, List, [], ◌∷◌, ◌++◌, length, arith,
  ◌==◌, if◌then◌else◌, Option, none, some,
}
use go2rtc_manager.Prelude.Text.{Text}
use go2rtc_manager.Prelude.Results.{Result, ok, err}
use go2rtc_manager.Time.{Time}
use go2rtc_manager.Config.{Config}
use go2rtc_manager.Message.{
  Pid, FetchStreamList, StreamListFetched, CheckStreamHealth, RemoveStream, Message,
  trigger_cleanup, cleanup_cycle_started, count_alive_streams_started, cleanup_cycle_finished,
  fetch_stream_list, stream_list_fetched, check_stream_health, stream_health_checked, remove_stream,
  stream_removal_completed,
}
use go2rtc_manager.Effect.{Effect}
use go2rtc_manager.Master.{spawn_children}
use go2rtc_manager.Master
use go2rtc_manager.StreamCleaner.{StreamCleanerActor}
use go2rtc_manager.StreamCleaner
use go2rtc_manager.StreamCount.{StreamCountActor}
use go2rtc_manager.StreamCount
use go2rtc_manager.Go2Rtc.Calls.{Api}
use go2rtc_manager.Go2Rtc.Actor.{
  Go2RtcActor, answer_list, answer_health, answer_removal, list_stream_names, has_producer,
  remove_stream_call,
}
use go2rtc_manager.Go2Rtc.Actor
use go2rtc_manager.System.{
  master_pid, go2rtc_pid, cleaner_pid, count_pid, Envelope, mailed, context,
}

-- What is left of the way of a stream that carries on: check and answer over the master, the second
-- check and answer, then the removal and its answer.
unfoldable pub effort : Pid → Message → ℕ
effort pid (check_stream_health m) =
    if (pid == go2rtc_pid) && (m.requested_by == cleaner_pid)
    then (if m.attempt == 1 then 9 else 6)
    else 0
effort pid (stream_health_checked m) =
    if m.requested_by == cleaner_pid
    then (if pid == master_pid
        then (if m.attempt == 1 then 8 else 5)
        else if pid == cleaner_pid
        then (if m.attempt == 1 then 7 else 4)
        else 0)
    else 0
effort pid (remove_stream m) = if pid == go2rtc_pid then 3 else 0
effort pid (stream_removal_completed m) =
    if pid == master_pid then 2 else if pid == cleaner_pid then 1 else 0
effort pid _ = 0

unfoldable pub effort_left : List Envelope → ℕ
effort_left [] = 0
effort_left ((pid, msg) ∷ es) = effort pid msg + effort_left es

pub effort_left-append :
    (xs ys : List Envelope) → effort_left (xs ++ ys) ≡ effort_left xs + effort_left ys
unfolding effort_left
effort_left-append [] ys = omega arith
effort_left-append (x ∷ xs) ys = omega (arith, effort_left-append xs ys)

pub effort_left-middle :
    (xs ys : List Envelope) (pid : Pid) (msg : Message)
    → effort_left (xs ++ (pid, msg) ∷ ys) ≡ effort pid msg + effort_left (xs ++ ys)
unfolding effort_left
effort_left-middle [] ys pid msg = refl
effort_left-middle (x ∷ xs) ys pid msg = omega (arith, effort_left-middle xs ys pid msg)

-- The streams that a message hands to the cleaner.
abbrev pub brings : Pid → Message → ℕ
brings pid (stream_list_fetched m) = if pid == cleaner_pid then length m.streams else 0
brings pid _ = 0

-- Each delivery of a message with effort uses some up; another adds nine for each new stream.
abbrev pub Spends : Pid → Message → List Effect → Type 0
Spends pid msg es =
    (0 < effort pid msg → effort_left (mailed es) < effort pid msg)
    × (effort pid msg ≡ 0 → effort_left (mailed es) ≤ 9 * brings pid msg)

pub Master-Spends :
    (now : Time) (msg : Message) (cfg : Config)
    → Spends master_pid msg (Master.receive (context master_pid now) msg (spawn_children cfg 1))
unfolding Master.receive spawn_children mailed effort_left effort
Master-Spends now (trigger_cleanup m) cfg = ground arith
Master-Spends now (cleanup_cycle_finished m) cfg = ground arith
Master-Spends now (stream_health_checked m) cfg = ground arith
Master-Spends now (stream_removal_completed m) cfg = ground arith
Master-Spends now _ cfg = ground arith

count_checks-effort :
    (now : Time) (msg : StreamListFetched) (a : StreamCountActor) (names : List Text)
    → effort_left (mailed (StreamCount.first_checks (context count_pid now) msg a names)) ≡ 0
unfolding StreamCount.first_checks mailed effort_left effort
count_checks-effort now msg a [] = refl
count_checks-effort now msg a (name ∷ names) = ground (arith, count_checks-effort now msg a names)

pub StreamCount-Spends :
    (now : Time) (msg : Message) (a : StreamCountActor)
    → Spends count_pid msg (StreamCount.receive (context count_pid now) msg a).1
unfolding StreamCount.receive mailed effort_left effort
StreamCount-Spends now (count_alive_streams_started m) a = ground arith
StreamCount-Spends now (stream_list_fetched m) a =
    ground (arith, count_checks-effort now m a m.streams)
StreamCount-Spends now (stream_health_checked m) a = ground arith
StreamCount-Spends now _ a = ground arith

answer_list-Spends :
    (now : Time) (msg : FetchStreamList) (r : Option (Result (List Text)))
    → Spends go2rtc_pid (fetch_stream_list msg) (answer_list (context go2rtc_pid now) msg r)
unfolding answer_list mailed effort_left effort
answer_list-Spends now msg none = ground arith
answer_list-Spends now msg (some (ok streams)) = ground arith
answer_list-Spends now msg (some (err e)) = ground arith

answer_health-Spends :
    (now : Time) (msg : CheckStreamHealth) (r : Result Bool)
    → Spends go2rtc_pid (check_stream_health msg) (answer_health (context go2rtc_pid now) msg r)
unfolding answer_health mailed effort_left effort
answer_health-Spends now msg (ok found) = ground arith
answer_health-Spends now msg (err e) = ground arith

answer_removal-Spends :
    (now : Time) (msg : RemoveStream) (r : Result Bool)
    → Spends go2rtc_pid (remove_stream msg) (answer_removal (context go2rtc_pid now) msg r)
unfolding answer_removal mailed effort_left effort
answer_removal-Spends now msg (ok true) = ground arith
answer_removal-Spends now msg (ok false) = ground arith
answer_removal-Spends now msg (err e) = ground arith

pub Go2Rtc-Spends :
    (api : Api) (now : Time) (msg : Message) (a : Go2RtcActor)
    → Spends go2rtc_pid msg (Actor.receive api (context go2rtc_pid now) msg a).1
unfolding Actor.receive
Go2Rtc-Spends api now (fetch_stream_list m) a = answer_list-Spends now m (list_stream_names api a).1
Go2Rtc-Spends api now (check_stream_health m) a =
    answer_health-Spends now m (has_producer api a m.stream_name).1
Go2Rtc-Spends api now (remove_stream m) a =
    answer_removal-Spends now m (remove_stream_call api now a m.stream_name).1
Go2Rtc-Spends api now _ a = unfold mailed effort_left effort in ground arith

first_checks-effort :
    (now : Time) (msg : StreamListFetched) (a : StreamCleanerActor) (names : List Text)
    → a.go2rtc_pid ≡ go2rtc_pid
    → effort_left (mailed (StreamCleaner.first_checks (context cleaner_pid now) msg a names))
      ≡ 9 * length names
unfolding StreamCleaner.first_checks mailed effort_left effort
first_checks-effort now msg a [] h = refl
first_checks-effort now msg a (name ∷ names) h =
    ground (arith, first_checks-effort now msg a names h)

pub StreamCleaner-Spends :
    (now : Time) (msg : Message) (a : StreamCleanerActor)
    → a.go2rtc_pid ≡ go2rtc_pid
    → Spends cleaner_pid msg (StreamCleaner.receive (context cleaner_pid now) msg a).1
unfolding StreamCleaner.receive mailed effort_left effort
StreamCleaner-Spends now (cleanup_cycle_started m) a h = ground arith
StreamCleaner-Spends now (stream_list_fetched m) a h =
    ground (arith, first_checks-effort now m a m.streams h)
StreamCleaner-Spends now (stream_health_checked m) a h = ground arith
StreamCleaner-Spends now (stream_removal_completed m) a h = ground arith
StreamCleaner-Spends now _ a h = ground arith
