-- ===== src/System/Counting.antt =====
-- Which messages under way belong to a stream count, and the actors around the counter.
pub mod Kept
pub mod Unstuck
use go2rtc_manager.Prelude.{
  ℕ, ◌+◌, Bool, ◌≡◌, refl, ◌≢◌, true, false, ◌&&◌, ◌||◌, List, [], ◌∷◌, ◌++◌, total, Option, none,
  some, arith, ◌==◌, if◌then◌else◌,
}
use go2rtc_manager.Prelude.Results.{Result, ok, err}
use go2rtc_manager.Prelude.Text.{Text}
use go2rtc_manager.Time.{Time}
use go2rtc_manager.Config.{Config}
use go2rtc_manager.Message.{
  Pid, FetchStreamList, StreamListFetched, CheckStreamHealth, RemoveStream, Message,
  trigger_cleanup, cleanup_cycle_started, count_alive_streams_started, stream_list_fetched,
  stream_health_checked, cleanup_cycle_finished, stream_removal_completed, fetch_stream_list,
  check_stream_health, remove_stream,
}
use go2rtc_manager.Master.{MasterActor, spawn_children}
use go2rtc_manager.Master
use go2rtc_manager.StreamCleaner.{StreamCleanerActor}
use go2rtc_manager.StreamCleaner
use go2rtc_manager.Go2Rtc.Calls.{Api}
use go2rtc_manager.Go2Rtc.Actor.{
  Go2RtcActor, answer_list, answer_health, answer_removal, list_stream_names, has_producer,
  remove_stream_call,
}
use go2rtc_manager.Go2Rtc.Actor
use go2rtc_manager.Go2Rtc.Listing.{list_stream_names-ne-none}
use go2rtc_manager.System.{
  master_pid, go2rtc_pid, cleaner_pid, count_pid, Envelope, mailed, context, IsYaml,
}
use go2rtc_manager.System.Tokens.{Token, none_of_it, fetches, works}

abbrev when : Bool → Token → Token
when true k = k
when false k = none_of_it

-- On its way back an answer is with the master, or with the counter.
abbrev is_relay : Pid → Bool
is_relay pid = (pid == master_pid) || (pid == count_pid)

-- A message carries the fetch of the stream list, or the check of one stream, of a count; or it has
-- no part in one.
unfoldable pub part : Envelope → Token
part (pid, fetch_stream_list m) =
    when ((pid == go2rtc_pid) && (m.requested_by == count_pid)) (fetches m.triggered_at)
part (pid, check_stream_health m) =
    when ((pid == go2rtc_pid) && (m.requested_by == count_pid)) (works m.triggered_at)
part (pid, stream_list_fetched m) =
    when (is_relay pid && (m.requested_by == count_pid)) (fetches m.triggered_at)
part (pid, stream_health_checked m) =
    when (is_relay pid && (m.requested_by == count_pid)) (works m.triggered_at)
part _ = none_of_it

-- The sum of a weight of tokens over the messages under way.
abbrev pub tally : (Token → ℕ) → List Envelope → ℕ
tally f = total λ e. f (part e)

module _ (f : Token → ℕ) (nothing : f none_of_it ≡ 0) where
  pub Master-passes :
      (now : Time) (msg : Message) (cfg : Config)
      → tally f (mailed (Master.receive (context master_pid now) msg (spawn_children cfg 1)))
        ≡ f (part (master_pid, msg))
  unfolding Master.receive spawn_children mailed part
  Master-passes now (trigger_cleanup m) cfg = ground arith
  Master-passes now (cleanup_cycle_finished m) cfg = ground arith
  Master-passes now _ cfg = ground arith

  first_checks-passes :
      (now : Time) (msg : StreamListFetched) (a : StreamCleanerActor) (names : List Text)
      → tally f (mailed (StreamCleaner.first_checks (context cleaner_pid now) msg a names)) ≡ 0
  unfolding StreamCleaner.first_checks mailed part
  first_checks-passes now msg a [] = refl
  first_checks-passes now msg a (name ∷ names) = ground (arith, first_checks-passes now msg a names)

  pub StreamCleaner-passes :
      (now : Time) (msg : Message) (a : StreamCleanerActor)
      → tally f (mailed (StreamCleaner.receive (context cleaner_pid now) msg a).1) ≡ 0
  unfolding StreamCleaner.receive mailed part
  StreamCleaner-passes now (cleanup_cycle_started m) a = ground arith
  StreamCleaner-passes now (stream_list_fetched m) a =
      ground (arith, first_checks-passes now m a m.streams)
  StreamCleaner-passes now (stream_health_checked m) a = ground arith
  StreamCleaner-passes now (stream_removal_completed m) a = ground arith
  StreamCleaner-passes now _ a = ground arith

  answer_list-passes :
      (now : Time) (msg : FetchStreamList) (r : Option (Result (List Text)))
      → r ≢ none
      → tally f (mailed (answer_list (context go2rtc_pid now) msg r))
        ≡ f (part (go2rtc_pid, fetch_stream_list msg))
  unfolding answer_list mailed part
  answer_list-passes now msg none h = absurd (h refl)
  answer_list-passes now msg (some (ok streams)) h = ground arith
  answer_list-passes now msg (some (err e)) h = ground arith

  answer_health-passes :
      (now : Time) (msg : CheckStreamHealth) (r : Result Bool)
      → tally f (mailed (answer_health (context go2rtc_pid now) msg r))
        ≡ f (part (go2rtc_pid, check_stream_health msg))
  unfolding answer_health mailed part
  answer_health-passes now msg (ok found) = ground arith
  answer_health-passes now msg (err e) = ground arith

  answer_removal-passes :
      (now : Time) (msg : RemoveStream) (r : Result Bool)
      → tally f (mailed (answer_removal (context go2rtc_pid now) msg r)) ≡ 0
  unfolding answer_removal mailed part
  answer_removal-passes now msg (ok true) = ground arith
  answer_removal-passes now msg (ok false) = ground arith
  answer_removal-passes now msg (err e) = ground arith

  pub Go2Rtc-passes :
      (api : Api) (now : Time) (msg : Message) (a : Go2RtcActor)
      → IsYaml api
      → tally f (mailed (Actor.receive api (context go2rtc_pid now) msg a).1)
        ≡ f (part (go2rtc_pid, msg))
  unfolding Actor.receive
  Go2Rtc-passes api now (fetch_stream_list m) a yaml =
      answer_list-passes now m (list_stream_names api a).1 (list_stream_names-ne-none api a yaml)
  Go2Rtc-passes api now (check_stream_health m) a yaml =
      answer_health-passes now m (has_producer api a m.stream_name).1
  Go2Rtc-passes api now (remove_stream m) a yaml =
      unfold part in
      ground (arith, answer_removal-passes now m (remove_stream_call api now a m.stream_name).1)
  Go2Rtc-passes api now _ a yaml = unfold mailed part in ground arith
