-- ===== src/System/Relays.antt =====
-- The actors around the cleaner, and the tokens of its cycle that they pass on.
use go2rtc_manager.Prelude.{
  ℕ, Bool, ◌≡◌, refl, ◌≢◌, true, false, List, [], ◌∷◌, Option, none, some, arith,
}
use go2rtc_manager.Prelude.Results.{Result, ok, err}
use go2rtc_manager.Prelude.Text.{Text}
use go2rtc_manager.Time.{Time}
use go2rtc_manager.Config.{Config}
use go2rtc_manager.Message.{
  FetchStreamList, StreamListFetched, CheckStreamHealth, RemoveStream, Message, trigger_cleanup,
  count_alive_streams_started, stream_list_fetched, stream_health_checked, cleanup_cycle_finished,
  fetch_stream_list, check_stream_health, remove_stream,
}
use go2rtc_manager.Master.{MasterActor, spawn_children}
use go2rtc_manager.Master
use go2rtc_manager.StreamCount.{StreamCountActor}
use go2rtc_manager.StreamCount
use go2rtc_manager.Go2Rtc.Calls.{Api}
use go2rtc_manager.Go2Rtc.Actor.{
  Go2RtcActor, answer_list, answer_health, answer_removal, list_stream_names, has_producer,
  remove_stream_call,
}
use go2rtc_manager.Go2Rtc.Actor
use go2rtc_manager.Go2Rtc.Listing.{list_stream_names-ne-none}
use go2rtc_manager.System.{master_pid, go2rtc_pid, count_pid, mailed, context, IsYaml}
use go2rtc_manager.System.Tokens.{Token, none_of_it, token, weigh}

module _ (f : Token → ℕ) (nothing : f none_of_it ≡ 0) where
  pub Master-relays :
      (now : Time) (msg : Message) (cfg : Config)
      → weigh f (mailed (Master.receive (context master_pid now) msg (spawn_children cfg 1)))
        ≡ f (token master_pid msg)
  unfolding Master.receive spawn_children mailed weigh token
  Master-relays now (trigger_cleanup m) cfg = ground arith
  Master-relays now (cleanup_cycle_finished m) cfg = ground arith
  Master-relays now _ cfg = ground arith

  first_checks-relays :
      (now : Time) (msg : StreamListFetched) (a : StreamCountActor) (names : List Text)
      → weigh f (mailed (StreamCount.first_checks (context count_pid now) msg a names)) ≡ 0
  unfolding StreamCount.first_checks mailed weigh token
  first_checks-relays now msg a [] = refl
  first_checks-relays now msg a (name ∷ names) = ground (arith, first_checks-relays now msg a names)

  pub StreamCount-relays :
      (now : Time) (msg : Message) (a : StreamCountActor)
      → weigh f (mailed (StreamCount.receive (context count_pid now) msg a).1) ≡ 0
  unfolding StreamCount.receive mailed weigh token
  StreamCount-relays now (count_alive_streams_started m) a = ground arith
  StreamCount-relays now (stream_list_fetched m) a =
      ground (arith, first_checks-relays now m a m.streams)
  StreamCount-relays now (stream_health_checked m) a = ground arith
  StreamCount-relays now _ a = ground arith

  answer_list-relays :
      (now : Time) (msg : FetchStreamList) (r : Option (Result (List Text)))
      → r ≢ none
      → weigh f (mailed (answer_list (context go2rtc_pid now) msg r))
        ≡ f (token go2rtc_pid (fetch_stream_list msg))
  unfolding answer_list mailed weigh token
  answer_list-relays now msg none h = absurd (h refl)
  answer_list-relays now msg (some (ok streams)) h = ground arith
  answer_list-relays now msg (some (err e)) h = ground arith

  answer_health-relays :
      (now : Time) (msg : CheckStreamHealth) (r : Result Bool)
      → weigh f (mailed (answer_health (context go2rtc_pid now) msg r))
        ≡ f (token go2rtc_pid (check_stream_health msg))
  unfolding answer_health mailed weigh token
  answer_health-relays now msg (ok found) = ground arith
  answer_health-relays now msg (err e) = ground arith

  answer_removal-relays :
      (now : Time) (msg : RemoveStream) (r : Result Bool)
      → weigh f (mailed (answer_removal (context go2rtc_pid now) msg r))
        ≡ f (token go2rtc_pid (remove_stream msg))
  unfolding answer_removal mailed weigh token
  answer_removal-relays now msg (ok true) = ground arith
  answer_removal-relays now msg (ok false) = ground arith
  answer_removal-relays now msg (err e) = ground arith

  pub Go2Rtc-relays :
      (api : Api) (now : Time) (msg : Message) (a : Go2RtcActor)
      → IsYaml api
      → weigh f (mailed (Actor.receive api (context go2rtc_pid now) msg a).1)
        ≡ f (token go2rtc_pid msg)
  unfolding Actor.receive
  Go2Rtc-relays api now (fetch_stream_list m) a yaml =
      answer_list-relays now m (list_stream_names api a).1 (list_stream_names-ne-none api a yaml)
  Go2Rtc-relays api now (check_stream_health m) a yaml =
      answer_health-relays now m (has_producer api a m.stream_name).1
  Go2Rtc-relays api now (remove_stream m) a yaml =
      answer_removal-relays now m (remove_stream_call api now a m.stream_name).1
  Go2Rtc-relays api now _ a yaml = unfold mailed weigh token in ground arith
