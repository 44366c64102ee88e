-- ===== src/Tests/Cleanup.antt =====
-- A cleanup cycle at concrete messages (actor/StreamCleanerActor.go, actor/MasterActor.go).
use mathlib.Core.List.{Memᴰ}
use go2rtc_manager.Prelude.{
  ℕ, ◌+◌, ◌*◌, ◌≤◌, ◌<◌, ◌≡◌, ◌≢◌, ◌↔◌, refl, subst, true, false, List, [], ◌∷◌, ◌++◌,
}
use go2rtc_manager.Prelude.Text.{codes, text_eq}
use go2rtc_manager.Prelude.Maps.{lookup, insert, delete, has}
use go2rtc_manager.Message.{
  Pid, CleanupCycleStarted, FetchStreamList, fetch_stream_list, StreamListFetched,
  StreamHealthChecked, RemoveStream, Message, cleanup_cycle_started, stream_list_fetched,
  stream_health_checked, trigger_cleanup,
}
use go2rtc_manager.Effect.{Context}
use go2rtc_manager.StreamCleaner.{new_stream_cleaner_actor, receive}
use go2rtc_manager.StreamCleaner.DoubleCheck.{
  after, removals, Missed, messages, removal_after_double_check,
}
use go2rtc_manager.System.{
  System, Envelope, deliver, post, mailed, IsYaml, start, Reach, here, next, delivers, cron_fires,
}
use go2rtc_manager.Master
use go2rtc_manager.Master.{spawn_children}
use go2rtc_manager.StreamCleaner
use go2rtc_manager.Go2Rtc.Actor
use go2rtc_manager.Go2Rtc.Yaml.{Node, IsPaired, paired}
use go2rtc_manager.Prelude.Results.{ok}
use go2rtc_manager.System.Tokens.{weigh, token, straying, fetching, working}
use go2rtc_manager.System.Cycle.{tokens_of, running_iff_under_way, outstanding-eq-working}
use go2rtc_manager.System.Effort.{effort_left}
use go2rtc_manager.System.Progress.{worked, brought, worked-le-brought}
use go2rtc_manager.Tests.Sample.{sample_config, seconds, good_api}

abbrev ctx : Context
ctx = record { self = 6; parent = 0; now = 9 }

abbrev missed : ℕ → StreamHealthChecked
missed attempt = record {
  stream_name = codes "a";
  triggered_at = 5;
  attempt = attempt;
  has_producer = false;
  checked_at = 8;
  requested_by = 6;
  confirm_after = seconds 60;
  error = [];
}

-- A first check of a stream that found no producer, the newest message first.
abbrev past : List (Context × Message)
past =
    (ctx, stream_health_checked (missed 1))
    ∷ (
      ctx,
      stream_list_fetched
          (record { triggered_at = 5; streams = codes "a" ∷ []; requested_by = 6; error = [] }),
    )
    ∷ (ctx, cleanup_cycle_started (record { triggered_at = 5; reason = codes "cron" }))
    ∷ []

abbrev removal : RemoveStream
removal = record { stream_name = codes "a"; triggered_at = 5 }

abbrev no_more : List RemoveStream
no_more = []

asked :
    removals
      (receive ctx
        (stream_health_checked (missed 2))
        (after (new_stream_cleaner_actor sample_config 1 0) past)).1
    ≡ removal ∷ []
unfolding removals receive after new_stream_cleaner_actor lookup insert delete has text_eq
asked = refl

removal_after_double_check_example :
    (first second : StreamHealthChecked) × (stream_health_checked (missed 2)
      ≡ stream_health_checked second)
    × (second.attempt ≢ 1)
    × Missed
        (codes "a")
        (after (new_stream_cleaner_actor sample_config 1 0) past).triggered_at
        second
    × Memᴰ (stream_health_checked first) (messages past)
    × (first.attempt ≡ 1)
    × Missed
        (codes "a")
        (after (new_stream_cleaner_actor sample_config 1 0) past).triggered_at
        first
    × ((after (new_stream_cleaner_actor sample_config 1 0) past).running ≡ true)
    × (5 ≡ (after (new_stream_cleaner_actor sample_config 1 0) past).triggered_at)
    × (no_more ≡ [])
removal_after_double_check_example =
    removal_after_double_check past sample_config 1 0 ctx (stream_health_checked (missed 2)) removal
      [] asked

-- The cron job fires, and five deliveries bring the stream list to the cleaner.
abbrev fired : System
fired = record (start sample_config) {
  mail = (start sample_config).mail ++ (0, trigger_cleanup (record { reason = codes "cron" })) ∷ [];
}

abbrev delivered : Pid → Message → List Envelope → System → System
delivered pid msg later s = deliver good_api 5 pid msg (record s { mail = later })

abbrev cycle : CleanupCycleStarted
cycle = record { triggered_at = 5; reason = codes "cron" }

abbrev fetch : FetchStreamList
fetch = record { triggered_at = 5; requested_by = 6 }

abbrev fetched : StreamListFetched
fetched = record { triggered_at = 5; streams = codes "a" ∷ []; requested_by = 6; error = [] }

abbrev triggered : System
triggered = delivered 0 (trigger_cleanup (record { reason = codes "cron" })) [] fired

abbrev begun : System
begun = delivered 6 (cleanup_cycle_started cycle) [] triggered

abbrev listed : System
listed = delivered 1 (fetch_stream_list fetch) [] begun

abbrev relayed : System
relayed = delivered 0 (stream_list_fetched fetched) [] listed

abbrev checking : System
checking = delivered 6 (stream_list_fetched fetched) ((7, stream_list_fetched fetched) ∷ []) relayed

yaml : IsYaml good_api
unfolding paired
yaml raw root e = subst (λ r. IsPaired r) (ok_injective e) refl
  where
    ok_injective : {x y : Node} → ok x ≡ ok y → x ≡ y
    ok_injective e = cc

checking-Reach : Reach (start sample_config) checking
unfolding start deliver post mailed Master.receive StreamCleaner.receive Actor.receive paired
    text_eq new_stream_cleaner_actor spawn_children Actor.list_stream_names Actor.answer_list
    StreamCleaner.on_cleanup_cycle_started StreamCleaner.on_stream_list_fetched
    StreamCleaner.first_checks
checking-Reach =
    next
      (next
        (next
          (next
            (next (next here (cron_fires (record { reason = codes "cron" }))) (
              delivers [] 0 (trigger_cleanup (record { reason = codes "cron" })) [] refl good_api 5
                yaml))
            (delivers [] 6 (cleanup_cycle_started cycle) [] refl good_api 5 yaml))
          (delivers [] 1 (fetch_stream_list fetch) [] refl good_api 5 yaml))
        (delivers [] 0 (stream_list_fetched fetched) [] refl good_api 5 yaml))
      (delivers [] 6 (stream_list_fetched fetched) ((7, stream_list_fetched fetched) ∷ []) refl
        good_api 5 yaml)

running_iff_under_way_example :
    ((checking.cleaner.running ≡ true) ↔ (0 < tokens_of checking.cleaner checking.mail))
    × (weigh (straying checking.cleaner.triggered_at) checking.mail ≡ 0)
running_iff_under_way_example = running_iff_under_way sample_config checking-Reach

checking_runs :
    (checking.cleaner.running ≡ true)
    × (weigh (fetching checking.cleaner.triggered_at) checking.mail ≡ 0)
unfolding start deliver post mailed Master.receive StreamCleaner.receive Actor.receive weigh token
    text_eq
checking_runs = (refl, refl)

outstanding-eq-working_example :
    checking.cleaner.outstanding ≡ weigh (working checking.cleaner.triggered_at) checking.mail
outstanding-eq-working_example =
    outstanding-eq-working sample_config checking-Reach checking_runs.0 checking_runs.1

worked-le-brought_example :
    worked checking-Reach + effort_left checking.mail ≤ 9 * brought checking-Reach
worked-le-brought_example = worked-le-brought sample_config checking-Reach
