-- ===== src/Tests/Counting.antt =====
-- A stream count at a concrete tick (actor/StreamCountActor.go, actor/MasterActor.go).
use go2rtc_manager.Prelude.{
  ◌≡◌, ◌≤◌, ◌<◌, refl, true, [], ◌∷◌, ◌++◌, ◌+◌, subst, List, length, some, arith,
}
use go2rtc_manager.Prelude.Results.{ok}
use go2rtc_manager.Prelude.Text.{Text, codes, text_eq}
use go2rtc_manager.Message.{CountAliveStreamsStarted, count_alive_streams_started}
use go2rtc_manager.Master.{spawn_children}
use go2rtc_manager.Master
use go2rtc_manager.StreamCount.{new_stream_count_actor}
use go2rtc_manager.StreamCount
use go2rtc_manager.Go2Rtc.Yaml.{Node, IsPaired, paired}
use go2rtc_manager.System.{
  System, start, deliver, post, mailed, IsYaml, delivers, ticker_fires, Reach, here, next,
}
use go2rtc_manager.System.Tokens.{working}
use go2rtc_manager.System.Counting.{tally}
use go2rtc_manager.System.Counting.Unstuck.{parts_of, counter_never_stuck}
use go2rtc_manager.System.Weights.{weight_of, ListsFew}
use go2rtc_manager.System.Weights.Rest.{
  Deliveries, nothing, after, how_many, AtRest, how_many-le-weight_of, Deliveries-AtRest,
}
use go2rtc_manager.Go2Rtc.Actor.{list_stream_names}
use go2rtc_manager.Tests.Sample.{sample_config, good_api}

abbrev tick : CountAliveStreamsStarted
tick = record { triggered_at = 5; reason = codes "redis_publish_tick" }

-- The ticker fires, and two deliveries bring the tick over the master to the counter.
abbrev ticked : System
ticked = record (start sample_config) {
  mail = (start sample_config).mail ++ (0, count_alive_streams_started tick) ∷ [];
}

abbrev told : System
told = deliver good_api 5 0 (count_alive_streams_started tick) (record ticked { mail = [] })

abbrev counting : System
counting = deliver good_api 5 7 (count_alive_streams_started tick) (record told { mail = [] })

yaml : IsYaml good_api
unfolding paired
yaml raw root e = subst (λ r. IsPaired r) (ok_injective e) refl
  where
    ok_injective : {x y : Node} → ok x ≡ ok y → x ≡ y
    ok_injective e = cc

counting-Reach : Reach (start sample_config) counting
unfolding start deliver post mailed Master.receive StreamCount.receive new_stream_count_actor
    spawn_children
counting-Reach =
    next
      (next (next here (ticker_fires tick))
        (delivers [] 0 (count_alive_streams_started tick) [] refl good_api 5 yaml))
      (delivers [] 7 (count_alive_streams_started tick) [] refl good_api 5 yaml)

counting_runs : counting.count.running ≡ true
unfolding start deliver post mailed Master.receive StreamCount.receive new_stream_count_actor
    spawn_children
counting_runs = refl

counter_never_stuck_example :
    (0 < parts_of counting.count counting.mail)
    × (counting.count.outstanding ≤ tally (working counting.count.triggered_at) counting.mail)
counter_never_stuck_example = counter_never_stuck sample_config counting-Reach counting_runs

good_api-ListsFew : ListsFew good_api 1
unfolding list_stream_names text_eq
good_api-ListsFew a names e = subst (λ t. length t ≤ 1) (names_injective e) (ground arith)
  where
    names_injective : {x y : List Text} → some (ok x) ≡ some (ok y) → x ≡ y
    names_injective e = cc

ticked-Reach : Reach (start sample_config) ticked
unfolding start
ticked-Reach = next here (ticker_fires tick)

-- The two deliveries.
two_deliveries : Deliveries 1 ticked counting
unfolding start deliver post mailed Master.receive StreamCount.receive new_stream_count_actor
    spawn_children
two_deliveries =
    after
      (after nothing [] 0 (count_alive_streams_started tick) [] refl good_api 5 yaml
        good_api-ListsFew)
      [] 7 (count_alive_streams_started tick) [] refl good_api 5 yaml good_api-ListsFew

how_many-le-weight_of_example :
    how_many two_deliveries + weight_of 1 counting.mail ≤ weight_of 1 ticked.mail
how_many-le-weight_of_example = how_many-le-weight_of 1 sample_config ticked-Reach two_deliveries

Deliveries-AtRest_example : (u : System) × Deliveries 1 counting u × AtRest u
Deliveries-AtRest_example =
    Deliveries-AtRest 1 sample_config good_api 5 yaml good_api-ListsFew counting-Reach
