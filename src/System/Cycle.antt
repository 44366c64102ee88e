-- ===== src/System/Cycle.antt =====
-- A cleanup cycle and the messages under way, whatever the order of deliveries.
use go2rtc_manager.Prelude.{ℕ, ◌+◌, ◌<◌, ◌≡◌, true, List, [], ◌∷◌, arith, subst, ◌↔◌}
use go2rtc_manager.Config.{Config}
use go2rtc_manager.Message.{trigger_cleanup, count_alive_streams_started}
use go2rtc_manager.StreamCleaner.{StreamCleanerActor}
use go2rtc_manager.System.{
  System, master_pid, Envelope, start, Step, delivers, cron_fires, ticker_fires, Reach, here, next,
}
use go2rtc_manager.System.Tokens.{token, fetching, working, straying, weigh, weigh-append}
use go2rtc_manager.System.Invariant.{Balanced, reweigh, deliver-Balanced}

start-Balanced : (cfg : Config) → Balanced (start cfg).cleaner (start cfg).mail
unfolding start weigh
start-Balanced cfg = ground arith

Step-Balanced : {s t : System} → Step s t → Balanced s.cleaner s.mail → Balanced t.cleaner t.mail
unfolding weigh token
Step-Balanced {s} (delivers before pid msg later e api now yaml) h =
    deliver-Balanced api now pid msg s before later yaml (subst (Balanced s.cleaner) e h)
Step-Balanced {s} (cron_fires msg) h =
    reweigh s.cleaner _ _
      (λ f z. omega (arith, weigh-append f s.mail ((master_pid, trigger_cleanup msg) ∷ []))) h
Step-Balanced {s} (ticker_fires msg) h =
    reweigh s.cleaner _ _
      (λ f z.
        omega (arith, weigh-append f s.mail ((master_pid, count_alive_streams_started msg) ∷ [])))
      h

pub Reach-Balanced : (cfg : Config) {s : System} → Reach (start cfg) s → Balanced s.cleaner s.mail
Reach-Balanced cfg here = start-Balanced cfg
Reach-Balanced cfg (next r st) = Step-Balanced st (Reach-Balanced cfg r)

-- The messages under way that belong to the cleaner's cycle of the time `t`.
abbrev pub tokens_of : StreamCleanerActor → List Envelope → ℕ
tokens_of a mail = weigh (fetching a.triggered_at) mail + weigh (working a.triggered_at) mail

-- In every state that the system can reach, by any deliveries in any order: the cleaner is in a
-- cycle exactly when a message under way belongs to that cycle, and no message belongs to another.
pub running_iff_under_way :
    (cfg : Config) {s : System}
    → Reach (start cfg) s
    → ((s.cleaner.running ≡ true) ↔ (0 < tokens_of s.cleaner s.mail))
      × (weigh (straying s.cleaner.triggered_at) s.mail ≡ 0)
running_iff_under_way cfg r = ground (arith, Reach-Balanced cfg r)

-- In every state that the system can reach: while the cleaner runs and its stream list has come,
-- `outstanding` is the number of streams whose check or removal is under way.
pub outstanding-eq-working :
    (cfg : Config) {s : System}
    → Reach (start cfg) s
    → s.cleaner.running ≡ true
    → weigh (fetching s.cleaner.triggered_at) s.mail ≡ 0
    → s.cleaner.outstanding ≡ weigh (working s.cleaner.triggered_at) s.mail
outstanding-eq-working cfg r on none = ground (arith, Reach-Balanced cfg r)
