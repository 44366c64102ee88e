-- ===== src/Master/Schedule/Registered.antt =====
-- actor/MasterActor.go with config/config.go: the schedule of a configuration that `Load` returned.
use go2rtc_manager.Prelude.{
  suc, ◌≡◌, ◌≢◌, refl, ap, false, ◌||◌, inl, inr, ◌⊎◌, List, [], ◌∷◌, All, Option, none, some,
  arith, if◌then◌else◌,
}
use go2rtc_manager.Prelude.Int.{pos, leb_ℤ}
use go2rtc_manager.Prelude.Results.{Result, ok}
use go2rtc_manager.Prelude.Text.{Text, CaseTable, is_empty}
use go2rtc_manager.Time.{Duration}
use go2rtc_manager.Config.{Config}
use go2rtc_manager.Config.Load.{validate}
use go2rtc_manager.Config.Load.Valid.{IsNonEmpty, IsPositive}
use go2rtc_manager.Config.Load.Ready.{validate-IsReady}
use go2rtc_manager.Message.{Pid}
use go2rtc_manager.Effect.{Context}
use go2rtc_manager.Master.Schedule.{registered, new_ticker, on_started}

registered-All :
    (parse_cron : Text → Result (Unit {0})) (specs : List Text)
    → All (λ s. IsNonEmpty s × (parse_cron s ≡ ok tt)) specs
    → registered parse_cron specs ≡ specs
unfolding registered
registered-All parse_cron [] h = refl
registered-All parse_cron (s ∷ more) h =
    rw (h.0.1, registered, registered-All parse_cron more h.1) refl

-- The ticker of a configuration, as `time.NewTicker` needs it, which panics at zero and below.
abbrev pub Ticks : Config → Option Duration → Type 0
Ticks cfg ticker =
    ((cfg.redis.addr ≡ []) × (ticker ≡ none))
    ⊎ (IsPositive cfg.redis.publish_interval × (ticker ≡ some cfg.redis.publish_interval))

new_ticker-Ticks :
    (cfg : Config)
    → (cfg.redis.addr ≡ []) ⊎ IsPositive cfg.redis.publish_interval
    → Ticks cfg (new_ticker cfg)
unfolding new_ticker
new_ticker-Ticks cfg h = go cfg.redis.addr cfg.redis.publish_interval h
  where
    go :
        (addr : Text) (d : Duration)
        → (addr ≡ []) ⊎ IsPositive d
        → ((addr ≡ []) × ((if is_empty addr || leb_ℤ d (pos 0) then none else some d) ≡ none))
          ⊎ (IsPositive d × ((if is_empty addr || leb_ℤ d (pos 0) then none else some d) ≡ some d))
    go [] d h = inl (refl, refl)
    go (c ∷ s) d (inl e) = cc
    go (c ∷ s) d (inr (n, e)) =
        let above : leb_ℤ (pos (suc n)) (pos 0) ≡ false = ground arith in
        inr ((n, e), rw (e, above) refl)

-- What the master schedules is what the file asked for: for a configuration that `Load` returned,
-- with the same cron parser, the cron scheduler takes each expression of the configuration, of which
-- there is at least one, and drops none; and the ticker for Redis is made only with an interval
-- above zero, or not at all if Redis has no address.
pub on_started-Ticks :
    (table : CaseTable) (parse_cron : Text → Result (Unit {0})) (given cfg : Config) (ctx : Context)
    (next_pid : Pid)
    → validate table parse_cron given ≡ ok cfg
    → let s = (on_started parse_cron ctx cfg next_pid).1 in
      (s.cleanup_scheduler ≡ some cfg.schedule.crons)
      × (cfg.schedule.crons ≢ [])
      × Ticks cfg s.redis_ticker
unfolding on_started
on_started-Ticks table parse_cron given cfg ctx next_pid h =
    let ready = validate-IsReady table parse_cron given cfg h in
    (
      ap some (registered-All parse_cron cfg.schedule.crons ready.crons),
      ready.some_cron,
      new_ticker-Ticks cfg ready.stores.publish_interval,
    )
