-- ===== src/Config/Load/Passes.antt =====
-- config/config.go: the checks of `Load` one by one, and how `validate` uses them.
use go2rtc_manager.Prelude.{◌≡◌, refl, sym, true, not, ◌||◌, List}
use go2rtc_manager.Prelude.Results.{Result, ok, >>=-eq-ok}
use go2rtc_manager.Prelude.Text.{Text, CaseTable, codes, text_eq, is_empty}
use go2rtc_manager.Config.{Config}
use go2rtc_manager.Config.Load.{
  check_crons, check_ips, check_log, check_services, check_limits, check_stores, tidy_log, validate,
  has_crons,
}
use go2rtc_manager.Config.Load.Valid.{>>-ok, require-ok}

-- The configuration with the two lists that the loops rewrite.
abbrev pub rewritten : Config → List Text → List Text → Config
rewritten cfg crons ips = record cfg {
  schedule = record cfg.schedule { crons = crons };
  recording = record cfg.recording { allowed_ips = ips };
}

-- A configuration, its `log` section tidied, passes the checks; the loops leave these two lists.
pub record Passes (parse_cron : Text → Result (Unit {0})) (cfg : Config) (crons ips : List Text)
    : Type 0 where
  pub box_ip : not (is_empty cfg.app.box_ip) ≡ true
  pub format :
      (text_eq cfg.log.format (codes "text") || text_eq cfg.log.format (codes "json")) ≡ true
  pub log : check_log cfg ≡ ok tt
  pub services : check_services cfg ≡ ok tt
  pub some_cron : has_crons cfg.schedule.crons ≡ true
  pub cron_loop : check_crons parse_cron 0 cfg.schedule.crons ≡ ok crons
  pub limits : check_limits cfg ≡ ok tt
  pub ip_loop : check_ips 0 cfg.recording.allowed_ips ≡ ok ips
  pub stores : check_stores cfg ≡ ok tt

module _ (table : CaseTable) (parse_cron : Text → Result (Unit {0})) where
  pub validate-Passes :
      (given cfg : Config)
      → validate table parse_cron given ≡ ok cfg
      → (crons : List Text) × (ips : List Text) × Passes parse_cron
          (tidy_log table parse_cron given)
          crons
          ips
        × (cfg ≡ rewritten (tidy_log table parse_cron given) crons ips)
  unfolding validate tidy_log
  validate-Passes given cfg h0 =
      let (box, h1) = >>-ok _ _ h0 in
      let (format, h2) = >>-ok _ _ h1 in
      let (log, h3) = >>-ok _ _ h2 in
      let (services, h4) = >>-ok _ _ h3 in
      let (some_cron, h5) = >>-ok _ _ h4 in
      let (crons, cron_loop, h6) = >>=-eq-ok _ _ h5 in
      let (limits, h7) = >>-ok _ _ h6 in
      let (ips, ip_loop, h8) = >>=-eq-ok _ _ h7 in
      let (stores, same) = >>-ok _ _ h8 in
      (
        crons,
        ips,
        record {
          box_ip = require-ok _ _ box;
          format = require-ok _ _ format;
          log = log;
          services = services;
          some_cron = require-ok _ _ some_cron;
          cron_loop = cron_loop;
          limits = limits;
          ip_loop = ip_loop;
          stores = stores;
        },
        sym (config_injective same),
      )
    where
      config_injective : {x y : Config} → ok x ≡ ok y → x ≡ y
      config_injective e = cc

  pub Passes-validate :
      (given : Config) (crons ips : List Text)
      → Passes parse_cron (tidy_log table parse_cron given) crons ips
      → validate table parse_cron given ≡ ok (rewritten (tidy_log table parse_cron given) crons ips)
  unfolding validate tidy_log
  Passes-validate given crons ips p =
      rw
        (
          p.box_ip, p.format, p.log, p.services, p.some_cron, p.cron_loop, p.limits, p.ip_loop,
          p.stores,
        )
        refl
