-- ===== src/Config/Load/Ready.antt =====
-- config/config.go: the configurations that `Load` returns, against the rules of README.md.
use go2rtc_manager.Prelude.{
  ℕ, ◌+◌, ◌≡◌, refl, sym, ap, subst, ◌∙◌, true, ◌||◌, List, [], ◌∷◌, inl, inr, ◌⊎◌, arith, ◌++◌,
  ◌≢◌, All, map,
}
use go2rtc_manager.Prelude.Results.{Result, ok, >>=-eq-ok}
use go2rtc_manager.Prelude.Text.{Text, CaseTable, codes, text_eq, text_eq_iff, trim_space}
use go2rtc_manager.Config.{Config}
use go2rtc_manager.Config.Load.{
  check_crons, is_address, check_ips, tidy_log, validate, has_crons, indexed,
}
use go2rtc_manager.Config.Load.Passes.{rewritten, Passes, validate-Passes}
use go2rtc_manager.Config.Load.Valid.{
  IsNonEmpty, HasServices, HasLimits, HasStores, HasLog, >>-ok, wrap-ok, require-ok, not_empty,
  check_services-ok, check_limits-ok, check_stores-ok, check_log-ok,
}

pub ok_injective : {x y : List Text} → ok x ≡ ok y → x ≡ y
ok_injective e = cc

pub check_crons-ok :
    (parse_cron : Text → Result (Unit {0})) (i : ℕ) (given specs : List Text)
    → check_crons parse_cron i given ≡ ok specs
    → (specs ≡ map trim_space given) × All (λ s. IsNonEmpty s × (parse_cron s ≡ ok tt)) specs
unfolding check_crons
check_crons-ok parse_cron i [] specs h =
    subst (λ r. (r ≡ []) × All (λ s. IsNonEmpty s × (parse_cron s ≡ ok tt)) r) (ok_injective h)
      (refl, tt)
check_crons-ok parse_cron i (s ∷ more) specs h =
    let (checks, last) = >>-ok _ _ h in
    let (non_empty, parses) = >>-ok _ _ checks in
    let (later, found, same) = >>=-eq-ok _ _ last in
    let (trims, valid) = check_crons-ok parse_cron (i + 1) more later found in
    subst
      (λ r. (r ≡ map trim_space (s ∷ more)) × All (λ t. IsNonEmpty t × (parse_cron t ≡ ok tt)) r)
      (ok_injective same)
      (
        ap (λ r. trim_space s ∷ r) trims,
        (
          (
            not_empty _ (require-ok _ _ non_empty),
            wrap-ok (indexed (codes "schedule.crons") i ++ codes " is invalid: ") _ parses,
          ),
          valid,
        ),
      )

pub check_ips-ok :
    (i : ℕ) (given ips : List Text)
    → check_ips i given ≡ ok ips
    → (ips ≡ map trim_space given) × All (λ s. IsNonEmpty s × (is_address s ≡ true)) ips
unfolding check_ips
check_ips-ok i [] ips h =
    subst (λ r. (r ≡ []) × All (λ s. IsNonEmpty s × (is_address s ≡ true)) r) (ok_injective h)
      (refl, tt)
check_ips-ok i (s ∷ more) ips h =
    let (checks, last) = >>-ok _ _ h in
    let (non_empty, address) = >>-ok _ _ checks in
    let (later, found, same) = >>=-eq-ok _ _ last in
    let (trims, valid) = check_ips-ok (i + 1) more later found in
    subst (λ r. (r ≡ map trim_space (s ∷ more)) × All (λ t. IsNonEmpty t × (is_address t ≡ true)) r)
      (ok_injective same)
      (
        ap (λ r. trim_space s ∷ r) trims,
        ((not_empty _ (require-ok _ _ non_empty), require-ok _ _ address), valid),
      )

-- The rules for a configuration that the program runs with; `parse_cron` is the cron parser.
pub record IsReady (parse_cron : Text → Result (Unit {0})) (cfg : Config) : Type 0 where
  pub box_ip : IsNonEmpty cfg.app.box_ip
  pub format : (cfg.log.format ≡ codes "text") ⊎ (cfg.log.format ≡ codes "json")
  pub log : (cfg.log.file_path ≡ []) ⊎ HasLog cfg
  pub services : HasServices cfg
  pub some_cron : cfg.schedule.crons ≢ []
  pub crons : All (λ s. IsNonEmpty s × (parse_cron s ≡ ok tt)) cfg.schedule.crons
  pub limits : HasLimits cfg
  pub addresses : All (λ s. IsNonEmpty s × (is_address s ≡ true)) cfg.recording.allowed_ips
  pub stores : HasStores cfg

pub text_or_json :
    (s : Text)
    → (text_eq s (codes "text") || text_eq s (codes "json")) ≡ true
    → (s ≡ codes "text") ⊎ (s ≡ codes "json")
text_or_json s h = ground (arith, text_eq_iff s (codes "text"), text_eq_iff s (codes "json"))

crons_kept : (crons : List Text) → has_crons crons ≡ true → map trim_space crons ≢ []
crons_kept [] h e = cc
crons_kept (s ∷ more) h e = cc

log_kept :
    (cfg : Config) (crons ips : List Text)
    → (cfg.log.file_path ≡ []) ⊎ HasLog cfg
    → (cfg.log.file_path ≡ []) ⊎ HasLog (rewritten cfg crons ips)
log_kept cfg crons ips (inl e) = inl e
log_kept cfg crons ips (inr h) = inr (record {
  max_size_mb = h.max_size_mb;
  max_backups = h.max_backups;
  max_age_days = h.max_age_days;
})

rewritten-IsReady :
    (parse_cron : Text → Result (Unit {0})) (cfg : Config) (crons ips : List Text)
    → Passes parse_cron cfg crons ips
    → IsReady parse_cron (rewritten cfg crons ips)
rewritten-IsReady parse_cron cfg crons ips p =
    let (trims, valid) = check_crons-ok parse_cron 0 cfg.schedule.crons crons p.cron_loop in
    let l = check_limits-ok cfg p.limits in
    let s = check_services-ok cfg p.services in
    let t = check_stores-ok cfg p.stores in
    record {
      box_ip = not_empty _ p.box_ip;
      format = text_or_json cfg.log.format p.format;
      log = log_kept cfg crons ips (check_log-ok cfg p.log);
      services = record {
        addr = s.addr;
        read_timeout = s.read_timeout;
        write_timeout = s.write_timeout;
        idle_timeout = s.idle_timeout;
        base_url = s.base_url;
        config_path = s.config_path;
      };
      some_cron = λ e. crons_kept cfg.schedule.crons p.some_cron (sym trims ∙ e);
      crons = valid;
      limits = record {
        confirmation_delay = l.confirmation_delay;
        storage_dir = l.storage_dir;
        max_duration = l.max_duration;
        job_retention = l.job_retention;
        max_concurrent_jobs = l.max_concurrent_jobs;
      };
      addresses = (check_ips-ok 0 cfg.recording.allowed_ips ips p.ip_loop).1;
      stores = record {
        endpoint = t.endpoint;
        access_key = t.access_key;
        secret_key = t.secret_key;
        uri = t.uri;
        database = t.database;
        collection = t.collection;
        publish_interval = t.publish_interval;
      };
    }

-- Every configuration that `validate` returns, whatever viper read, obeys the rules: the box's
-- address is set, the log format is text or json with limits above zero if there is a log file, the
-- services, the limits and the stores are set and above zero where they count, there is a cron
-- expression and the parser takes each, each allowed address is an IP address or a block of them,
-- and Redis has an interval above zero if it has an address.
pub validate-IsReady :
    (table : CaseTable) (parse_cron : Text → Result (Unit {0})) (given cfg : Config)
    → validate table parse_cron given ≡ ok cfg
    → IsReady parse_cron cfg
validate-IsReady table parse_cron given cfg h =
    let (crons, ips, p, same) = validate-Passes table parse_cron given cfg h in
    subst (λ c. IsReady parse_cron c) (sym same)
      (rewritten-IsReady parse_cron (tidy_log table parse_cron given) crons ips p)
