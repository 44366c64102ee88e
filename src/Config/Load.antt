-- ===== src/Config/Load.antt =====
-- config/config.go: `Load`, from what viper has read: the file, the environment and the defaults.
-- The cron parser of robfig/cron is a parameter.
pub mod Valid
pub mod Passes
pub mod Ready
pub mod Settled
use go2rtc_manager.Prelude.{
  ℕ, suc, ◌+◌, ◌≡◌, refl, Bool, true, false, not, ◌&&◌, ◌||◌, List, [], ◌∷◌, ◌++◌, Option, none,
  some, leb, ◌==◌, if◌then◌else◌,
}
use go2rtc_manager.Prelude.Int.{ℤ, pos, leb_ℤ}
use go2rtc_manager.Prelude.Results.{Result, ok, err, ◌>>=◌, wrap}
use go2rtc_manager.Prelude.Decimal.{print_nat}
use go2rtc_manager.Prelude.Text.{Text, CaseTable, codes, text_eq, is_empty, trim_space, to_lower}
use go2rtc_manager.Config.{Config}
use go2rtc_manager.Net.Ip.{parse_ip}
use go2rtc_manager.Net.Cidr.{parse_cidr}

infixl 5 ◌>>◌
abbrev pub ◌>>◌ {ℓ} : {B : Type ℓ} → Result (Unit {0}) → Result B → Result B
m >> k = m >>= λ _. k

-- `if … { return Config{}, fmt.Errorf(…) }`
abbrev pub require : Bool → Text → Result (Unit {0})
require true e = ok tt
require false e = err e

-- `x > 0`
abbrev pub is_positive : ℤ → Bool
is_positive x = not (leb_ℤ x (pos 0))

-- "name[i]"
abbrev pub indexed : Text → ℕ → Text
indexed name i = name ++ (codes "[" ++ (print_nat i ++ codes "]"))

-- The loop over `schedule.crons`: the trimmed expressions, from index `i` on.
unfoldable pub check_crons : (Text → Result (Unit {0})) → ℕ → List Text → Result (List Text)
unfolding trim_space
check_crons parse_cron i [] = ok []
check_crons parse_cron i (given ∷ more) =
    let spec = trim_space given in
    let later = check_crons parse_cron (i + 1) more in
    require (not (is_empty spec)) (indexed (codes "schedule.crons") i ++ codes " is empty")
    >> wrap (indexed (codes "schedule.crons") i ++ codes " is invalid: ") (parse_cron spec)
    >> (later >>= λ specs. ok (spec ∷ specs))

abbrev is_some {ℓ} : {A : Type ℓ} → Option A → Bool
is_some none = false
is_some (some _) = true

-- `net.ParseIP(allowedIP) != nil`, or `net.ParseCIDR` has no error.
unfoldable pub is_address : Text → Bool
unfolding parse_ip parse_cidr
is_address s = is_some (parse_ip s) || is_some (parse_cidr s)

-- The loop over `record.allowed_ips`.
unfoldable pub check_ips : ℕ → List Text → Result (List Text)
unfolding trim_space is_address
check_ips i [] = ok []
check_ips i (value ∷ more) =
    let allowed_ip = trim_space value in
    let later = check_ips (i + 1) more in
    require (not (is_empty allowed_ip))
      (indexed (codes "record.allowed_ips") i ++ codes " is empty")
    >> require (is_address allowed_ip)
        (indexed (codes "record.allowed_ips") i ++ codes " must be a valid IP or CIDR")
    >> (later >>= λ ips. ok (allowed_ip ∷ ips))

-- The checks of the `log` section, after its texts are trimmed.
unfoldable pub check_log : Config → Result (Unit {0})
check_log cfg =
    if is_empty cfg.log.file_path
    then ok tt
    else (require (is_positive cfg.log.max_size_mb)
          (codes "log.max_size_mb must be greater than zero when log.file_path is set")
        >> require (is_positive cfg.log.max_backups)
            (codes "log.max_backups must be greater than zero when log.file_path is set")
        >> require (is_positive cfg.log.max_age_days)
            (codes "log.max_age_days must be greater than zero when log.file_path is set"))

-- The checks between the `log` section and the cron expressions.
unfoldable pub check_services : Config → Result (Unit {0})
check_services cfg =
    require (not (is_empty cfg.http.addr)) (codes "http.addr is required")
    >> require (is_positive cfg.http.read_timeout)
        (codes "http.read_timeout must be greater than zero")
    >> require (is_positive cfg.http.write_timeout)
        (codes "http.write_timeout must be greater than zero")
    >> require (is_positive cfg.http.idle_timeout)
        (codes "http.idle_timeout must be greater than zero")
    >> require (not (is_empty cfg.go2rtc.base_url)) (codes "go2rtc.base_url is required")
    >> require (not (is_empty cfg.go2rtc.config_path)) (codes "go2rtc.config_path is required")

abbrev pub has_crons : List Text → Bool
has_crons [] = false
has_crons (s ∷ ss) = true

-- The checks between the cron expressions and the addresses.
unfoldable pub check_limits : Config → Result (Unit {0})
check_limits cfg =
    require (is_positive cfg.schedule.confirmation_delay)
      (codes "schedule.confirmation_delay must be greater than zero")
    >> require (not (is_empty cfg.snapshot.storage_dir)) (codes "snapshot.storage_dir is required")
    >> require (is_positive cfg.recording.max_duration)
        (codes "record.max_duration must be greater than zero")
    >> require (is_positive cfg.recording.job_retention)
        (codes "record.job_retention must be greater than zero")
    >> require (is_positive cfg.recording.max_concurrent_jobs)
        (codes "record.max_concurrent_jobs must be greater than zero")

-- The checks behind the addresses.
unfoldable pub check_stores : Config → Result (Unit {0})
check_stores cfg =
    require (not (is_empty cfg.minio.endpoint)) (codes "minio.endpoint is required")
    >> require (not (is_empty cfg.minio.access_key)) (codes "minio.access_key is required")
    >> require (not (is_empty cfg.minio.secret_key)) (codes "minio.secret_key is required")
    >> require (not (is_empty cfg.mongodb.uri)) (codes "mongodb.uri is required")
    >> require (not (is_empty cfg.mongodb.database)) (codes "mongodb.database is required")
    >> require (not (is_empty cfg.mongodb.collection)) (codes "mongodb.collection is required")
    >> require (is_empty cfg.redis.addr || is_positive cfg.redis.publish_interval)
        (codes "redis.publish_interval must be greater than zero when redis.addr is set")

module _ (table : CaseTable) (parse_cron : Text → Result (Unit {0})) where
  -- The `log` section, with its texts trimmed.
  unfoldable pub tidy_log : Config → Config
  unfolding trim_space to_lower
  tidy_log cfg = record cfg {
    log = record cfg.log {
      format = to_lower table (trim_space cfg.log.format);
      file_path = trim_space cfg.log.file_path;
    };
  }

  -- `Load`, behind `v.Unmarshal`.
  unfoldable pub validate : Config → Result Config
  unfolding tidy_log check_crons check_ips check_log check_services check_limits check_stores
  validate given = do
    require (not (is_empty given.app.box_ip)) (codes "app.box_ip is required")
    let cfg = tidy_log given
    require (text_eq cfg.log.format (codes "text") || text_eq cfg.log.format (codes "json"))
        (codes "log.format must be text or json")
    check_log cfg
    check_services cfg
    require (has_crons cfg.schedule.crons)
        (codes "schedule.crons must contain at least one cron expression")
    crons ← check_crons parse_cron 0 cfg.schedule.crons
    check_limits cfg
    ips ← check_ips 0 cfg.recording.allowed_ips
    check_stores cfg
    ok (record cfg {
      schedule = record cfg.schedule { crons = crons };
      recording = record cfg.recording { allowed_ips = ips };
    })

  -- `Load`: what viper reads from the file, and makes of it.
  unfoldable pub load : Result (Unit {0}) → Result Config → Result Config
  unfolding validate
  load read_in_config unmarshal =
      wrap (codes "read config file: ") read_in_config
      >> (wrap (codes "unmarshal config: ") unmarshal >>= validate)
