-- ===== src/Config/Defaults.antt =====
-- config/config.go: `setDefaults`, and the keys that the tags of the structs read. viper itself, which
-- looks a key up in the environment, the file and the defaults and converts what it finds, is a
-- parameter.
pub mod Enough
use go2rtc_manager.Prelude.{◌≡◌, Bool, true, false, List, [], ◌∷◌}
use go2rtc_manager.Prelude.Int.{ℤ, pos}
use go2rtc_manager.Prelude.Results.{Result, ok}
use go2rtc_manager.Prelude.Text.{Text, codes}
use go2rtc_manager.Time.{Duration}
use go2rtc_manager.Config.{Config}

-- The types of the defaults.
pub data Value : Type 0 where
  text_value : Text → Value
  int_value : ℤ → Value
  bool_value : Bool → Value
  list_value : List Text → Value

unfoldable pub set_defaults : List (Text × Value)
set_defaults =
    (codes "app.name", text_value (codes "go2rtc-manager"))
    ∷ (codes "app.env", text_value (codes "local"))
    ∷ (codes "app.box_ip", text_value [])
    ∷ (codes "log.level", text_value (codes "info"))
    ∷ (codes "log.format", text_value (codes "json"))
    ∷ (codes "log.file_path", text_value [])
    ∷ (codes "log.max_size_mb", int_value (pos 100))
    ∷ (codes "log.max_backups", int_value (pos 10))
    ∷ (codes "log.max_age_days", int_value (pos 30))
    ∷ (codes "log.compress", bool_value true)
    ∷ (codes "http.addr", text_value (codes ":7181"))
    ∷ (codes "http.read_timeout", text_value (codes "5s"))
    ∷ (codes "http.write_timeout", text_value (codes "15s"))
    ∷ (codes "http.idle_timeout", text_value (codes "60s"))
    ∷ (codes "go2rtc.base_url", text_value (codes "http://127.0.0.1:1984"))
    ∷ (codes "go2rtc.username", text_value [])
    ∷ (codes "go2rtc.password", text_value [])
    ∷ (codes "go2rtc.config_path", text_value (codes "/config/go2rtc.yaml"))
    ∷ (codes "go2rtc.request_timeout", text_value (codes "10s"))
    ∷ (codes "go2rtc.backup_before_change", bool_value true)
    ∷ (codes "schedule.run_on_start", bool_value true)
    ∷ (codes "schedule.crons", list_value [])
    ∷ (codes "schedule.confirmation_delay", text_value (codes "3m"))
    ∷ (codes "action.dry_run", bool_value false)
    ∷ (codes "snapshot.storage_dir", text_value (codes "storage"))
    ∷ (codes "record.max_duration", text_value (codes "1h"))
    ∷ (codes "record.job_retention", text_value (codes "24h"))
    ∷ (codes "record.max_concurrent_jobs", int_value (pos 3))
    ∷ (codes "record.allowed_ips", list_value [])
    ∷ (codes "minio.endpoint", text_value [])
    ∷ (codes "minio.access_key", text_value [])
    ∷ (codes "minio.secret_key", text_value [])
    ∷ (codes "minio.use_ssl", bool_value false)
    ∷ (codes "mongodb.uri", text_value [])
    ∷ (codes "mongodb.database", text_value [])
    ∷ (codes "mongodb.collection", text_value (codes "BODYCAM_INFO"))
    ∷ (codes "redis.addr", text_value [])
    ∷ (codes "redis.password", text_value [])
    ∷ (codes "redis.db", int_value (pos 0))
    ∷ (codes "redis.publish_interval", text_value (codes "0s"))
    ∷ []

-- What viper reads of a key, by the type of the field that asks for it.
pub record Settings : Type 0 where
  pub text : Text → Text
  pub whole : Text → ℤ
  pub flag : Text → Bool
  pub texts : Text → List Text
  pub duration : Text → Duration

-- `v.Unmarshal(&cfg)`: each field reads the key of its tag.
unfoldable pub unmarshal : Settings → Config
unmarshal r = record {
  app = record {
    name = r.text (codes "app.name");
    env = r.text (codes "app.env");
    box_ip = r.text (codes "app.box_ip");
  };
  log = record {
    level = r.text (codes "log.level");
    format = r.text (codes "log.format");
    file_path = r.text (codes "log.file_path");
    max_size_mb = r.whole (codes "log.max_size_mb");
    max_backups = r.whole (codes "log.max_backups");
    max_age_days = r.whole (codes "log.max_age_days");
    compress = r.flag (codes "log.compress");
  };
  http = record {
    addr = r.text (codes "http.addr");
    read_timeout = r.duration (codes "http.read_timeout");
    write_timeout = r.duration (codes "http.write_timeout");
    idle_timeout = r.duration (codes "http.idle_timeout");
  };
  go2rtc = record {
    base_url = r.text (codes "go2rtc.base_url");
    username = r.text (codes "go2rtc.username");
    password = r.text (codes "go2rtc.password");
    config_path = r.text (codes "go2rtc.config_path");
    request_timeout = r.duration (codes "go2rtc.request_timeout");
    backup_before_change = r.flag (codes "go2rtc.backup_before_change");
  };
  schedule = record {
    run_on_start = r.flag (codes "schedule.run_on_start");
    crons = r.texts (codes "schedule.crons");
    confirmation_delay = r.duration (codes "schedule.confirmation_delay");
  };
  action = record { dry_run = r.flag (codes "action.dry_run") };
  snapshot = record { storage_dir = r.text (codes "snapshot.storage_dir") };
  recording = record {
    max_duration = r.duration (codes "record.max_duration");
    job_retention = r.duration (codes "record.job_retention");
    max_concurrent_jobs = r.whole (codes "record.max_concurrent_jobs");
    allowed_ips = r.texts (codes "record.allowed_ips");
  };
  minio = record {
    endpoint = r.text (codes "minio.endpoint");
    access_key = r.text (codes "minio.access_key");
    secret_key = r.text (codes "minio.secret_key");
    use_ssl = r.flag (codes "minio.use_ssl");
  };
  mongodb = record {
    uri = r.text (codes "mongodb.uri");
    database = r.text (codes "mongodb.database");
    collection = r.text (codes "mongodb.collection");
  };
  redis = record {
    addr = r.text (codes "redis.addr");
    password = r.text (codes "redis.password");
    db = r.whole (codes "redis.db");
    publish_interval = r.duration (codes "redis.publish_interval");
  };
}
