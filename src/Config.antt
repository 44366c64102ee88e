-- ===== src/Config.antt =====
-- config/config.go: the configuration's types. `Config/Load.antt` has `Load`.
pub mod Load
pub mod Defaults
use go2rtc_manager.Prelude.{Bool, List}
use go2rtc_manager.Prelude.Int.{ℤ}
use go2rtc_manager.Prelude.Text.{Text}
use go2rtc_manager.Time.{Duration}

pub record AppConfig : Type 0 where
  pub name : Text
  pub env : Text
  pub box_ip : Text

pub record LogConfig : Type 0 where
  pub level : Text
  pub format : Text
  pub file_path : Text
  pub max_size_mb : ℤ
  pub max_backups : ℤ
  pub max_age_days : ℤ
  pub compress : Bool

pub record HttpConfig : Type 0 where
  pub addr : Text
  pub read_timeout : Duration
  pub write_timeout : Duration
  pub idle_timeout : Duration

pub record Go2RtcConfig : Type 0 where
  pub base_url : Text
  pub username : Text
  pub password : Text
  pub config_path : Text
  pub request_timeout : Duration
  pub backup_before_change : Bool

pub record ScheduleConfig : Type 0 where
  pub run_on_start : Bool
  pub crons : List Text
  pub confirmation_delay : Duration

pub record ActionConfig : Type 0 where
  pub dry_run : Bool

pub record SnapshotConfig : Type 0 where
  pub storage_dir : Text

pub record RecordConfig : Type 0 where
  pub max_duration : Duration
  pub job_retention : Duration
  pub max_concurrent_jobs : ℤ
  pub allowed_ips : List Text

pub record MinIoConfig : Type 0 where
  pub endpoint : Text
  pub access_key : Text
  pub secret_key : Text
  pub use_ssl : Bool

pub record MongoDbConfig : Type 0 where
  pub uri : Text
  pub database : Text
  pub collection : Text

pub record RedisConfig : Type 0 where
  pub addr : Text
  pub password : Text
  pub db : ℤ
  pub publish_interval : Duration

pub record Config : Type 0 where
  pub app : AppConfig
  pub log : LogConfig
  pub http : HttpConfig
  pub go2rtc : Go2RtcConfig
  pub schedule : ScheduleConfig
  pub action : ActionConfig
  pub snapshot : SnapshotConfig
  pub recording : RecordConfig
  pub minio : MinIoConfig
  pub mongodb : MongoDbConfig
  pub redis : RedisConfig
