-- ===== src/Logging.antt =====
-- logging/logger.go. The levels of zap and `os.MkdirAll` are parameters; a logger is the list of
-- its cores, each with an encoder, a sink and a level.
pub mod Cores
use go2rtc_manager.Prelude.{not, Bool, ◌||◌, List, [], ◌∷◌, ◌++◌, ◌==◌, if◌then◌else◌}
use go2rtc_manager.Prelude.Int.{ℤ}
use go2rtc_manager.Prelude.Results.{Result, ok, err, wrap, ◌>>=◌}
use go2rtc_manager.Prelude.Text.{Text, codes, text_eq, is_empty}
use go2rtc_manager.Prelude.Paths.{slash, clean}
use go2rtc_manager.Config.{LogConfig}

pub data Encoder : Type 0 where
  console_encoder json_encoder : Encoder

-- `lumberjack.Logger`
pub record Lumberjack : Type 0 where
  pub filename : Text
  pub max_size : ℤ
  pub max_backups : ℤ
  pub max_age : ℤ
  pub compress : Bool

pub data Sink : Type 0 where
  stdout : Sink
  rotated : Lumberjack → Sink

pub record Core (Level : Type 0) : Type 0 where
  pub encoder : Encoder
  pub sink : Sink
  pub level : Level

-- The text up to its last slash, with it.
unfoldable pub up_to_slash : Text → Text
up_to_slash [] = []
up_to_slash (c ∷ s) =
    let rest = up_to_slash s in if (c == slash) || not (is_empty rest) then c ∷ rest else []

-- `filepath.Dir`
unfoldable pub dir : Text → Text
unfolding up_to_slash clean
dir path = clean (up_to_slash path)

unfoldable pub new_encoder : LogConfig → Encoder
unfolding text_eq
new_encoder cfg = if text_eq cfg.format (codes "text") then console_encoder else json_encoder

module _ {Level : Type 0} (info : Level) (parse_level : Text → Result Level)
    (mkdir_all : Text → Result (Unit {0})) where
  unfoldable pub log_level : LogConfig → Level
  log_level cfg = elim (parse_level cfg.level) [ ok level ↦ level | err e ↦ info ]

  unfoldable pub stdout_core : LogConfig → Core Level
  unfolding new_encoder log_level
  stdout_core cfg = record { encoder = new_encoder cfg; sink = stdout; level = log_level cfg }

  unfoldable pub file_core : LogConfig → Core Level
  unfolding new_encoder log_level
  file_core cfg = record {
    encoder = new_encoder cfg;
    sink = rotated (record {
      filename = cfg.file_path;
      max_size = cfg.max_size_mb;
      max_backups = cfg.max_backups;
      max_age = cfg.max_age_days;
      compress = cfg.compress;
    });
    level = log_level cfg;
  }

  -- The directory of the log file, made if it is not the working directory.
  unfoldable pub make_log_dir : LogConfig → Result (Unit {0})
  unfolding dir text_eq
  make_log_dir cfg =
      if text_eq (dir cfg.file_path) (codes ".")
      then ok tt
      else wrap (codes "create log dir: ") (mkdir_all (dir cfg.file_path))

  -- `New`
  unfoldable pub new_logger : LogConfig → Result (List (Core Level))
  unfolding stdout_core file_core make_log_dir
  new_logger cfg =
      if is_empty cfg.file_path
      then ok (stdout_core cfg ∷ [])
      else (make_log_dir cfg >>= λ _. ok (stdout_core cfg ∷ file_core cfg ∷ []))
