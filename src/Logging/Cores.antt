-- ===== src/Logging/Cores.antt =====
-- logging/logger.go with config/config.go: the logger of a configuration that `Load` returned.
use go2rtc_manager.Prelude.{
  ◌≡◌, refl, subst, ◌⊎◌, inl, inr, Bool-cases, true, false, List, [], ◌∷◌, All, map,
}
use go2rtc_manager.Prelude.Results.{Result, ok, >>=-eq-ok}
use go2rtc_manager.Prelude.Text.{Text, codes, text_eq, is_empty}
use go2rtc_manager.Config.{Config, LogConfig}
use go2rtc_manager.Config.Load.Valid.{IsNonEmpty, IsPositive, HasLog}
use go2rtc_manager.Config.Load.Ready.{IsReady}
use go2rtc_manager.Logging.{
  Encoder, console_encoder, json_encoder, Lumberjack, Sink, stdout, rotated, Core, new_encoder,
  log_level, stdout_core, file_core, make_log_dir, new_logger,
}

-- The encoder that the format asks for.
abbrev pub Encodes : LogConfig → Encoder → Type 0
Encodes cfg e =
    ((cfg.format ≡ codes "text") × (e ≡ console_encoder))
    ⊎ ((cfg.format ≡ codes "json") × (e ≡ json_encoder))

-- A file that rotates with limits above zero.
pub record Rotates (cfg : LogConfig) (f : Lumberjack) : Type 0 where
  pub filename : f.filename ≡ cfg.file_path
  pub given : IsNonEmpty f.filename
  pub max_size : IsPositive f.max_size
  pub max_backups : IsPositive f.max_backups
  pub max_age : IsPositive f.max_age

-- Standard output, and the log file if the configuration names one.
abbrev pub WritesTo : LogConfig → List Sink → Type 0
WritesTo cfg sinks =
    ((cfg.file_path ≡ []) × (sinks ≡ stdout ∷ []))
    ⊎ ((f : Lumberjack) × (sinks ≡ stdout ∷ rotated f ∷ []) × Rotates cfg f)

new_encoder-Encodes :
    (cfg : LogConfig)
    → (cfg.format ≡ codes "text") ⊎ (cfg.format ≡ codes "json")
    → Encodes cfg (new_encoder cfg)
unfolding new_encoder text_eq
new_encoder-Encodes cfg (inl e) = inl (e, rw e refl)
new_encoder-Encodes cfg (inr e) = inr (e, rw e refl)

module _ {Level : Type 0} (info : Level) (parse_level : Text → Result Level)
    (mkdir_all : Text → Result (Unit {0})) where
  -- The cores that a configuration asks for.
  abbrev pub Logs : LogConfig → List (Core Level) → Type 0
  Logs cfg cores =
      WritesTo cfg (map (λ c. c.sink) cores)
      × All (λ c. Encodes cfg c.encoder × (c.level ≡ log_level info parse_level mkdir_all cfg))
          cores

  both_Logs :
      (cfg : Config)
      → Encodes cfg.log (new_encoder cfg.log)
      → is_empty cfg.log.file_path ≡ false
      → HasLog cfg
      → Logs cfg.log (
          stdout_core info parse_level mkdir_all cfg.log
          ∷ file_core info parse_level mkdir_all cfg.log
          ∷ [])
  unfolding stdout_core file_core
  both_Logs cfg encodes given limits = (
    inr (
      _,
      refl,
      record {
        filename = refl;
        given = given;
        max_size = limits.max_size_mb;
        max_backups = limits.max_backups;
        max_age = limits.max_age_days;
      },
    ),
    ((encodes, refl), ((encodes, refl), tt)),
  )

  new_logger-cases :
      (cfg : Config) (cores : List (Core Level))
      → Encodes cfg.log (new_encoder cfg.log)
      → (cfg.log.file_path ≡ []) ⊎ HasLog cfg
      → new_logger info parse_level mkdir_all cfg.log ≡ ok cores
      → Logs cfg.log cores
  unfolding new_logger
  new_logger-cases cfg cores encodes limits h = elim (Bool-cases (is_empty cfg.log.file_path)) [
    | inl none_named ↦
        subst (Logs cfg.log) (cores_injective (rw (none_named, new_logger) at h))
          (unfold stdout_core in (inl (empty_of _ none_named, refl), ((encodes, refl), tt)))
    | inr named ↦
        let (made, made_ok, same) =
          >>=-eq-ok (make_log_dir info parse_level mkdir_all cfg.log) _
            (rw (named, new_logger) at h) in
        subst (Logs cfg.log) (cores_injective same)
          (both_Logs cfg encodes named (limits_of cfg.log.file_path named limits))
  ]
    where
      cores_injective : {x y : List (Core Level)} → ok x ≡ ok y → x ≡ y
      cores_injective e = cc

      empty_of : (s : Text) → is_empty s ≡ true → s ≡ []
      empty_of [] h = refl
      empty_of (c ∷ s) h = cc

      limits_of : (s : Text) → is_empty s ≡ false → (s ≡ []) ⊎ HasLog cfg → HasLog cfg
      limits_of [] h e = cc
      limits_of (c ∷ s) h (inl e) = cc
      limits_of (c ∷ s) h (inr limits) = limits

  -- For a configuration that is ready, a logger that `New` returns writes to standard output, and to
  -- the log file exactly if one is named, a file that rotates with limits above zero; every core has
  -- the encoder of the format, the console's for text and JSON for json, and the one level of the
  -- configuration.
  pub new_logger-Logs :
      (parse_cron : Text → Result (Unit {0})) (cfg : Config) (cores : List (Core Level))
      → IsReady parse_cron cfg
      → new_logger info parse_level mkdir_all cfg.log ≡ ok cores
      → Logs cfg.log cores
  new_logger-Logs parse_cron cfg cores ready h =
      new_logger-cases cfg cores (new_encoder-Encodes cfg.log ready.format) ready.log h
