-- ===== src/Main/Ready.antt =====
-- main.go with config/config.go: the configuration with which the program runs.
use go2rtc_manager.Prelude.{◌≡◌, refl, subst, inl, inr, List, All}
use go2rtc_manager.Prelude.Results.{Result, ok, err, Result-cases}
use go2rtc_manager.Prelude.Text.{Text, CaseTable}
use go2rtc_manager.Config.{Config, LogConfig}
use go2rtc_manager.Config.Load.{load}
use go2rtc_manager.Config.Load.Ready.{IsReady, validate-IsReady}
use go2rtc_manager.Main.{Action, spawn_master, start_server, fails, runs, main}

module _ (table : CaseTable) (parse_cron : Text → Result (Unit {0})) where
  load-IsReady :
      (read_in_config : Result (Unit {0})) (unmarshal : Result Config) (cfg : Config)
      → load table parse_cron read_in_config unmarshal ≡ ok cfg
      → IsReady parse_cron cfg
  unfolding load
  load-IsReady (err e) unmarshal cfg h = cc
  load-IsReady (ok _) (err e) cfg h = cc
  load-IsReady (ok _) (ok given) cfg h = validate-IsReady table parse_cron given cfg h

  -- The actors and the server are given ready configurations only.
  abbrev pub StartsReady : Action → Type 0
  StartsReady (spawn_master cfg) = IsReady parse_cron cfg
  StartsReady (start_server cfg) = IsReady parse_cron cfg
  StartsReady _ = Unit

  actions_StartsReady :
      {Logger : Type 0} (loaded : Result Config) (new_logger : LogConfig → Result Logger)
      (actions : List Action)
      → ((cfg : Config) → loaded ≡ ok cfg → IsReady parse_cron cfg)
      → main loaded new_logger ≡ runs actions
      → All StartsReady actions
  unfolding main
  actions_StartsReady (err e) new_logger actions ready h = cc
  actions_StartsReady (ok cfg) new_logger actions ready h =
      elim (Result-cases (new_logger cfg.log)) [
        | inr (e, failed) ↦ absurd (no_run (rw (failed, main) at h))
        | inl (logger, made) ↦
            subst (All StartsReady) (actions_injective (rw (made, main) at h))
              (ready cfg refl, (ready cfg refl, (tt, (tt, (tt, tt)))))
      ]
    where
      no_run : {e : Text} → fails e ≡ runs actions → ⊥
      no_run e = cc

      actions_injective : {x y : List Action} → runs x ≡ runs y → x ≡ y
      actions_injective e = cc

  -- The program starts its actors and its server only with a configuration that obeys the rules of
  -- README.md, whatever the file, the environment and the set-up of the logger gave.
  pub main-StartsReady :
      {Logger : Type 0} (read_in_config : Result (Unit {0})) (unmarshal : Result Config)
      (new_logger : LogConfig → Result Logger) (actions : List Action)
      → main (load table parse_cron read_in_config unmarshal) new_logger ≡ runs actions
      → All StartsReady actions
  main-StartsReady read_in_config unmarshal new_logger actions h =
      actions_StartsReady (load table parse_cron read_in_config unmarshal) new_logger actions
        (λ cfg loaded. load-IsReady read_in_config unmarshal cfg loaded) h
