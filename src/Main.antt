-- ===== src/Main.antt =====
-- main.go: what the program does, in its order. The process itself, its signals and net/http are the
-- environment: an action is a call of `main`.
pub mod Ready
use go2rtc_manager.Prelude.{List, [], ◌∷◌, ◌++◌}
use go2rtc_manager.Prelude.Results.{Result, ok, err}
use go2rtc_manager.Prelude.Text.{Text, codes}
use go2rtc_manager.Config.{Config, LogConfig}

pub data Action : Type 0 where
  -- `system.Root.Spawn(props)` of `NewMasterActor(cfg, …)`
  spawn_master : Config → Action
  -- `go httpServer.Start()` of `httpserver.New(cfg, …)`
  start_server : Config → Action
  await_signal shutdown_server stop_master : Action

pub data Process : Type 0 where
  -- a text on standard error, and the exit status 1
  fails : Text → Process
  runs : List Action → Process

abbrev newline : Text
newline = 10 ∷ []

-- `main`, from what `config.Load` and `logging.New` give.
unfoldable pub main {ℓ} : {Logger : Type ℓ} → Result Config → (LogConfig → Result Logger) → Process
main (err e) new_logger = fails (codes "load config: " ++ (e ++ newline))
main (ok cfg) new_logger = elim (new_logger cfg.log) [
  | err e ↦ fails (codes "initialize logger: " ++ (e ++ newline))
  | ok logger ↦
      runs (spawn_master cfg ∷ start_server cfg ∷ await_signal ∷ shutdown_server ∷ stop_master ∷ [])
]
