-- ===== src/HttpServer/Routes.antt =====
-- httpserver/server.go: `New`, the patterns of its handlers, and `Start`. How `http.ServeMux` matches
-- a path with a pattern is not modelled.
use go2rtc_manager.Prelude.{List, [], ◌∷◌}
use go2rtc_manager.Prelude.Results.{Result, ok, err}
use go2rtc_manager.Prelude.Text.{Text, codes}
use go2rtc_manager.Time.{Duration}
use go2rtc_manager.Config.{Config}
use go2rtc_manager.HttpServer.Access.{Allowed, allowed_of}

pub data Handler : Type 0 where
  captures_snapshot starts_record gets_record_job : Handler

-- The three `mux.HandleFunc` of `New`: a pattern and its handler.
abbrev pub routes : List (Text × Handler)
routes =
    (codes "/snapshots", captures_snapshot)
    ∷ (codes "/record", starts_record)
    ∷ (codes "/record/", gets_record_job)
    ∷ []

-- The fields of `Server` and of its `http.Server`.
pub record Server : Type 0 where
  pub config : Config
  pub record_allowed : Allowed
  pub handlers : List (Text × Handler)
  pub addr : Text
  pub read_timeout : Duration
  pub write_timeout : Duration
  pub idle_timeout : Duration

-- `New`
unfoldable pub new_server : Config → Server
unfolding allowed_of
new_server cfg = record {
  config = cfg;
  record_allowed = allowed_of cfg.recording.allowed_ips;
  handlers = routes;
  addr = cfg.http.addr;
  read_timeout = cfg.http.read_timeout;
  write_timeout = cfg.http.write_timeout;
  idle_timeout = cfg.http.idle_timeout;
}

-- How `ListenAndServe` ends: without an error, by `Shutdown` with `ErrServerClosed`, or with an error.
pub data Listened : Type 0 where
  ended server_closed : Listened
  listen_failed : Text → Listened

-- `Start`
unfoldable pub start : Listened → Result (Unit {0})
start ended = ok tt
start server_closed = ok tt
start (listen_failed e) = err e
