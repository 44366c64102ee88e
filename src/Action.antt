-- ===== src/Action.antt =====
-- actor/ActionActor.go: it writes a line of the log for each follow-up action. A line is what the
-- logger is given.
use go2rtc_manager.Prelude.{◌≡◌, refl, Bool, List, [], ◌∷◌, ◌++◌, ◌==◌, if◌then◌else◌}
use go2rtc_manager.Prelude.Text.{Text, codes}
use go2rtc_manager.Config.{Config}
use go2rtc_manager.Message.{Message, StreamRemoved, actor_started, stream_removed, execute_action}
use go2rtc_manager.Effect.{Effect, send, Context}
use go2rtc_manager.Master.{MasterActor, spawn_children}
use go2rtc_manager.Master

pub record ActionActor : Type 0 where
  pub config : Config

pub data Line : Type 0 where
  started_line : Bool → Line
  -- the stream, the action and `dry_run`
  action_line : Text → Text → Bool → Line

abbrev pub new_action_actor : Config → ActionActor
new_action_actor cfg = record { config = cfg }

unfoldable pub receive : Message → ActionActor → List Line
receive actor_started a = started_line a.config.action.dry_run ∷ []
receive (execute_action msg) a = action_line msg.stream_name msg.action a.config.action.dry_run ∷ []
receive _ a = []

-- The lines that a master's sends bring to the action actor.
abbrev pub lines_of : MasterActor → List Effect → ActionActor → List Line
lines_of m [] a = []
lines_of m (send pid msg ∷ es) a =
    let rest = lines_of m es a in if pid == m.action_pid then receive msg a ++ rest else rest
lines_of m (e ∷ es) a = lines_of m es a

-- A stream that the program removed is followed up by one line of the action actor, with the
-- stream's name and the flag `action.dry_run`: the master sends the action to it, and nothing else.
pub stream_removed-lines_of :
    (ctx : Context) (cfg : Config) (msg : StreamRemoved)
    → lines_of
        (spawn_children cfg 1)
        (Master.receive ctx (stream_removed msg) (spawn_children cfg 1))
        (new_action_actor cfg)
      ≡ action_line msg.stream_name (codes "stream_removed_after_double_check") cfg.action.dry_run
        ∷ []
unfolding Master.receive receive spawn_children
stream_removed-lines_of ctx cfg msg = refl
