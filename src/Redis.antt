-- ===== src/Redis.antt =====
-- actor/RedisActor.go: the actor that publishes the count of the alive streams.
pub mod Publishing
use go2rtc_manager.Prelude.{ℕ, Bool, true, false, not, List, [], ◌∷◌, ◌++◌, if◌then◌else◌}
use go2rtc_manager.Prelude.Int.{ℤ}
use go2rtc_manager.Prelude.Results.{Result, ok, err, wrap}
use go2rtc_manager.Prelude.Text.{Text, codes, is_empty}
use go2rtc_manager.Config.{Config, RedisConfig}
use go2rtc_manager.Message.{
  UpdateStreamCount, Message, actor_started, actor_stopping, update_stream_count,
}

-- `has_client` says that `client` is not nil.
pub record RedisActor : Type 0 where
  pub config : Config
  pub has_client : Bool

-- What the actor asks of the client library.
pub data Command : Type 0 where
  -- `redis.NewClient` with an address, a password and a database
  new_client : Text → Text → ℤ → Command
  ping : Command
  set_key : Text → ℕ → Command
  close : Command

-- What the library answers to `Ping` and to `Set`.
pub record Server : Type 0 where
  pub ping_answer : Result (Unit {0})
  pub set_answer : Text → ℕ → Result (Unit {0})

unfoldable pub is_enabled : RedisActor → Bool
is_enabled a = not (is_empty a.config.redis.addr)

-- A handler's commands, its new state and its result.
abbrev pub Run : Type 0
Run = List Command × RedisActor × Result (Unit {0})

-- `getClient` past its guards.
unfoldable pub connect : Server → RedisActor → Run
connect server a =
    let cfg = a.config.redis in
    let commands = new_client cfg.addr cfg.password cfg.db ∷ ping ∷ [] in
    elim server.ping_answer [
      | err e ↦ (commands, a, err (codes "ping redis: " ++ e))
      | ok _ ↦ (commands, record a { has_client = true }, ok tt)
    ]

unfoldable pub get_client : Server → RedisActor → Run
unfolding is_enabled connect
get_client server a =
    if not (is_enabled a)
    then ([], a, err (codes "redis is disabled"))
    else if a.has_client
    then ([], a, ok tt)
    else connect server a

unfoldable pub stream_count_key : RedisActor → Text
stream_count_key a = codes "stream_count@" ++ a.config.app.box_ip

-- The end of `setAliveStreamCount`, from what `getClient` returns.
unfoldable pub set_count : Server → ℕ → Run → Run
unfolding stream_count_key
set_count server alive_streams (commands, a, err e) = (commands, a, err e)
set_count server alive_streams (commands, a, ok _) =
    let key = stream_count_key a in
    (
      commands ++ set_key key alive_streams ∷ [],
      a,
      wrap (codes "set redis key: ") (server.set_answer key alive_streams),
    )

unfoldable pub set_alive_stream_count : Server → ℕ → RedisActor → Run
unfolding get_client set_count
set_alive_stream_count server alive_streams a = set_count server alive_streams (get_client server a)

-- `Receive`: what it makes of an error is a line of the log.
unfoldable pub receive : Server → Message → RedisActor → List Command × RedisActor
unfolding get_client set_alive_stream_count
receive server actor_started a =
    if not (is_enabled a)
    then ([], a)
    else (let (commands, b, result) = get_client server a in (commands, b))
receive server actor_stopping a = if a.has_client then (close ∷ [], a) else ([], a)
receive server (update_stream_count msg) a =
    if not (is_enabled a)
    then ([], a)
    else (let (commands, b, result) = set_alive_stream_count server msg.alive_streams a in
        (commands, b))
receive server _ a = ([], a)
