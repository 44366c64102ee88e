-- ===== src/Redis/Publishing.antt =====
-- actor/RedisActor.go: what the actor publishes, and the one client that it keeps.
use go2rtc_manager.Prelude.{
  ℕ, ◌≡◌, refl, sym, ap, ◌∙◌, subst, ◌⊎◌, inl, inr, Bool, Bool-cases, true, false, not, List, [],
  ◌∷◌, ◌++◌, All, if◌then◌else◌,
}
use go2rtc_manager.Prelude.Results.{ok, err, Result-cases}
use go2rtc_manager.Prelude.Text.{Text, codes}
use go2rtc_manager.Message.{UpdateStreamCount, update_stream_count}
use go2rtc_manager.Redis.{
  RedisActor, Command, new_client, ping, set_key, Server, Run, is_enabled, connect, get_client,
  stream_count_key, set_count, set_alive_stream_count, receive,
}

-- A command that is not a write of a key.
abbrev pub is_quiet : Command → Bool
is_quiet (set_key key n) = false
is_quiet _ = true

-- The server can be reached: a client is there, or a new one gets an answer to its ping.
abbrev pub IsReachable : Server → RedisActor → Type 0
IsReachable server a = (a.has_client ≡ true) ⊎ (server.ping_answer ≡ ok tt)

-- The count is written once, under the key of the box, as the last command.
pub record Publishes (a : RedisActor) (n : ℕ) (commands : List Command) (b : RedisActor)
    : Type 0 where
  pub before : List Command
  pub order : commands ≡ before ++ set_key (stream_count_key a) n ∷ []
  pub once : All (λ c. is_quiet c ≡ true) before
  pub kept : b.has_client ≡ true
  pub config : b.config ≡ a.config

-- No key is written, and the actor stays as it is.
abbrev pub Withholds : RedisActor → List Command × RedisActor → Type 0
Withholds a (commands, b) = All (λ c. is_quiet c ≡ true) commands × (b ≡ a)

-- A run without its result.
abbrev dropped : Run → List Command × RedisActor
dropped (commands, b, result) = (commands, b)

-- What an update comes to.
abbrev pub Updates : Server → UpdateStreamCount → RedisActor → List Command × RedisActor → Type 0
Updates server msg a (commands, b) =
    ((is_enabled a ≡ true) × IsReachable server a × Publishes a msg.alive_streams commands b)
    ⊎ (((is_enabled a ≡ false)
          ⊎ ((a.has_client ≡ false) × (e : Text) × (server.ping_answer ≡ err e)))
        × Withholds a (commands, b))

module _ (server : Server) (msg : UpdateStreamCount) (a : RedisActor) where
  update_when_off : is_enabled a ≡ false → receive server (update_stream_count msg) a ≡ ([], a)
  unfolding receive
  update_when_off off = rw (off, receive) refl

  abbrev connecting : List Command
  connecting = new_client a.config.redis.addr a.config.redis.password a.config.redis.db ∷ ping ∷ []

  module _ (on : is_enabled a ≡ true) where
    get_client-guards :
        (h : Bool)
        → a.has_client ≡ h
        → get_client server a ≡ (if h then ([], a, ok tt) else connect server a)
    unfolding get_client
    get_client-guards h there =
        ap
          (λ e.
            if not e
            then ([], a, err (codes "redis is disabled"))
            else if a.has_client
            then ([], a, ok tt)
            else connect server a)
          on
        ∙ ap (λ b. if b then ([], a, ok tt) else connect server a) there

    update_runs :
        (run : Run)
        → get_client server a ≡ run
        → receive server (update_stream_count msg) a
          ≡ dropped (set_count server msg.alive_streams run)
    unfolding receive set_alive_stream_count
    update_runs run e =
        ap
          (λ b.
            if not b then ([], a) else dropped (set_alive_stream_count server msg.alive_streams a))
          on
        ∙ ap (λ r. dropped (set_count server msg.alive_streams r)) e

    update_with_client :
        a.has_client ≡ true
        → receive server (update_stream_count msg) a
          ≡ (set_key (stream_count_key a) msg.alive_streams ∷ [], a)
    unfolding set_count
    update_with_client there = update_runs _ (get_client-guards true there)

    update_connects :
        a.has_client ≡ false
        → server.ping_answer ≡ ok tt
        → receive server (update_stream_count msg) a ≡ (
          connecting ++ set_key (stream_count_key a) msg.alive_streams ∷ [],
          record a { has_client = true },
        )
    unfolding set_count connect stream_count_key
    update_connects missing f =
        update_runs (connecting, record a { has_client = true }, ok tt)
          (get_client-guards false missing ∙ rw (f, connect) refl)

    update_fails :
        a.has_client ≡ false
        → (e : Text) → server.ping_answer ≡ err e
        → receive server (update_stream_count msg) a ≡ (connecting, a)
    unfolding set_count connect
    update_fails missing e f =
        update_runs (connecting, a, err (codes "ping redis: " ++ e))
          (get_client-guards false missing ∙ rw (f, connect) refl)

-- An update of the count publishes it when Redis is enabled and can be reached: the last command
-- writes it under the key of the box, no other command writes a key, and the client is kept. When
-- Redis is disabled, or there is no client and the ping of a new one fails, no key is written and
-- the state does not change.
pub receive-publishes :
    (server : Server) (msg : UpdateStreamCount) (a : RedisActor)
    → Updates server msg a (receive server (update_stream_count msg) a)
receive-publishes server msg a = elim (Bool-cases (is_enabled a)) [
  | inr off ↦
      subst (λ run. Updates server msg a run) (sym (update_when_off server msg a off))
        (inr (inl off, (tt, refl)))
  | inl on ↦ elim (Bool-cases a.has_client) [
    | inl there ↦
        subst (λ run. Updates server msg a run) (sym (update_with_client server msg a on there))
          (inl (
            on,
            inl there,
            record { before = []; order = refl; once = tt; kept = there; config = refl },
          ))
    | inr missing ↦ elim (Result-cases server.ping_answer) [
      | inl (u, f) ↦
          subst (λ run. Updates server msg a run) (sym (update_connects server msg a on missing f))
            (inl (
              on,
              inr f,
              record {
                before = connecting server msg a;
                order = refl;
                once = (refl, (refl, tt));
                kept = refl;
                config = refl;
              },
            ))
      | inr (e, f) ↦
          subst (λ run. Updates server msg a run) (sym (update_fails server msg a on missing e f))
            (inr (inr (missing, e, f), ((refl, (refl, tt)), refl)))
    ]
  ]
]
