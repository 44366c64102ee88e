-- ===== src/StreamCleaner/DoubleCheck.antt =====
-- The two checks of a cycle, and what they lead to (actor/StreamCleanerActor.go).
use mathlib.Core.List.{Memᴰ}
use go2rtc_manager.Prelude.{
  ◌≡◌, ◌≢◌, refl, sym, ◌⊎◌, inl, inr, true, false, List, [], ◌∷◌, some, arith, map,
}
use go2rtc_manager.Prelude.Text.{Text, is_empty, text_eq_iff}
use go2rtc_manager.Prelude.Maps.{lookup, has, lookup-insert, lookup-delete, lookup_of_has}
use go2rtc_manager.Time.{Time}
use go2rtc_manager.Config.{Config}
use go2rtc_manager.Message.{
  Pid, StreamListFetched, StreamHealthChecked, RemoveStream, Message, cleanup_cycle_started,
  stream_list_fetched, stream_health_checked, stream_removal_completed, remove_stream,
}
use go2rtc_manager.Effect.{Effect, send, Context}
use go2rtc_manager.StreamCleaner.{
  StreamCleanerActor, new_stream_cleaner_actor, first_checks, receive,
}

-- The state after a history of messages, the newest first.
unfoldable pub after : StreamCleanerActor → List (Context × Message) → StreamCleanerActor
after a [] = a
after a ((ctx, msg) ∷ past) = (receive ctx msg (after a past)).0

-- The removals that a handler asks for.
unfoldable pub removals : List Effect → List RemoveStream
removals [] = []
removals (send pid (remove_stream m) ∷ es) = m ∷ removals es
removals (_ ∷ es) = removals es

-- The answer `m` found no producer for `name` in the cycle of the time `t`.
pub record Missed (name : Text) (t : Time) (m : StreamHealthChecked) : Type 0 where
  pub of_stream : m.stream_name ≡ name
  pub of_cycle : m.triggered_at ≡ t
  pub no_producer : m.has_producer ≡ false
  pub no_error : is_empty m.error ≡ true

-- Whatever a handler leaves in `pending` was there, or is the first miss that it handled.
pending_step :
    (ctx : Context) (msg : Message) (a : StreamCleanerActor) (name : Text) (m : StreamHealthChecked)
    → let b = (receive ctx msg a).0 in
      lookup name b.pending ≡ some m
      → ((lookup name a.pending ≡ some m) × (b.triggered_at ≡ a.triggered_at))
        ⊎ ((msg ≡ stream_health_checked m) × (m.attempt ≡ 1) × Missed name b.triggered_at m)
unfolding receive
pending_step ctx (cleanup_cycle_started x) a name m h = unfold lookup in ground arith
pending_step ctx (stream_list_fetched x) a name m h = ground arith
pending_step ctx (stream_health_checked x) a name m h = ground (
  arith,
  lookup-insert name x.stream_name x a.pending,
  lookup-delete name x.stream_name a.pending,
  text_eq_iff x.stream_name name,
)
pending_step ctx (stream_removal_completed x) a name m h = ground arith
pending_step ctx _ a name m h = ground arith

abbrev pub messages : List (Context × Message) → List Message
messages = map (λ x. x.1)

-- What a state knows of its past by `pending`: each entry is the first miss of the current cycle.
pending_past :
    (past : List (Context × Message)) (cfg : Config) (go2rtc_pid master_pid : Pid) (name : Text)
    (m : StreamHealthChecked)
    → let a = after (new_stream_cleaner_actor cfg go2rtc_pid master_pid) past in
      lookup name a.pending ≡ some m
      → Memᴰ (stream_health_checked m) (messages past)
        × (m.attempt ≡ 1)
        × Missed name a.triggered_at m
unfolding after
pending_past [] cfg g p name m h = unfold new_stream_cleaner_actor lookup in cc
pending_past ((ctx, msg) ∷ past) cfg g p name m h =
    elim (pending_step ctx msg (after (new_stream_cleaner_actor cfg g p) past) name m h) [
      | inl (old, same) ↦
          let (seen, first, missed) = pending_past past cfg g p name m old in
          (Memᴰ.tail seen, first, rw same missed)
      | inr (new, first, missed) ↦ (Memᴰ.head (sym new), first, missed)
    ]

first_checks-removals :
    (ctx : Context) (msg : StreamListFetched) (a : StreamCleanerActor) (names : List Text)
    → removals (first_checks ctx msg a names) ≡ []
unfolding first_checks removals
first_checks-removals ctx msg a [] = refl
first_checks-removals ctx msg a (name ∷ names) = first_checks-removals ctx msg a names

-- A handler that asks for a removal handles a later miss of a stream that is in `pending`.
removal_step :
    (ctx : Context) (msg : Message) (a : StreamCleanerActor) (r : RemoveStream)
    (rs : List RemoveStream)
    → removals (receive ctx msg a).1 ≡ r ∷ rs
    → (m : StreamHealthChecked) × (msg ≡ stream_health_checked m)
      × (m.attempt ≢ 1)
      × Missed r.stream_name a.triggered_at m
      × (has r.stream_name a.pending ≡ true)
      × (a.running ≡ true)
      × (r.triggered_at ≡ a.triggered_at)
      × (rs ≡ [])
unfolding receive removals
removal_step ctx (cleanup_cycle_started x) a r rs h = absurd (ground arith)
removal_step ctx (stream_list_fetched x) a r rs h =
    absurd (ground (arith, first_checks-removals ctx x a x.streams))
removal_step ctx (stream_health_checked x) a r rs h =
    (x, refl, ground arith, ground arith, ground arith, ground arith, ground arith, ground arith)
removal_step ctx (stream_removal_completed x) a r rs h = absurd (ground arith)
removal_step ctx _ a r rs h = cc

-- Whatever messages the cleaner has handled, in any order: when it asks for a stream's removal, it
-- is in a cycle, the message at hand is a check of that stream in that cycle, not the first, that
-- found no producer and met no error, and an earlier message was a first check of the same
-- stream in the same cycle that found no producer and met no error either. It asks for one removal.
pub removal_after_double_check :
    (past : List (Context × Message)) (cfg : Config) (go2rtc_pid master_pid : Pid) (ctx : Context)
    (msg : Message) (r : RemoveStream) (rs : List RemoveStream)
    → let a = after (new_stream_cleaner_actor cfg go2rtc_pid master_pid) past in
      removals (receive ctx msg a).1 ≡ r ∷ rs
      → (first second : StreamHealthChecked) × (msg ≡ stream_health_checked second)
        × (second.attempt ≢ 1)
        × Missed r.stream_name a.triggered_at second
        × Memᴰ (stream_health_checked first) (messages past)
        × (first.attempt ≡ 1)
        × Missed r.stream_name a.triggered_at first
        × (a.running ≡ true)
        × (r.triggered_at ≡ a.triggered_at)
        × (rs ≡ [])
removal_after_double_check past cfg g p ctx msg r rs h =
    let a = after (new_stream_cleaner_actor cfg g p) past in
    let (second, e, later, missed, kept, on, time, one) = removal_step ctx msg a r rs h in
    let (first, found) = lookup_of_has r.stream_name a.pending kept in
    let (seen, attempt, missed') = pending_past past cfg g p r.stream_name first found in
    (first, second, e, later, missed, seen, attempt, missed', on, time, one)
