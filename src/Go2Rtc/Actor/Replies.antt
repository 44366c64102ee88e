-- ===== src/Go2Rtc/Actor/Replies.antt =====
-- actor/Go2RTCActor.go: the messages with which `Receive` answers a check and a removal.
use go2rtc_manager.Prelude.{◌≡◌, refl, ◌↔◌, Bool, true, false, List, [], ◌∷◌, ◌++◌, if◌then◌else◌}
use go2rtc_manager.Prelude.Results.{Result, ok, err}
use go2rtc_manager.Prelude.Text.{is_empty}
use go2rtc_manager.Message.{
  CheckStreamHealth, StreamHealthChecked, RemoveStream, StreamRemovalCompleted, check_stream_health,
  stream_health_checked, remove_stream, stream_removed, stream_removal_completed,
}
use go2rtc_manager.Effect.{Effect, send, Context}
use go2rtc_manager.Go2Rtc.Calls.{Api}
use go2rtc_manager.Go2Rtc.Actor.{
  Go2RtcActor, has_producer, health_checked, answer_health, remove_stream_call, answer_removal,
  receive,
}
use go2rtc_manager.Go2Rtc.Actor.Answers.{IsTold, has_producer-IsTold, remove_stream_call-IsTold}

-- A message that answers a check: it repeats the check's fields, and its error is empty exactly
-- when the check gave the value that the message carries.
pub record AnswersCheck (msg : CheckStreamHealth) (r : Result Bool) (m : StreamHealthChecked)
    : Type 0 where
  pub name : m.stream_name ≡ msg.stream_name
  pub cycle : m.triggered_at ≡ msg.triggered_at
  pub asker : m.requested_by ≡ msg.requested_by
  pub round : m.attempt ≡ msg.attempt
  pub delay : m.confirm_after ≡ msg.confirm_after
  pub value : (is_empty m.error ≡ true) ↔ (r ≡ ok m.has_producer)

answer_health-AnswersCheck :
    (ctx : Context) (msg : CheckStreamHealth) (r : Result Bool)
    → IsTold r
    → (m : StreamHealthChecked) × (answer_health ctx msg r
        ≡ send ctx.parent (stream_health_checked m) ∷ [])
      × AnswersCheck msg r m
unfolding answer_health health_checked
answer_health-AnswersCheck ctx msg (ok found) h = (
  health_checked ctx msg found [],
  refl,
  record {
    name = refl;
    cycle = refl;
    asker = refl;
    round = refl;
    delay = refl;
    value = (λ _. refl, λ _. refl);
  },
)
answer_health-AnswersCheck ctx msg (err e) h = (
  health_checked ctx msg false e,
  refl,
  record {
    name = refl;
    cycle = refl;
    asker = refl;
    round = refl;
    delay = refl;
    value = (λ k. cc, λ k. cc);
  },
)

-- Whatever go2rtc answers, a check of a stream sends the parent one message. It repeats the name,
-- the cycle, the asker, the attempt and the delay of the check, and its error text is empty
-- exactly when `has_producer` returned, without an error, the value that the message carries.
pub receive-AnswersCheck :
    (api : Api) (ctx : Context) (msg : CheckStreamHealth) (a : Go2RtcActor)
    → (m : StreamHealthChecked) × ((receive api ctx (check_stream_health msg) a).1
        ≡ send ctx.parent (stream_health_checked m) ∷ [])
      × AnswersCheck msg (has_producer api a msg.stream_name).1 m
unfolding receive
receive-AnswersCheck api ctx msg a =
    answer_health-AnswersCheck ctx msg _ (has_producer-IsTold api a msg.stream_name)

-- A message that answers a removal: it repeats the stream and the cycle, and its error is empty
-- exactly when the removal gave the value that the message carries.
pub record AnswersRemoval (msg : RemoveStream) (r : Result Bool) (m : StreamRemovalCompleted)
    : Type 0 where
  pub name : m.stream_name ≡ msg.stream_name
  pub cycle : m.triggered_at ≡ msg.triggered_at
  pub value : (is_empty m.error ≡ true) ↔ (r ≡ ok m.removed)

-- The notice that goes before the answer when a stream was removed.
abbrev pub notice : Context → RemoveStream → StreamRemovalCompleted → List Effect
notice ctx msg m =
    if m.removed
    then send ctx.parent
        (stream_removed (record { stream_name = msg.stream_name; removed_at = ctx.now }))
      ∷ []
    else []

answer_removal-AnswersRemoval :
    (ctx : Context) (msg : RemoveStream) (r : Result Bool)
    → IsTold r
    → (m : StreamRemovalCompleted) × (answer_removal ctx msg r
        ≡ notice ctx msg m ++ send ctx.parent (stream_removal_completed m) ∷ [])
      × AnswersRemoval msg r m
unfolding answer_removal
answer_removal-AnswersRemoval ctx msg (ok true) h =
    (_, refl, record { name = refl; cycle = refl; value = (λ _. refl, λ _. refl) })
answer_removal-AnswersRemoval ctx msg (ok false) h =
    (_, refl, record { name = refl; cycle = refl; value = (λ _. refl, λ _. refl) })
answer_removal-AnswersRemoval ctx msg (err e) h = (
  record {
    stream_name = msg.stream_name;
    triggered_at = msg.triggered_at;
    removed = false;
    removed_at = 0;
    error = e;
  },
  refl,
  record { name = refl; cycle = refl; value = (λ k. cc, λ k. cc) },
)

-- Whatever go2rtc and the files answer, a removal sends the parent one completion message, which
-- repeats the stream and the cycle and whose error text is empty exactly when
-- `remove_stream_call` returned, without an error, the flag that it carries; the notice of a
-- removed stream goes before it exactly when that flag is set.
pub receive-AnswersRemoval :
    (api : Api) (ctx : Context) (msg : RemoveStream) (a : Go2RtcActor)
    → (m : StreamRemovalCompleted) × ((receive api ctx (remove_stream msg) a).1
        ≡ notice ctx msg m ++ send ctx.parent (stream_removal_completed m) ∷ [])
      × AnswersRemoval msg (remove_stream_call api ctx.now a msg.stream_name).1 m
unfolding receive
receive-AnswersRemoval api ctx msg a =
    answer_removal-AnswersRemoval ctx msg _
      (remove_stream_call-IsTold api ctx.now a msg.stream_name)
