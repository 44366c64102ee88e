-- ===== src/Record/Concurrency/Drain.antt =====
-- The active record jobs once the goroutines have sent what they have to send
-- (actor/RecordActor.go).
use go2rtc_manager.Prelude.{
  ℕ, zero, suc, ◌+◌, ◌≤◌, ◌≡◌, refl, ap, subst, List, [], ◌∷◌, ◌++◌, length, total, total-append,
  All-middle, arith,
}
use go2rtc_manager.Prelude.Int.{pos}
use go2rtc_manager.Prelude.Results.{Result}
use go2rtc_manager.Prelude.Text.{Text}
use go2rtc_manager.Config.{Config}
use go2rtc_manager.Message.{Message}
use go2rtc_manager.Effect.{Context}
use go2rtc_manager.Record.{receive, active_record_jobs}
use go2rtc_manager.Record.Jobs.{count_active}
use go2rtc_manager.Record.Concurrency.{Goroutine, Recording, World, launch, resume, reports, Reach}
use go2rtc_manager.Record.Concurrency.Limit.{
  IsVerdict, completes, fails, Waits, ends, begins, AllWait, Limited,
}
use go2rtc_manager.Record.Concurrency.Steps.{Step-Limited, initial, Reach-Limited}
use go2rtc_manager.Record.Concurrency.Busy.{busy, IsCovered, Step-IsCovered, Reach-IsCovered}

-- A run in which only messages of goroutines arrive, in any order: no request comes.
pub data Drain (s : Recording) : Recording → Type 0 where
  drained : Drain s s
  arrives :
      {t : Recording}
      → Drain s t
      → (w : World) (ctx : Context) (random : Result (List ℕ)) (before : List Goroutine) (id : Text)
        (msg : Message) (rest : List Message) (later : List Goroutine)
      → t.goroutines ≡ before ++ record { job_id = id; messages = msg ∷ rest } ∷ later
      → Drain s (
          resume w
            (receive ctx random msg t.actor)
            (before ++ record { job_id = id; messages = rest } ∷ later))

-- The messages that the goroutines have still to send.
abbrev pub left : List Goroutine → ℕ
left = total λ g. length g.messages

-- Nothing is left, or some goroutine comes next.
pub data Next (gs : List Goroutine) : Type 0 where
  none_left : busy gs ≡ 0 → Next gs
  sends :
      (before : List Goroutine) (id : Text) (msg : Message) (rest : List Message)
      (later : List Goroutine)
      → gs ≡ before ++ record { job_id = id; messages = msg ∷ rest } ∷ later
      → Next gs

Next-with :
    (id : Text) (ms : List Message) (gs : List Goroutine)
    → Next gs
    → Next (record { job_id = id; messages = ms } ∷ gs)
unfolding busy
Next-with id (msg ∷ rest) gs n = sends [] id msg rest gs refl
Next-with id [] gs (none_left e) = none_left (omega (arith, e))
Next-with id [] gs (sends before id' msg rest later e) =
    sends (record { job_id = id; messages = [] } ∷ before) id' msg rest later
      (ap (λ xs. record { job_id = id; messages = [] } ∷ xs) e)

Next-of : (gs : List Goroutine) → Next gs
unfolding busy
Next-of [] = none_left refl
Next-of (g ∷ gs) = Next-with g.job_id g.messages gs (Next-of gs)

left-middle :
    (before : List Goroutine) (id : Text) (msg : Message) (rest : List Message)
    (later : List Goroutine)
    → left (before ++ record { job_id = id; messages = msg ∷ rest } ∷ later)
      ≡ left (before ++ record { job_id = id; messages = rest } ∷ later) + 1
left-middle before id msg rest later = omega (
  arith,
  total-append (λ (g : Goroutine). length g.messages) before
      (record { job_id = id; messages = msg ∷ rest } ∷ later),
  total-append (λ (g : Goroutine). length g.messages) before
      (record { job_id = id; messages = rest } ∷ later),
)

-- A message of a goroutine starts no other.
module _ (w : World) (ctx : Context) (random : Result (List ℕ)) (s : Recording) where
  verdict-left :
      (gs : List Goroutine) (id : Text) {m : Message}
      → IsVerdict id m
      → left (resume w (receive ctx random m s.actor) gs).goroutines ≡ left gs
  unfolding receive resume launch
  verdict-left gs id (completes c same) = refl
  verdict-left gs id (fails f same) = refl

  message-left :
      (gs : List Goroutine) (id : Text) (m : Message) (rest : List Message)
      → Waits s.actor.jobs id (m ∷ rest)
      → left (resume w (receive ctx random m s.actor) gs).goroutines ≡ left gs
  unfolding receive resume launch
  message-left gs id m rest (ends _ run v) = verdict-left gs id v
  message-left gs id m rest (begins r v same acc last) = refl

module _ (max : ℕ) (w : World) (ctx : Context) (random : Result (List ℕ)) (s : Recording) where
  -- Draining a state, message by message.
  Drain-from :
      (n : ℕ) (t : Recording)
      → left t.goroutines ≤ n
      → Drain s t
      → Limited max t
      → IsCovered t
      → (u : Recording) × Drain s u × (count_active u.actor.jobs ≡ 0)
  Drain-from zero t few d l c = elim (Next-of t.goroutines) [
    | none_left idle ↦ (t, d, omega (arith, idle, c))
    | sends before id msg rest later e ↦
        absurd (omega (arith, few, ap left e, left-middle before id msg rest later))
  ]
  Drain-from (suc n) t few d l c = elim (Next-of t.goroutines) [
    | none_left idle ↦ (t, d, omega (arith, idle, c))
    | sends before id msg rest later e ↦
        (let waits =
            (All-middle (λ k. Waits t.actor.jobs k.job_id k.messages) before later
              (subst (AllWait t.actor.jobs) e l.waiting)).0 in
          let step = reports w ctx random before id msg rest later e in
          Drain-from n
            (resume w (receive ctx random msg t.actor)
              (before ++ record { job_id = id; messages = rest } ∷ later))
            (omega (
              arith,
              few,
              ap left e,
              left-middle before id msg rest later,
              message-left w ctx random t
                  (before ++ record { job_id = id; messages = rest } ∷ later) id msg rest waits,
            ))
            (arrives d w ctx random before id msg rest later e) (Step-Limited max step l)
            (Step-IsCovered max step l c))
  ]

-- From every state that requests and goroutines reach, if each new job's identifier is one that no
-- goroutine has: the messages that the goroutines have still to send can all arrive, with no new
-- request, and then no job is accepted or running.
pub active_record_jobs-drains :
    (max : ℕ) (cfg : Config) (mongo minio : Result (Unit {0}))
    → cfg.recording.max_concurrent_jobs ≡ pos max
    → {s : Recording} → Reach (initial cfg mongo minio) s
    → (w : World) (ctx : Context) (random : Result (List ℕ))
    → (t : Recording) × Drain s t × (active_record_jobs t.actor ≡ 0)
unfolding active_record_jobs
active_record_jobs-drains max cfg mongo minio h {s} r w ctx random =
    Drain-from max w ctx random s (left s.goroutines) s (omega arith) drained
      (Reach-Limited max cfg mongo minio h r) (Reach-IsCovered max cfg mongo minio h r)
