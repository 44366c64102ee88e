-- ===== src/Record/Concurrency/Busy.antt =====
-- The active record jobs and the messages that their goroutines have still to send
-- (actor/RecordActor.go).
use go2rtc_manager.Prelude.{
  ℕ, ◌+◌, ◌≤◌, ◌≡◌, refl, sym, ap, subst, inl, inr, Option-cases, List, [], ◌∷◌, ◌++◌, All-middle,
  Option, none, some, arith,
}
use go2rtc_manager.Prelude.Int.{pos}
use go2rtc_manager.Prelude.Results.{Result, ok, err}
use go2rtc_manager.Prelude.Text.{Text}
use go2rtc_manager.Prelude.Maps.{Map, lookup}
use go2rtc_manager.Config.{Config}
use go2rtc_manager.Message.{accepted, running, StartRecordRequest, Message, record_job_running}
use go2rtc_manager.Effect.{Context}
use go2rtc_manager.Record.{
  RecordActor, Outcome, receive, handle_start_record, prune_expired_jobs, accept, new_job,
  new_record_actor,
}
use go2rtc_manager.Record.Jobs.{
  RecordJob, count_active, update_job, mark_running, mark_completed, mark_failed,
}
use go2rtc_manager.Record.Jobs.Counts.{weight, status_of, count_active-insert, count_active-prune}
use go2rtc_manager.Record.Execute.{execute_record}
use go2rtc_manager.Record.Concurrency.{
  Goroutine, Recording, World, launch, resume, Step, requests, asks, reports, Reach, here, next,
}
use go2rtc_manager.Record.Concurrency.Limit.{
  IsVerdict, completes, fails, Waits, ends, begins, AllWait, Limited, update-count,
}
use go2rtc_manager.Record.Concurrency.Steps.{
  Starts, handle_start_record-Starts, initial, Reach-Limited,
}

-- Whether a goroutine has a message to send, and how many of them have.
abbrev pub is_busy : List Message → ℕ
is_busy [] = 0
is_busy (m ∷ ms) = 1

unfoldable pub busy : List Goroutine → ℕ
busy [] = 0
busy (g ∷ gs) = is_busy g.messages + busy gs

pub busy-middle :
    (xs : List Goroutine) (g : Goroutine) (ys : List Goroutine)
    → busy (xs ++ g ∷ ys) ≡ is_busy g.messages + busy (xs ++ ys)
unfolding busy
busy-middle [] g ys = refl
busy-middle (x ∷ xs) g ys = omega (arith, busy-middle xs g ys)

abbrev pub IsCovered : Recording → Type 0
IsCovered s = count_active s.actor.jobs ≤ busy s.goroutines

weight_of_running : (o : Option RecordJob) → status_of o ≡ running → weight o ≡ 1
weight_of_running none h = absurd (ground (arith, h))
weight_of_running (some job) h = ground (arith, h)

-- The last message of a goroutine takes its job out of the count.
ended-count :
    (id : Text) (f : RecordJob → RecordJob) (jobs : Map RecordJob)
    → status_of (lookup id jobs) ≡ running
    → ((job : RecordJob) → weight (some (f job)) ≡ 0)
    → count_active (update_job id f jobs) + 1 ≡ count_active jobs
unfolding update_job
ended-count id f jobs h light = elim (Option-cases (lookup id jobs)) [
  | inl e ↦ absurd (ground (arith, h, ap status_of e))
  | inr (job, e) ↦
      rw (e, update_job)
        (omega (
          arith,
          count_active-insert id (f job) jobs,
          light job,
          weight_of_running (lookup id jobs) h,
        ))
]

verdict-IsCovered :
    (w : World) (ctx : Context) (random : Result (List ℕ)) (s : Recording) (before : List Goroutine)
    (id : Text) (later : List Goroutine)
    → {m : Message} → IsVerdict id m
    → status_of (lookup id s.actor.jobs) ≡ running
    → s.goroutines ≡ before ++ record { job_id = id; messages = m ∷ [] } ∷ later
    → IsCovered s
    → IsCovered (
        resume w
          (receive ctx random m s.actor)
          (before ++ record { job_id = id; messages = [] } ∷ later))
unfolding receive resume launch mark_completed mark_failed
verdict-IsCovered w ctx random s before id later {m} (completes c same) run e h = omega (
  arith,
  h,
  ap busy e,
  busy-middle before (record { job_id = id; messages = m ∷ [] }) later,
  busy-middle before (record { job_id = id; messages = [] }) later,
  ended-count c.job_id (mark_completed c) s.actor.jobs
      (subst (λ k. status_of (lookup k s.actor.jobs) ≡ running) (sym same) run) (λ job. refl),
)
verdict-IsCovered w ctx random s before id later {m} (fails f same) run e h = omega (
  arith,
  h,
  ap busy e,
  busy-middle before (record { job_id = id; messages = m ∷ [] }) later,
  busy-middle before (record { job_id = id; messages = [] }) later,
  ended-count f.job_id (mark_failed f) s.actor.jobs
      (subst (λ k. status_of (lookup k s.actor.jobs) ≡ running) (sym same) run) (λ job. refl),
)

reports-IsCovered :
    (w : World) (ctx : Context) (random : Result (List ℕ)) (s : Recording) (before : List Goroutine)
    (id : Text) (later : List Goroutine) (m : Message) (rest : List Message)
    → Waits s.actor.jobs id (m ∷ rest)
    → s.goroutines ≡ before ++ record { job_id = id; messages = m ∷ rest } ∷ later
    → IsCovered s
    → IsCovered (
        resume w
          (receive ctx random m s.actor)
          (before ++ record { job_id = id; messages = rest } ∷ later))
unfolding receive resume launch mark_running
reports-IsCovered w ctx random s before id later m rest (ends _ run v) e h =
    verdict-IsCovered w ctx random s before id later v run e h
reports-IsCovered w ctx random s before id later m rest (begins r v same acc last) e h = omega (
  arith,
  h,
  ap busy e,
  busy-middle before (record { job_id = id; messages = record_job_running r ∷ v ∷ [] }) later,
  busy-middle before (record { job_id = id; messages = v ∷ [] }) later,
  update-count r.job_id (mark_running r) s.actor.jobs (λ job found. ground (
    arith,
    ap status_of found,
    subst (λ k. status_of (lookup k s.actor.jobs) ≡ accepted) (sym same) acc,
  )),
)

Starts-IsCovered :
    (max : ℕ) (w : World) (msg : StartRecordRequest) (a : RecordActor) (gs : List Goroutine)
    (o : Outcome)
    → Starts max msg a o
    → count_active a.jobs ≤ busy gs
    → IsCovered (resume w o gs)
unfolding resume launch accept busy execute_record new_job
Starts-IsCovered max w msg a gs o (inl (none_started, same)) h = rw (none_started, same) h
Starts-IsCovered max w msg a gs o (inr (id, e, room)) h =
    subst (λ p. IsCovered (resume w p gs)) (sym e)
      (omega (arith, h, count_active-insert id (new_job msg id) a.jobs))

pub Step-IsCovered :
    (max : ℕ) {s t : Recording} → Step s t → Limited max s → IsCovered s → IsCovered t
unfolding receive resume launch prune_expired_jobs
Step-IsCovered max {s} (requests w ctx random msg fresh) l h =
    let b = prune_expired_jobs ctx.now s.actor in
    Starts-IsCovered max w msg b s.goroutines (handle_start_record ctx random msg b)
      (handle_start_record-Starts max ctx random msg b l.limit)
      (omega
        (arith, h, count_active-prune ctx.now s.actor.config.recording.job_retention s.actor.jobs))
Step-IsCovered max {s} (asks w ctx random msg) l h =
    omega (arith, h, count_active-prune ctx.now s.actor.config.recording.job_retention s.actor.jobs)
Step-IsCovered max {s} (reports w ctx random before id msg rest later e) l h =
    reports-IsCovered w ctx random s before id later msg rest
      (All-middle (λ k. Waits s.actor.jobs k.job_id k.messages) before later
        (subst (AllWait s.actor.jobs) e l.waiting)).0
      e h

initial-IsCovered :
    (cfg : Config) (mongo minio : Result (Unit {0})) → IsCovered (initial cfg mongo minio)
unfolding new_record_actor count_active
initial-IsCovered cfg (err e) minio = omega arith
initial-IsCovered cfg (ok _) (err e) = omega arith
initial-IsCovered cfg (ok _) (ok _) = omega arith

pub Reach-IsCovered :
    (max : ℕ) (cfg : Config) (mongo minio : Result (Unit {0}))
    → cfg.recording.max_concurrent_jobs ≡ pos max
    → {s : Recording} → Reach (initial cfg mongo minio) s
    → IsCovered s
Reach-IsCovered max cfg mongo minio h here = initial-IsCovered cfg mongo minio
Reach-IsCovered max cfg mongo minio h (next r st) =
    Step-IsCovered max st (Reach-Limited max cfg mongo minio h r)
      (Reach-IsCovered max cfg mongo minio h r)
