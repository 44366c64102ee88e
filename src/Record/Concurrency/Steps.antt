-- ===== src/Record/Concurrency/Steps.antt =====
-- The steps of the record actor and its goroutines, and the limit on active record jobs
-- (actor/RecordActor.go).
use go2rtc_manager.Prelude.{
  ℕ, ◌<◌, ◌≡◌, refl, sym, subst, ◌⊎◌, inl, inr, Bool-cases, List, [], All, All-middle, arith,
}
use go2rtc_manager.Prelude.Int.{pos, leb_ℤ}
use go2rtc_manager.Prelude.Results.{Result, ok, err}
use go2rtc_manager.Prelude.Text.{Text, is_empty, text_eq_iff}
use go2rtc_manager.Prelude.Maps.{Map, lookup, insert, lookup-insert}
use go2rtc_manager.Config.{Config}
use go2rtc_manager.Message.{accepted, StartRecordRequest}
use go2rtc_manager.Effect.{Context}
use go2rtc_manager.Record.{
  RecordActor, Outcome, receive, handle_start_record, prune_expired_jobs, accept, begin_job,
  new_job, new_record_actor,
}
use go2rtc_manager.Record.Jobs.{RecordJob, count_active}
use go2rtc_manager.Record.Jobs.Counts.{status_of, count_active-insert}
use go2rtc_manager.Record.Concurrency.{
  Recording, World, launch, resume, IsFresh, Step, requests, asks, reports, Reach, here, next,
}
use go2rtc_manager.Record.Concurrency.Limit.{
  Waits, AllWait, Limited, AllWait-Keeps, elsewhere, launched-Waits,
}
use go2rtc_manager.Record.Concurrency.Reports.{reports-Limited, prune-Limited}

-- What a request comes to: no job and the same jobs, or a new job below the limit.
abbrev pub Starts : ℕ → StartRecordRequest → RecordActor → Outcome → Type 0
Starts max msg a o =
    ((o.started ≡ []) × (o.actor ≡ a))
    ⊎ ((id : Text) × (o ≡ accept msg id a) × (count_active a.jobs < max))

begin_job-Starts :
    (max : ℕ) (msg : StartRecordRequest) (a : RecordActor) (r : Result Text)
    → count_active a.jobs < max
    → Starts max msg a (begin_job msg a r)
unfolding begin_job
begin_job-Starts max msg a (err e) h = inl (refl, refl)
begin_job-Starts max msg a (ok id) h = inr (id, refl, h)

pub handle_start_record-Starts :
    (max : ℕ) (ctx : Context) (random : Result (List ℕ)) (msg : StartRecordRequest)
    (a : RecordActor)
    → a.config.recording.max_concurrent_jobs ≡ pos max
    → Starts max msg a (handle_start_record ctx random msg a)
unfolding handle_start_record
handle_start_record-Starts max ctx random msg a h = elim (Bool-cases (is_empty a.init_error)) [
  | inr e ↦ rw (e, handle_start_record) (inl (refl, refl))
  | inl e ↦
      rw (e, handle_start_record)
        (elim (Bool-cases
          (leb_ℤ a.config.recording.max_concurrent_jobs (pos (count_active a.jobs)))) [
            | inl full ↦ rw full (inl (refl, refl))
            | inr room ↦ rw room (begin_job-Starts max msg a _ (ground arith))
          ])
]

insert-accepted :
    (id : Text) (msg : StartRecordRequest) (jobs : Map RecordJob)
    → status_of (lookup id (insert id (new_job msg id) jobs)) ≡ accepted
unfolding new_job
insert-accepted id msg jobs =
    ground (arith, lookup-insert id id (new_job msg id) jobs, text_eq_iff id id)

accept-Limited :
    (max : ℕ) (w : World) (msg : StartRecordRequest) (id : Text) (s : Recording)
    → Limited max s
    → count_active s.actor.jobs < max
    → IsFresh id s.goroutines
    → Limited max (resume w (accept msg id s.actor) s.goroutines)
unfolding resume launch accept
accept-Limited max w msg id s h room fresh =
    let jobs' = insert id (new_job msg id) s.actor.jobs in
    let a' = record s.actor { jobs = jobs' } in
    record {
      limit = h.limit;
      within =
          unfold new_job in omega (arith, count_active-insert id (new_job msg id) s.actor.jobs);
      waiting = (
        launched-Waits w a' jobs' (new_job msg id) (insert-accepted id msg s.actor.jobs),
        AllWait-Keeps s.actor.jobs jobs' s.goroutines
            (elsewhere id (new_job msg id) s.actor.jobs s.goroutines fresh) h.waiting,
      );
      apart = (fresh, h.apart);
    }

Starts-Limited :
    (max : ℕ) (w : World) (msg : StartRecordRequest) (s : Recording) (o : Outcome)
    → Limited max s
    → Starts max msg s.actor o
    → All (λ job. IsFresh job.job_id s.goroutines) o.started
    → Limited max (resume w o s.goroutines)
unfolding resume launch accept
Starts-Limited max w msg s o h (inl (none_started, same)) fresh = rw (none_started, same) h
Starts-Limited max w msg s o h (inr (id, e, room)) fresh =
    subst (λ p. Limited max (resume w p s.goroutines)) (sym e)
      (accept-Limited max w msg id s h room
        (subst (λ (p : Outcome). All (λ job. IsFresh job.job_id s.goroutines) p.started) e fresh).0)

pub Step-Limited : (max : ℕ) {s t : Recording} → Step s t → Limited max s → Limited max t
unfolding receive resume launch
Step-Limited max {s} (requests w ctx random msg fresh) h =
    let b = prune_expired_jobs ctx.now s.actor in
    let pruned_h = prune-Limited max ctx.now s h in
    Starts-Limited max w msg (record s { actor = b }) (handle_start_record ctx random msg b)
      pruned_h (handle_start_record-Starts max ctx random msg b pruned_h.limit) fresh
Step-Limited max {s} (asks w ctx random msg) h = prune-Limited max ctx.now s h
Step-Limited max {s} (reports w ctx random before id msg rest later e) h =
    reports-Limited max w ctx random s before id later h msg rest
      (All-middle (λ k. Waits s.actor.jobs k.job_id k.messages) before later
        (subst (AllWait s.actor.jobs) e h.waiting)).0
      e

-- The record actor as it starts, with no job.
abbrev pub initial : Config → Result (Unit {0}) → Result (Unit {0}) → Recording
initial cfg mongo minio = record { actor = new_record_actor cfg mongo minio; goroutines = [] }

initial-Limited :
    (max : ℕ) (cfg : Config) (mongo minio : Result (Unit {0}))
    → cfg.recording.max_concurrent_jobs ≡ pos max
    → Limited max (initial cfg mongo minio)
unfolding new_record_actor count_active
initial-Limited max cfg (err e) minio h = record {
  limit = h;
  within = omega arith;
  waiting = tt;
  apart = tt;
}
initial-Limited max cfg (ok _) (err e) h = record {
  limit = h;
  within = omega arith;
  waiting = tt;
  apart = tt;
}
initial-Limited max cfg (ok _) (ok _) h = record {
  limit = h;
  within = omega arith;
  waiting = tt;
  apart = tt;
}

pub Reach-Limited :
    (max : ℕ) (cfg : Config) (mongo minio : Result (Unit {0}))
    → cfg.recording.max_concurrent_jobs ≡ pos max
    → {s : Recording} → Reach (initial cfg mongo minio) s
    → Limited max s
Reach-Limited max cfg mongo minio h here = initial-Limited max cfg mongo minio h
Reach-Limited max cfg mongo minio h (next r st) =
    Step-Limited max st (Reach-Limited max cfg mongo minio h r)
