-- ===== src/Record/Visibility.antt =====
-- actor/RecordActor.go: what `Receive` lets a caller see of a job, before its end and after it.
use go2rtc_manager.Prelude.{
  ℕ, ◌≡◌, refl, sym, ◌≢◌, ◌↔◌, ◌∙◌, true, ◌⊎◌, inl, inr, Bool-cases, Option-cases, List, [], ◌∷◌,
  Option, none, some, arith, if◌then◌else◌,
}
use go2rtc_manager.Prelude.Results.{Result}
use go2rtc_manager.Prelude.Int.{◌<ℤ◌}
use go2rtc_manager.Prelude.Text.{Text, codes}
use go2rtc_manager.Prelude.Maps.{lookup}
use go2rtc_manager.Time.{Time, Duration, sub}
use go2rtc_manager.Message.{
  RecordJobStatusResult, record_job_status_result, RecordStatus, accepted, running, completed,
  failed, unset,
}
use go2rtc_manager.Effect.{respond, Context}
use go2rtc_manager.Record.{
  RecordActor, prune_expired_jobs, record_job_to_status_result, job_not_found,
  handle_get_record_job, receive,
}
use go2rtc_manager.Record.Jobs.{RecordJob, is_expired}
use go2rtc_manager.Record.Lookups.{IsMap, lookup-prune-kept, lookup-prune-gone, lookup-prune-none}
use go2rtc_manager.Record.Lifecycle.{answer_to_get}

-- What the code makes of a job at a time, as its functions tell it.
abbrev visible : Time → Duration → Text → Option RecordJob → RecordJobStatusResult
visible now retention job_id none = job_not_found job_id
visible now retention job_id (some job) =
    if is_expired now retention job then job_not_found job_id else record_job_to_status_result job

receive-looks_up :
    (ctx : Context) (random : Result (List ℕ)) (job_id : Text) (a : RecordActor)
    → IsMap a.jobs
    → answer_to_get ctx random job_id a
      ≡ respond (
          record_job_status_result
            (visible ctx.now a.config.recording.job_retention job_id (lookup job_id a.jobs)))
        ∷ []
unfolding receive handle_get_record_job prune_expired_jobs
receive-looks_up ctx random job_id a h = elim (Option-cases (lookup job_id a.jobs)) [
  | inl none_there ↦
      rw
        (
          none_there,
          handle_get_record_job,
          lookup-prune-none ctx.now a.config.recording.job_retention job_id a.jobs none_there,
        )
        refl
  | inr (job, there) ↦ elim (Bool-cases (is_expired ctx.now a.config.recording.job_retention job)) [
    | inl gone ↦
        rw
          (
            there,
            gone,
            handle_get_record_job,
            lookup-prune-gone ctx.now a.config.recording.job_retention job_id a.jobs job h there
                gone,
          )
          refl
    | inr kept ↦
        rw
          (
            there,
            kept,
            handle_get_record_job,
            lookup-prune-kept ctx.now a.config.recording.job_retention job_id a.jobs job there kept,
          )
          refl
  ]
]

-- A job has ended, and longer ago than its retention.
abbrev pub IsOver : Time → Duration → RecordJob → Type 0
IsOver now retention job =
    ((job.status ≡ completed) ⊎ (job.status ≡ failed))
    × (job.completed_at ≢ 0)
    × (retention <ℤ sub now job.completed_at)

is_expired-IsOver :
    (now : Time) (retention : Duration) (job : RecordJob)
    → (is_expired now retention job ≡ true) ↔ IsOver now retention job
unfolding is_expired
is_expired-IsOver now retention job = go job.status refl
  where
    go :
        (status : RecordStatus)
        → job.status ≡ status
        → (is_expired now retention job ≡ true) ↔ IsOver now retention job
    go accepted e = ground arith
    go running e = ground arith
    go completed e = ground arith
    go failed e = ground arith
    go unset e = ground arith

-- The answer that a job is not known.
pub record IsNotFound (job_id : Text) (r : RecordJobStatusResult) : Type 0 where
  pub named : r.job_id ≡ job_id
  pub code : r.status_code ≡ 404
  pub says : r.error ≡ codes "record job not found"

-- The answer that tells a job's state.
pub record Shows (job : RecordJob) (r : RecordJobStatusResult) : Type 0 where
  pub job_id : r.job_id ≡ job.job_id
  pub status : r.status ≡ job.status
  pub type : r.type ≡ job.type
  pub mac : r.mac ≡ job.mac
  pub cam_id : r.cam_id ≡ job.cam_id
  pub duration : r.duration ≡ job.duration
  pub bucket : r.bucket ≡ job.bucket
  pub object_key : r.object_key ≡ job.object_key
  pub content_type : r.content_type ≡ job.content_type
  pub started_at : r.started_at ≡ job.started_at
  pub completed_at : r.completed_at ≡ job.completed_at
  pub error : r.error ≡ job.error
  pub code : r.status_code ≡ 200

-- What a caller sees of a job at a time, under a retention.
pub data Visible (now : Time) (retention : Duration) (job_id : Text) (found : Option RecordJob)
    (r : RecordJobStatusResult) : Type 0 where
  is_unknown : found ≡ none → IsNotFound job_id r → Visible now retention job_id found r
  is_over :
      (job : RecordJob)
      → found ≡ some job
      → IsOver now retention job
      → IsNotFound job_id r
      → Visible now retention job_id found r
  is_shown :
      (job : RecordJob)
      → found ≡ some job
      → ¬ IsOver now retention job
      → Shows job r
      → Visible now retention job_id found r

job_not_found-IsNotFound : (job_id : Text) → IsNotFound job_id (job_not_found job_id)
unfolding job_not_found
job_not_found-IsNotFound job_id = record { named = refl; code = refl; says = refl }

record_job_to_status_result-Shows : (job : RecordJob) → Shows job (record_job_to_status_result job)
unfolding record_job_to_status_result
record_job_to_status_result-Shows job = record {
  job_id = refl;
  status = refl;
  type = refl;
  mac = refl;
  cam_id = refl;
  duration = refl;
  bucket = refl;
  object_key = refl;
  content_type = refl;
  started_at = refl;
  completed_at = refl;
  error = refl;
  code = refl;
}

visible-Visible :
    (now : Time) (retention : Duration) (job_id : Text) (found : Option RecordJob)
    → Visible now retention job_id found (visible now retention job_id found)
visible-Visible now retention job_id none = is_unknown refl (job_not_found-IsNotFound job_id)
visible-Visible now retention job_id (some job) = elim (Bool-cases (is_expired now retention job)) [
  | inl gone ↦
      is_over job refl ((is_expired-IsOver now retention job).0 gone)
        (rw gone (job_not_found-IsNotFound job_id))
  | inr kept ↦
      is_shown job refl (λ over. cc (sym kept ∙ (is_expired-IsOver now retention job).1 over))
        (rw kept (record_job_to_status_result-Shows job))
]

-- If each identifier has one entry in the actor's map, a request for a job is answered by one
-- message. If the job is stored, and has not ended or ended within the retention (or its end has no
-- time), the message shows each field of it, with status 200. If none is stored, or the job ended
-- longer ago than the retention, the message is "record job not found" for its identifier, with
-- status 404.
pub receive-Visible :
    (ctx : Context) (random : Result (List ℕ)) (job_id : Text) (a : RecordActor)
    → IsMap a.jobs
    → (r : RecordJobStatusResult) × (answer_to_get ctx random job_id a
        ≡ respond (record_job_status_result r) ∷ [])
      × Visible ctx.now a.config.recording.job_retention job_id (lookup job_id a.jobs) r
receive-Visible ctx random job_id a h = (
  visible ctx.now a.config.recording.job_retention job_id (lookup job_id a.jobs),
  receive-looks_up ctx random job_id a h,
  visible-Visible ctx.now a.config.recording.job_retention job_id (lookup job_id a.jobs),
)
