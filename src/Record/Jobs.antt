-- ===== src/Record/Jobs.antt =====
-- actor/RecordActor.go: the map of the record jobs, `pruneExpiredJobs` and `activeRecordJobs` over
-- it, and the updates that a job's own messages make in it.
pub mod Counts
use go2rtc_manager.Prelude.{
  ℕ, ◌+◌, Bool, true, false, not, List, [], ◌∷◌, Option, none, some, if◌then◌else◌,
}
use go2rtc_manager.Prelude.Int.{ℤ, ltb_ℤ}
use go2rtc_manager.Prelude.Text.{Text}
use go2rtc_manager.Prelude.Maps.{Map, lookup, insert}
use go2rtc_manager.Time.{Time, Duration, is_zero, sub}
use go2rtc_manager.Message.{
  RecordStatus, accepted, running, completed, failed, RecordJobRunning, RecordJobCompleted,
  RecordJobFailed,
}

pub record RecordJob : Type 0 where
  pub job_id : Text
  pub status : RecordStatus
  pub type : Text
  pub mac : Text
  pub cam_id : Text
  pub duration : Duration
  pub bucket : Text
  pub object_key : Text
  pub content_type : Text
  pub started_at : Time
  pub completed_at : Time
  pub error : Text

abbrev pub is_active : RecordStatus → Bool
is_active accepted = true
is_active running = true
is_active _ = false

abbrev pub is_final : RecordStatus → Bool
is_final completed = true
is_final failed = true
is_final _ = false

-- The test of `pruneExpiredJobs` for one job.
unfoldable pub is_expired : Time → Duration → RecordJob → Bool
is_expired now retention job =
    if not (is_final job.status)
    then false
    else if is_zero job.completed_at
    then false
    else ltb_ℤ retention (sub now job.completed_at)

-- The loop of `pruneExpiredJobs`.
unfoldable pub prune : Time → Duration → Map RecordJob → Map RecordJob
unfolding is_expired
prune now retention [] = []
prune now retention ((id, job) ∷ jobs) =
    let rest = prune now retention jobs in
    if is_expired now retention job then rest else (id, job) ∷ rest

-- The loop of `activeRecordJobs`.
unfoldable pub count_active : Map RecordJob → ℕ
count_active [] = 0
count_active ((id, job) ∷ jobs) = (if is_active job.status then 1 else 0) + count_active jobs

-- The three updates of a job's own messages.
unfoldable pub mark_running : RecordJobRunning → RecordJob → RecordJob
mark_running msg job = record job { status = running; started_at = msg.started_at }

unfoldable pub mark_completed : RecordJobCompleted → RecordJob → RecordJob
mark_completed msg job = record job {
  status = completed;
  bucket = msg.bucket;
  object_key = msg.object_key;
  content_type = msg.content_type;
  completed_at = msg.completed_at;
}

unfoldable pub mark_failed : RecordJobFailed → RecordJob → RecordJob
mark_failed msg job = record job {
  status = failed;
  error = msg.error;
  completed_at = msg.completed_at;
}

-- `if job, ok := a.jobs[id]; ok { …; a.jobs[id] = job }`
unfoldable pub update_job : Text → (RecordJob → RecordJob) → Map RecordJob → Map RecordJob
update_job id f jobs = elim (lookup id jobs) [ none ↦ jobs | some job ↦ insert id (f job) jobs ]
