-- ===== src/Record.antt =====
-- actor/RecordActor.go: the actor's state and `Receive`. A job that runs is a goroutine, which
-- `Record/Execute.antt` models; here a handler names the jobs that it starts.
pub mod Jobs
pub mod Bucket
pub mod ObjectKey
pub mod Execute
pub mod Concurrency
pub mod JobId
pub mod Lookups
pub mod Lifecycle
pub mod Visibility
pub mod Submission
pub mod Settlement
pub mod Clients
pub mod Room
use go2rtc_manager.Prelude.{
  ℕ, suc, ◌+◌, ◌-◌, ◌/◌, ◌%◌, leb, Bool, true, false, not, ◌&&◌, ◌||◌, List, [], ◌∷◌, ◌++◌, Option,
  none, some, ◌==◌, if◌then◌else◌,
}
use go2rtc_manager.Prelude.Int.{ℤ, pos, leb_ℤ, ltb_ℤ}
use go2rtc_manager.Prelude.Results.{Result, ok, err, wrap}
use go2rtc_manager.Prelude.Text.{Text, codes, is_empty}
use go2rtc_manager.Prelude.Maps.{Map, lookup, insert}
use go2rtc_manager.Time.{Time, Duration, is_zero, sub}
use go2rtc_manager.Time.Format.{utc_stamp}
use go2rtc_manager.Config.{Config}
use go2rtc_manager.Message.{
  RecordStatus, unset, accepted, running, completed, failed, StartRecordRequest, StartRecordResult,
  GetRecordJobRequest, RecordJobStatusResult, RecordJobRunning, RecordJobCompleted, RecordJobFailed,
  Message, start_record_request, start_record_result, get_record_job_request,
  record_job_status_result, record_job_running, record_job_completed, record_job_failed,
}
use go2rtc_manager.Effect.{Effect, respond, Context}
use Jobs.{RecordJob, prune, count_active, update_job, mark_running, mark_completed, mark_failed}

pub record RecordActor : Type 0 where
  pub config : Config
  pub jobs : Map RecordJob
  pub init_error : Text

-- The new state, the effects, and the jobs for which a goroutine starts.
pub record Outcome : Type 0 where
  pub actor : RecordActor
  pub effects : List Effect
  pub started : List RecordJob

-- `NewRecordActor`: whether the clients of MongoDB and of MinIO could be made.
unfoldable pub new_record_actor : Config → Result (Unit {0}) → Result (Unit {0}) → RecordActor
new_record_actor cfg (err e) store = record { config = cfg; jobs = []; init_error = e }
new_record_actor cfg (ok _) (err e) = record { config = cfg; jobs = []; init_error = e }
new_record_actor cfg (ok _) (ok _) = record { config = cfg; jobs = []; init_error = [] }

unfoldable pub prune_expired_jobs : Time → RecordActor → RecordActor
unfolding prune
prune_expired_jobs now a = record a { jobs = prune now a.config.recording.job_retention a.jobs }

unfoldable pub active_record_jobs : RecordActor → ℕ
unfolding count_active
active_record_jobs a = count_active a.jobs

-- `hex.EncodeToString`
abbrev pub hex_digit : ℕ → ℕ
hex_digit n = if leb n 9 then b'0' + n else b'a' + (n - 10)

unfoldable pub hex_encode : List ℕ → Text
hex_encode [] = []
hex_encode (b ∷ bs) = hex_digit (b / 16) ∷ hex_digit (b % 16) ∷ hex_encode bs

-- `newRecordJobID`, from what `rand.Read` gives.
unfoldable pub new_record_job_id : Time → Result (List ℕ) → Result Text
unfolding hex_encode
new_record_job_id now (err e) = err (codes "generate job id: " ++ e)
new_record_job_id now (ok suffix) =
    ok (codes "record_" ++ (utc_stamp now ++ (codes "_" ++ hex_encode suffix)))

-- A `StartRecordResult` that refuses a request.
unfoldable pub refusal : StartRecordRequest → ℕ → Text → StartRecordResult
refusal msg status_code e = record {
  job_id = [];
  status = unset;
  type = msg.type;
  mac = msg.mac;
  cam_id = msg.cam_id;
  duration = msg.duration;
  status_code = status_code;
  error = e;
}

-- The job that an accepted request makes.
unfoldable pub new_job : StartRecordRequest → Text → RecordJob
new_job msg job_id = record {
  job_id = job_id;
  status = accepted;
  type = msg.type;
  mac = msg.mac;
  cam_id = msg.cam_id;
  duration = msg.duration;
  bucket = [];
  object_key = [];
  content_type = [];
  started_at = 0;
  completed_at = 0;
  error = [];
}

unfoldable pub acceptance : RecordJob → StartRecordResult
acceptance job = record {
  job_id = job.job_id;
  status = job.status;
  type = job.type;
  mac = job.mac;
  cam_id = job.cam_id;
  duration = job.duration;
  status_code = 202;
  error = [];
}

abbrev pub refuse : StartRecordRequest → ℕ → Text → RecordActor → Outcome
refuse msg status_code e a = record {
  actor = a;
  effects = respond (start_record_result (refusal msg status_code e)) ∷ [];
  started = [];
}

-- The job goes into the map, its goroutine starts, and the request is answered.
unfoldable pub accept : StartRecordRequest → Text → RecordActor → Outcome
unfolding new_job acceptance
accept msg job_id a =
    let job = new_job msg job_id in
    record {
      actor = record a { jobs = insert job_id job a.jobs };
      effects = respond (start_record_result (acceptance job)) ∷ [];
      started = job ∷ [];
    }

-- The end of `handleStartRecord`, from the identifier of the job.
unfoldable pub begin_job : StartRecordRequest → RecordActor → Result Text → Outcome
unfolding refusal accept
begin_job msg a (err e) = refuse msg 500 e a
begin_job msg a (ok job_id) = accept msg job_id a

-- `handleStartRecord`; `random` is what `rand.Read` gives.
unfoldable pub handle_start_record :
    Context → Result (List ℕ) → StartRecordRequest → RecordActor → Outcome
unfolding active_record_jobs new_record_job_id refusal begin_job
handle_start_record ctx random msg a =
    if not (is_empty a.init_error)
    then refuse msg 500 a.init_error a
    else if leb_ℤ a.config.recording.max_concurrent_jobs (pos (active_record_jobs a))
    then refuse msg 429 (codes "too many active record jobs") a
    else (let now : Time = if is_zero msg.requested_at then ctx.now else msg.requested_at in
        begin_job msg a (new_record_job_id now random))

unfoldable pub record_job_to_status_result : RecordJob → RecordJobStatusResult
record_job_to_status_result job = record {
  job_id = job.job_id;
  status = job.status;
  type = job.type;
  mac = job.mac;
  cam_id = job.cam_id;
  duration = job.duration;
  bucket = job.bucket;
  object_key = job.object_key;
  content_type = job.content_type;
  started_at = job.started_at;
  completed_at = job.completed_at;
  error = job.error;
  status_code = 200;
}

unfoldable pub job_not_found : Text → RecordJobStatusResult
job_not_found job_id = record {
  job_id = job_id;
  status = unset;
  type = [];
  mac = [];
  cam_id = [];
  duration = pos 0;
  bucket = [];
  object_key = [];
  content_type = [];
  started_at = 0;
  completed_at = 0;
  error = codes "record job not found";
  status_code = 404;
}

unfoldable pub handle_get_record_job : GetRecordJobRequest → RecordActor → RecordJobStatusResult
unfolding record_job_to_status_result job_not_found
handle_get_record_job msg a = elim (lookup msg.job_id a.jobs) [
  | none ↦ job_not_found msg.job_id
  | some job ↦ record_job_to_status_result job
]

abbrev pub quiet : RecordActor → Outcome
quiet a = record { actor = a; effects = []; started = [] }

unfoldable pub receive : Context → Result (List ℕ) → Message → RecordActor → Outcome
unfolding prune_expired_jobs handle_start_record handle_get_record_job update_job mark_running
    mark_completed mark_failed
receive ctx random (start_record_request msg) a =
    handle_start_record ctx random msg (prune_expired_jobs ctx.now a)
receive ctx random (get_record_job_request msg) a =
    let b = prune_expired_jobs ctx.now a in
    record {
      actor = b;
      effects = respond (record_job_status_result (handle_get_record_job msg b)) ∷ [];
      started = [];
    }
receive ctx random (record_job_running msg) a =
    quiet (record a { jobs = update_job msg.job_id (mark_running msg) a.jobs })
receive ctx random (record_job_completed msg) a =
    quiet (record a { jobs = update_job msg.job_id (mark_completed msg) a.jobs })
receive ctx random (record_job_failed msg) a =
    quiet (record a { jobs = update_job msg.job_id (mark_failed msg) a.jobs })
receive ctx random _ a = quiet a
