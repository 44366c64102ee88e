-- ===== src/Record/Settlement.antt =====
-- actor/RecordActor.go: what the messages of a job's goroutine, `executeRecord`, leave of the job
-- in the actor.
use go2rtc_manager.Prelude.{ℕ, ◌≡◌, refl, true, List, [], ◌∷◌, some}
use go2rtc_manager.Prelude.Results.{Result, ok, err}
use go2rtc_manager.Prelude.Text.{CaseTable}
use go2rtc_manager.Prelude.Maps.{lookup}
use go2rtc_manager.Time.{Time}
use go2rtc_manager.Config.{Config}
use go2rtc_manager.Message.{completed, failed, RecordJobRunning, Message}
use go2rtc_manager.Effect.{Context}
use go2rtc_manager.Go2Rtc.Calls.{Api}
use go2rtc_manager.Record.{RecordActor, receive}
use go2rtc_manager.Record.Jobs.{
  RecordJob, is_final, update_job, mark_running, mark_completed, mark_failed,
}
use go2rtc_manager.Record.Lookups.{lookup-update}
use go2rtc_manager.Record.Execute.{
  Store, Upload, upload, verdict, execute_record, record_content_type,
}

-- The actor after messages in turn.
abbrev pub after_messages : Context → Result (List ℕ) → List Message → RecordActor → RecordActor
after_messages ctx random [] a = a
after_messages ctx random (m ∷ ms) a = after_messages ctx random ms (receive ctx random m a).actor

-- What the upload came to, as the job tells it.
abbrev pub Tells : Result Upload → RecordJob → Type 0
Tells (ok u) job =
    (job.status ≡ completed) × (job.bucket ≡ u.bucket) × (job.object_key ≡ u.object_key)
Tells (err e) job = (job.status ≡ failed) × (job.error ≡ e)

pub record Settled (job : RecordJob) (r : Result Upload) (began ended : Time) (final : RecordJob)
    : Type 0 where
  pub finished : is_final final.status ≡ true
  pub outcome : Tells r final
  pub start : final.started_at ≡ began
  pub end : final.completed_at ≡ ended
  pub id : final.job_id ≡ job.job_id
  pub mac : final.mac ≡ job.mac
  pub camera : final.cam_id ≡ job.cam_id

module _ (ctx : Context) (random : Result (List ℕ)) (began ended : Time) (job : RecordJob) where
  after_verdict-Settled :
      (a : RecordActor) (r : Result Upload) (stored : RecordJob)
      → lookup job.job_id a.jobs ≡ some stored
      → stored.started_at ≡ began
      → (final : RecordJob) × (lookup job.job_id
            (receive ctx random (verdict job.job_id ended r) a).actor.jobs
          ≡ some final)
        × Settled stored r began ended final
  unfolding receive verdict mark_completed mark_failed
  after_verdict-Settled a (ok u) stored h start = (
    _,
    lookup-update job.job_id
        (mark_completed (record {
          job_id = job.job_id;
          bucket = u.bucket;
          object_key = u.object_key;
          content_type = record_content_type;
          completed_at = ended;
        }))
        a.jobs stored h,
    record {
      finished = refl;
      outcome = (refl, refl, refl);
      start = start;
      end = refl;
      id = refl;
      mac = refl;
      camera = refl;
    },
  )
  after_verdict-Settled a (err e) stored h start = (
    _,
    lookup-update job.job_id
        (mark_failed (record { job_id = job.job_id; error = e; completed_at = ended })) a.jobs
        stored h,
    record {
      finished = refl;
      outcome = (refl, refl);
      start = start;
      end = refl;
      id = refl;
      mac = refl;
      camera = refl;
    },
  )

-- If the actor holds a job under its identifier, then after the messages that the goroutine of the
-- job sends, whatever the outside answers, it holds a final job there: completed, with the bucket
-- and the key of the upload, if the upload worked, else failed with the upload's error; with the
-- times at which the goroutine began and ended, and the job's identifier, MAC address and camera.
pub execute_record-Settled :
    (ctx : Context) (random : Result (List ℕ)) (api : Api) (store : Store) (table : CaseTable)
    (cfg : Config) (began ended : Time) (job stored : RecordJob) (a : RecordActor)
    → lookup job.job_id a.jobs ≡ some stored
    → (final : RecordJob) × (lookup job.job_id
          (after_messages ctx random (execute_record api store table cfg began ended job).1 a).jobs
        ≡ some final)
      × Settled stored (upload api store table cfg began job).1 began ended final
unfolding execute_record receive mark_running
execute_record-Settled ctx random api store table cfg began ended job stored a h =
    let msg : RecordJobRunning = record { job_id = job.job_id; started_at = began } in
    let b : RecordActor = record a { jobs = update_job job.job_id (mark_running msg) a.jobs } in
    let (final, found, settled) =
      after_verdict-Settled ctx random began ended job b (upload api store table cfg began job).1
        (mark_running msg stored) (lookup-update job.job_id (mark_running msg) a.jobs stored h)
        refl in
    (
      final,
      found,
      record {
        finished = settled.finished;
        outcome = settled.outcome;
        start = settled.start;
        end = settled.end;
        id = settled.id;
        mac = settled.mac;
        camera = settled.camera;
      },
    )
