-- ===== src/Record/Lifecycle.antt =====
-- actor/RecordActor.go: the ends of a request to start, the answer to a request for a job, and the
-- map of the jobs through each message.
use go2rtc_manager.Prelude.{
  ℕ, ◌≡◌, refl, sym, subst, ◌≢◌, ◌⊎◌, inl, inr, Bool-cases, List, arith, false, if◌then◌else◌,
}
use go2rtc_manager.Prelude.Results.{Result, ok, err}
use go2rtc_manager.Prelude.Int.{pos, leb_ℤ}
use go2rtc_manager.Prelude.Text.{Text, codes, is_empty}
use go2rtc_manager.Time.{is_zero}
use go2rtc_manager.Message.{
  StartRecordRequest, Message, start_record_request, get_record_job_request, record_job_running,
  record_job_completed, record_job_failed,
}
use go2rtc_manager.Effect.{Effect, Context}
use go2rtc_manager.Record.{
  RecordActor, Outcome, prune_expired_jobs, active_record_jobs, new_job, refuse, accept, begin_job,
  handle_start_record, receive,
}
use go2rtc_manager.Record.JobId.{IsJobId, IsNamed, new_record_job_id-IsNamed}
use go2rtc_manager.Record.Lookups.{IsMap, insert-IsMap, prune-IsMap, update-IsMap}

-- The two ways in which a request to start ends: a refusal that changes nothing, and a new job.
abbrev pub Exits : StartRecordRequest → RecordActor → Outcome → Type 0
Exits msg a o =
    ((code : ℕ) × (e : Text) × ((code ≢ 202) × (is_empty e ≡ false)) × (o ≡ refuse msg code e a))
    ⊎ ((id : Text) × (o ≡ accept msg id a) × IsJobId id)

begin_job-Exits :
    (msg : StartRecordRequest) (a : RecordActor) (r : Result Text)
    → IsNamed r
    → Exits msg a (begin_job msg a r)
unfolding begin_job
begin_job-Exits msg a (ok id) h = inr (id, refl, h)
begin_job-Exits msg a (err e) h = inl (500, e, (ground arith, h), refl)

pub handle_start_record-Exits :
    (ctx : Context) (random : Result (List ℕ)) (msg : StartRecordRequest) (a : RecordActor)
    → Exits msg a (handle_start_record ctx random msg a)
unfolding handle_start_record
handle_start_record-Exits ctx random msg a = elim (Bool-cases (is_empty a.init_error)) [
  | inr e ↦ rw (e, handle_start_record) (inl (500, a.init_error, (ground arith, e), refl))
  | inl e ↦
      rw (e, handle_start_record)
        (elim (Bool-cases
          (leb_ℤ a.config.recording.max_concurrent_jobs (pos (active_record_jobs a)))) [
            | inl full ↦
                rw full (inl (429, codes "too many active record jobs", (ground arith, refl), refl))
            | inr room ↦ rw room (
                begin_job-Exits msg a _ (
                  new_record_job_id-IsNamed
                    (if is_zero msg.requested_at then ctx.now else msg.requested_at) random))
          ])
]

Exits-IsMap :
    (msg : StartRecordRequest) (a : RecordActor) (o : Outcome)
    → Exits msg a o
    → IsMap a.jobs
    → IsMap o.actor.jobs
unfolding accept
Exits-IsMap msg a o (inl (code, e, other, h)) m = subst (λ p. IsMap p.actor.jobs) (sym h) m
Exits-IsMap msg a o (inr (id, h, good)) m =
    subst (λ p. IsMap p.actor.jobs) (sym h) (insert-IsMap id (new_job msg id) a.jobs m)

-- No message makes a second entry for a job's identifier: if each identifier has one entry, it
-- has one after the message, whichever message it is.
pub receive-IsMap :
    (ctx : Context) (random : Result (List ℕ)) (msg : Message) (a : RecordActor)
    → IsMap a.jobs
    → IsMap (receive ctx random msg a).actor.jobs
unfolding receive prune_expired_jobs
receive-IsMap ctx random (start_record_request msg) a h =
    Exits-IsMap msg (prune_expired_jobs ctx.now a) _ (handle_start_record-Exits ctx random msg _)
      (prune-IsMap ctx.now a.config.recording.job_retention a.jobs h)
receive-IsMap ctx random (get_record_job_request msg) a h =
    prune-IsMap ctx.now a.config.recording.job_retention a.jobs h
receive-IsMap ctx random (record_job_running msg) a h = update-IsMap _ _ a.jobs h
receive-IsMap ctx random (record_job_completed msg) a h = update-IsMap _ _ a.jobs h
receive-IsMap ctx random (record_job_failed msg) a h = update-IsMap _ _ a.jobs h
receive-IsMap ctx random _ a h = h

-- The answer to a request for a job's state.
abbrev pub answer_to_get : Context → Result (List ℕ) → Text → RecordActor → List Effect
answer_to_get ctx random job_id a =
    (receive ctx random (get_record_job_request (record { job_id = job_id })) a).effects
