-- ===== src/Record/Room.antt =====
-- actor/RecordActor.go: a request for a recording while there is room for another job.
use go2rtc_manager.Prelude.{
  ℕ, ◌≡◌, ◌<◌, refl, sym, ap, ◌∙◌, inl, inr, true, false, List, [], ◌∷◌, ◌++◌, arith, if◌then◌else◌,
}
use go2rtc_manager.Prelude.Int.{pos, leb_ℤ}
use go2rtc_manager.Prelude.Results.{Result, ok}
use go2rtc_manager.Prelude.Text.{Text, codes, is_empty}
use go2rtc_manager.Time.{Time, is_zero}
use go2rtc_manager.Time.Format.{utc_stamp}
use go2rtc_manager.Config.{Config}
use go2rtc_manager.Message.{
  StartRecordRequest, StartRecordResult, start_record_request, start_record_result,
}
use go2rtc_manager.Effect.{respond, Context}
use go2rtc_manager.Record.{
  RecordActor, Outcome, new_record_actor, active_record_jobs, prune_expired_jobs, acceptance,
  new_job, accept, begin_job, hex_encode, new_record_job_id, handle_start_record, receive,
}
use go2rtc_manager.Record.Jobs.{count_active}
use go2rtc_manager.Record.Jobs.Counts.{count_active-prune}
use go2rtc_manager.Record.Submission.{Accepted, receive-answers_start}
use go2rtc_manager.Record.Clients.{
  new_mongo_bodycam_lookup, new_minio_object_store, Reach-init_error,
}
use go2rtc_manager.Record.Concurrency.{Recording, Reach}
use go2rtc_manager.Record.Concurrency.Steps.{initial, Reach-Limited}

-- With no error and room, the handler makes the job.
handle_start_record-accepts :
    (ctx : Context) (suffix : List ℕ) (msg : StartRecordRequest) (a : RecordActor)
    → is_empty a.init_error ≡ true
    → leb_ℤ a.config.recording.max_concurrent_jobs (pos (active_record_jobs a)) ≡ false
    → (id : Text) × (handle_start_record ctx (ok suffix) msg a ≡ accept msg id a)
unfolding handle_start_record begin_job new_record_job_id
handle_start_record-accepts ctx suffix msg a clean room =
    let now : Time = if is_zero msg.requested_at then ctx.now else msg.requested_at in
    (
      codes "record_" ++ (utc_stamp now ++ (codes "_" ++ hex_encode suffix)),
      rw (clean, room, handle_start_record) refl,
    )

-- An answer with status 202 is no refusal.
told_Accepted :
    (ctx : Context) (random : Result (List ℕ)) (msg : StartRecordRequest) (a : RecordActor)
    (id : Text)
    → (receive ctx random (start_record_request msg) a).effects
      ≡ respond (start_record_result (acceptance (new_job msg id))) ∷ []
    → (r : StartRecordResult) × ((receive ctx random (start_record_request msg) a).effects
        ≡ respond (start_record_result r) ∷ [])
      × Accepted msg (receive ctx random (start_record_request msg) a) r
unfolding acceptance
told_Accepted ctx random msg a id told =
    let (r, sent, answer) = receive-answers_start ctx random msg a in
    elim answer [
      | inr taken ↦ (r, sent, taken)
      | inl refused ↦ absurd (refused.status (ap (λ x. x.status_code) (same (sym sent ∙ told))))
    ]
  where
    same :
        {x y : StartRecordResult}
        → (respond (start_record_result x) ∷ []) ≡ respond (start_record_result y) ∷ []
        → x ≡ y
    same e = cc

-- If the clients of MongoDB and MinIO could be made, then in every state that requests and
-- goroutines reach, if each new job's identifier is one that no goroutine has, a request that finds fewer jobs accepted or running than the limit, and random
-- bytes for an identifier, is accepted: it is answered 202 with the new job.
pub room-Accepted :
    (max : ℕ) (cfg : Config)
    → cfg.recording.max_concurrent_jobs ≡ pos max
    → {s : Recording}
    → Reach (initial cfg (new_mongo_bodycam_lookup (ok tt)) (new_minio_object_store (ok tt))) s
    → (ctx : Context) (suffix : List ℕ) (msg : StartRecordRequest)
    → active_record_jobs s.actor < max
    → let o = receive ctx (ok suffix) (start_record_request msg) s.actor in
      (r : StartRecordResult) × (o.effects ≡ respond (start_record_result r) ∷ [])
      × Accepted msg o r
unfolding receive new_record_actor new_mongo_bodycam_lookup new_minio_object_store accept
    active_record_jobs prune_expired_jobs
room-Accepted max cfg h {s} r ctx suffix msg few =
    let b = prune_expired_jobs ctx.now s.actor in
    let limit =
      (Reach-Limited max cfg (new_mongo_bodycam_lookup (ok tt)) (new_minio_object_store (ok tt)) h
        r).limit in
    let kept : count_active b.jobs ≡ count_active s.actor.jobs =
      count_active-prune ctx.now s.actor.config.recording.job_retention s.actor.jobs in
    let room : leb_ℤ b.config.recording.max_concurrent_jobs (pos (active_record_jobs b)) ≡ false =
      ground arith in
    let (id, accepts) =
      handle_start_record-accepts ctx suffix msg b (ap is_empty (Reach-init_error r)) room in
    told_Accepted ctx (ok suffix) msg s.actor id (ap (λ (o : Outcome). o.effects) accepts)
