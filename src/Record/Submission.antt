-- ===== src/Record/Submission.antt =====
-- actor/RecordActor.go: what a caller may rely on from the answer to its request on, and what the
-- two messages of a job's goroutine leave behind.
use go2rtc_manager.Prelude.{
  ℕ, ◌≡◌, refl, sym, subst, ◌≢◌, ◌⊎◌, inl, inr, List, [], ◌∷◌, some, false,
}
use go2rtc_manager.Prelude.Results.{Result}
use go2rtc_manager.Prelude.Text.{Text, is_empty, text_eq_iff}
use go2rtc_manager.Prelude.Maps.{lookup, insert, lookup-insert}
use go2rtc_manager.Message.{
  StartRecordRequest, StartRecordResult, start_record_request, start_record_result,
  record_job_status_result,
}
use go2rtc_manager.Effect.{respond, Context}
use go2rtc_manager.Record.{
  RecordActor, Outcome, prune_expired_jobs, new_job, acceptance, refusal, accept,
  record_job_to_status_result, handle_get_record_job, receive,
}
use go2rtc_manager.Record.JobId.{IsJobId}
use go2rtc_manager.Record.Lookups.{lookup-prune-kept, is_expired-active}
use go2rtc_manager.Record.Lifecycle.{Exits, handle_start_record-Exits, answer_to_get}

-- The two answers to a request: one that is not 202 and starts nothing, and a 202 whose job any
-- later request for it finds as it was accepted.
pub record Refused (ctx : Context) (a : RecordActor) (o : Outcome) (r : StartRecordResult)
    : Type 0 where
  pub status : r.status_code ≢ 202
  pub same : o.actor ≡ prune_expired_jobs ctx.now a
  pub idle : o.started ≡ []
  pub told : is_empty r.error ≡ false

pub record Accepted (msg : StartRecordRequest) (o : Outcome) (r : StartRecordResult) : Type 0 where
  pub status : r.status_code ≡ 202
  pub named : IsJobId r.job_id
  pub job : r ≡ acceptance (new_job msg r.job_id)
  pub started : o.started ≡ new_job msg r.job_id ∷ []
  pub found :
      (later : Context) (random : Result (List ℕ))
      → answer_to_get later random r.job_id o.actor
        ≡ respond (record_job_status_result (record_job_to_status_result (new_job msg r.job_id)))
          ∷ []

accept-found :
    (msg : StartRecordRequest) (id : Text) (a : RecordActor) (later : Context)
    (random : Result (List ℕ))
    → answer_to_get later random id (accept msg id a).actor
      ≡ respond (record_job_status_result (record_job_to_status_result (new_job msg id))) ∷ []
unfolding receive handle_get_record_job prune_expired_jobs accept
accept-found msg id a later random =
    rw
      (
        handle_get_record_job,
        lookup-prune-kept later.now a.config.recording.job_retention id
            (insert id (new_job msg id) a.jobs) (new_job msg id) stored
            (is_expired-active later.now a.config.recording.job_retention (new_job msg id)
              (unfold new_job in refl)),
      )
      refl
  where
    stored : lookup id (insert id (new_job msg id) a.jobs) ≡ some (new_job msg id)
    stored = rw (lookup-insert id id (new_job msg id) a.jobs, (text_eq_iff id id).1 refl) refl

Exits-answered :
    (ctx : Context) (msg : StartRecordRequest) (a : RecordActor) (o : Outcome)
    → Exits msg (prune_expired_jobs ctx.now a) o
    → (r : StartRecordResult) × (o.effects ≡ respond (start_record_result r) ∷ [])
      × (Refused ctx a o r ⊎ Accepted msg o r)
unfolding accept
Exits-answered ctx msg a o (inl (code, e, other, h)) =
    subst
      (λ p.
        (r : StartRecordResult) × (p.effects ≡ respond (start_record_result r) ∷ [])
        × (Refused ctx a p r ⊎ Accepted msg p r))
      (sym h)
      (
        refusal msg code e,
        refl,
        inl (record {
          status = unfold refusal in other.0;
          same = refl;
          idle = refl;
          told = unfold refusal in other.1;
        }),
      )
Exits-answered ctx msg a o (inr (id, h, good)) =
    subst
      (λ p.
        (r : StartRecordResult) × (p.effects ≡ respond (start_record_result r) ∷ [])
        × (Refused ctx a p r ⊎ Accepted msg p r))
      (sym h)
      (
        acceptance (new_job msg id),
        refl,
        inr (
            unfold acceptance new_job in
            record {
              status = refl;
              named = good;
              job = refl;
              started = refl;
              found = accept-found msg id (prune_expired_jobs ctx.now a);
            }),
      )

-- A request to start a recording gets one answer. Either its status is not 202, its error is not
-- empty, the actor has only pruned its expired jobs and no goroutine starts; or it is 202, its
-- identifier is one path segment, not empty, the rest of it is that of the new job of the request
-- under that identifier, one goroutine starts for that job, and a request for that identifier, at
-- whatever time it comes next, is answered with that job.
pub receive-answers_start :
    (ctx : Context) (random : Result (List ℕ)) (msg : StartRecordRequest) (a : RecordActor)
    → (r : StartRecordResult) × ((receive ctx random (start_record_request msg) a).effects
        ≡ respond (start_record_result r) ∷ [])
      × (Refused ctx a (receive ctx random (start_record_request msg) a) r
          ⊎ Accepted msg (receive ctx random (start_record_request msg) a) r)
unfolding receive
receive-answers_start ctx random msg a =
    Exits-answered ctx msg a _
      (handle_start_record-Exits ctx random msg (prune_expired_jobs ctx.now a))
