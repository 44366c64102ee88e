-- ===== src/Record/Concurrency/Known.antt =====
-- A job that no goroutine has, and the messages that may come (actor/RecordActor.go).
use go2rtc_manager.Prelude.{
  ℕ, ◌≡◌, ◌≢◌, sym, subst, inl, inr, Option-cases, List, ◌∷◌, ◌++◌, All-middle, All-put, none,
  arith,
}
use go2rtc_manager.Prelude.Results.{Result}
use go2rtc_manager.Prelude.Text.{Text, text_eq_iff}
use go2rtc_manager.Prelude.Maps.{Map, lookup, lookup-insert}
use go2rtc_manager.Time.{Time}
use go2rtc_manager.Message.{StartRecordRequest, Message}
use go2rtc_manager.Effect.{Context}
use go2rtc_manager.Record.{RecordActor, Outcome, receive, prune_expired_jobs, accept, new_job}
use go2rtc_manager.Record.Jobs.{RecordJob, update_job, mark_running, mark_completed, mark_failed}
use go2rtc_manager.Record.Lookups.{lookup-prune-none, update_job-none, update_job-some}
use go2rtc_manager.Record.Lifecycle.{Exits}
use go2rtc_manager.Record.Concurrency.{Goroutine, World, launch, resume}
use go2rtc_manager.Record.Concurrency.Limit.{IsVerdict, completes, fails, Waits, ends, begins}
use go2rtc_manager.Record.Concurrency.Life.{IsKnown}

pub prune-IsKnown :
    (a : RecordActor) (now : Time) (gs : List Goroutine)
    → IsKnown a.jobs gs
    → IsKnown (prune_expired_jobs now a).jobs gs
unfolding prune_expired_jobs
prune-IsKnown a now gs h id fresh =
    lookup-prune-none now a.config.recording.job_retention id a.jobs (h id fresh)

pub Exits-IsKnown :
    (w : World) (msg : StartRecordRequest) (b : RecordActor) (gs : List Goroutine) (o : Outcome)
    → Exits msg b o
    → IsKnown b.jobs gs
    → IsKnown (resume w o gs).actor.jobs (resume w o gs).goroutines
unfolding resume launch accept new_job
Exits-IsKnown w msg b gs o (inl (code, e, other, h)) known =
    subst (λ p. IsKnown (resume w p gs).actor.jobs (resume w p gs).goroutines) (sym h) known
Exits-IsKnown w msg b gs o (inr (id, h, good)) known =
    subst (λ p. IsKnown (resume w p gs).actor.jobs (resume w p gs).goroutines) (sym h)
      λ k fresh. ground (
        arith,
        lookup-insert k id (new_job msg id) b.jobs,
        text_eq_iff id k,
        fresh.0,
        known k fresh.1,
      )

-- An update of a job that a goroutine has.
update-IsKnown :
    (id : Text) (f : RecordJob → RecordJob) (jobs : Map RecordJob) (before : List Goroutine)
    (ms rest : List Message) (later : List Goroutine)
    → IsKnown jobs (before ++ record { job_id = id; messages = ms } ∷ later)
    → IsKnown (update_job id f jobs) (before ++ record { job_id = id; messages = rest } ∷ later)
update-IsKnown id f jobs before ms rest later known k fresh =
    let (other, others) = All-middle (λ g. g.job_id ≢ k) before later fresh in
    let nothing : lookup k jobs ≡ none =
      known k (All-put (λ g. g.job_id ≢ k) before later other others) in
    elim (Option-cases (lookup id jobs)) [
      | inl e ↦ rw (update_job-none id f jobs e) nothing
      | inr (job, e) ↦
          rw (update_job-some id f jobs job e)
            (ground (arith, lookup-insert k id (f job) jobs, text_eq_iff id k, other, nothing))
    ]

module _ (w : World) (ctx : Context) (random : Result (List ℕ)) (a : RecordActor)
    (before : List Goroutine) (id : Text) (later : List Goroutine) where
  verdict-IsKnown :
      {m : Message} (rest : List Message)
      → IsVerdict id m
      → IsKnown a.jobs (before ++ record { job_id = id; messages = m ∷ rest } ∷ later)
      → let t =
          resume w
            (receive ctx random m a)
            (before ++ record { job_id = id; messages = rest } ∷ later) in
        IsKnown t.actor.jobs t.goroutines
  unfolding receive resume launch
  verdict-IsKnown {m} rest (completes c same) known =
      subst
        (λ k.
          IsKnown (update_job k (mark_completed c) a.jobs)
            (before ++ record { job_id = id; messages = rest } ∷ later))
        (sym same) (update-IsKnown id (mark_completed c) a.jobs before (m ∷ rest) rest later known)
  verdict-IsKnown {m} rest (fails f same) known =
      subst
        (λ k.
          IsKnown (update_job k (mark_failed f) a.jobs)
            (before ++ record { job_id = id; messages = rest } ∷ later))
        (sym same) (update-IsKnown id (mark_failed f) a.jobs before (m ∷ rest) rest later known)

  pub message-IsKnown :
      (m : Message) (rest : List Message)
      → Waits a.jobs id (m ∷ rest)
      → IsKnown a.jobs (before ++ record { job_id = id; messages = m ∷ rest } ∷ later)
      → let t =
          resume w
            (receive ctx random m a)
            (before ++ record { job_id = id; messages = rest } ∷ later) in
        IsKnown t.actor.jobs t.goroutines
  unfolding receive resume launch
  message-IsKnown m rest (ends _ run v) known = verdict-IsKnown rest v known
  message-IsKnown m rest (begins r v same acc last) known =
      subst
        (λ k.
          IsKnown (update_job k (mark_running r) a.jobs)
            (before ++ record { job_id = id; messages = rest } ∷ later))
        (sym same) (update-IsKnown id (mark_running r) a.jobs before (m ∷ rest) rest later known)
