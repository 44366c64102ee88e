-- ===== src/Record/Concurrency/Reports.antt =====
-- The messages of the goroutines, and the pruning, against the limit on active record jobs
-- (actor/RecordActor.go).
use go2rtc_manager.Prelude.{
  ℕ, ◌≤◌, ◌≡◌, refl, sym, ap, subst, inl, inr, Option-cases, List, [], ◌∷◌, ◌++◌, All-middle,
  All-put, some, arith,
}
use go2rtc_manager.Prelude.Results.{Result}
use go2rtc_manager.Prelude.Text.{Text, text_eq_iff}
use go2rtc_manager.Prelude.Maps.{Map, lookup, lookup-insert}
use go2rtc_manager.Time.{Time}
use go2rtc_manager.Message.{
  accepted, running, RecordJobRunning, Message, record_job_running, record_job_completed,
  record_job_failed,
}
use go2rtc_manager.Effect.{Context}
use go2rtc_manager.Record.{receive, prune_expired_jobs, quiet}
use go2rtc_manager.Record.Jobs.{
  RecordJob, prune, update_job, mark_running, mark_completed, mark_failed,
}
use go2rtc_manager.Record.Jobs.Counts.{weight, status_of, count_active-prune}
use go2rtc_manager.Record.Concurrency.{Goroutine, Recording, World, launch, resume}
use go2rtc_manager.Record.Concurrency.Limit.{
  IsVerdict, completes, fails, Waits, over, ends, begins, AllWait, Apart, Limited, AllWait-Keeps,
  pruned, Apart-middle, Apart-resume, update-count, update-elsewhere,
}

-- An update by the goroutine that sends next.
reported :
    (max : ℕ) (w : World) (s : Recording) (before : List Goroutine) (id : Text) (msg : Message)
    (rest : List Message) (later : List Goroutine) (f : RecordJob → RecordJob)
    → s.goroutines ≡ before ++ record { job_id = id; messages = msg ∷ rest } ∷ later
    → Limited max s
    → ((job : RecordJob)
        → lookup id s.actor.jobs ≡ some job
        → weight (some (f job)) ≤ weight (some job))
    → Waits (update_job id f s.actor.jobs) id rest
    → Limited max (
        resume w
          (quiet (record s.actor { jobs = update_job id f s.actor.jobs }))
          (before ++ record { job_id = id; messages = rest } ∷ later))
unfolding resume launch
reported max w s before id msg rest later f e h lighter waits =
    let g : Goroutine = record { job_id = id; messages = msg ∷ rest } in
    let g' : Goroutine = record { job_id = id; messages = rest } in
    let apart : Apart (before ++ g ∷ later) = subst Apart e h.apart in
    let waiting : AllWait s.actor.jobs (before ++ g ∷ later) =
      subst (AllWait s.actor.jobs) e h.waiting in
    record {
      limit = h.limit;
      within = omega (arith, update-count id f s.actor.jobs lighter, h.within);
      waiting =
          All-put (λ k. Waits (update_job id f s.actor.jobs) k.job_id k.messages) before later waits
            (update-elsewhere id f s.actor.jobs (before ++ later)
              (Apart-middle before g later apart)
              (All-middle (λ k. Waits s.actor.jobs k.job_id k.messages) before later waiting).1);
      apart = Apart-resume before g g' later refl apart;
    }

-- The three messages, at the job that each names.
module _ (max : ℕ) (w : World) (ctx : Context) (random : Result (List ℕ)) (s : Recording)
    (before : List Goroutine) (id : Text) (rest : List Message) (later : List Goroutine)
    (h : Limited max s) where
  at_job :
      (k : Text) (msg : Message) (f : RecordJob → RecordJob)
      → k ≡ id
      → s.goroutines ≡ before ++ record { job_id = id; messages = msg ∷ rest } ∷ later
      → ((job : RecordJob)
          → lookup id s.actor.jobs ≡ some job
          → weight (some (f job)) ≤ weight (some job))
      → Waits (update_job id f s.actor.jobs) id rest
      → Limited max (
          resume w
            (quiet (record s.actor { jobs = update_job k f s.actor.jobs }))
            (before ++ record { job_id = id; messages = rest } ∷ later))
  at_job k msg f same e lighter waits =
      subst
        (λ k'. Limited max (
          resume w (quiet (record s.actor { jobs = update_job k' f s.actor.jobs }))
            (before ++ record { job_id = id; messages = rest } ∷ later)))
        (sym same) (reported max w s before id msg rest later f e h lighter waits)

-- A job that was accepted runs after its first message.
begun :
    (r : RecordJobRunning) (id : Text) (jobs : Map RecordJob)
    → status_of (lookup id jobs) ≡ accepted
    → status_of (lookup id (update_job id (mark_running r) jobs)) ≡ running
unfolding update_job mark_running
begun r id jobs h = elim (Option-cases (lookup id jobs)) [
  | inl e ↦ absurd (ground (arith, h, ap status_of e))
  | inr (job, e) ↦
      rw (e, update_job)
        (ground (arith, lookup-insert id id (mark_running r job) jobs, text_eq_iff id id))
]

verdict-Limited :
    (max : ℕ) (w : World) (ctx : Context) (random : Result (List ℕ)) (s : Recording)
    (before : List Goroutine) (id : Text) (later : List Goroutine)
    → Limited max s
    → {m : Message} → IsVerdict id m
    → s.goroutines ≡ before ++ record { job_id = id; messages = m ∷ [] } ∷ later
    → Limited max (
        resume w
          (receive ctx random m s.actor)
          (before ++ record { job_id = id; messages = [] } ∷ later))
unfolding receive mark_completed mark_failed
verdict-Limited max w ctx random s before id later h (completes c same) e =
    at_job max w ctx random s before id [] later h c.job_id (record_job_completed c)
      (mark_completed c) same e (λ job _. omega arith) over
verdict-Limited max w ctx random s before id later h (fails f same) e =
    at_job max w ctx random s before id [] later h f.job_id (record_job_failed f) (mark_failed f)
      same e (λ job _. omega arith) over

pub reports-Limited :
    (max : ℕ) (w : World) (ctx : Context) (random : Result (List ℕ)) (s : Recording)
    (before : List Goroutine) (id : Text) (later : List Goroutine)
    → Limited max s
    → (m : Message) (rest : List Message) → Waits s.actor.jobs id (m ∷ rest)
    → s.goroutines ≡ before ++ record { job_id = id; messages = m ∷ rest } ∷ later
    → Limited max (
        resume w
          (receive ctx random m s.actor)
          (before ++ record { job_id = id; messages = rest } ∷ later))
unfolding receive mark_running
reports-Limited max w ctx random s before id later h m rest (ends _ active v) e =
    verdict-Limited max w ctx random s before id later h v e
reports-Limited max w ctx random s before id later h m rest (begins r v same acc last) e =
    at_job max w ctx random s before id (v ∷ []) later h r.job_id (record_job_running r)
      (mark_running r) same e (λ job found. ground (arith, ap status_of found))
      (ends v (begun r id s.actor.jobs acc) last)

pub prune-Limited :
    (max : ℕ) (now : Time) (s : Recording)
    → Limited max s
    → Limited max (record s { actor = prune_expired_jobs now s.actor })
unfolding prune_expired_jobs
prune-Limited max now s h =
    let d = s.actor.config.recording.job_retention in
    record {
      limit = h.limit;
      within = omega (arith, count_active-prune now d s.actor.jobs, h.within);
      waiting =
          AllWait-Keeps s.actor.jobs (prune now d s.actor.jobs) s.goroutines
            (pruned now d s.actor.jobs s.goroutines) h.waiting;
      apart = h.apart;
    }
