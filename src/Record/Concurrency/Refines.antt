-- ===== src/Record/Concurrency/Refines.antt =====
-- The record actor and its goroutines against the board of jobs (actor/RecordActor.go).
use go2rtc_manager.Prelude.{
  ℕ, ◌≡◌, refl, sym, ap, subst, ◌∙◌, inl, inr, List, [], ◌∷◌, ◌++◌, All, All-middle,
}
use go2rtc_manager.Prelude.Int.{pos}
use go2rtc_manager.Prelude.Results.{Result, ok, err}
use go2rtc_manager.Prelude.Text.{Text}
use go2rtc_manager.Prelude.Maps.{Map, lookup}
use go2rtc_manager.Config.{Config}
use go2rtc_manager.Message.{
  accepted, running, completed, failed, StartRecordRequest, Message, start_record_request,
  get_record_job_request,
}
use go2rtc_manager.Effect.{Context}
use go2rtc_manager.Record.{
  RecordActor, Outcome, receive, handle_start_record, prune_expired_jobs, accept, new_job,
  new_record_actor,
}
use go2rtc_manager.Record.Jobs.{RecordJob, mark_running, mark_completed, mark_failed}
use go2rtc_manager.Record.Jobs.Counts.{status_of}
use go2rtc_manager.Record.Lookups.{IsMap}
use go2rtc_manager.Record.Lifecycle.{receive-IsMap, Exits, handle_start_record-Exits}
use go2rtc_manager.Record.Concurrency.{
  Goroutine, Recording, launch, resume, IsFresh, Step, requests, asks, reports, Reach, here, next,
}
use go2rtc_manager.Record.Concurrency.Limit.{
  IsVerdict, completes, fails, Waits, ends, begins, AllWait, Limited,
}
use go2rtc_manager.Record.Concurrency.Steps.{initial, Reach-Limited}
use go2rtc_manager.Record.Concurrency.Life.{
  Life, is_accepted, starts, succeeds, breaks, board_of, Moves, IsKnown, prune-Moves, insert-Moves,
  update-Moves,
}
use go2rtc_manager.Record.Concurrency.Known.{prune-IsKnown, Exits-IsKnown, message-IsKnown}

Exits-Moves :
    (msg : StartRecordRequest) (jobs : Map RecordJob) (b : RecordActor) (gs : List Goroutine)
    (o : Outcome)
    → Exits msg b o
    → All (λ job. IsFresh job.job_id gs) o.started
    → IsKnown jobs gs
    → Moves (board_of jobs) (board_of b.jobs)
    → Moves (board_of jobs) (board_of o.actor.jobs)
unfolding accept new_job
Exits-Moves msg jobs b gs o (inl (code, e, other, h)) fresh known m =
    subst (λ (p : Outcome). Moves (board_of jobs) (board_of p.actor.jobs)) (sym h) m
Exits-Moves msg jobs b gs o (inr (id, h, good)) fresh known m =
    subst (λ (p : Outcome). Moves (board_of jobs) (board_of p.actor.jobs)) (sym h)
      (insert-Moves id (new_job msg id) jobs b.jobs
        (subst (λ o. Life (status_of o) accepted)
          (sym (
            known id
              (subst (λ (p : Outcome). All (λ job. IsFresh job.job_id gs) p.started) h fresh).0))
          is_accepted)
        m)

verdict-Moves :
    (ctx : Context) (random : Result (List ℕ)) (a : RecordActor) (id : Text) {m : Message}
    → IsVerdict id m
    → status_of (lookup id a.jobs) ≡ running
    → Moves (board_of a.jobs) (board_of (receive ctx random m a).actor.jobs)
unfolding receive mark_completed mark_failed
verdict-Moves ctx random a id (completes c same) run =
    update-Moves c.job_id (mark_completed c) a.jobs λ job found.
      subst (λ st. Life st completed)
        (sym (subst (λ k. status_of (lookup k a.jobs) ≡ running) (sym same) run)
          ∙ ap status_of found)
        succeeds
verdict-Moves ctx random a id (fails f same) run =
    update-Moves f.job_id (mark_failed f) a.jobs λ job found.
      subst (λ st. Life st failed)
        (sym (subst (λ k. status_of (lookup k a.jobs) ≡ running) (sym same) run)
          ∙ ap status_of found)
        breaks

message-Moves :
    (ctx : Context) (random : Result (List ℕ)) (a : RecordActor) (id : Text) (m : Message)
    (rest : List Message)
    → Waits a.jobs id (m ∷ rest)
    → Moves (board_of a.jobs) (board_of (receive ctx random m a).actor.jobs)
unfolding receive mark_running
message-Moves ctx random a id m rest (ends _ run v) = verdict-Moves ctx random a id v run
message-Moves ctx random a id m rest (begins r v same acc last) =
    update-Moves r.job_id (mark_running r) a.jobs λ job found.
      subst (λ st. Life st running)
        (sym (subst (λ k. status_of (lookup k a.jobs) ≡ accepted) (sym same) acc)
          ∙ ap status_of found)
        starts

-- What a reachable state keeps, beside the limit.
record Kept (s : Recording) : Type 0 where
  map : IsMap s.actor.jobs
  known : IsKnown s.actor.jobs s.goroutines

Waits-of :
    (max : ℕ) (s : Recording) (before : List Goroutine) (id : Text) (msg : Message)
    (rest : List Message) (later : List Goroutine)
    → s.goroutines ≡ before ++ record { job_id = id; messages = msg ∷ rest } ∷ later
    → Limited max s
    → Waits s.actor.jobs id (msg ∷ rest)
Waits-of max s before id msg rest later e l =
    (All-middle (λ k. Waits s.actor.jobs k.job_id k.messages) before later
      (subst (AllWait s.actor.jobs) e l.waiting)).0

Step-Moves :
    (max : ℕ) {s t : Recording}
    → Step s t
    → Limited max s
    → Kept s
    → Moves (board_of s.actor.jobs) (board_of t.actor.jobs)
unfolding receive resume launch prune_expired_jobs
Step-Moves max {s} (requests w ctx random msg fresh) l k =
    let b = prune_expired_jobs ctx.now s.actor in
    Exits-Moves msg s.actor.jobs b s.goroutines (handle_start_record ctx random msg b)
      (handle_start_record-Exits ctx random msg b) fresh k.known
      (prune-Moves ctx.now s.actor.config.recording.job_retention s.actor.jobs k.map)
Step-Moves max {s} (asks w ctx random msg) l k =
    prune-Moves ctx.now s.actor.config.recording.job_retention s.actor.jobs k.map
Step-Moves max {s} (reports w ctx random before id msg rest later e) l k =
    message-Moves ctx random s.actor id msg rest (Waits-of max s before id msg rest later e l)

Step-IsKnown :
    (max : ℕ) {s t : Recording}
    → Step s t
    → Limited max s
    → IsKnown s.actor.jobs s.goroutines
    → IsKnown t.actor.jobs t.goroutines
unfolding receive
Step-IsKnown max {s} (requests w ctx random msg fresh) l k =
    let b = prune_expired_jobs ctx.now s.actor in
    Exits-IsKnown w msg b s.goroutines (handle_start_record ctx random msg b)
      (handle_start_record-Exits ctx random msg b) (prune-IsKnown s.actor ctx.now s.goroutines k)
Step-IsKnown max {s} (asks w ctx random msg) l k =
    unfold resume launch in prune-IsKnown s.actor ctx.now s.goroutines k
Step-IsKnown max {s} (reports w ctx random before id msg rest later e) l k =
    message-IsKnown w ctx random s.actor before id later msg rest
      (Waits-of max s before id msg rest later e l) (subst (IsKnown s.actor.jobs) e k)

Step-IsMap : {s t : Recording} → Step s t → IsMap s.actor.jobs → IsMap t.actor.jobs
unfolding resume
Step-IsMap {s} (requests w ctx random msg fresh) m =
    receive-IsMap ctx random (start_record_request msg) s.actor m
Step-IsMap {s} (asks w ctx random msg) m =
    receive-IsMap ctx random (get_record_job_request msg) s.actor m
Step-IsMap {s} (reports w ctx random before id msg rest later e) m =
    receive-IsMap ctx random msg s.actor m

module _ (max : ℕ) (cfg : Config) (mongo minio : Result (Unit {0}))
    (h : cfg.recording.max_concurrent_jobs ≡ pos max) where
  initial_jobs : (initial cfg mongo minio).actor.jobs ≡ []
  unfolding new_record_actor
  initial_jobs = go mongo minio
    where
      go : (a b : Result (Unit {0})) → (new_record_actor cfg a b).jobs ≡ []
      go (err e) b = refl
      go (ok _) (err e) = refl
      go (ok _) (ok _) = refl

  Reach-Kept : {s : Recording} → Reach (initial cfg mongo minio) s → Kept s
  unfolding lookup
  Reach-Kept here = record {
    map = subst (λ (m : Map RecordJob). IsMap m) (sym initial_jobs) tt;
    known = subst (λ (m : Map RecordJob). IsKnown m []) (sym initial_jobs) (λ id fresh. refl);
  }
  Reach-Kept (next r st) =
      let k = Reach-Kept r in
      record {
        map = Step-IsMap st k.map;
        known = Step-IsKnown max st (Reach-Limited max cfg mongo minio h r) k.known;
      }

  -- The actor and its goroutines refine the board of jobs, if a new job's identifier is one that no
  -- goroutine has: in every state that they reach, the next step, whatever it is, moves the status
  -- of each identifier at most one step along the life of a job. A job is accepted, starts,
  -- succeeds or breaks once, and is then forgotten; no verdict is ever replaced by another.
  pub Step-refines-Board :
      {s t : Recording}
      → Reach (initial cfg mongo minio) s
      → Step s t
      → (id : Text) → Life (board_of s.actor.jobs id) (board_of t.actor.jobs id)
  Step-refines-Board r st id =
      Step-Moves max st (Reach-Limited max cfg mongo minio h r) (Reach-Kept r) id
