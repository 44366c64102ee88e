-- ===== src/Record/Concurrency/Limit.antt =====
-- The number of active record jobs against `record.max_concurrent_jobs` (actor/RecordActor.go).
use go2rtc_manager.Prelude.{
  ℕ, ◌≤◌, ◌≡◌, ◌≢◌, refl, sym, ap, inl, inr, List, [], ◌∷◌, ◌++◌, All, All-middle, All-put,
  Option-cases, some, arith,
}
use go2rtc_manager.Prelude.Int.{pos}
use go2rtc_manager.Prelude.Results.{Result, ok, err}
use go2rtc_manager.Prelude.Text.{Text, text_eq_iff}
use go2rtc_manager.Prelude.Maps.{Map, lookup, insert, lookup-insert}
use go2rtc_manager.Time.{Time, Duration}
use go2rtc_manager.Message.{
  accepted, running, RecordJobRunning, RecordJobCompleted, RecordJobFailed, Message,
  record_job_running, record_job_completed, record_job_failed,
}
use go2rtc_manager.Record.{RecordActor}
use go2rtc_manager.Record.Jobs
use go2rtc_manager.Record.Jobs.{
  RecordJob, count_active, update_job, mark_running, mark_completed, mark_failed,
}
use go2rtc_manager.Record.Jobs.Counts.{weight, status_of, count_active-insert, Keeps, prune-Keeps}
use go2rtc_manager.Record.Execute.{upload, verdict, execute_record, Upload}
use go2rtc_manager.Record.Concurrency.{Goroutine, Recording, World, IsFresh}

-- The last message of the job `id`.
pub data IsVerdict (id : Text) : Message → Type 0 where
  completes : (c : RecordJobCompleted) → c.job_id ≡ id → IsVerdict id (record_job_completed c)
  fails : (f : RecordJobFailed) → f.job_id ≡ id → IsVerdict id (record_job_failed f)

-- What a goroutine of the job `id` has still to send, and what the map says of its job then.
pub data Waits (jobs : Map RecordJob) (id : Text) : List Message → Type 0 where
  over : Waits jobs id []
  ends :
      (m : Message) → status_of (lookup id jobs) ≡ running → IsVerdict id m → Waits jobs id (m ∷ [])
  begins :
      (r : RecordJobRunning) (m : Message)
      → r.job_id ≡ id
      → status_of (lookup id jobs) ≡ accepted
      → IsVerdict id m
      → Waits jobs id (record_job_running r ∷ m ∷ [])

abbrev pub AllWait : Map RecordJob → List Goroutine → Type 0
AllWait jobs = All λ g. Waits jobs g.job_id g.messages

-- No two goroutines have one job.
abbrev pub Apart : List Goroutine → Type 0
Apart [] = Unit {0}
Apart (g ∷ gs) = IsFresh g.job_id gs × Apart gs

pub record Limited (max : ℕ) (s : Recording) : Type 0 where
  pub limit : s.actor.config.recording.max_concurrent_jobs ≡ pos max
  pub within : count_active s.actor.jobs ≤ max
  pub waiting : AllWait s.actor.jobs s.goroutines
  pub apart : Apart s.goroutines

-- Whatever keeps the active jobs as they are keeps the goroutines waiting.
Waits-Keeps :
    (jobs jobs' : Map RecordJob) (id : Text)
    → Keeps jobs jobs' id
    → {ms : List Message} → Waits jobs id ms
    → Waits jobs' id ms
Waits-Keeps jobs jobs' id keep over = over
Waits-Keeps jobs jobs' id keep (ends m a v) = ends m (keep running refl a) v
Waits-Keeps jobs jobs' id keep (begins r m e a v) = begins r m e (keep accepted refl a) v

pub AllWait-Keeps :
    (jobs jobs' : Map RecordJob) (gs : List Goroutine)
    → All (λ g. Keeps jobs jobs' g.job_id) gs
    → AllWait jobs gs
    → AllWait jobs' gs
AllWait-Keeps jobs jobs' [] k h = tt
AllWait-Keeps jobs jobs' (g ∷ gs) k h =
    (Waits-Keeps jobs jobs' g.job_id k.0 h.0, AllWait-Keeps jobs jobs' gs k.1 h.1)

-- An update of one job leaves the others.
pub elsewhere :
    (id : Text) (job : RecordJob) (jobs : Map RecordJob) (gs : List Goroutine)
    → IsFresh id gs
    → All (λ g. Keeps jobs (insert id job jobs) g.job_id) gs
elsewhere id job jobs [] h = tt
elsewhere id job jobs (g ∷ gs) h = (
  λ st active a. ground (
    arith,
    lookup-insert g.job_id id job jobs,
    text_eq_iff id g.job_id,
    λ (e : id ≡ g.job_id). h.0 (sym e),
  ),
  elsewhere id job jobs gs h.1,
)

pub pruned :
    (now : Time) (d : Duration) (jobs : Map RecordJob) (gs : List Goroutine)
    → All (λ g. Keeps jobs (Jobs.prune now d jobs) g.job_id) gs
pruned now d jobs [] = tt
pruned now d jobs (g ∷ gs) = (prune-Keeps now d g.job_id jobs, pruned now d jobs gs)

pub Apart-middle :
    (xs : List Goroutine) (g : Goroutine) (ys : List Goroutine)
    → Apart (xs ++ g ∷ ys)
    → IsFresh g.job_id (xs ++ ys)
Apart-middle [] g ys h = h.0
Apart-middle (x ∷ xs) g ys h =
    let (other, rest) = All-middle (λ k. k.job_id ≢ x.job_id) xs ys h.0 in
    ((λ e. other (sym e)), Apart-middle xs g ys h.1)

pub Apart-resume :
    (xs : List Goroutine) (g g' : Goroutine) (ys : List Goroutine)
    → g'.job_id ≡ g.job_id
    → Apart (xs ++ g ∷ ys)
    → Apart (xs ++ g' ∷ ys)
Apart-resume [] g g' ys e h = (rw e h.0, h.1)
Apart-resume (x ∷ xs) g g' ys e h =
    let (other, rest) = All-middle (λ k. k.job_id ≢ x.job_id) xs ys h.0 in
    (All-put (λ k. k.job_id ≢ x.job_id) xs ys (rw e other) rest, Apart-resume xs g g' ys e h.1)

verdict-IsVerdict : (id : Text) (t : Time) (r : Result Upload) → IsVerdict id (verdict id t r)
unfolding verdict
verdict-IsVerdict id t (ok u) = completes _ refl
verdict-IsVerdict id t (err e) = fails _ refl

-- A new goroutine waits for its accepted job.
pub launched-Waits :
    (w : World) (a : RecordActor) (jobs : Map RecordJob) (job : RecordJob)
    → status_of (lookup job.job_id jobs) ≡ accepted
    → Waits jobs job.job_id
        (execute_record w.api w.store w.table a.config w.started_at w.completed_at job).1
unfolding execute_record
launched-Waits w a jobs job h = begins _ _ refl h (
    verdict-IsVerdict job.job_id w.completed_at
      (upload w.api w.store w.table a.config w.started_at job).1)

-- The job of a goroutine's message: the map keeps its size of active jobs, or loses one.
pub update-count :
    (id : Text) (f : RecordJob → RecordJob) (jobs : Map RecordJob)
    → ((job : RecordJob) → lookup id jobs ≡ some job → weight (some (f job)) ≤ weight (some job))
    → count_active (update_job id f jobs) ≤ count_active jobs
unfolding update_job
update-count id f jobs h = elim (Option-cases (lookup id jobs)) [
  | inl e ↦ rw (e, update_job) (omega arith)
  | inr (job, e) ↦
      rw (e, update_job) (omega (arith, count_active-insert id (f job) jobs, h job e, ap weight e))
]

pub update-elsewhere :
    (id : Text) (f : RecordJob → RecordJob) (jobs : Map RecordJob) (gs : List Goroutine)
    → IsFresh id gs
    → AllWait jobs gs
    → AllWait (update_job id f jobs) gs
unfolding update_job
update-elsewhere id f jobs gs fresh h = elim (Option-cases (lookup id jobs)) [
  | inl e ↦ rw (e, update_job) h
  | inr (job, e) ↦
      rw (e, update_job)
        (AllWait-Keeps jobs (insert id (f job) jobs) gs (elsewhere id (f job) jobs gs fresh) h)
]
