-- ===== src/Record/Concurrency.antt =====
-- The record actor and the goroutines of its jobs together (actor/RecordActor.go). A goroutine is
-- the messages that it has still to send, in order; requests come at any time. Any goroutine's next
-- message may arrive next: the messages of one goroutine keep their order, as in protoactor.
pub mod Limit
pub mod Reports
pub mod Steps
pub mod Bound
pub mod Busy
pub mod Drain
pub mod Life
pub mod Known
pub mod Refines
use go2rtc_manager.Prelude.{
  ℕ, ◌+◌, ◌≤◌, ◌≡◌, ◌≢◌, refl, ◌⊎◌, inl, inr, Bool, true, false, List, [], ◌∷◌, ◌++◌, map, All,
  All-append, Option, none, some, arith,
}
use go2rtc_manager.Prelude.Int.{pos}
use go2rtc_manager.Prelude.Results.{Result}
use go2rtc_manager.Prelude.Text.{Text, CaseTable}
use go2rtc_manager.Prelude.Maps.{Map, lookup}
use go2rtc_manager.Time.{Time}
use go2rtc_manager.Message.{
  StartRecordRequest, GetRecordJobRequest, Message, start_record_request, get_record_job_request,
}
use go2rtc_manager.Effect.{Context}
use go2rtc_manager.Go2Rtc.Calls.{Api}
use go2rtc_manager.Record.{RecordActor, Outcome, receive}
use go2rtc_manager.Record.Jobs.{RecordJob}
use go2rtc_manager.Record.Execute.{Store, execute_record}

pub record Goroutine : Type 0 where
  pub job_id : Text
  pub messages : List Message

pub record Recording : Type 0 where
  pub actor : RecordActor
  pub goroutines : List Goroutine

-- What the goroutine of a job meets.
pub record World : Type 0 where
  pub api : Api
  pub store : Store
  pub table : CaseTable
  pub started_at : Time
  pub completed_at : Time

-- `go a.executeRecord(self, job)` for the jobs that a handler starts.
unfoldable pub launch : World → RecordActor → List RecordJob → List Goroutine
launch w a [] = []
launch w a (job ∷ jobs) =
    record {
      job_id = job.job_id;
      messages = (execute_record w.api w.store w.table a.config w.started_at w.completed_at job).1;
    }
    ∷ launch w a jobs

unfoldable pub resume : World → Outcome → List Goroutine → Recording
unfolding launch
resume w o goroutines = record {
  actor = o.actor;
  goroutines = launch w o.actor o.started ++ goroutines;
}

-- A job's identifier, of the second and four random bytes, is one that no goroutine has.
abbrev pub IsFresh : Text → List Goroutine → Type 0
IsFresh id = All λ g. g.job_id ≢ id

pub data Step (s : Recording) : Recording → Type 0 where
  requests :
      (w : World) (ctx : Context) (random : Result (List ℕ)) (msg : StartRecordRequest)
      → All
          (λ job. IsFresh job.job_id s.goroutines)
          (receive ctx random (start_record_request msg) s.actor).started
      → Step s (resume w (receive ctx random (start_record_request msg) s.actor) s.goroutines)
  asks :
      (w : World) (ctx : Context) (random : Result (List ℕ)) (msg : GetRecordJobRequest)
      → Step s (resume w (receive ctx random (get_record_job_request msg) s.actor) s.goroutines)
  reports :
      (w : World) (ctx : Context) (random : Result (List ℕ)) (before : List Goroutine) (id : Text)
      (msg : Message) (rest : List Message) (later : List Goroutine)
      → s.goroutines ≡ before ++ record { job_id = id; messages = msg ∷ rest } ∷ later
      → Step s (
          resume w
            (receive ctx random msg s.actor)
            (before ++ record { job_id = id; messages = rest } ∷ later))

pub data Reach (s : Recording) : Recording → Type 0 where
  here : Reach s s
  next : {t u : Recording} → Reach s t → Step t u → Reach s u
