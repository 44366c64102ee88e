-- ===== src/Record/Concurrency/Bound.antt =====
-- What the limit on record jobs promises (actor/RecordActor.go).
use go2rtc_manager.Prelude.{ℕ, ◌≤◌, ◌≡◌}
use go2rtc_manager.Prelude.Int.{pos}
use go2rtc_manager.Prelude.Results.{Result}
use go2rtc_manager.Config.{Config}
use go2rtc_manager.Record.{active_record_jobs}
use go2rtc_manager.Record.Concurrency.{Recording, Reach}
use go2rtc_manager.Record.Concurrency.Steps.{initial, Reach-Limited}

-- After any requests, and whatever the order in which the goroutines' messages arrive, if each new
-- job's identifier is one that no earlier job has: no more jobs are accepted or running at a time
-- than `record.max_concurrent_jobs` says.
pub active_record_jobs-le-max :
    (max : ℕ) (cfg : Config) (mongo minio : Result (Unit {0}))
    → cfg.recording.max_concurrent_jobs ≡ pos max
    → {s : Recording} → Reach (initial cfg mongo minio) s
    → active_record_jobs s.actor ≤ max
unfolding active_record_jobs
active_record_jobs-le-max max cfg mongo minio h r = (Reach-Limited max cfg mongo minio h r).within
