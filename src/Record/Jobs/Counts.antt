-- ===== src/Record/Jobs/Counts.antt =====
-- How the updates of the job map change the number of active jobs (actor/RecordActor.go).
use go2rtc_manager.Prelude.{
  ℕ, ◌+◌, ◌≡◌, refl, true, false, [], ◌∷◌, Option, none, some, arith, if◌then◌else◌,
}
use go2rtc_manager.Prelude.Text.{Text}
use go2rtc_manager.Prelude.Maps.{Map, lookup, insert}
use go2rtc_manager.Time.{Time, Duration}
use go2rtc_manager.Message.{RecordStatus, unset}
use go2rtc_manager.Record.Jobs.{RecordJob, is_active, is_expired, prune, count_active}

abbrev pub weight : Option RecordJob → ℕ
weight none = 0
weight (some job) = if is_active job.status then 1 else 0

abbrev pub status_of : Option RecordJob → RecordStatus
status_of none = unset
status_of (some job) = job.status

pub count_active-insert :
    (id : Text) (job : RecordJob) (jobs : Map RecordJob)
    → count_active (insert id job jobs) + weight (lookup id jobs)
      ≡ count_active jobs + weight (some job)
unfolding count_active insert lookup
count_active-insert id job [] = omega arith
count_active-insert id job ((k, j) ∷ jobs) = ground (arith, count_active-insert id job jobs)

not-active_of_expired :
    (now : Time) (d : Duration) (job : RecordJob)
    → is_expired now d job ≡ true
    → is_active job.status ≡ false
unfolding is_expired
not-active_of_expired now d job h = ground arith

-- Pruning takes no active job away.
pub count_active-prune :
    (now : Time) (d : Duration) (jobs : Map RecordJob)
    → count_active (prune now d jobs) ≡ count_active jobs
unfolding count_active prune
count_active-prune now d [] = refl
count_active-prune now d ((k, j) ∷ jobs) =
    ground (arith, count_active-prune now d jobs, not-active_of_expired now d j)

-- What a change of the map leaves of a job that is accepted or running: its status.
abbrev pub Keeps : Map RecordJob → Map RecordJob → Text → Type 0
Keeps jobs jobs' id =
    (st : RecordStatus)
    → is_active st ≡ true
    → status_of (lookup id jobs) ≡ st
    → status_of (lookup id jobs') ≡ st

pub prune-Keeps :
    (now : Time) (d : Duration) (id : Text) (jobs : Map RecordJob)
    → Keeps jobs (prune now d jobs) id
unfolding lookup prune
prune-Keeps now d id [] st active h = h
prune-Keeps now d id ((k, j) ∷ jobs) st active h =
    ground (arith, prune-Keeps now d id jobs st active, not-active_of_expired now d j)
