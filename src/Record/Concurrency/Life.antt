-- ===== src/Record/Concurrency/Life.antt =====
-- The board of jobs, and the steps of a job's life on it (actor/RecordActor.go).
use go2rtc_manager.Prelude.{
  ◌≡◌, refl, sym, subst, ◌∙◌, inl, inr, Bool-cases, Option-cases, true, false, List, Option, none,
  some, arith,
}
use go2rtc_manager.Prelude.Text.{Text, text_eq, text_eq_iff}
use go2rtc_manager.Prelude.Maps.{Map, lookup, insert, lookup-insert}
use go2rtc_manager.Time.{Time, Duration}
use go2rtc_manager.Message.{RecordStatus, unset, accepted, running, completed, failed}
use go2rtc_manager.Record.Jobs.{RecordJob, is_final, is_expired, prune, update_job}
use go2rtc_manager.Record.Jobs.Counts.{status_of}
use go2rtc_manager.Record.Lookups.{
  IsMap, lookup-prune-kept, lookup-prune-gone, lookup-prune-none, update_job-none, update_job-some,
}
use go2rtc_manager.Record.Concurrency.{Goroutine, IsFresh}

-- One step of the life of a job; `unset` is a job that the board does not know.
pub data Life : RecordStatus → RecordStatus → Type 0 where
  stays : {st : RecordStatus} → Life st st
  is_accepted : Life unset accepted
  starts : Life accepted running
  succeeds : Life running completed
  breaks : Life running failed
  expires : {st : RecordStatus} → is_final st ≡ true → Life st unset

-- The board: the status of each job by its identifier.
abbrev pub Board : Type 0
Board = Text → RecordStatus

abbrev pub board_of : Map RecordJob → Board
board_of jobs id = status_of (lookup id jobs)

abbrev pub Moves : Board → Board → Type 0
Moves b c = (id : Text) → Life (b id) (c id)

-- A job that no goroutine has is not in the map.
abbrev pub IsKnown : Map RecordJob → List Goroutine → Type 0
IsKnown jobs gs = (id : Text) → IsFresh id gs → lookup id jobs ≡ none

final_of_expired :
    (now : Time) (d : Duration) (job : RecordJob)
    → is_expired now d job ≡ true
    → is_final job.status ≡ true
unfolding is_expired
final_of_expired now d job h = ground arith

pub same-Life : {o p : Option RecordJob} → o ≡ p → Life (status_of o) (status_of p)
same-Life {o} e = subst (λ p. Life (status_of o) (status_of p)) e stays

pub prune-Moves :
    (now : Time) (d : Duration) (jobs : Map RecordJob)
    → IsMap jobs
    → Moves (board_of jobs) (board_of (prune now d jobs))
prune-Moves now d jobs m id = elim (Option-cases (lookup id jobs)) [
  | inl e ↦ same-Life (e ∙ sym (lookup-prune-none now d id jobs e))
  | inr (job, e) ↦ elim (Bool-cases (is_expired now d job)) [
    | inl gone ↦
        subst (λ o. Life (status_of (lookup id jobs)) (status_of o))
          (sym (lookup-prune-gone now d id jobs job m e gone))
          (expires
            (subst (λ o. is_final (status_of o) ≡ true) (sym e) (final_of_expired now d job gone)))
    | inr kept ↦ same-Life (e ∙ sym (lookup-prune-kept now d id jobs job e kept))
  ]
]

-- The board after a job was put in.
pub insert-Moves :
    (id : Text) (job : RecordJob) (jobs jobs' : Map RecordJob)
    → Life (board_of jobs id) job.status
    → Moves (board_of jobs) (board_of jobs')
    → Moves (board_of jobs) (board_of (insert id job jobs'))
insert-Moves id job jobs jobs' at h k = elim (Bool-cases (text_eq id k)) [
  | inl e ↦
      subst (λ j. Life (board_of jobs j) (board_of (insert id job jobs') j))
        ((text_eq_iff id k).0 e)
        (subst (λ o. Life (board_of jobs id) (status_of o)) (sym here_it_is) at)
  | inr e ↦ subst (λ o. Life (board_of jobs k) (status_of o)) (sym (elsewhere_it_is e)) (h k)
]
  where
    here_it_is : lookup id (insert id job jobs') ≡ some job
    here_it_is = rw (lookup-insert id id job jobs', (text_eq_iff id id).1 refl) refl

    elsewhere_it_is : text_eq id k ≡ false → lookup k (insert id job jobs') ≡ lookup k jobs'
    elsewhere_it_is e = rw (lookup-insert k id job jobs', e) refl

pub still : (jobs : Map RecordJob) → Moves (board_of jobs) (board_of jobs)
still jobs id = stays

pub update-Moves :
    (id : Text) (f : RecordJob → RecordJob) (jobs : Map RecordJob)
    → ((job : RecordJob) → lookup id jobs ≡ some job → Life job.status (f job).status)
    → Moves (board_of jobs) (board_of (update_job id f jobs))
update-Moves id f jobs h = elim (Option-cases (lookup id jobs)) [
  | inl e ↦
      subst (λ (m : Map RecordJob). Moves (board_of jobs) (board_of m))
        (sym (update_job-none id f jobs e)) (still jobs)
  | inr (job, e) ↦
      subst (λ (m : Map RecordJob). Moves (board_of jobs) (board_of m))
        (sym (update_job-some id f jobs job e))
        (insert-Moves id (f job) jobs jobs
          (subst (λ o. Life (status_of o) (f job).status) (sym e) (h job e)) (still jobs))
]
