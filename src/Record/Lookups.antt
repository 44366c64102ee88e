-- ===== src/Record/Lookups.antt =====
-- actor/RecordActor.go: what a look at a job by its identifier finds after the map has been pruned
-- or updated.
use go2rtc_manager.Prelude.{
  ◌≡◌, refl, sym, subst, inl, inr, Bool-cases, Option-cases, true, false, [], ◌∷◌, none, some,
  arith,
}
use go2rtc_manager.Prelude.Text.{Text, text_eq, text_eq_iff}
use go2rtc_manager.Prelude.Maps.{Map, lookup, insert, has, has-insert, lookup-insert}
use go2rtc_manager.Time.{Time, Duration}
use go2rtc_manager.Record.Jobs.{RecordJob, is_active, is_expired, prune, update_job}

-- Each key has one entry, as in a Go map.
abbrev pub IsMap {ℓ} : {V : Type ℓ} → Map V → Type 0
IsMap [] = Unit
IsMap ((k, v) ∷ m) = (has k m ≡ false) × IsMap m

pub insert-IsMap {ℓ} : {V : Type ℓ} (k : Text) (v : V) (m : Map V) → IsMap m → IsMap (insert k v m)
unfolding insert has
insert-IsMap k v [] h = (refl, tt)
insert-IsMap k v ((j, w) ∷ m) h = elim (Bool-cases (text_eq j k)) [
  | inl e ↦ rw e (subst_key ((text_eq_iff j k).0 e) h)
  | inr e ↦ rw e (
    (rw (has-insert j k v m) (ground (arith, h.0, e, text_eq_iff j k, text_eq_iff k j))),
    insert-IsMap k v m h.1,
  )
]
  where
    subst_key : j ≡ k → (has j m ≡ false) × IsMap m → (has k m ≡ false) × IsMap m
    subst_key e h = (rw (sym e) h.0, h.1)

module _ (now : Time) (retention : Duration) where
  -- The entry that a lookup finds stays if its job has not expired.
  pub lookup-prune-kept :
      (k : Text) (jobs : Map RecordJob) (job : RecordJob)
      → lookup k jobs ≡ some job
      → is_expired now retention job ≡ false
      → lookup k (prune now retention jobs) ≡ some job
  unfolding lookup prune
  lookup-prune-kept k [] job h kept = cc
  lookup-prune-kept k ((j, other) ∷ jobs) job h kept = elim (Bool-cases (text_eq j k)) [
    | inl e ↦ ground (arith, lookup-prune-kept k jobs job)
    | inr e ↦ ground (arith, lookup-prune-kept k jobs job)
  ]

  has-prune :
      (k : Text) (jobs : Map RecordJob)
      → has k jobs ≡ false
      → has k (prune now retention jobs) ≡ false
  unfolding has prune
  has-prune k [] h = refl
  has-prune k ((j, other) ∷ jobs) h = ground (arith, has-prune k jobs)

  lookup_of_has_not : (k : Text) (jobs : Map RecordJob) → has k jobs ≡ false → lookup k jobs ≡ none
  unfolding has lookup
  lookup_of_has_not k [] h = refl
  lookup_of_has_not k ((j, other) ∷ jobs) h = ground (arith, lookup_of_has_not k jobs)

  pub prune-IsMap : (jobs : Map RecordJob) → IsMap jobs → IsMap (prune now retention jobs)
  unfolding prune
  prune-IsMap [] h = tt
  prune-IsMap ((j, other) ∷ jobs) h = elim (Bool-cases (is_expired now retention other)) [
    | inl e ↦ rw e (prune-IsMap jobs h.1)
    | inr e ↦ rw e (has-prune j jobs h.0, prune-IsMap jobs h.1)
  ]

  -- In a map, an expired entry is gone.
  pub lookup-prune-gone :
      (k : Text) (jobs : Map RecordJob) (job : RecordJob)
      → IsMap jobs
      → lookup k jobs ≡ some job
      → is_expired now retention job ≡ true
      → lookup k (prune now retention jobs) ≡ none
  unfolding lookup prune
  lookup-prune-gone k [] job m h gone = cc
  lookup-prune-gone k ((j, other) ∷ jobs) job m h gone = elim (Bool-cases (text_eq j k)) [
    | inl e ↦
        (let same : other ≡ job = ground (arith, h, e) in
          rw (same, gone)
            (lookup_of_has_not k _ (has-prune k jobs (rw (sym ((text_eq_iff j k).0 e)) m.0))))
    | inr e ↦ ground (arith, lookup-prune-gone k jobs job m.1)
  ]

  pub lookup-prune-none :
      (k : Text) (jobs : Map RecordJob)
      → lookup k jobs ≡ none
      → lookup k (prune now retention jobs) ≡ none
  unfolding lookup prune
  lookup-prune-none k [] h = refl
  lookup-prune-none k ((j, other) ∷ jobs) h = ground (arith, lookup-prune-none k jobs)

-- An active job does not expire.
pub is_expired-active :
    (now : Time) (retention : Duration) (job : RecordJob)
    → is_active job.status ≡ true
    → is_expired now retention job ≡ false
unfolding is_expired
is_expired-active now retention job h = ground arith

pub update_job-some :
    (k : Text) (f : RecordJob → RecordJob) (jobs : Map RecordJob) (job : RecordJob)
    → lookup k jobs ≡ some job
    → update_job k f jobs ≡ insert k (f job) jobs
unfolding update_job
update_job-some k f jobs job h = rw (h, update_job) refl

pub update_job-none :
    (k : Text) (f : RecordJob → RecordJob) (jobs : Map RecordJob)
    → lookup k jobs ≡ none
    → update_job k f jobs ≡ jobs
unfolding update_job
update_job-none k f jobs h = rw (h, update_job) refl

pub lookup-update :
    (k : Text) (f : RecordJob → RecordJob) (jobs : Map RecordJob) (job : RecordJob)
    → lookup k jobs ≡ some job
    → lookup k (update_job k f jobs) ≡ some (f job)
lookup-update k f jobs job h =
    rw (update_job-some k f jobs job h, lookup-insert k k (f job) jobs, (text_eq_iff k k).1 refl)
      refl

pub update-IsMap :
    (k : Text) (f : RecordJob → RecordJob) (jobs : Map RecordJob)
    → IsMap jobs
    → IsMap (update_job k f jobs)
update-IsMap k f jobs h = elim (Option-cases (lookup k jobs)) [
  | inl e ↦ subst (λ m. IsMap m) (sym (update_job-none k f jobs e)) h
  | inr (job, e) ↦
      subst (λ m. IsMap m) (sym (update_job-some k f jobs job e)) (insert-IsMap k (f job) jobs h)
]
