-- ===== src/Config/Load/Valid.antt =====
-- config/config.go: what holds of every configuration that `Load` returns.
use go2rtc_manager.Prelude.{
  ℕ, zero, suc, ◌≡◌, refl, Bool, true, false, not, ◌||◌, [], ◌∷◌, inl, inr, ◌⊎◌, arith,
  if◌then◌else◌,
}
use go2rtc_manager.Prelude.Int.{ℤ, pos, negsuc}
use go2rtc_manager.Prelude.Results.{Result, ok, err, wrap}
use go2rtc_manager.Prelude.Text.{Text, codes, is_empty}
use go2rtc_manager.Config.{Config}
use go2rtc_manager.Config.Load.{
  ◌>>◌, require, is_positive, check_log, check_services, check_limits, check_stores,
}

-- An integer above zero.
abbrev pub IsPositive : ℤ → Type 0
IsPositive x = (n : ℕ) × (x ≡ pos (suc n))

is_positive-IsPositive : (x : ℤ) → is_positive x ≡ true → IsPositive x
is_positive-IsPositive (pos zero) h = cc
is_positive-IsPositive (pos (suc n)) h = (n, refl)
is_positive-IsPositive (negsuc n) h = absurd (ground arith)

pub require-ok : (b : Bool) (e : Text) → require b e ≡ ok tt → b ≡ true
require-ok true e h = refl
require-ok false e h = cc

pub >>-ok {ℓ} :
    {B : Type ℓ} (m : Result (Unit {0})) (k : Result B) {b : B}
    → (m >> k) ≡ ok b
    → (m ≡ ok tt) × (k ≡ ok b)
>>-ok (ok _) k h = (refl, h)
>>-ok (err e) k h = cc

pub wrap-ok {ℓ} :
    {A : Type ℓ} (prefix : Text) (r : Result A) {a : A} → wrap prefix r ≡ ok a → r ≡ ok a
wrap-ok prefix (ok b) h = h
wrap-ok prefix (err e) h = cc

abbrev pub IsNonEmpty : Text → Type 0
IsNonEmpty s = is_empty s ≡ false

pub not_empty : (s : Text) → not (is_empty s) ≡ true → IsNonEmpty s
not_empty [] h = cc
not_empty (c ∷ s) h = refl

pub record HasServices (cfg : Config) : Type 0 where
  pub addr : IsNonEmpty cfg.http.addr
  pub read_timeout : IsPositive cfg.http.read_timeout
  pub write_timeout : IsPositive cfg.http.write_timeout
  pub idle_timeout : IsPositive cfg.http.idle_timeout
  pub base_url : IsNonEmpty cfg.go2rtc.base_url
  pub config_path : IsNonEmpty cfg.go2rtc.config_path

pub check_services-ok : (cfg : Config) → check_services cfg ≡ ok tt → HasServices cfg
unfolding check_services
check_services-ok cfg h5 =
    let (h4, r5) = >>-ok _ _ h5 in
    let (h3, r4) = >>-ok _ _ h4 in
    let (h2, r3) = >>-ok _ _ h3 in
    let (h1, r2) = >>-ok _ _ h2 in
    let (r0, r1) = >>-ok _ _ h1 in
    record {
      addr = not_empty cfg.http.addr (require-ok _ _ r0);
      read_timeout = is_positive-IsPositive _ (require-ok _ _ r1);
      write_timeout = is_positive-IsPositive _ (require-ok _ _ r2);
      idle_timeout = is_positive-IsPositive _ (require-ok _ _ r3);
      base_url = not_empty _ (require-ok _ _ r4);
      config_path = not_empty _ (require-ok _ _ r5);
    }

pub record HasLimits (cfg : Config) : Type 0 where
  pub confirmation_delay : IsPositive cfg.schedule.confirmation_delay
  pub storage_dir : IsNonEmpty cfg.snapshot.storage_dir
  pub max_duration : IsPositive cfg.recording.max_duration
  pub job_retention : IsPositive cfg.recording.job_retention
  pub max_concurrent_jobs : IsPositive cfg.recording.max_concurrent_jobs

pub check_limits-ok : (cfg : Config) → check_limits cfg ≡ ok tt → HasLimits cfg
unfolding check_limits
check_limits-ok cfg h4 =
    let (h3, r4) = >>-ok _ _ h4 in
    let (h2, r3) = >>-ok _ _ h3 in
    let (h1, r2) = >>-ok _ _ h2 in
    let (r0, r1) = >>-ok _ _ h1 in
    record {
      confirmation_delay = is_positive-IsPositive _ (require-ok _ _ r0);
      storage_dir = not_empty _ (require-ok _ _ r1);
      max_duration = is_positive-IsPositive _ (require-ok _ _ r2);
      job_retention = is_positive-IsPositive _ (require-ok _ _ r3);
      max_concurrent_jobs = is_positive-IsPositive _ (require-ok _ _ r4);
    }

pub record HasStores (cfg : Config) : Type 0 where
  pub endpoint : IsNonEmpty cfg.minio.endpoint
  pub access_key : IsNonEmpty cfg.minio.access_key
  pub secret_key : IsNonEmpty cfg.minio.secret_key
  pub uri : IsNonEmpty cfg.mongodb.uri
  pub database : IsNonEmpty cfg.mongodb.database
  pub collection : IsNonEmpty cfg.mongodb.collection
  pub publish_interval : (cfg.redis.addr ≡ []) ⊎ IsPositive cfg.redis.publish_interval

empty_or_IsPositive :
    (s : Text) (x : ℤ) → (is_empty s || is_positive x) ≡ true → (s ≡ []) ⊎ IsPositive x
empty_or_IsPositive [] x h = inl refl
empty_or_IsPositive (c ∷ s) x h = inr (is_positive-IsPositive x h)

pub check_stores-ok : (cfg : Config) → check_stores cfg ≡ ok tt → HasStores cfg
unfolding check_stores
check_stores-ok cfg h6 =
    let (h5, r6) = >>-ok _ _ h6 in
    let (h4, r5) = >>-ok _ _ h5 in
    let (h3, r4) = >>-ok _ _ h4 in
    let (h2, r3) = >>-ok _ _ h3 in
    let (h1, r2) = >>-ok _ _ h2 in
    let (r0, r1) = >>-ok _ _ h1 in
    record {
      endpoint = not_empty _ (require-ok _ _ r0);
      access_key = not_empty _ (require-ok _ _ r1);
      secret_key = not_empty _ (require-ok _ _ r2);
      uri = not_empty _ (require-ok _ _ r3);
      database = not_empty _ (require-ok _ _ r4);
      collection = not_empty _ (require-ok _ _ r5);
      publish_interval = empty_or_IsPositive _ _ (require-ok _ _ r6);
    }

pub record HasLog (cfg : Config) : Type 0 where
  pub max_size_mb : IsPositive cfg.log.max_size_mb
  pub max_backups : IsPositive cfg.log.max_backups
  pub max_age_days : IsPositive cfg.log.max_age_days

pub check_log-ok : (cfg : Config) → check_log cfg ≡ ok tt → (cfg.log.file_path ≡ []) ⊎ HasLog cfg
unfolding check_log
check_log-ok cfg h = go cfg.log.file_path h
  where
    go :
        (path : Text)
        → (if is_empty path
            then ok tt
            else (require
                  (is_positive cfg.log.max_size_mb)
                  (codes "log.max_size_mb must be greater than zero when log.file_path is set")
                >> require
                    (is_positive cfg.log.max_backups)
                    (codes "log.max_backups must be greater than zero when log.file_path is set")
                >> require
                    (is_positive cfg.log.max_age_days)
                    (codes "log.max_age_days must be greater than zero when log.file_path is set")))
          ≡ ok tt
        → (path ≡ []) ⊎ HasLog cfg
    go [] h = inl refl
    go (c ∷ s) h2 =
        let (h1, r2) = >>-ok _ _ h2 in
        let (r0, r1) = >>-ok _ _ h1 in
        inr (record {
          max_size_mb = is_positive-IsPositive _ (require-ok _ _ r0);
          max_backups = is_positive-IsPositive _ (require-ok _ _ r1);
          max_age_days = is_positive-IsPositive _ (require-ok _ _ r2);
        })
