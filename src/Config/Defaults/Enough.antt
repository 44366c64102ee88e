-- ===== src/Config/Defaults/Enough.antt =====
-- config/config.go: `Load` of a file that sets the required keys and no other.
use go2rtc_manager.Prelude.{
  ℕ, ◌+◌, ◌≡◌, refl, sym, ap, subst, ◌∙◌, Bool, Bool-cases, true, not, ◌||◌, inl, inr, List, [],
  ◌∷◌, All, any, keep_if, map, some,
}
use go2rtc_manager.Prelude.Int.{pos}
use go2rtc_manager.Prelude.Results.{Result, ok, err}
use go2rtc_manager.Prelude.Text.{Text, CaseTable, codes, text_eq, text_eq_iff, trim_space}
use go2rtc_manager.Prelude.Maps.{Map, lookup}
use go2rtc_manager.Time.{Duration}
use go2rtc_manager.Time.Parse.{parse_duration, read_duration}
use go2rtc_manager.Config.Defaults.{
  Value, text_value, int_value, bool_value, list_value, set_defaults, Settings, unmarshal,
}
use go2rtc_manager.Config.Load.{
  check_crons, check_ips, check_log, check_services, check_limits, check_stores, tidy_log, validate,
  has_crons,
}
use go2rtc_manager.Config.Load.Valid.{IsNonEmpty}
use go2rtc_manager.Config.Load.Passes.{rewritten, Passes, Passes-validate}
use go2rtc_manager.Config.Load.Settled.{lower_same, tidy_log-same}

-- The keys that have no usable default.
abbrev pub required_keys : List Text
required_keys =
    codes "app.box_ip"
    ∷ codes "schedule.crons"
    ∷ codes "minio.endpoint"
    ∷ codes "minio.access_key"
    ∷ codes "minio.secret_key"
    ∷ codes "mongodb.uri"
    ∷ codes "mongodb.database"
    ∷ []

abbrev pub is_optional : Text × Value → Bool
is_optional (key, v) = not (any (text_eq key) required_keys)

-- A text that is a duration is read as that duration.
abbrev pub ReadsAs : Result Duration → Duration → Type 0
ReadsAs (ok d) read = read ≡ d
ReadsAs (err e) read = Unit

-- viper reads a key at its default.
abbrev pub Holds : (Text → Result Duration) → Settings → Text × Value → Type 0
Holds parse_duration r (key, text_value s) =
    (r.text key ≡ s) × ReadsAs (parse_duration s) (r.duration key)
Holds parse_duration r (key, int_value n) = r.whole key ≡ n
Holds parse_duration r (key, bool_value b) = r.flag key ≡ b
Holds parse_duration r (key, list_value ts) = r.texts key ≡ ts

-- The required keys are set, and each cron expression is one.
pub record HasRequired (parse_cron : Text → Result (Unit {0})) (r : Settings) : Type 0 where
  pub box_ip : IsNonEmpty (r.text (codes "app.box_ip"))
  pub some_cron : has_crons (r.texts (codes "schedule.crons")) ≡ true
  pub crons :
      All
        (λ s. IsNonEmpty (trim_space s) × (parse_cron (trim_space s) ≡ ok tt))
        (r.texts (codes "schedule.crons"))
  pub endpoint : IsNonEmpty (r.text (codes "minio.endpoint"))
  pub access_key : IsNonEmpty (r.text (codes "minio.access_key"))
  pub secret_key : IsNonEmpty (r.text (codes "minio.secret_key"))
  pub uri : IsNonEmpty (r.text (codes "mongodb.uri"))
  pub database : IsNonEmpty (r.text (codes "mongodb.database"))

-- The durations that `setDefaults` gives and `Load` checks.
pub record ParsesDefaults (parse_duration : Text → Result Duration) : Type 0 where
  pub seconds_5 : parse_duration (codes "5s") ≡ ok (pos 5000000000)
  pub seconds_15 : parse_duration (codes "15s") ≡ ok (pos 15000000000)
  pub seconds_60 : parse_duration (codes "60s") ≡ ok (pos 60000000000)
  pub minutes_3 : parse_duration (codes "3m") ≡ ok (pos 180000000000)
  pub hour_1 : parse_duration (codes "1h") ≡ ok (pos 3600000000000)
  pub hours_24 : parse_duration (codes "24h") ≡ ok (pos 86400000000000)

found {ℓ} :
    (P : Text × Value → Type ℓ) (key : Text) (v : Value) (xs : Map Value)
    → All P xs
    → lookup key xs ≡ some v
    → P (key, v)
unfolding lookup
found P key v [] h e = cc
found P key v ((k, u) ∷ xs) h e = elim (Bool-cases (text_eq k key)) [
  | inl same ↦
      subst P
        (ap (λ t. (t, u)) ((text_eq_iff k key).0 same)
          ∙ ap (λ w. (key, w)) (injective (sym (rw (same, lookup) refl) ∙ e)))
        h.0
  | inr other ↦ found P key v xs h.1 (rw (other, lookup) at e)
]
  where
    injective : {x y : Value} → some x ≡ some y → x ≡ y
    injective e = cc

crons_pass :
    (parse_cron : Text → Result (Unit {0})) (i : ℕ) (given : List Text)
    → All (λ s. IsNonEmpty (trim_space s) × (parse_cron (trim_space s) ≡ ok tt)) given
    → check_crons parse_cron i given ≡ ok (map trim_space given)
unfolding check_crons
crons_pass parse_cron i [] h = refl
crons_pass parse_cron i (s ∷ more) h =
    rw (h.0.0, h.0.1, crons_pass parse_cron (i + 1) more h.1) refl

module _ (table : CaseTable) (parse_cron : Text → Result (Unit {0}))
    (parse_duration : Text → Result Duration) (r : Settings)
    (defaults : All (Holds parse_duration r) (keep_if is_optional set_defaults))
    (parses : ParsesDefaults parse_duration) where
  text_default :
      (key s : Text)
      → lookup key (keep_if is_optional set_defaults) ≡ some (text_value s)
      → r.text key ≡ s
  text_default key s e = (found (Holds parse_duration r) key (text_value s) _ defaults e).0

  duration_default :
      (key s : Text) (d : Duration)
      → lookup key (keep_if is_optional set_defaults) ≡ some (text_value s)
      → parse_duration s ≡ ok d
      → r.duration key ≡ d
  duration_default key s d e p =
      subst (λ x. ReadsAs x (r.duration key)) p
        (found (Holds parse_duration r) key (text_value s) _ defaults e).1

  services_pass : check_services (unmarshal r) ≡ ok tt
  unfolding check_services unmarshal set_defaults lookup text_eq
  services_pass =
      rw
        (
          text_default (codes "http.addr") (codes ":7181") refl,
          duration_default (codes "http.read_timeout") (codes "5s") (pos 5000000000) refl
              parses.seconds_5,
          duration_default (codes "http.write_timeout") (codes "15s") (pos 15000000000) refl
              parses.seconds_15,
          duration_default (codes "http.idle_timeout") (codes "60s") (pos 60000000000) refl
              parses.seconds_60,
          text_default (codes "go2rtc.base_url") (codes "http://127.0.0.1:1984") refl,
          text_default (codes "go2rtc.config_path") (codes "/config/go2rtc.yaml") refl,
        )
        refl

  limits_pass : check_limits (unmarshal r) ≡ ok tt
  unfolding check_limits unmarshal set_defaults lookup text_eq
  limits_pass =
      rw
        (
          duration_default (codes "schedule.confirmation_delay") (codes "3m") (pos 180000000000)
              refl parses.minutes_3,
          text_default (codes "snapshot.storage_dir") (codes "storage") refl,
          duration_default (codes "record.max_duration") (codes "1h") (pos 3600000000000) refl
              parses.hour_1,
          duration_default (codes "record.job_retention") (codes "24h") (pos 86400000000000) refl
              parses.hours_24,
          found (Holds parse_duration r) (codes "record.max_concurrent_jobs") (int_value (pos 3))
              (keep_if is_optional set_defaults) defaults refl,
        )
        refl

  stores_pass : HasRequired parse_cron r → check_stores (unmarshal r) ≡ ok tt
  unfolding check_stores unmarshal set_defaults lookup text_eq
  stores_pass given =
      rw
        (
          given.endpoint,
          given.access_key,
          given.secret_key,
          given.uri,
          given.database,
          text_default (codes "mongodb.collection") (codes "BODYCAM_INFO") refl,
          text_default (codes "redis.addr") [] refl,
        )
        refl

  log_pass :
      (tidy_log table parse_cron (unmarshal r) ≡ unmarshal r)
      × (check_log (unmarshal r) ≡ ok tt)
      × ((text_eq (unmarshal r).log.format (codes "text")
            || text_eq (unmarshal r).log.format (codes "json"))
          ≡ true)
  unfolding check_log unmarshal set_defaults lookup text_eq trim_space
  log_pass =
      let format = text_default (codes "log.format") (codes "json") refl in
      let path = text_default (codes "log.file_path") [] refl in
      (
        tidy_log-same table parse_cron (unmarshal r)
            (lower_same table (unmarshal r).log.format (inr format))
            (ap trim_space path ∙ sym path),
        rw path refl,
        rw format refl,
      )

  given_Passes :
      HasRequired parse_cron r
      → Passes parse_cron (unmarshal r) (map trim_space (r.texts (codes "schedule.crons"))) []
  unfolding unmarshal set_defaults lookup text_eq check_ips
  given_Passes given = record {
    box_ip = rw given.box_ip refl;
    format = log_pass.2;
    log = log_pass.1;
    services = services_pass;
    some_cron = given.some_cron;
    cron_loop = crons_pass parse_cron 0 (r.texts (codes "schedule.crons")) given.crons;
    limits = limits_pass;
    ip_loop = ap (check_ips 0) (
        found (Holds parse_duration r) (codes "record.allowed_ips") (list_value [])
          (keep_if is_optional set_defaults) defaults refl);
    stores = stores_pass given;
  }

  validate-settings :
      HasRequired parse_cron r
      → validate table parse_cron (unmarshal r)
        ≡ ok (rewritten (unmarshal r) (map trim_space (r.texts (codes "schedule.crons"))) [])
  validate-settings given =
      Passes-validate table parse_cron (unmarshal r)
        (map trim_space (r.texts (codes "schedule.crons"))) []
        (subst (λ c. Passes parse_cron c (map trim_space (r.texts (codes "schedule.crons"))) [])
          (sym log_pass.0) (given_Passes given))
      ∙ ap (λ c. ok (rewritten c (map trim_space (r.texts (codes "schedule.crons"))) [])) log_pass.0

-- `time.ParseDuration` on the durations of `setDefaults` that `Load` checks.
parse_duration-ParsesDefaults :
    (scale_fraction : ℕ → ℕ → ℕ → ℕ) → ParsesDefaults (read_duration scale_fraction)
unfolding parse_duration
parse_duration-ParsesDefaults scale_fraction = record {
  seconds_5 = refl;
  seconds_15 = refl;
  seconds_60 = refl;
  minutes_3 = refl;
  hour_1 = refl;
  hours_24 = refl;
}

-- A file that sets the required keys is enough. Let viper read every other key of `setDefaults` at its
-- default, the durations by `time.ParseDuration`, and let the file set the address of the box, the
-- MinIO endpoint and its two keys, the MongoDB URI and database, and at least one cron expression,
-- each a valid one. Then `Load` returns a configuration: what viper read, with the cron expressions
-- trimmed and no allowed address.
pub validate-set_defaults :
    (table : CaseTable) (parse_cron : Text → Result (Unit {0})) (scale_fraction : ℕ → ℕ → ℕ → ℕ)
    (r : Settings)
    → All (Holds (read_duration scale_fraction) r) (keep_if is_optional set_defaults)
    → HasRequired parse_cron r
    → validate table parse_cron (unmarshal r)
      ≡ ok (rewritten (unmarshal r) (map trim_space (r.texts (codes "schedule.crons"))) [])
validate-set_defaults table parse_cron scale_fraction r defaults given =
    validate-settings table parse_cron (read_duration scale_fraction) r defaults
      (parse_duration-ParsesDefaults scale_fraction) given
