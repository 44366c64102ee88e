-- ===== src/Tests/Settings.antt =====
-- The configuration at a file that sets the required keys only (config/config.go).
use go2rtc_manager.Prelude.{◌≡◌, refl, Bool, false, All, keep_if, map, List, [], ◌∷◌, Option, some}
use go2rtc_manager.Prelude.Int.{ℤ, pos}
use go2rtc_manager.Prelude.Results.{Result, ok, err}
use go2rtc_manager.Prelude.Text.{Text, codes, text_eq, trim_space, to_lower}
use go2rtc_manager.Prelude.Maps.{lookup}
use go2rtc_manager.Net.Ip.{parse_ip}
use go2rtc_manager.Net.Cidr.{parse_cidr}
use go2rtc_manager.Time.{Duration}
use go2rtc_manager.Time.Parse.{parse_duration, read_duration, exact}
use go2rtc_manager.Config.{Config}
use go2rtc_manager.Config.Defaults.{
  Value, text_value, int_value, bool_value, list_value, set_defaults, Settings, unmarshal,
}
use go2rtc_manager.Config.Defaults.Enough.{is_optional, Holds, HasRequired, validate-set_defaults}
use go2rtc_manager.Config.Load.{validate, check_crons, check_ips}
use go2rtc_manager.Config.Load.Passes.{rewritten}
use go2rtc_manager.Config.Load.Settled.{validate_idem}
use go2rtc_manager.Tests.Sample.{sample_config, ascii_table}

abbrev any_cron : Text → Result (Unit {0})
any_cron spec = ok tt

abbrev parse_some : Text → Result Duration
parse_some s = read_duration exact s

abbrev text_of : Option Value → Text
text_of (some (text_value s)) = s
text_of _ = []

abbrev int_of : Option Value → ℤ
int_of (some (int_value n)) = n
int_of _ = pos 0

abbrev bool_of : Option Value → Bool
bool_of (some (bool_value b)) = b
bool_of _ = false

abbrev list_of : Option Value → List Text
list_of (some (list_value ts)) = ts
list_of _ = []

abbrev duration_of : Result Duration → Duration
duration_of (ok d) = d
duration_of (err e) = pos 0

-- What the file sets, before the defaults.
abbrev small_file : List (Text × Value)
small_file =
    (codes "app.box_ip", text_value (codes "10.0.0.1"))
    ∷ (codes "schedule.crons", list_value (codes " 0 3 * * * " ∷ []))
    ∷ (codes "minio.endpoint", text_value (codes "minio:9000"))
    ∷ (codes "minio.access_key", text_value (codes "key"))
    ∷ (codes "minio.secret_key", text_value (codes "secret"))
    ∷ (codes "mongodb.uri", text_value (codes "mongodb://db"))
    ∷ (codes "mongodb.database", text_value (codes "site"))
    ∷ set_defaults

unfoldable small : Settings
unfolding set_defaults lookup parse_duration
small = record {
  text = λ key. text_of (lookup key small_file);
  whole = λ key. int_of (lookup key small_file);
  flag = λ key. bool_of (lookup key small_file);
  texts = λ key. list_of (lookup key small_file);
  duration = λ key. duration_of (parse_some (text_of (lookup key small_file)));
}

small-HasRequired : HasRequired any_cron small
unfolding small text_eq trim_space
small-HasRequired = record {
  box_ip = refl;
  some_cron = refl;
  crons = ((refl, refl), tt);
  endpoint = refl;
  access_key = refl;
  secret_key = refl;
  uri = refl;
  database = refl;
}

small_defaults : All (Holds parse_some small) (keep_if is_optional set_defaults)
unfolding small set_defaults parse_duration text_eq lookup
small_defaults = (
  (refl, tt),
  (
    (refl, tt),
    (
      (refl, tt),
      (
        (refl, tt),
        (
          (refl, tt),
          (
            refl,
            (
              refl,
              (
                refl,
                (
                  refl,
                  (
                    (refl, tt),
                    (
                      (refl, refl),
                      (
                        (refl, refl),
                        (
                          (refl, refl),
                          (
                            (refl, tt),
                            (
                              (refl, tt),
                              (
                                (refl, tt),
                                (
                                  (refl, tt),
                                  (
                                    (refl, refl),
                                    (
                                      refl,
                                      (
                                        refl,
                                        (
                                          (refl, refl),
                                          (
                                            refl,
                                            (
                                              (refl, tt),
                                              (
                                                (refl, refl),
                                                (
                                                  (refl, refl),
                                                  (
                                                    refl,
                                                    (
                                                      refl,
                                                      (
                                                        refl,
                                                        (
                                                          (refl, tt),
                                                          (
                                                            (refl, tt),
                                                            (
                                                            (refl, tt),
                                                            (refl, ((refl, refl), tt)),
                                                            ),
                                                          ),
                                                        ),
                                                      ),
                                                    ),
                                                  ),
                                                ),
                                              ),
                                            ),
                                          ),
                                        ),
                                      ),
                                    ),
                                  ),
                                ),
                              ),
                            ),
                          ),
                        ),
                      ),
                    ),
                  ),
                ),
              ),
            ),
          ),
        ),
      ),
    ),
  ),
)

validate-set_defaults_example :
    validate ascii_table any_cron (unmarshal small)
    ≡ ok (rewritten (unmarshal small) (map trim_space (small.texts (codes "schedule.crons"))) [])
validate-set_defaults_example =
    validate-set_defaults ascii_table any_cron exact small small_defaults small-HasRequired

-- The sample, as a file may spell it.
abbrev spelled : Config
spelled = record sample_config {
  log = record sample_config.log { format = codes " JSON" };
  schedule = record sample_config.schedule { crons = codes " 0 3 * * * " ∷ [] };
}

spelled_loads : validate ascii_table any_cron spelled ≡ ok sample_config
unfolding validate check_crons check_ips parse_ip parse_cidr text_eq trim_space to_lower
spelled_loads = refl

validate_idem_example : validate ascii_table any_cron sample_config ≡ ok sample_config
validate_idem_example = validate_idem ascii_table any_cron spelled sample_config spelled_loads
