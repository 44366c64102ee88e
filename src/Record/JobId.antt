-- ===== src/Record/JobId.antt =====
-- actor/RecordActor.go: the identifiers that `newRecordJobID` makes, and its errors.
use go2rtc_manager.Prelude.{ℕ, ◌/◌, ◌%◌, ◌≡◌, refl, false, List, [], ◌∷◌, ◌++◌, arith, ◌==◌}
use go2rtc_manager.Prelude.Results.{Result, ok, err}
use go2rtc_manager.Prelude.Text.{Text, codes, is_empty}
use go2rtc_manager.Prelude.Paths.{slash}
use go2rtc_manager.Prelude.Paths.Words.{HasNoSlash}
use go2rtc_manager.Time.{Time}
use go2rtc_manager.Time.Format.{utc_stamp}
use go2rtc_manager.Time.Format.NoSlash.{glue, utc_stamp-HasNoSlash}
use go2rtc_manager.Record.{hex_digit, hex_encode, new_record_job_id}

-- One segment of a path, not empty.
pub record IsJobId (id : Text) : Type 0 where
  pub given : is_empty id ≡ false
  pub one : HasNoSlash id

hex_digit-no_slash : (n : ℕ) → (hex_digit n == slash) ≡ false
hex_digit-no_slash n = ground arith

hex_encode-HasNoSlash : (bs : List ℕ) → HasNoSlash (hex_encode bs)
unfolding hex_encode
hex_encode-HasNoSlash [] = tt
hex_encode-HasNoSlash (b ∷ bs) =
    (hex_digit-no_slash (b / 16), (hex_digit-no_slash (b % 16), hex_encode-HasNoSlash bs))

stamped-IsJobId :
    (now : Time) (suffix : List ℕ)
    → IsJobId (codes "record_" ++ (utc_stamp now ++ (codes "_" ++ hex_encode suffix)))
stamped-IsJobId now suffix = record {
  given = refl;
  one =
      glue (codes "record_") (utc_stamp now ++ (codes "_" ++ hex_encode suffix))
        (refl, (refl, (refl, (refl, (refl, (refl, (refl, tt)))))))
        (glue (utc_stamp now) (codes "_" ++ hex_encode suffix) (utc_stamp-HasNoSlash now)
          (glue (codes "_") (hex_encode suffix) (refl, tt) (hex_encode-HasNoSlash suffix)));
}

-- What `newRecordJobID` gives.
abbrev pub IsNamed : Result Text → Type 0
IsNamed (ok id) = IsJobId id
IsNamed (err e) = is_empty e ≡ false

pub new_record_job_id-IsNamed :
    (now : Time) (random : Result (List ℕ)) → IsNamed (new_record_job_id now random)
unfolding new_record_job_id
new_record_job_id-IsNamed now (ok suffix) = stamped-IsJobId now suffix
new_record_job_id-IsNamed now (err e) = refl
