-- ===== src/Record/Bucket.antt =====
-- actor/RecordActor.go: `normalizeBucketName` and `isValidBucketName`.
pub mod Names
pub mod Spellings
use go2rtc_manager.Prelude.{
  ℕ, zero, suc, ◌+◌, ◌≡◌, refl, Bool, true, false, not, ◌&&◌, ◌||◌, List, [], ◌∷◌, ◌++◌, Option,
  none, some, leb, ◌==◌, if◌then◌else◌,
}
use go2rtc_manager.Prelude.Results.{Result, ok, err}
use go2rtc_manager.Prelude.Text.{
  Text, codes, CaseTable, trim_space, to_lower, replace_chars, contains,
}
use go2rtc_manager.Net.Ip.{parse_ip}

-- `[a-z0-9]`
abbrev pub is_alnum : ℕ → Bool
is_alnum c = (leb b'a' c && leb c b'z') || (leb b'0' c && leb c b'9')

-- `[a-z0-9.-]`
abbrev pub is_inner : ℕ → Bool
is_inner c = is_alnum c || c == b'.' || c == b'-'

-- `[a-z0-9.-]{1,61}[a-z0-9]$`, with `n` characters of the first class read.
unfoldable pub match_rest : ℕ → Text → Bool
match_rest n [] = false
match_rest n (c ∷ []) = is_alnum c && leb 1 n && leb n 61
match_rest n (c ∷ d ∷ s) = is_inner c && match_rest (n + 1) (d ∷ s)

-- `validBucketNamePattern.MatchString`
unfoldable pub match_pattern : Text → Bool
unfolding match_rest
match_pattern [] = false
match_pattern (c ∷ s) = is_alnum c && match_rest 0 s

abbrev is_none {ℓ} : {A : Type ℓ} → Option A → Bool
is_none none = true
is_none (some _) = false

unfoldable pub is_valid_bucket_name : Text → Bool
unfolding match_pattern
is_valid_bucket_name bucket =
    if not (match_pattern bucket)
    then false
    else if contains bucket (codes "..")
        || contains bucket (codes ".-")
        || contains bucket (codes "-.")
    then false
    else is_none (parse_ip bucket)

unfoldable pub normalize_bucket_name : CaseTable → Text → Result Text
unfolding is_valid_bucket_name trim_space to_lower replace_chars
normalize_bucket_name table process =
    let bucket = replace_chars (λ c. c == b'_') b'-' (to_lower table (trim_space process)) in
    if not (is_valid_bucket_name bucket)
    then err (codes "invalid bucket name from process: " ++ process)
    else ok bucket

abbrev ascii : CaseTable
ascii = record { lower = λ c. c; upper = λ c. c }

bucket_tests :
    (normalize_bucket_name ascii (codes " Bodycam_Prod ") ≡ ok (codes "bodycam-prod"))
    × (is_valid_bucket_name (codes "10.0.0.20") ≡ false)
    × (is_valid_bucket_name (codes "ab") ≡ false)
    × (is_valid_bucket_name (codes "a..b") ≡ false)
    × (is_valid_bucket_name (codes "abc-") ≡ false)
unfolding normalize_bucket_name is_valid_bucket_name contains parse_ip
bucket_tests = (refl, refl, refl, refl, refl)
