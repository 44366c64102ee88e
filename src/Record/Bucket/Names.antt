-- ===== src/Record/Bucket/Names.antt =====
-- actor/RecordActor.go: the names that `normalizeBucketName` gives, against the naming rules of
-- S3 buckets.
use go2rtc_manager.Prelude.{
  ℕ, ◌+◌, ◌≤◌, ◌≡◌, ◌↔◌, ◌⊎◌, inl, true, false, [], ◌∷◌, none, length, All, arith,
}
use go2rtc_manager.Prelude.Results.{ok}
use go2rtc_manager.Prelude.Text.{Text, codes, CaseTable, contains}
use go2rtc_manager.Net.Ip.{parse_ip}
use go2rtc_manager.Record.Bucket.{
  is_alnum, is_inner, match_rest, match_pattern, is_valid_bucket_name, normalize_bucket_name,
}

-- A lower-case letter or a digit, and what may stand inside of a name.
abbrev pub IsAlnum : ℕ → Type 0
IsAlnum c = ((b'a' ≤ c) × (c ≤ b'z')) ⊎ ((b'0' ≤ c) × (c ≤ b'9'))

abbrev pub IsInner : ℕ → Type 0
IsInner c = IsAlnum c ⊎ (c ≡ b'.') ⊎ (c ≡ b'-')

-- A text begins, and ends, with a letter or a digit.
abbrev pub BeginsWell : Text → Type 0
BeginsWell [] = ⊥
BeginsWell (c ∷ s) = IsAlnum c

abbrev pub EndsWell : Text → Type 0
EndsWell [] = ⊥
EndsWell (c ∷ []) = IsAlnum c
EndsWell (c ∷ d ∷ s) = EndsWell (d ∷ s)

-- The rules for the name of a bucket.
pub record IsBucketName (s : Text) : Type 0 where
  pub least : 3 ≤ length s
  pub most : length s ≤ 63
  pub letters : All IsInner s
  pub begins : BeginsWell s
  pub ends : EndsWell s
  pub two_dots : contains s (codes "..") ≡ false
  pub dot_dash : contains s (codes ".-") ≡ false
  pub dash_dot : contains s (codes "-.") ≡ false
  pub not_ip : parse_ip s ≡ none

is_alnum_iff : (c : ℕ) → (is_alnum c ≡ true) ↔ IsAlnum c
is_alnum_iff c = ground arith

is_inner_iff : (c : ℕ) → (is_inner c ≡ true) ↔ IsInner c
is_inner_iff c = ground arith

match_rest-length :
    (n : ℕ) (s : Text) → match_rest n s ≡ true → (2 ≤ n + length s) × (n + length s ≤ 62)
unfolding match_rest
match_rest-length n [] h = cc
match_rest-length n (c ∷ []) h = ground arith
match_rest-length n (c ∷ d ∷ s) h = ground (arith, match_rest-length (n + 1) (d ∷ s))

match_rest-letters : (n : ℕ) (s : Text) → match_rest n s ≡ true → All IsInner s × EndsWell s
unfolding match_rest
match_rest-letters n [] h = cc
match_rest-letters n (c ∷ []) h =
    let alnum = (is_alnum_iff c).0 (ground arith) in ((inl alnum, tt), alnum)
match_rest-letters n (c ∷ d ∷ s) h =
    let (letters, ends) = match_rest-letters (n + 1) (d ∷ s) (ground arith) in
    (((is_inner_iff c).0 (ground arith), letters), ends)

match_pattern-length : (s : Text) → match_pattern s ≡ true → (3 ≤ length s) × (length s ≤ 63)
unfolding match_pattern
match_pattern-length [] h = cc
match_pattern-length (c ∷ s) h = ground (arith, match_rest-length 0 s)

match_pattern-letters :
    (s : Text) → match_pattern s ≡ true → All IsInner s × BeginsWell s × EndsWell s
unfolding match_pattern
match_pattern-letters [] h = cc
match_pattern-letters (c ∷ []) h =
    let (least, most) = match_pattern-length (c ∷ []) h in absurd (omega (arith, least))
match_pattern-letters (c ∷ d ∷ s) h =
    let (letters, ends) = match_rest-letters 0 (d ∷ s) (ground arith) in
    let alnum = (is_alnum_iff c).0 (ground arith) in ((inl alnum, letters), alnum, ends)

is_valid_bucket_name-IsBucketName : (s : Text) → is_valid_bucket_name s ≡ true → IsBucketName s
unfolding is_valid_bucket_name
is_valid_bucket_name-IsBucketName s h =
    let pattern : match_pattern s ≡ true = ground arith in
    record {
      least = (match_pattern-length s pattern).0;
      most = (match_pattern-length s pattern).1;
      letters = (match_pattern-letters s pattern).0;
      begins = (match_pattern-letters s pattern).1;
      ends = (match_pattern-letters s pattern).2;
      two_dots = ground arith;
      dot_dash = ground arith;
      dash_dot = ground arith;
      not_ip = ground arith;
    }

-- Whatever the case mapping past ASCII is, a name that `normalize_bucket_name` returns obeys the
-- rules: 3 to 63 characters of `[a-z0-9.-]`, a letter or a digit at both ends, no two dots and no dot beside a dash, no IP address.
pub normalize_bucket_name-IsBucketName :
    (table : CaseTable) (process s : Text)
    → normalize_bucket_name table process ≡ ok s
    → IsBucketName s
unfolding normalize_bucket_name
normalize_bucket_name-IsBucketName table process s h =
    is_valid_bucket_name-IsBucketName s (ground arith)
