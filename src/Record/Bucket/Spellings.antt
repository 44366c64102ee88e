-- ===== src/Record/Bucket/Spellings.antt =====
-- actor/RecordActor.go: the processes from which `normalizeBucketName` makes a given name.
use go2rtc_manager.Prelude.{
  ℕ, ◌+◌, ◌≤◌, ◌≡◌, ◌⊎◌, refl, true, false, ◌&&◌, [], ◌∷◌, ◌++◌, leb, ◌==◌, length, All, arith,
  if◌then◌else◌, ◌∙◌, ap,
}
use go2rtc_manager.Prelude.Results.{ok}
use go2rtc_manager.Prelude.Text.{
  Text, CaseTable, is_space, trim_left, trim_right, trim_space, to_lower, replace_chars,
}
use go2rtc_manager.Record.Bucket.{
  is_alnum, is_inner, match_rest, match_pattern, is_valid_bucket_name, normalize_bucket_name,
}
use go2rtc_manager.Record.Bucket.Names.{IsAlnum, IsInner, EndsWell, IsBucketName}

match_rest_complete :
    (n : ℕ) (s : Text)
    → All IsInner s
    → EndsWell s
    → 2 ≤ n + length s
    → n + length s ≤ 62
    → match_rest n s ≡ true
unfolding match_rest
match_rest_complete n [] letters ends least most = absurd ends
match_rest_complete n (c ∷ []) letters ends least most = ground arith
match_rest_complete n (c ∷ d ∷ s) letters ends least most =
    let rest : match_rest (n + 1) (d ∷ s) ≡ true =
      match_rest_complete (n + 1) (d ∷ s) letters.1 ends (ground arith) (ground arith) in
    let inner : is_inner c ≡ true = ground arith in rw (inner, rest) refl

match_pattern_complete : (s : Text) → IsBucketName s → match_pattern s ≡ true
unfolding match_pattern
match_pattern_complete [] h = absurd h.begins
match_pattern_complete (c ∷ []) h = absurd (too_short h.least)
  where
    too_short : 3 ≤ 1 → ⊥
    too_short k = omega arith
match_pattern_complete (c ∷ d ∷ s) h =
    let rest : match_rest 0 (d ∷ s) ≡ true =
      match_rest_complete 0 (d ∷ s) h.letters.1 h.ends (least h.least) (most h.most) in
    let alnum : is_alnum c ≡ true = begins h.begins in rw (alnum, rest) refl
  where
    least : 3 ≤ length (c ∷ d ∷ s) → 2 ≤ 0 + length (d ∷ s)
    least k = omega arith

    most : length (c ∷ d ∷ s) ≤ 63 → 0 + length (d ∷ s) ≤ 62
    most k = omega arith

    begins : IsAlnum c → is_alnum c ≡ true
    begins k = ground arith

is_valid_bucket_name_complete : (s : Text) → IsBucketName s → is_valid_bucket_name s ≡ true
unfolding is_valid_bucket_name
is_valid_bucket_name_complete s h =
    rw (match_pattern_complete s h, h.two_dots, h.dot_dash, h.dash_dot, h.not_ip) refl

-- A character of a process that becomes `c`: itself, the upper-case letter of it, or an underscore
-- for a dash.
abbrev pub Spelt : ℕ → ℕ → Type 0
Spelt g c = (g ≡ c) ⊎ ((b'A' ≤ g) × (g ≤ b'Z') × (c ≡ g + 32)) ⊎ ((g ≡ b'_') × (c ≡ b'-'))

abbrev pub Spells : Text → Text → Type 0
Spells [] [] = Unit
Spells (g ∷ given) (c ∷ s) = Spelt g c × Spells given s
Spells _ _ = ⊥

Spelt-normal :
    (table : CaseTable) (g c : ℕ)
    → Spelt g c
    → IsInner c
    → (is_space g ≡ false)
      × ((if (if leb g 127 then (if leb b'A' g && leb g b'Z' then g + 32 else g) else table.lower g)
              == b'_'
            then b'-'
            else (if leb g 127
                then (if leb b'A' g && leb g b'Z' then g + 32 else g)
                else table.lower g))
          ≡ c)
unfolding is_space
Spelt-normal table g c h k = ground arith

Spells-replaced :
    (table : CaseTable) (given s : Text)
    → Spells given s
    → All IsInner s
    → replace_chars (λ c. c == b'_') b'-' (to_lower table given) ≡ s
unfolding replace_chars to_lower
Spells-replaced table [] [] h k = refl
Spells-replaced table [] (c ∷ s) h k = absurd h
Spells-replaced table (g ∷ given) [] h k = absurd h
Spells-replaced table (g ∷ given) (c ∷ s) h k =
    rw ((Spelt-normal table g c h.0 k.0).1, Spells-replaced table given s h.1 k.1) refl

trim_right-spaces : (after : Text) → All (λ c. is_space c ≡ true) after → trim_right after ≡ []
unfolding trim_right
trim_right-spaces [] h = refl
trim_right-spaces (c ∷ after) h = rw (trim_right-spaces after h.1, h.0) refl

trim_right-given :
    (table : CaseTable) (given s after : Text)
    → Spells given s
    → All IsInner s
    → All (λ c. is_space c ≡ true) after
    → trim_right (given ++ after) ≡ given
unfolding trim_right
trim_right-given table [] s after h k e = trim_right-spaces after e
trim_right-given table (g ∷ given) [] after h k e = absurd h
trim_right-given table (g ∷ given) (c ∷ s) after h k e =
    rw ((Spelt-normal table g c h.0 k.0).0, trim_right-given table given s after h.1 k.1 e) refl

trim_left-spaces :
    (before s : Text) → All (λ c. is_space c ≡ true) before → trim_left (before ++ s) ≡ trim_left s
unfolding trim_left
trim_left-spaces [] s h = refl
trim_left-spaces (c ∷ before) s h = rw h.0 (trim_left-spaces before s h.1)

trim_left-given :
    (table : CaseTable) (given s after : Text)
    → Spells given s
    → IsBucketName s
    → trim_left (given ++ after) ≡ given ++ after
unfolding trim_left
trim_left-given table [] [] after h k = absurd k.begins
trim_left-given table [] (c ∷ s) after h k = absurd h
trim_left-given table (g ∷ given) [] after h k = absurd h
trim_left-given table (g ∷ given) (c ∷ s) after h k =
    rw (Spelt-normal table g c h.0 k.letters.0).0 refl

-- Every name that obeys the rules for a bucket is made: from itself, and from each process that
-- spells it with capitals for its letters, with underscores for its dashes and with spaces around
-- it, whatever the case mapping past ASCII is.
pub normalize_bucket_name-Spells :
    (table : CaseTable) (before given after s : Text)
    → All (λ c. is_space c ≡ true) before
    → All (λ c. is_space c ≡ true) after
    → Spells given s
    → IsBucketName s
    → normalize_bucket_name table (before ++ (given ++ after)) ≡ ok s
unfolding normalize_bucket_name trim_space
normalize_bucket_name-Spells table before given after s hb ha h k =
    let trimmed : trim_right (trim_left (before ++ (given ++ after))) ≡ given =
      ap trim_right
        (trim_left-spaces before (given ++ after) hb ∙ trim_left-given table given s after h k)
      ∙ trim_right-given table given s after h k.letters ha in
    rw (trimmed, Spells-replaced table given s h k.letters, is_valid_bucket_name_complete s k) refl
