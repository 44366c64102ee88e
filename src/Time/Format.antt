-- ===== src/Time/Format.antt =====
-- `Time.Format` in UTC, for the two layouts that the program uses: the date from the day's number
-- in the proleptic Gregorian calendar, and the time of day.
pub mod NoSlash
use go2rtc_manager.Prelude.{
  ℕ, ◌+◌, ◌-◌, ◌*◌, ◌/◌, ◌%◌, ◌≡◌, refl, Bool, not, ◌&&◌, ◌||◌, List, [], ◌∷◌, ◌++◌, ltb, ◌==◌,
  if◌then◌else◌, min,
}
use go2rtc_manager.Prelude.Text.{Text, codes}
use go2rtc_manager.Prelude.Decimal.{print_nat}
use go2rtc_manager.Time.{Time}

abbrev pub second : ℕ
second = 1000000000

pub record Date : Type 0 where
  pub year : ℕ
  pub month : ℕ
  pub day : ℕ

unfoldable pub is_leap : ℕ → Bool
is_leap y = (y % 4 == 0) && (not (y % 100 == 0) || (y % 400 == 0))

abbrev month_lengths : Bool → List ℕ
month_lengths leap =
    31 ∷ (if leap then 29 else 28) ∷ 31 ∷ 30 ∷ 31 ∷ 30 ∷ 31 ∷ 31 ∷ 30 ∷ 31 ∷ 30 ∷ 31 ∷ []

-- The month and the day from the day of the year; `month` is the number of the first length.
month_day : ℕ → ℕ → List ℕ → ℕ × ℕ
month_day month d [] = (month, d + 1)
month_day month d (len ∷ lens) =
    let later = month_day (month + 1) (d - len) lens in if ltb d len then (month, d + 1) else later

-- The date of a day, counted from 0001-01-01: by cycles of 400, 100, 4 and 1 years.
unfoldable pub date_of : ℕ → Date
unfolding is_leap month_day
date_of n =
    let r400 : ℕ = n % 146097 in
    let n100 : ℕ = min (r400 / 36524) 3 in
    let r100 : ℕ = r400 - n100 * 36524 in
    let n4 : ℕ = r100 / 1461 in
    let r4 : ℕ = r100 % 1461 in
    let n1 : ℕ = min (r4 / 365) 3 in
    let year : ℕ = 400 * (n / 146097) + 100 * n100 + 4 * n4 + n1 + 1 in
    let (month, day) = month_day 1 (r4 - n1 * 365) (month_lengths (is_leap year)) in
    record { year = year; month = month; day = day }

-- At least two, or four, digits.
unfoldable pub pad2 : ℕ → Text
pad2 n = if ltb n 10 then b'0' ∷ print_nat n else print_nat n

unfoldable pub pad4 : ℕ → Text
unfolding pad2
pad4 n =
    if ltb n 100
    then b'0' ∷ b'0' ∷ pad2 n
    else if ltb n 1000
    then b'0' ∷ print_nat n
    else print_nat n

-- `t.UTC().Format("20060102T150405Z")`
unfoldable pub utc_stamp : Time → Text
unfolding date_of pad4 print_nat
utc_stamp t =
    let s : ℕ = t / second in
    let d = date_of (s / 86400) in
    let r : ℕ = s % 86400 in
    pad4 d.year
    ++ (pad2 d.month
        ++ (pad2 d.day
            ++ (codes "T"
                ++ (pad2 (r / 3600) ++ (pad2 (r / 60 % 60) ++ (pad2 (r % 60) ++ codes "Z"))))))

-- `t.UTC().Format(time.RFC3339)`
unfoldable pub rfc3339 : Time → Text
unfolding date_of pad4 print_nat
rfc3339 t =
    let s : ℕ = t / second in
    let d = date_of (s / 86400) in
    let r : ℕ = s % 86400 in
    pad4 d.year
    ++ (codes "-"
        ++ (pad2 d.month
            ++ (codes "-"
                ++ (pad2 d.day
                    ++ (codes "T"
                        ++ (pad2 (r / 3600)
                            ++ (codes ":"
                                ++ (pad2 (r / 60 % 60)
                                    ++ (codes ":" ++ (pad2 (r % 60) ++ codes "Z"))))))))))

-- 2026-04-26T06:30:00Z, and the last day of a leap year.
stamp_tests :
    (utc_stamp (63912781800 * second) ≡ codes "20260426T063000Z")
    × (rfc3339 (63912781800 * second) ≡ codes "2026-04-26T06:30:00Z")
    × (rfc3339 0 ≡ codes "0001-01-01T00:00:00Z")
    × (date_of 730484 ≡ record { year = 2000; month = 12; day = 31 })
unfolding utc_stamp rfc3339
stamp_tests = (refl, refl, refl, refl)
