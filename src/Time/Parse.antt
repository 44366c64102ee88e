-- ===== src/Time/Parse.antt =====
-- Go's `time.ParseDuration`, with which config/config.go and httpserver/server.go read durations. The
-- program does not read the text of its error, so that an error is `none`. Its one product of
-- floating-point numbers, for the digits behind a point, is a parameter.
pub mod Numbers
pub mod Units
pub mod Printed
use go2rtc_manager.Prelude.{
  ℕ, ◌+◌, ◌-◌, ◌*◌, ◌/◌, ◌%◌, ◌^◌, ◌≡◌, refl, Bool, true, false, not, ◌&&◌, ◌||◌, List, [], ◌∷◌,
  all, Option, none, some, leb, ltb, ◌==◌, if◌then◌else◌,
}
use go2rtc_manager.Prelude.Int.{ℤ, pos, negsuc}
use go2rtc_manager.Prelude.Results.{Result, ok, err}
use go2rtc_manager.Prelude.Text.{Text, codes, text_eq, is_empty}
use go2rtc_manager.Time.{Duration}

abbrev pub is_digit : ℕ → Bool
is_digit c = leb b'0' c && leb c b'9'

abbrev pub is_number_char : ℕ → Bool
is_number_char c = is_digit c || c == b'.'

-- A number and its unit, as they stand in the text.
abbrev pub Segment : Type 0
Segment = Text × Text

abbrev pub add_char : ℕ → List Segment → List Segment
add_char c [] = if is_number_char c then (c ∷ [], []) ∷ [] else ([], c ∷ []) ∷ []
add_char c ((number, unit) ∷ more) =
    if is_number_char c
    then (c ∷ number, unit) ∷ more
    else if is_empty number
    then ([], c ∷ unit) ∷ more
    else ([], c ∷ []) ∷ (number, unit) ∷ more

-- The text in numbers and units, as the loop takes them off one after the other.
unfoldable pub segments : Text → List Segment
segments [] = []
segments (c ∷ s) = let rest = segments s in add_char c rest

abbrev pub bound : ℕ
bound = 2 ^ 63

-- `leadingInt`, on digits.
unfoldable pub leading_int : ℕ → Text → Option ℕ
leading_int x [] = some x
leading_int x (c ∷ s) =
    let y = x * 10 + (c - b'0') in
    let rest = leading_int y s in
    if ltb (bound / 10) x then none else if ltb bound y then none else rest

-- `leadingFraction`, on digits: the number, and how many digits it has; digits past the bound are
-- passed over.
unfoldable pub leading_fraction : ℕ → ℕ → Text → ℕ × ℕ
leading_fraction x digits [] = (x, digits)
leading_fraction x digits (c ∷ s) =
    let y = x * 10 + (c - b'0') in
    let rest = leading_fraction y (digits + 1) s in
    if ltb ((bound - 1) / 10) x || ltb bound y then (x, digits) else rest

-- The text up to its first point, and what stands behind the point.
unfoldable pub split_point : Text → Text × Option Text
split_point [] = ([], none)
split_point (c ∷ s) =
    let rest = split_point s in if c == b'.' then ([], some s) else (c ∷ rest.0, rest.1)

-- `unitMap`
unfoldable pub unit_of : Text → Option ℕ
unfolding text_eq
unit_of u =
    if text_eq u (codes "ns")
    then some 1
    else if text_eq u (codes "us") || text_eq u (0xB5 ∷ codes "s") || text_eq u (0x3BC ∷ codes "s")
    then some 1000
    else if text_eq u (codes "ms")
    then some 1000000
    else if text_eq u (codes "s")
    then some 1000000000
    else if text_eq u (codes "m")
    then some 60000000000
    else if text_eq u (codes "h")
    then some 3600000000000
    else none

abbrev fraction_of : Option Text → Text
fraction_of none = []
fraction_of (some s) = s

module _ (scale_fraction : ℕ → ℕ → ℕ → ℕ) where
  -- A number of units with a fraction `f` of so many digits; `scale_fraction` is
  -- `uint64(float64(f) * (float64(unit) / scale))`.
  abbrev pub scaled : ℕ → ℕ → ℕ × ℕ → Option ℕ
  scaled v unit (f, digits) =
      if ltb (bound / unit) v
      then none
      else (let w =
            (if ltb 0 f then (v * unit + scale_fraction f unit digits) % 2 ^ 64 else v * unit) in
          if ltb bound w then none else some w)

  -- One turn of the loop.
  unfoldable pub segment_value : Segment → Option ℕ
  unfolding leading_int leading_fraction split_point unit_of
  segment_value (number, unit) =
      let (whole, behind) = split_point number in
      let fraction = fraction_of behind in
      if is_empty whole && is_empty fraction
      then none
      else if not (all is_digit fraction)
      then none
      else elim (leading_int 0 whole) [
        | none ↦ none
        | some v ↦ elim (unit_of unit) [
          | none ↦ none
          | some u ↦ scaled v u (leading_fraction 0 0 fraction)
        ]
      ]

  abbrev pub add_value : ℕ → Option ℕ → Option ℕ
  add_value d none = none
  add_value d (some v) = let e = (d + v) % 2 ^ 64 in if ltb bound e then none else some e

  -- The loop, from the sum so far.
  unfoldable pub sum_segments : Option ℕ → List Segment → Option ℕ
  unfolding segment_value
  sum_segments none ss = none
  sum_segments (some d) [] = some d
  sum_segments (some d) (s ∷ ss) = sum_segments (add_value d (segment_value s)) ss

  abbrev negated : ℕ → ℤ
  negated n = if n == 0 then pos 0 else negsuc (n - 1)

  -- Behind the sign.
  unfoldable pub parse_unsigned : Bool → Text → Option Duration
  unfolding segments sum_segments text_eq
  parse_unsigned neg s =
      if text_eq s (codes "0")
      then some (pos 0)
      else if is_empty s
      then none
      else elim (sum_segments (some 0) (segments s)) [
        | none ↦ none
        | some d ↦
            if neg then some (negated d) else if ltb (bound - 1) d then none else some (pos d)
      ]

  unfoldable pub parse_duration : Text → Option Duration
  unfolding parse_unsigned
  parse_duration [] = none
  parse_duration (c ∷ s) =
      if c == b'-'
      then parse_unsigned true s
      else if c == b'+'
      then parse_unsigned false s
      else parse_unsigned false (c ∷ s)

  abbrev pub result_of : Option Duration → Result Duration
  result_of none = err (codes "time: invalid duration")
  result_of (some d) = ok d

  -- `time.ParseDuration` as a value and an error.
  abbrev pub read_duration : Text → Result Duration
  read_duration s = result_of (parse_duration s)

-- The product, exact and rounded down.
abbrev pub exact : ℕ → ℕ → ℕ → ℕ
exact f unit digits = f * unit / 10 ^ digits

parse_tests :
    (parse_duration exact (codes "1h30m") ≡ some (pos 5400000000000))
    × (parse_duration exact (codes "1.5s") ≡ some (pos 1500000000))
    × (parse_duration exact (codes "-2ms") ≡ some (negsuc 1999999))
    × (parse_duration exact (codes "0") ≡ some (pos 0))
    × (parse_duration exact (codes "10") ≡ none)
    × (parse_duration exact (codes "s") ≡ none)
    × (parse_duration exact (codes "1.2.3s") ≡ none)
    × (parse_duration exact (codes "9223372036854775808ns") ≡ none)
    × (parse_duration exact [] ≡ none)
unfolding parse_duration
parse_tests = (refl, refl, refl, refl, refl, refl, refl, refl, refl)
