-- ===== src/Time/Print.antt =====
-- Go's `Duration.String`.
use go2rtc_manager.Prelude.{
  ℕ, zero, suc, ◌+◌, ◌/◌, ◌%◌, ◌^◌, ◌≡◌, refl, ◌&&◌, [], ◌∷◌, ◌++◌, ltb, ◌==◌, if◌then◌else◌,
}
use go2rtc_manager.Prelude.Int.{pos, negsuc}
use go2rtc_manager.Prelude.Text.{Text, codes, is_empty}
use go2rtc_manager.Prelude.Decimal.{print_nat}
use go2rtc_manager.Time.{Duration}

-- `digits` decimal digits of `v`, with leading zeros, in front of `s`; zeros at the end are left out.
unfoldable pub fraction_digits : ℕ → ℕ → Text → Text
fraction_digits zero v s = s
fraction_digits (suc digits) v s =
    let bare = fraction_digits digits (v / 10) s in
    let kept = fraction_digits digits (v / 10) ((b'0' + v % 10) ∷ s) in
    if (v % 10 == 0) && is_empty s then bare else kept

-- `v / 10 ** prec` with its fraction.
unfoldable pub print_fraction : ℕ → ℕ → Text
unfolding fraction_digits print_nat
print_fraction prec v =
    let digits = fraction_digits prec (v % 10 ^ prec) [] in
    print_nat (v / 10 ^ prec) ++ (if is_empty digits then [] else b'.' ∷ digits)

-- Below a second: the largest unit that leaves a digit before the point.
unfoldable pub print_small : ℕ → Text
unfolding print_fraction
print_small n =
    if n == 0
    then codes "0s"
    else if ltb n 1000
    then print_nat n ++ codes "ns"
    else if ltb n 1000000
    then print_fraction 3 n ++ codes "µs"
    else print_fraction 6 n ++ codes "ms"

-- The seconds below a minute, with their fraction: `n` nanoseconds of which whole minutes are left out.
unfoldable pub print_large : ℕ → Text
unfolding print_fraction
print_large n =
    let minutes : ℕ = n / 60000000000 in
    let seconds = print_fraction 9 (n % 60000000000) ++ codes "s" in
    if minutes == 0
    then seconds
    else if ltb minutes 60
    then print_nat minutes ++ (codes "m" ++ seconds)
    else print_nat (minutes / 60)
      ++ (codes "h" ++ (print_nat (minutes % 60) ++ (codes "m" ++ seconds)))

unfoldable pub print_magnitude : ℕ → Text
unfolding print_small print_large
print_magnitude n = if ltb n 1000000000 then print_small n else print_large n

-- `d.String()`
unfoldable pub print_duration : Duration → Text
unfolding print_magnitude
print_duration (pos n) = print_magnitude n
print_duration (negsuc n) = b'-' ∷ print_magnitude (suc n)

print_duration_tests :
    (print_duration (pos 10000000000) ≡ codes "10s")
    × (print_duration (pos 3600000000000) ≡ codes "1h0m0s")
    × (print_duration (pos 90500000000) ≡ codes "1m30.5s")
    × (print_duration (pos 1500000) ≡ codes "1.5ms")
    × (print_duration (pos 0) ≡ codes "0s")
    × (print_duration (negsuc 1999999999) ≡ codes "-2s")
unfolding print_duration
print_duration_tests = (refl, refl, refl, refl, refl, refl)
