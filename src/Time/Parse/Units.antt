-- ===== src/Time/Parse/Units.antt =====
-- Numbers with their units, as `time.ParseDuration` takes them off and adds them up.
use go2rtc_manager.Prelude.{
  ℕ, ◌+◌, ◌-◌, ◌*◌, ◌/◌, ◌%◌, ◌^◌, ◌≤◌, ◌<◌, ◌≡◌, refl, ap, ◌∙◌, true, false, List, [], ◌∷◌, ◌++◌,
  append-nil, some, arith, ltb, ◌==◌,
}
use go2rtc_manager.Prelude.Int.{pos}
use go2rtc_manager.Prelude.Text.{Text, codes, is_empty, text_eq}
use go2rtc_manager.Prelude.Decimal.{print_nat}
use go2rtc_manager.Time.Print.{fraction_digits, print_fraction}
use go2rtc_manager.Time.Parse.{
  is_number_char, Segment, add_char, segments, bound, leading_fraction, unit_of, segment_value,
  add_value, sum_segments, parse_unsigned, parse_duration,
}
use go2rtc_manager.Time.Parse.Numbers.{
  AllDigits, print_nat-AllDigits, print_nat-given, leading_int-print_nat, split_point-digits,
}

-- The first segment has a number.
abbrev pub Begins : List Segment → Type 0
Begins [] = Unit
Begins ((number, unit) ∷ more) = is_empty number ≡ false

add_char-unit :
    (u : ℕ) (ss : List Segment)
    → is_number_char u ≡ false
    → Begins ss
    → add_char u ss ≡ ([], u ∷ []) ∷ ss
add_char-unit u [] h b = rw h refl
add_char-unit u ((number, unit) ∷ more) h b = rw (h, b) refl

pub segments-unit :
    (t : Text) (u : ℕ) (rest : Text)
    → AllDigits t
    → is_number_char u ≡ false
    → Begins (segments rest)
    → segments (t ++ u ∷ rest) ≡ (t, u ∷ []) ∷ segments rest
unfolding segments
segments-unit [] u rest h unit b = add_char-unit u (segments rest) unit b
segments-unit (c ∷ t) u rest h unit b =
    let number : is_number_char c ≡ true = ground (arith, h.0) in
    rw (segments-unit t u rest h.1 unit b, number) refl

module _ (scale_fraction : ℕ → ℕ → ℕ → ℕ) where
  value_of :
      (n u scale : ℕ)
      → unit_of (u ∷ []) ≡ some scale
      → n ≤ bound
      → ltb (bound / scale) n ≡ false
      → ltb bound (n * scale) ≡ false
      → segment_value scale_fraction (print_nat n, u ∷ []) ≡ some (n * scale)
  unfolding segment_value leading_fraction
  value_of n u scale unit small fits low =
      rw
        (
          split_point-digits (print_nat n) (print_nat-AllDigits n),
          print_nat-given n,
          leading_int-print_nat n small,
          unit,
          fits,
          split_point-digits (print_nat n) (print_nat-AllDigits n),
          low,
        )
        refl

  -- One number and unit more.
  pub sum_more :
      (d n u scale : ℕ) (ss : List Segment)
      → segment_value scale_fraction (print_nat n, u ∷ []) ≡ some (n * scale)
      → d + n * scale < bound
      → sum_segments scale_fraction (some d) ((print_nat n, u ∷ []) ∷ ss)
        ≡ sum_segments scale_fraction (some (d + n * scale)) ss
  unfolding sum_segments
  sum_more d n u scale ss value small =
      let kept : (d + n * scale) % 2 ^ 64 ≡ d + n * scale = more_than (d + n * scale) small in
      let low : ltb bound (d + n * scale) ≡ false = ground arith in
      let added : add_value scale_fraction d (some (n * scale)) ≡ some (d + n * scale) =
        rw (kept, low) refl in
      ap (λ o. sum_segments scale_fraction (add_value scale_fraction d o) ss) value
      ∙ ap (λ o. sum_segments scale_fraction o ss) added
    where
      more_than : (x : ℕ) → x < bound → x % 2 ^ 64 ≡ x
      more_than x h = omega arith

  pub parse_duration-digits :
      (t : Text) (u : ℕ) (rest : Text) (d : ℕ)
      → AllDigits t
      → is_empty t ≡ false
      → sum_segments scale_fraction (some 0) (segments (t ++ u ∷ rest)) ≡ some d
      → d < bound
      → parse_duration scale_fraction (t ++ u ∷ rest) ≡ some (pos d)
  unfolding parse_duration parse_unsigned text_eq
  parse_duration-digits [] u rest d h given sum small = cc
  parse_duration-digits (c ∷ t) u rest d h given sum small =
      let minus : (c == b'-') ≡ false = ground (arith, h.0) in
      let plus : (c == b'+') ≡ false = ground (arith, h.0) in
      let low : ltb (bound - 1) d ≡ false = ground arith in
      rw (minus, plus, not_zero c t, sum, low) refl
    where
      not_zero : (c : ℕ) (t : Text) → text_eq (c ∷ (t ++ u ∷ rest)) (codes "0") ≡ false
      not_zero c [] = ground arith
      not_zero c (e ∷ t) = ground arith

  pub seconds_value :
      (n : ℕ)
      → n < 60
      → segment_value scale_fraction (print_nat n, codes "s") ≡ some (n * 1000000000)
  unfolding unit_of text_eq
  seconds_value n h = value_of n b's' 1000000000 refl (omega arith) (ground arith) (ground arith)

  pub minutes_value :
      (n : ℕ)
      → n < 60
      → segment_value scale_fraction (print_nat n, codes "m") ≡ some (n * 60000000000)
  unfolding unit_of text_eq
  minutes_value n h = value_of n b'm' 60000000000 refl (omega arith) (ground arith) (ground arith)

  pub hours_value :
      (n : ℕ)
      → n * 3600000000000 < bound
      → segment_value scale_fraction (print_nat n, codes "h") ≡ some (n * 3600000000000)
  unfolding unit_of text_eq
  hours_value n h = value_of n b'h' 3600000000000 refl (omega arith) (ground arith) (ground arith)

  pub print_fraction-seconds : (n : ℕ) → print_fraction 9 (n * 1000000000) ≡ print_nat n
  unfolding print_fraction fraction_digits
  print_fraction-seconds n =
      let none_left : n * 1000000000 % 10 ^ 9 ≡ 0 = omega arith in
      let whole : n * 1000000000 / 10 ^ 9 ≡ n = omega arith in
      rw (none_left, whole) (append-nil (print_nat n))
