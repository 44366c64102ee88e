-- ===== src/Time/Parse/Printed.antt =====
-- A printed duration of whole seconds, and `time.ParseDuration`.
use go2rtc_manager.Prelude.{
  ℕ, ◌+◌, ◌*◌, ◌/◌, ◌%◌, ◌<◌, ◌≡◌, refl, sym, ap, subst, ◌∙◌, Bool-cases, false, inl, inr, [], ◌∷◌,
  ◌++◌, some, arith, ltb, ◌==◌, if◌then◌else◌,
}
use go2rtc_manager.Prelude.Int.{pos}
use go2rtc_manager.Prelude.Text.{Text, codes}
use go2rtc_manager.Prelude.Decimal.{print_nat}
use go2rtc_manager.Time.Print.{print_large, print_magnitude, print_duration}
use go2rtc_manager.Time.Parse.{segments, bound, sum_segments, parse_duration}
use go2rtc_manager.Time.Parse.Numbers.{print_nat-AllDigits, print_nat-given}
use go2rtc_manager.Time.Parse.Units.{
  segments-unit, Begins, sum_more, parse_duration-digits, seconds_value, minutes_value, hours_value,
  print_fraction-seconds,
}

module _ (scale_fraction : ℕ → ℕ → ℕ → ℕ) where
  -- The end of a printed duration: its seconds, and then its minutes and seconds.
  abbrev seconds_text : ℕ → Text
  seconds_text x = print_nat x ++ codes "s"

  abbrev minutes_text : ℕ → ℕ → Text
  minutes_text m x = print_nat m ++ (codes "m" ++ seconds_text x)

  abbrev hours_text : ℕ → ℕ → ℕ → Text
  hours_text h m x = print_nat h ++ (codes "h" ++ minutes_text m x)

  segments-seconds : (x : ℕ) → segments (seconds_text x) ≡ (print_nat x, codes "s") ∷ []
  unfolding segments
  segments-seconds x = segments-unit (print_nat x) b's' [] (print_nat-AllDigits x) refl tt

  segments-minutes :
      (m x : ℕ)
      → segments (minutes_text m x) ≡ (print_nat m, codes "m") ∷ (print_nat x, codes "s") ∷ []
  segments-minutes m x =
      segments-unit (print_nat m) b'm' (seconds_text x) (print_nat-AllDigits m) refl
        (subst Begins (sym (segments-seconds x)) (print_nat-given x))
      ∙ ap (λ ss. (print_nat m, codes "m") ∷ ss) (segments-seconds x)

  segments-hours :
      (h m x : ℕ)
      → segments (hours_text h m x)
        ≡ (print_nat h, codes "h") ∷ (print_nat m, codes "m") ∷ (print_nat x, codes "s") ∷ []
  segments-hours h m x =
      segments-unit (print_nat h) b'h' (minutes_text m x) (print_nat-AllDigits h) refl
        (subst Begins (sym (segments-minutes m x)) (print_nat-given m))
      ∙ ap (λ ss. (print_nat h, codes "h") ∷ ss) (segments-minutes m x)

  sum-seconds :
      (d x : ℕ)
      → x < 60
      → d + x * 1000000000 < bound
      → sum_segments scale_fraction (some d) ((print_nat x, codes "s") ∷ [])
        ≡ some (d + x * 1000000000)
  unfolding sum_segments
  sum-seconds d x few small =
      sum_more scale_fraction d x b's' 1000000000 [] (seconds_value scale_fraction x few) small

  sum-minutes :
      (d m x : ℕ)
      → m < 60
      → x < 60
      → d + m * 60000000000 + x * 1000000000 < bound
      → sum_segments scale_fraction
          (some d)
          ((print_nat m, codes "m") ∷ (print_nat x, codes "s") ∷ [])
        ≡ some (d + m * 60000000000 + x * 1000000000)
  sum-minutes d m x few few_seconds small =
      sum_more scale_fraction d m b'm' 60000000000 ((print_nat x, codes "s") ∷ [])
        (minutes_value scale_fraction m few) (omega (arith, small))
      ∙ sum-seconds (d + m * 60000000000) x few_seconds small

  sum-hours :
      (h m x : ℕ)
      → m < 60
      → x < 60
      → h * 3600000000000 + m * 60000000000 + x * 1000000000 < bound
      → sum_segments scale_fraction
          (some 0)
          ((print_nat h, codes "h") ∷ (print_nat m, codes "m") ∷ (print_nat x, codes "s") ∷ [])
        ≡ some (0 + h * 3600000000000 + m * 60000000000 + x * 1000000000)
  sum-hours h m x few few_seconds small =
      sum_more scale_fraction 0 h b'h' 3600000000000
        ((print_nat m, codes "m") ∷ (print_nat x, codes "s") ∷ [])
        (hours_value scale_fraction h (omega (arith, small))) (omega (arith, small))
      ∙ sum-minutes (0 + h * 3600000000000) m x few few_seconds (omega (arith, small))

  print_large-seconds :
      (s : ℕ)
      → print_large (s * 1000000000) ≡ (
          if s / 60 == 0
          then seconds_text (s % 60)
          else if ltb (s / 60) 60
          then minutes_text (s / 60) (s % 60)
          else hours_text (s / 60 / 60) (s / 60 % 60) (s % 60))
  unfolding print_large
  print_large-seconds s =
      let minutes : s * 1000000000 / 60000000000 ≡ s / 60 = omega arith in
      let rest : s * 1000000000 % 60000000000 ≡ s % 60 * 1000000000 = omega arith in
      rw (minutes, rest, print_fraction-seconds scale_fraction (s % 60)) refl

  -- Each of the three shapes reads as what it says.
  reads_seconds :
      (x n : ℕ)
      → x < 60
      → 0 + x * 1000000000 ≡ n
      → n < bound
      → parse_duration scale_fraction (seconds_text x) ≡ some (pos n)
  reads_seconds x n few same small =
      parse_duration-digits scale_fraction (print_nat x) b's' [] n (print_nat-AllDigits x)
        (print_nat-given x)
        (ap (sum_segments scale_fraction (some 0)) (segments-seconds x)
          ∙ sum-seconds 0 x few (omega (arith, same, small))
          ∙ ap some same)
        small

  reads_minutes :
      (m x n : ℕ)
      → m < 60
      → x < 60
      → 0 + m * 60000000000 + x * 1000000000 ≡ n
      → n < bound
      → parse_duration scale_fraction (minutes_text m x) ≡ some (pos n)
  reads_minutes m x n few few_seconds same small =
      parse_duration-digits scale_fraction (print_nat m) b'm' (seconds_text x) n
        (print_nat-AllDigits m) (print_nat-given m)
        (ap (sum_segments scale_fraction (some 0)) (segments-minutes m x)
          ∙ sum-minutes 0 m x few few_seconds (omega (arith, same, small))
          ∙ ap some same)
        small

  reads_hours :
      (h m x n : ℕ)
      → m < 60
      → x < 60
      → 0 + h * 3600000000000 + m * 60000000000 + x * 1000000000 ≡ n
      → n < bound
      → parse_duration scale_fraction (hours_text h m x) ≡ some (pos n)
  reads_hours h m x n few few_seconds same small =
      parse_duration-digits scale_fraction (print_nat h) b'h' (minutes_text m x) n
        (print_nat-AllDigits h) (print_nat-given h)
        (ap (sum_segments scale_fraction (some 0)) (segments-hours h m x)
          ∙ sum-hours h m x few few_seconds (omega (arith, same, small))
          ∙ ap some same)
        small

  reads_large :
      (s : ℕ)
      → s * 1000000000 < bound
      → parse_duration scale_fraction (print_large (s * 1000000000)) ≡ some (pos (s * 1000000000))
  reads_large s small =
      ap (parse_duration scale_fraction) (print_large-seconds s) ∙ elim (Bool-cases (s / 60 == 0)) [
        | inl e ↦ rw e (reads_seconds (s % 60) (s * 1000000000) (omega arith) (ground arith) small)
        | inr e ↦ rw e (elim (Bool-cases (ltb (s / 60) 60)) [
          | inl f ↦ rw f (
              reads_minutes (s / 60) (s % 60) (s * 1000000000) (ground arith) (omega arith)
                (omega arith) small)
          | inr f ↦ rw f (
              reads_hours (s / 60 / 60) (s / 60 % 60) (s % 60) (s * 1000000000) (omega arith)
                (omega arith) (omega arith) small)
        ])
      ]

  -- A duration of whole seconds, at least one, is read back as it was printed.
  pub parse_duration-print_duration :
      (s : ℕ)
      → 0 < s
      → s * 1000000000 < bound
      → parse_duration scale_fraction (print_duration (pos (s * 1000000000)))
        ≡ some (pos (s * 1000000000))
  unfolding print_duration print_magnitude
  parse_duration-print_duration s some_second small =
      let large : ltb (s * 1000000000) 1000000000 ≡ false = ground arith in
      rw large (reads_large s small)
