-- ===== src/Time/Parse/Numbers.antt =====
-- A printed number, as `time.ParseDuration` reads it.
use go2rtc_manager.Prelude.{
  ℕ, zero, suc, ◌+◌, ◌-◌, ◌*◌, ◌/◌, ◌%◌, ◌≤◌, ◌<◌, ◌≡◌, refl, ◌∙◌, Bool-cases, true, false, inl,
  inr, [], ◌∷◌, All, none, some, arith, ltb, ◌==◌,
}
use go2rtc_manager.Prelude.Text.{Text, is_empty}
use go2rtc_manager.Prelude.Decimal.{print_digits, print_nat}
use go2rtc_manager.Time.Parse.{is_digit, bound, leading_int, split_point}

abbrev pub AllDigits : Text → Type 0
AllDigits = All λ c. is_digit c ≡ true

digit_of : (n : ℕ) → n < 10 → is_digit (b'0' + n) ≡ true
digit_of n h = ground arith

print_digits-AllDigits : (fuel n : ℕ) (s : Text) → AllDigits s → AllDigits (print_digits fuel n s)
unfolding print_digits
print_digits-AllDigits zero n s h = h
print_digits-AllDigits (suc fuel) n s h = elim (Bool-cases (ltb n 10)) [
  | inl e ↦ rw (e, print_digits) (digit_of n (ground arith), h)
  | inr e ↦
      rw (e, print_digits)
        (print_digits-AllDigits fuel (n / 10) ((b'0' + n % 10) ∷ s)
          (digit_of (n % 10) (ground arith), h))
]

pub print_nat-AllDigits : (n : ℕ) → AllDigits (print_nat n)
unfolding print_nat
print_nat-AllDigits n = print_digits-AllDigits (suc n) n [] tt

print_digits-kept : (fuel n c : ℕ) (s : Text) → is_empty (print_digits fuel n (c ∷ s)) ≡ false
unfolding print_digits
print_digits-kept zero n c s = refl
print_digits-kept (suc fuel) n c s = elim (Bool-cases (ltb n 10)) [
  | inl e ↦ rw (e, print_digits) refl
  | inr e ↦ rw (e, print_digits) (print_digits-kept fuel (n / 10) (b'0' + n % 10) (c ∷ s))
]

pub print_nat-given : (n : ℕ) → is_empty (print_nat n) ≡ false
unfolding print_nat print_digits
print_nat-given n = elim (Bool-cases (ltb n 10)) [
  | inl e ↦ rw (e, print_digits) refl
  | inr e ↦ rw (e, print_digits) (print_digits-kept n (n / 10) (b'0' + n % 10) [])
]

leading_int-print_digits :
    (fuel n : ℕ) (s : Text)
    → n < fuel
    → n ≤ bound
    → leading_int 0 (print_digits fuel n s) ≡ leading_int n s
unfolding print_digits leading_int
leading_int-print_digits zero n s h small = absurd (below h)
  where
    below : {x : ℕ} → x < 0 → ⊥
    below h = ground arith
leading_int-print_digits (suc fuel) n s h small = elim (Bool-cases (ltb n 10)) [
  | inl e ↦
      let value : 0 * 10 + (b'0' + n - b'0') ≡ n = omega arith in
      let low : ltb bound n ≡ false = ground arith in rw (e, leading_int, value, low) refl
  | inr e ↦
      let value : n / 10 * 10 + (b'0' + n % 10 - b'0') ≡ n = omega arith in
      let low : ltb bound n ≡ false = ground arith in
      let low_tenth : ltb (bound / 10) (n / 10) ≡ false = ground arith in
      rw (e, print_digits)
        (leading_int-print_digits fuel (n / 10) ((b'0' + n % 10) ∷ s) (ground arith) (omega arith)
          ∙ rw (leading_int, low_tenth, value, low) refl)
]

pub leading_int-print_nat : (n : ℕ) → n ≤ bound → leading_int 0 (print_nat n) ≡ some n
unfolding print_nat leading_int
leading_int-print_nat n h = leading_int-print_digits (suc n) n [] (omega arith) h

pub split_point-digits : (s : Text) → AllDigits s → split_point s ≡ (s, none)
unfolding split_point
split_point-digits [] h = refl
split_point-digits (c ∷ s) h =
    let other : (c == b'.') ≡ false = ground (arith, h.0) in
    rw (other, split_point-digits s h.1) refl
