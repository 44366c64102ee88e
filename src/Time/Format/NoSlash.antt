-- ===== src/Time/Format/NoSlash.antt =====
-- The stamps of object keys and of job identifiers, and the slash (actor/RecordActor.go).
use go2rtc_manager.Prelude.{
  ℕ, zero, suc, ◌+◌, ◌/◌, ◌%◌, ◌≡◌, refl, Bool-cases, false, inl, inr, [], ◌∷◌, ◌++◌, All-append,
  arith, ltb, ◌==◌,
}
use go2rtc_manager.Prelude.Text.{Text, codes}
use go2rtc_manager.Prelude.Paths.{slash}
use go2rtc_manager.Prelude.Paths.Words.{HasNoSlash}
use go2rtc_manager.Prelude.Decimal.{print_digits, print_nat}
use go2rtc_manager.Time.{Time}
use go2rtc_manager.Time.Format.{second, date_of, pad2, pad4, utc_stamp}

print_digits-HasNoSlash :
    (fuel n : ℕ) (s : Text) → HasNoSlash s → HasNoSlash (print_digits fuel n s)
unfolding print_digits
print_digits-HasNoSlash zero n s h = h
print_digits-HasNoSlash (suc fuel) n s h = elim (Bool-cases (ltb n 10)) [
  | inl e ↦ rw e (ground arith, h)
  | inr e ↦ rw e (print_digits-HasNoSlash fuel (n / 10) ((b'0' + n % 10) ∷ s) (ground arith, h))
]

pub print_nat-HasNoSlash : (n : ℕ) → HasNoSlash (print_nat n)
unfolding print_nat
print_nat-HasNoSlash n = print_digits-HasNoSlash (suc n) n [] tt

pub pad2-HasNoSlash : (n : ℕ) → HasNoSlash (pad2 n)
unfolding pad2
pad2-HasNoSlash n = elim (Bool-cases (ltb n 10)) [
  | inl e ↦ rw e (refl, print_nat-HasNoSlash n)
  | inr e ↦ rw e (print_nat-HasNoSlash n)
]

pad4-HasNoSlash : (n : ℕ) → HasNoSlash (pad4 n)
unfolding pad4
pad4-HasNoSlash n = elim (Bool-cases (ltb n 100)) [
  | inl e ↦ rw e (refl, (refl, pad2-HasNoSlash n))
  | inr e ↦ elim (Bool-cases (ltb n 1000)) [
    | inl f ↦ rw (e, f) (refl, print_nat-HasNoSlash n)
    | inr f ↦ rw (e, f) (print_nat-HasNoSlash n)
  ]
]

pub glue : (a b : Text) → HasNoSlash a → HasNoSlash b → HasNoSlash (a ++ b)
glue = All-append (λ c. (c == slash) ≡ false)

pub utc_stamp-HasNoSlash : (t : Time) → HasNoSlash (utc_stamp t)
unfolding utc_stamp
utc_stamp-HasNoSlash t =
    let s : ℕ = t / second in
    let r : ℕ = s % 86400 in
    let d = date_of (s / 86400) in
    glue (pad4 d.year) _ (pad4-HasNoSlash d.year) (
      glue (pad2 d.month) _ (pad2-HasNoSlash d.month) (
        glue (pad2 d.day) _ (pad2-HasNoSlash d.day) (
          glue (codes "T") _ (refl, tt)
            (glue (pad2 (r / 3600)) _ (pad2-HasNoSlash (r / 3600)) (
              glue (pad2 (r / 60 % 60)) _ (pad2-HasNoSlash (r / 60 % 60))
                (glue (pad2 (r % 60)) (codes "Z") (pad2-HasNoSlash (r % 60)) (refl, tt)))))))
