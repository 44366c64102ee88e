-- ===== src/Prelude/Decimal.antt =====
-- The decimal digits of a number, as `%d` prints them. The fuel is the number itself, which bounds
-- its digits.
use Prim.Native.Nat.{ℕ, zero, suc, ◌+◌, ◌/◌, ◌%◌, ◌<◌}
use mathlib.Core.Path.{◌≡◌, refl}
use mathlib.Core.List.{[], ◌∷◌}
use go2rtc_manager.Prelude.Tests.{ltb, if◌then◌else◌, Bool-cases}
use mathlib.Core.Logic.{inl, inr}
use native.Mathlib.Omega.{arith}
use go2rtc_manager.Prelude.Text.{Text, codes}

-- The digits of `n` in front of those that are there.
unfoldable pub print_digits : ℕ → ℕ → Text → Text
print_digits zero n s = s
print_digits (suc fuel) n s =
    let more = print_digits fuel (n / 10) ((b'0' + n % 10) ∷ s) in
    if ltb n 10 then (b'0' + n) ∷ s else more

-- With fuel above the number, more fuel changes nothing: the digits never run out.
print_digits-enough :
    (fuel n : ℕ) (s : Text) → n < fuel → print_digits (suc fuel) n s ≡ print_digits fuel n s
unfolding print_digits
print_digits-enough zero n s h = absurd (omega (arith, h))
print_digits-enough (suc fuel) n s h = elim (Bool-cases (ltb n 10)) [
  | inl e ↦ rw e refl
  | inr e ↦ rw (e, print_digits-enough fuel (n / 10) ((b'0' + n % 10) ∷ s) (ground arith)) refl
]

unfoldable pub print_nat : ℕ → Text
unfolding print_digits
print_nat n = print_digits (suc n) n []

print_nat_tests : (print_nat 0 ≡ codes "0") × (print_nat 404 ≡ codes "404")
unfolding print_nat
print_nat_tests = (refl, refl)
