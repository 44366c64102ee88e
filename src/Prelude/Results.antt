-- ===== src/Prelude/Results.antt =====
-- Go's pair of a value and an `error`: a value, or the text of an error that is not nil.
use mathlib.Core.Path.{◌≡◌, refl}
use mathlib.Core.List.{List, ◌++◌}
use mathlib.Core.Logic.{◌⊎◌, inl, inr}
use Prim.Native.Nat.{ℕ}

pub data Result {ℓ} (A : Type ℓ) : Type ℓ where
  ok : A → Result A
  err : List ℕ → Result A

module _ {ℓ} {A : Type ℓ} where
  -- `fmt.Errorf("…: %w", err)`: the error's text behind a prefix.
  abbrev pub wrap : List ℕ → Result A → Result A
  wrap prefix (ok a) = ok a
  wrap prefix (err e) = err (prefix ++ e)

  pub Result-cases : (r : Result A) → ((a : A) × (r ≡ ok a)) ⊎ ((e : List ℕ) × (r ≡ err e))
  Result-cases (ok a) = inl (a, refl)
  Result-cases (err e) = inr (e, refl)

module _ {ℓ κ} {A : Type ℓ} {B : Type κ} where
  infixl 5 ◌>>=◌
  -- `if err != nil { return err }`, and then the next step on the value.
  abbrev pub ◌>>=◌ : Result A → (A → Result B) → Result B
  err text >>= next = err text
  ok value >>= next = next value

  -- A chain that ends well: its first step did, and so did the next one on that value.
  pub >>=-eq-ok :
      (first : Result A) (next : A → Result B) {end : B}
      → (first >>= next) ≡ ok end
      → (value : A) × (first ≡ ok value) × (next value ≡ ok end)
  >>=-eq-ok (err text) next h = cc
  >>=-eq-ok (ok value) next h = (value, refl, h)
