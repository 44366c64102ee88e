-- ===== src/Prelude/Maps.antt =====
-- Go's `map[string]V` as an association list with at most one entry for a key: `insert` replaces.
use mathlib.Core.Path.{◌≡◌, refl}
use mathlib.Core.Bool.{Bool, true, false, not, ◌&&◌, ◌||◌}
use mathlib.Core.Option.{Option, none, some}
use mathlib.Core.List.{List, [], ◌∷◌}
use native.Mathlib.Omega.{arith}
use mathlib.Core.Logic.{inl, inr}
use go2rtc_manager.Prelude.Tests.{if◌then◌else◌, Bool-cases}
use go2rtc_manager.Prelude.Text.{Text, text_eq, text_eq_iff}

abbrev pub Map {ℓ} : Type ℓ → Type ℓ
Map V = List (Text × V)

module _ {ℓ} {V : Type ℓ} where
  unfoldable pub lookup : Text → Map V → Option V
  lookup k [] = none
  lookup k ((j, v) ∷ m) = if text_eq j k then some v else lookup k m

  unfoldable pub insert : Text → V → Map V → Map V
  insert k v [] = (k, v) ∷ []
  insert k v ((j, w) ∷ m) = if text_eq j k then (k, v) ∷ m else (j, w) ∷ insert k v m

  unfoldable pub delete : Text → Map V → Map V
  delete k [] = []
  delete k ((j, w) ∷ m) = let rest = delete k m in if text_eq j k then rest else (j, w) ∷ rest

  -- The second result of Go's `v, ok := m[k]`.
  unfoldable pub has : Text → Map V → Bool
  has k [] = false
  has k ((j, v) ∷ m) = text_eq j k || has k m

  pub lookup-insert :
      (j k : Text) (v : V) (m : Map V)
      → lookup j (insert k v m) ≡ (if text_eq k j then some v else lookup j m)
  unfolding lookup insert
  lookup-insert j k v [] = refl
  lookup-insert j k v ((i, w) ∷ m) =
      ground (arith, text_eq_iff k j, text_eq_iff i k, text_eq_iff i j, lookup-insert j k v m)

  pub lookup-delete :
      (j k : Text) (m : Map V) → lookup j (delete k m) ≡ (if text_eq k j then none else lookup j m)
  unfolding lookup delete
  lookup-delete j k [] = ground arith
  lookup-delete j k ((i, w) ∷ m) =
      ground (arith, text_eq_iff k j, text_eq_iff i k, text_eq_iff i j, lookup-delete j k m)

  pub has-insert :
      (j k : Text) (v : V) (m : Map V) → has j (insert k v m) ≡ (text_eq k j || has j m)
  unfolding has insert
  has-insert j k v [] = ground arith
  has-insert j k v ((i, w) ∷ m) =
      ground (arith, text_eq_iff k j, text_eq_iff i k, text_eq_iff i j, has-insert j k v m)

  pub has-delete : (j k : Text) (m : Map V) → has j (delete k m) ≡ (not (text_eq k j) && has j m)
  unfolding has delete
  has-delete j k [] = ground arith
  has-delete j k ((i, w) ∷ m) =
      ground (arith, text_eq_iff k j, text_eq_iff i k, text_eq_iff i j, has-delete j k m)

  pub lookup_of_has : (k : Text) (m : Map V) → has k m ≡ true → (v : V) × (lookup k m ≡ some v)
  unfolding has lookup
  lookup_of_has k [] h = cc
  lookup_of_has k ((j, v) ∷ m) h = elim (Bool-cases (text_eq j k)) [
    | inl e ↦ (v, rw e)
    | inr e ↦ let (w, found) = lookup_of_has k m (rw e at h) in (w, rw e found)
  ]
