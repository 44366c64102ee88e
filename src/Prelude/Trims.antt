-- ===== src/Prelude/Trims.antt =====
-- `strings.TrimSpace` on a text that is trimmed.
use go2rtc_manager.Prelude.{◌≡◌, refl, ap, ◌∙◌, Bool-cases, inl, inr, false, ◌&&◌, [], ◌∷◌}
use go2rtc_manager.Prelude.Text.{Text, is_empty, is_space, trim_left, trim_right, trim_space}

-- A text does not begin with a space.
abbrev Starts : Text → Type 0
Starts [] = Unit
Starts (c ∷ s) = is_space c ≡ false

trim_left-Starts : (s : Text) → Starts (trim_left s)
unfolding trim_left
trim_left-Starts [] = tt
trim_left-Starts (c ∷ s) = elim (Bool-cases (is_space c)) [
  | inl e ↦ rw (e, trim_left) (trim_left-Starts s)
  | inr e ↦ rw (e, trim_left) e
]

trim_left-same : (s : Text) → Starts s → trim_left s ≡ s
unfolding trim_left
trim_left-same [] h = refl
trim_left-same (c ∷ s) h = rw h refl

trim_right-Starts : (s : Text) → Starts s → Starts (trim_right s)
unfolding trim_right
trim_right-Starts [] h = tt
trim_right-Starts (c ∷ s) h = rw h h

trim_right_idem : (s : Text) → trim_right (trim_right s) ≡ trim_right s
unfolding trim_right
trim_right_idem [] = refl
trim_right_idem (c ∷ s) = elim (Bool-cases (is_space c && is_empty (trim_right s))) [
  | inl e ↦ rw (e, trim_right) refl
  | inr e ↦ rw (e, trim_right, trim_right_idem s, e) refl
]

pub trim_space_idem : (s : Text) → trim_space (trim_space s) ≡ trim_space s
unfolding trim_space
trim_space_idem s =
    ap trim_right (
      trim_left-same (trim_right (trim_left s))
        (trim_right-Starts (trim_left s) (trim_left-Starts s)))
    ∙ trim_right_idem (trim_left s)
