-- ===== src/Snapshot/Names.antt =====
-- actor/SnapshotActor.go: the file names that `sanitizeFileName` makes.
use go2rtc_manager.Prelude.{
  ℕ, ◌≡◌, ◌≢◌, ◌↔◌, ap, sym, ◌∙◌, subst, refl, arith, Bool, Bool-cases, true, false, ◌&&◌, [], ◌∷◌,
  inl, inr, All, if◌then◌else◌,
}
use go2rtc_manager.Prelude.Text.{
  Text, codes, is_empty, is_space, trim_left, trim_right, trim_space, replace_chars,
}
use go2rtc_manager.Prelude.Trims.{trim_space_idem}
use go2rtc_manager.Snapshot.{is_reserved, sanitize_file_name}

trim_left-allowed :
    (s : Text) → All (λ c. is_reserved c ≡ false) s → All (λ c. is_reserved c ≡ false) (trim_left s)
unfolding trim_left
trim_left-allowed [] h = h
trim_left-allowed (c ∷ s) h = elim (Bool-cases (is_space c)) [
  | inl e ↦ rw e (trim_left-allowed s h.1)
  | inr e ↦ rw e h
]

trim_right-allowed :
    (s : Text)
    → All (λ c. is_reserved c ≡ false) s
    → All (λ c. is_reserved c ≡ false) (trim_right s)
unfolding trim_right
trim_right-allowed [] h = h
trim_right-allowed (c ∷ s) h = elim (Bool-cases (is_space c && is_empty (trim_right s))) [
  | inl e ↦ rw e tt
  | inr e ↦ rw e (h.0, trim_right-allowed s h.1)
]

replaced-allowed : (s : Text) → All (λ c. is_reserved c ≡ false) (replace_chars is_reserved b'_' s)
unfolding replace_chars
replaced-allowed [] = tt
replaced-allowed (c ∷ s) = (kept (is_reserved c) refl, replaced-allowed s)
  where
    kept : (b : Bool) → is_reserved c ≡ b → is_reserved (if b then b'_' else c) ≡ false
    kept true e = refl
    kept false e = e

-- None of the reserved characters of file systems: `/ \ : * ? " < > |`.
abbrev pub IsPlain : ℕ → Type 0
IsPlain c =
    (c ≢ b'/')
    × (c ≢ 92)
    × (c ≢ b':')
    × (c ≢ b'*')
    × (c ≢ b'?')
    × (c ≢ 34)
    × (c ≢ b'<')
    × (c ≢ b'>')
    × (c ≢ b'|')

-- A name that a directory can hold as a file: not empty, without a reserved character, and without
-- a space at either end.
pub record IsFileName (name : Text) : Type 0 where
  pub filled : name ≢ []
  pub plain : All IsPlain name
  pub trimmed : trim_space name ≡ name

plain_iff : (c : ℕ) → (is_reserved c ≡ false) ↔ IsPlain c
plain_iff c = ground arith

allowed-plain : (s : Text) → All (λ c. is_reserved c ≡ false) s → All IsPlain s
allowed-plain [] h = tt
allowed-plain (c ∷ s) h = ((plain_iff c).0 h.0, allowed-plain s h.1)

plain-replaced : (s : Text) → All IsPlain s → replace_chars is_reserved b'_' s ≡ s
unfolding replace_chars
plain-replaced [] h = refl
plain-replaced (c ∷ s) h = rw ((plain_iff c).1 h.0, plain-replaced s h.1) refl

snapshot-IsFileName : IsFileName (codes "snapshot")
unfolding trim_space
snapshot-IsFileName = record {
  filled = λ e. cc;
  plain =
      allowed-plain (codes "snapshot")
        (refl, (refl, (refl, (refl, (refl, (refl, (refl, (refl, tt))))))));
  trimmed = refl;
}

made-IsFileName : (name : Text) → IsFileName (sanitize_file_name name)
unfolding sanitize_file_name trim_space
made-IsFileName name =
    go _ (trim_space_idem (replace_chars is_reserved b'_' name))
      (trim_right-allowed _ (trim_left-allowed _ (replaced-allowed name)))
  where
    go :
        (clean : Text)
        → trim_space clean ≡ clean
        → All (λ c. is_reserved c ≡ false) clean
        → IsFileName (if is_empty clean then codes "snapshot" else clean)
    go [] same h = snapshot-IsFileName
    go (c ∷ s) same h = record { filled = λ e. cc; plain = allowed-plain (c ∷ s) h; trimmed = same }

file_name-kept : (name : Text) → IsFileName name → sanitize_file_name name ≡ name
unfolding sanitize_file_name
file_name-kept name h = go _ (ap trim_space (plain-replaced name h.plain) ∙ h.trimmed)
  where
    go : (clean : Text) → clean ≡ name → (if is_empty clean then codes "snapshot" else clean) ≡ name
    go [] e = absurd (h.filled (sym e))
    go (c ∷ s) e = e

-- Whatever the camera's name: `sanitize_file_name` makes a name that is not empty, has none of
-- the characters `/ \ : * ? " < > |` and no space at either end; and it leaves a name as it is
-- exactly when the name is one already.
pub sanitize_file_name-IsFileName :
    (name : Text)
    → IsFileName (sanitize_file_name name) × (IsFileName name ↔ (sanitize_file_name name ≡ name))
sanitize_file_name-IsFileName name =
    (made-IsFileName name, (file_name-kept name, λ e. subst IsFileName e (made-IsFileName name)))
