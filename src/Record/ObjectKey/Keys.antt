-- ===== src/Record/ObjectKey/Keys.antt =====
-- actor/RecordActor.go: the form of the object keys that `buildRecordObjectKey` makes.
use go2rtc_manager.Prelude.{
  ◌≤◌, ◌≡◌, refl, sym, ◌∙◌, ap, subst, Bool-cases, false, [], ◌∷◌, ◌++◌, inl, inr, length,
  length-append, arith,
}
use go2rtc_manager.Prelude.Results.{Result, ok, err, Result-cases}
use go2rtc_manager.Prelude.Text.{Text, codes, text_eq, is_empty, trim_space, replace_chars}
use go2rtc_manager.Prelude.Paths.Words.{HasNoSlash, IsWord, between, path_join-words, path_join-up}
use go2rtc_manager.Time.Format.NoSlash.{glue, utc_stamp-HasNoSlash}
use go2rtc_manager.Time.{Time}
use go2rtc_manager.Time.Format.{utc_stamp}
use go2rtc_manager.Record.ObjectKey.{
  is_separator, sanitize_object_key_segment, record_filename, build_record_object_key,
}

record_filename-HasNoSlash :
    (cam record_type : Text) (t : Time)
    → HasNoSlash cam
    → HasNoSlash record_type
    → HasNoSlash (record_filename cam record_type t)
unfolding record_filename
record_filename-HasNoSlash cam record_type t hc ht = glue cam _ hc (
  refl,
  glue record_type _ ht
      (refl, glue (utc_stamp t) _ (utc_stamp-HasNoSlash t) (refl, (refl, (refl, (refl, tt))))),
)

replaced-HasNoSlash : (s : Text) → HasNoSlash (replace_chars is_separator b'_' s)
unfolding replace_chars
replaced-HasNoSlash [] = tt
replaced-HasNoSlash (c ∷ s) = (ground arith, replaced-HasNoSlash s)

replaced-given : (s : Text) → is_empty (replace_chars is_separator b'_' s) ≡ is_empty s
unfolding replace_chars
replaced-given [] = refl
replaced-given (c ∷ s) = refl

-- A segment of the key: not empty, and without a slash.
record IsSegment (w : Text) : Type 0 where
  given : is_empty w ≡ false
  one : HasNoSlash w

sanitize-IsSegment :
    (value name w : Text) → sanitize_object_key_segment value name ≡ ok w → IsSegment w
unfolding sanitize_object_key_segment
sanitize-IsSegment value name w h = elim (Bool-cases (is_empty (trim_space value))) [
  | inl e ↦ absurd (no_value (rw (e, sanitize_object_key_segment) at h))
  | inr e ↦
      subst (λ x. IsSegment x) (segment_of (rw (e, sanitize_object_key_segment) at h))
        (record {
          given = replaced-given (trim_space value) ∙ e;
          one = replaced-HasNoSlash (trim_space value);
        })
]
  where
    no_value : {e : Text} → err e ≡ ok w → ⊥
    no_value k = cc

    segment_of : {x : Text} → ok x ≡ ok w → x ≡ w
    segment_of k = cc

-- A long text is neither of the two names that `path.Clean` takes away.
long_name :
    (w : Text) → 3 ≤ length w → (text_eq w (codes ".") ≡ false) × (text_eq w (codes "..") ≡ false)
unfolding text_eq
long_name [] h = absurd (omega (arith, h))
long_name (a ∷ []) h = absurd (omega (arith, h))
long_name (a ∷ b ∷ []) h = absurd (omega (arith, h))
long_name (a ∷ b ∷ c ∷ w) h = (ground arith, ground arith)

record_filename-length :
    (cam record_type : Text) (t : Time) → 3 ≤ length (record_filename cam record_type t)
unfolding record_filename
record_filename-length cam record_type t = omega (
  arith,
  length-append cam (codes "_" ++ (record_type ++ (codes "_" ++ (utc_stamp t ++ codes ".mp4")))),
  length-append record_type (codes "_" ++ (utc_stamp t ++ codes ".mp4")),
  length-append (utc_stamp t) (codes ".mp4"),
)

given_of_length : (w : Text) → 3 ≤ length w → is_empty w ≡ false
given_of_length [] h = absurd (omega (arith, h))
given_of_length (c ∷ w) h = refl

record_filename-IsWord :
    (cam record_type : Text) (t : Time)
    → HasNoSlash cam
    → HasNoSlash record_type
    → IsWord (record_filename cam record_type t)
record_filename-IsWord cam record_type t hc ht =
    let long = record_filename-length cam record_type t in
    record {
      given = given_of_length _ long;
      one = record_filename-HasNoSlash cam record_type t hc ht;
      no_dot = (long_name _ long).0;
      no_dots = (long_name _ long).1;
    }

-- A segment is a word unless it is "." or "..".
abbrev pub IsPlain : Text → Type 0
IsPlain w = (text_eq w (codes ".") ≡ false) × (text_eq w (codes "..") ≡ false)

segment-IsWord : (w : Text) → IsSegment w → IsPlain w → IsWord w
segment-IsWord w s p = record { given = s.given; one = s.one; no_dot = p.0; no_dots = p.1 }

abbrev made : Text → Text → Result (Text × Text)
made key filename = ok (key, filename)

no_key : {e key filename : Text} → err e ≡ made key filename → ⊥
no_key h = cc

key_parts : {k n key filename : Text} → made k n ≡ made key filename → (k ≡ key) × (n ≡ filename)
key_parts h = (cc, cc)

-- If the site and the group, cleaned, are not "." or "..", and the type of the recording has no
-- slash, then the key of a recording is the cleaned site, the cleaned group and the file name with
-- slashes between them, and the file name has no slash.
pub build_record_object_key-between :
    (site group cam_id record_type : Text) (t : Time) (s g key filename : Text)
    → sanitize_object_key_segment site (codes "site") ≡ ok s
    → IsPlain s
    → sanitize_object_key_segment group (codes "group") ≡ ok g
    → IsPlain g
    → HasNoSlash record_type
    → build_record_object_key site group cam_id record_type t ≡ ok (key, filename)
    → (key ≡ between s g filename) × HasNoSlash filename
unfolding build_record_object_key
build_record_object_key-between site group cam_id record_type t s g key filename hs ps hg pg ht h =
    elim (Result-cases (sanitize_object_key_segment cam_id (codes "cam_id"))) [
      | inr (e, f) ↦ absurd (no_key (rw (hs, hg, f, build_record_object_key) at h))
      | inl (cam, f) ↦
          let name = record_filename cam record_type t in
          let (same_key, same_name) = key_parts (rw (hs, hg, f, build_record_object_key) at h) in
          let word : IsWord name =
            record_filename-IsWord cam record_type t
              (sanitize-IsSegment cam_id (codes "cam_id") cam f).one ht in
          (
            sym same_key
                ∙ path_join-words s g name
                    (segment-IsWord s (sanitize-IsSegment site (codes "site") s hs) ps)
                    (segment-IsWord g (sanitize-IsSegment group (codes "group") g hg) pg) word
                ∙ ap (λ n. between s g n) same_name,
            subst (λ n. HasNoSlash n) same_name word.one,
          )
    ]

-- If the group, cleaned, is "..", and the cleaned site is not "." or "..", and the type of the
-- recording has no slash, then the key of a recording is the file name alone: the site is lost.
pub build_record_object_key-drops_site :
    (site group cam_id record_type : Text) (t : Time) (s key filename : Text)
    → sanitize_object_key_segment site (codes "site") ≡ ok s
    → IsPlain s
    → sanitize_object_key_segment group (codes "group") ≡ ok (codes "..")
    → HasNoSlash record_type
    → build_record_object_key site group cam_id record_type t ≡ ok (key, filename)
    → key ≡ filename
unfolding build_record_object_key
build_record_object_key-drops_site site group cam_id record_type t s key filename hs ps hg ht h =
    elim (Result-cases (sanitize_object_key_segment cam_id (codes "cam_id"))) [
      | inr (e, f) ↦ absurd (no_key (rw (hs, hg, f, build_record_object_key) at h))
      | inl (cam, f) ↦
          let name = record_filename cam record_type t in
          let (same_key, same_name) = key_parts (rw (hs, hg, f, build_record_object_key) at h) in
          sym same_key
          ∙ path_join-up s name (segment-IsWord s (sanitize-IsSegment site (codes "site") s hs) ps)
              (record_filename-IsWord cam record_type t
                (sanitize-IsSegment cam_id (codes "cam_id") cam f).one ht)
          ∙ same_name
    ]
