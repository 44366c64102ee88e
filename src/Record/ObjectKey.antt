-- ===== src/Record/ObjectKey.antt =====
-- actor/RecordActor.go: `buildRecordObjectKey` and `sanitizeObjectKeySegment`.
pub mod Keys
use go2rtc_manager.Prelude.{ℕ, Bool, ◌||◌, [], ◌∷◌, ◌++◌, ◌==◌, if◌then◌else◌}
use go2rtc_manager.Prelude.Results.{Result, ok, err, ◌>>=◌}
use go2rtc_manager.Prelude.Text.{Text, codes, is_empty, trim_space, replace_chars}
use go2rtc_manager.Prelude.Paths.{path_join}
use go2rtc_manager.Time.{Time}
use go2rtc_manager.Time.Format.{utc_stamp}

-- `/` and `\`, which the replacer turns into `_`.
abbrev pub is_separator : ℕ → Bool
is_separator c = (c == b'/') || (c == 92)

unfoldable pub sanitize_object_key_segment : Text → Text → Result Text
unfolding trim_space replace_chars
sanitize_object_key_segment value field_name =
    let trimmed = trim_space value in
    if is_empty trimmed
    then err (field_name ++ codes " is required for record object key")
    else ok (replace_chars is_separator b'_' trimmed)

-- `fmt.Sprintf("%s_%s_%s.mp4", …)`
unfoldable pub record_filename : Text → Text → Time → Text
record_filename cam_segment record_type started_at =
    cam_segment
    ++ (codes "_" ++ (record_type ++ (codes "_" ++ (utc_stamp started_at ++ codes ".mp4"))))

-- The object key and the file name.
unfoldable pub build_record_object_key : Text → Text → Text → Text → Time → Result (Text × Text)
unfolding sanitize_object_key_segment record_filename path_join
build_record_object_key site group cam_id record_type started_at = do
  site_segment ← sanitize_object_key_segment site (codes "site")
  group_segment ← sanitize_object_key_segment group (codes "group")
  cam_segment ← sanitize_object_key_segment cam_id (codes "cam_id")
  let filename = record_filename cam_segment record_type started_at
  ok (path_join (site_segment ∷ group_segment ∷ filename ∷ []), filename)
