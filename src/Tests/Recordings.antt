-- ===== src/Tests/Recordings.antt =====
-- The record actor at concrete requests (actor/RecordActor.go).
use go2rtc_manager.Prelude.{ℕ, ◌≤◌, ◌≡◌, ◌⊎◌, refl, true, List, [], ◌∷◌, ◌++◌, some, arith}
use go2rtc_manager.Prelude.Results.{Result, ok}
use go2rtc_manager.Prelude.Text.{codes, text_eq, is_space, contains}
use go2rtc_manager.Prelude.Maps.{lookup, has}
use go2rtc_manager.Net.Ip.{parse_ip}
use go2rtc_manager.Time.{Time}
use go2rtc_manager.Time.Format.{utc_stamp}
use go2rtc_manager.Message.{
  StartRecordRequest, StartRecordResult, start_record_request, start_record_result,
  record_job_status_result, RecordJobStatusResult,
}
use go2rtc_manager.Effect.{respond, Context}
use go2rtc_manager.Record.{RecordActor, new_record_actor, new_job, active_record_jobs, receive}
use go2rtc_manager.Record.Jobs.{RecordJob}
use go2rtc_manager.Record.Execute.{upload, execute_record}
use go2rtc_manager.Record.Concurrency.{Recording, World, resume, Step, Reach, here, next, requests}
use go2rtc_manager.Record.Concurrency.Steps.{initial}
use go2rtc_manager.Record.Concurrency.Bound.{active_record_jobs-le-max}
use go2rtc_manager.Record.Concurrency.Drain.{Drain, active_record_jobs-drains}
use go2rtc_manager.Record.Concurrency.Life.{Life, board_of}
use go2rtc_manager.Record.Concurrency.Refines.{Step-refines-Board}
use go2rtc_manager.Record.Lookups.{IsMap}
use go2rtc_manager.Record.Lifecycle.{answer_to_get}
use go2rtc_manager.Record.Visibility.{Visible, receive-Visible}
use go2rtc_manager.Record.Submission.{Refused, Accepted, receive-answers_start}
use go2rtc_manager.Record.Settlement.{after_messages, Settled, execute_record-Settled}
use go2rtc_manager.Record.Bucket.{normalize_bucket_name}
use go2rtc_manager.Record.Bucket.Names.{IsBucketName, normalize_bucket_name-IsBucketName}
use go2rtc_manager.Record.Bucket.Spellings.{Spells, normalize_bucket_name-Spells}
use go2rtc_manager.Prelude.Paths.Words.{HasNoSlash, between}
use go2rtc_manager.Record.ObjectKey.{build_record_object_key, sanitize_object_key_segment}
use go2rtc_manager.Record.ObjectKey.Keys.{
  IsPlain, build_record_object_key-between, build_record_object_key-drops_site,
}
use go2rtc_manager.Tests.Sample.{sample_config, seconds, good_api, good_store, ascii_table}

abbrev ctx : Context
ctx = record { self = 4; parent = 0; now = 63000000000000000000 }

abbrev random : Result (List ℕ)
random = ok (1 ∷ 2 ∷ 3 ∷ 254 ∷ [])

abbrev request : StartRecordRequest
request = record {
  type = codes "UI";
  mac = codes "aa:bb";
  cam_id = codes "cam1";
  duration = seconds 10;
  requested_at = 0;
}

abbrev fresh : RecordActor
fresh = new_record_actor sample_config (ok tt) (ok tt)

abbrev world : World
world = record {
  api = good_api;
  store = good_store;
  table = ascii_table;
  started_at = 63000000000000000000;
  completed_at = 63000000010000000000;
}

abbrev one_job : Recording
one_job = resume world (receive ctx random (start_record_request request) fresh) []

first-Step : Step (initial sample_config (ok tt) (ok tt)) one_job
unfolding new_record_actor receive
first-Step = requests world ctx random request (tt, tt)

one_job-Reach : Reach (initial sample_config (ok tt) (ok tt)) one_job
one_job-Reach = next here first-Step

active_record_jobs-le-max_example : active_record_jobs one_job.actor ≤ 1
active_record_jobs-le-max_example =
    active_record_jobs-le-max 1 sample_config (ok tt) (ok tt) refl one_job-Reach

active_record_jobs-drains_example :
    (t : Recording) × Drain one_job t × (active_record_jobs t.actor ≡ 0)
active_record_jobs-drains_example =
    active_record_jobs-drains 1 sample_config (ok tt) (ok tt) refl one_job-Reach world ctx random

Step-refines-Board_example :
    Life (board_of fresh.jobs (codes "record_1")) (board_of one_job.actor.jobs (codes "record_1"))
Step-refines-Board_example =
    Step-refines-Board 1 sample_config (ok tt) (ok tt) refl here first-Step (codes "record_1")

receive-answers_start_example :
    (r : StartRecordResult) × ((receive ctx random (start_record_request request) fresh).effects
      ≡ respond (start_record_result r) ∷ [])
    × (Refused ctx fresh (receive ctx random (start_record_request request) fresh) r
        ⊎ Accepted request (receive ctx random (start_record_request request) fresh) r)
receive-answers_start_example = receive-answers_start ctx random request fresh

abbrev stored : RecordJob
stored = new_job request (codes "record_1")

-- An actor that holds one accepted job.
abbrev holding : RecordActor
holding = record { config = sample_config; jobs = (codes "record_1", stored) ∷ []; init_error = [] }

holding_IsMap : IsMap holding.jobs
unfolding has
holding_IsMap = (refl, tt)

receive-Visible_example :
    (r : RecordJobStatusResult) × (answer_to_get ctx random (codes "record_1") holding
      ≡ respond (record_job_status_result r) ∷ [])
    × Visible ctx.now (seconds 3600) (codes "record_1") (lookup (codes "record_1") holding.jobs) r
receive-Visible_example = receive-Visible ctx random (codes "record_1") holding holding_IsMap

holding_found : lookup stored.job_id holding.jobs ≡ some stored
unfolding lookup text_eq new_job
holding_found = refl

execute_record-Settled_example :
    (final : RecordJob) × (lookup stored.job_id
        (after_messages ctx random
          (execute_record good_api good_store ascii_table sample_config 7 9 stored).1
          holding).jobs
      ≡ some final)
    × Settled stored (upload good_api good_store ascii_table sample_config 7 stored).1 7 9 final
execute_record-Settled_example =
    execute_record-Settled ctx random good_api good_store ascii_table sample_config 7 9 stored
      stored holding holding_found

bodycam_bucket :
    normalize_bucket_name ascii_table (codes " Bodycam_Prod ") ≡ ok (codes "bodycam-prod")
unfolding normalize_bucket_name contains parse_ip
bodycam_bucket = refl

normalize_bucket_name-IsBucketName_example : IsBucketName (codes "bodycam-prod")
normalize_bucket_name-IsBucketName_example =
    normalize_bucket_name-IsBucketName ascii_table (codes " Bodycam_Prod ") (codes "bodycam-prod")
      bodycam_bucket

one_space : is_space 32 ≡ true
unfolding is_space
one_space = refl

camera_Spells : Spells (codes "Bodycam_Prod") (codes "bodycam-prod")
camera_Spells = ground arith

normalize_bucket_name-Spells_example :
    normalize_bucket_name ascii_table (codes " " ++ (codes "Bodycam_Prod" ++ codes " "))
    ≡ ok (codes "bodycam-prod")
normalize_bucket_name-Spells_example =
    normalize_bucket_name-Spells ascii_table (codes " ") (codes "Bodycam_Prod") (codes " ")
      (codes "bodycam-prod") (one_space, tt) (one_space, tt) camera_Spells
      (normalize_bucket_name-IsBucketName ascii_table (codes " Bodycam_Prod ")
        (codes "bodycam-prod") bodycam_bucket)

abbrev key_time : Time
key_time = 63912781800000000000

key_made :
    build_record_object_key (codes "s1") (codes "g1") (codes "cam/1") (codes "UI") key_time
    ≡ ok (codes "s1/g1/cam_1_UI_20260426T063000Z.mp4", codes "cam_1_UI_20260426T063000Z.mp4")
unfolding build_record_object_key text_eq utc_stamp
key_made = refl

segments_made :
    (sanitize_object_key_segment (codes "s1") (codes "site") ≡ ok (codes "s1"))
    × IsPlain (codes "s1")
    × (sanitize_object_key_segment (codes "g1") (codes "group") ≡ ok (codes "g1"))
    × IsPlain (codes "g1")
    × (sanitize_object_key_segment (codes " .. ") (codes "group") ≡ ok (codes ".."))
unfolding sanitize_object_key_segment text_eq
segments_made = (refl, (refl, refl), refl, (refl, refl), refl)

build_record_object_key-between_example :
    (codes "s1/g1/cam_1_UI_20260426T063000Z.mp4"
      ≡ between (codes "s1") (codes "g1") (codes "cam_1_UI_20260426T063000Z.mp4"))
    × HasNoSlash (codes "cam_1_UI_20260426T063000Z.mp4")
build_record_object_key-between_example =
    build_record_object_key-between (codes "s1") (codes "g1") (codes "cam/1") (codes "UI") key_time
      (codes "s1") (codes "g1") (codes "s1/g1/cam_1_UI_20260426T063000Z.mp4")
      (codes "cam_1_UI_20260426T063000Z.mp4") segments_made.0 segments_made.1 segments_made.2
      segments_made.3 (refl, (refl, tt)) key_made

key_bare :
    build_record_object_key (codes "s1") (codes " .. ") (codes "cam/1") (codes "UI") key_time
    ≡ ok (codes "cam_1_UI_20260426T063000Z.mp4", codes "cam_1_UI_20260426T063000Z.mp4")
unfolding build_record_object_key text_eq utc_stamp
key_bare = refl

build_record_object_key-drops_site_example :
    codes "cam_1_UI_20260426T063000Z.mp4" ≡ codes "cam_1_UI_20260426T063000Z.mp4"
build_record_object_key-drops_site_example =
    build_record_object_key-drops_site (codes "s1") (codes " .. ") (codes "cam/1") (codes "UI")
      key_time (codes "s1") (codes "cam_1_UI_20260426T063000Z.mp4")
      (codes "cam_1_UI_20260426T063000Z.mp4") segments_made.0 segments_made.1 segments_made.4
      (refl, (refl, tt)) key_bare
