-- ===== src/Record/Execute.antt =====
-- actor/RecordActor.go: `executeRecord`, the goroutine of a job, with `LookupBodycamInfo`,
-- `fetchRecordStream`, `EnsureBucket` and `PutObject`. MongoDB and MinIO are what a `Store` answers.
use go2rtc_manager.Prelude.{
  ℕ, suc, ◌+◌, ◌-◌, ◌/◌, Bool, true, false, ◌||◌, List, [], ◌∷◌, ◌++◌, Option, none, some, ltb, leb,
  if◌then◌else◌,
}
use go2rtc_manager.Prelude.Int.{ℤ, pos, negsuc, ltb_ℤ}
use go2rtc_manager.Prelude.Results.{Result, ok, err, wrap}
use go2rtc_manager.Prelude.Text.{Text, CaseTable, codes, is_empty, trim_space}
use go2rtc_manager.Prelude.Decimal.{print_nat}
use go2rtc_manager.Time.{Time, Duration}
use go2rtc_manager.Config.{Config}
use go2rtc_manager.Message.{Message, record_job_running, record_job_completed, record_job_failed}
use go2rtc_manager.Go2Rtc.Calls.{
  get, Response, Call, makes_bucket, puts_object, Api, Io, ◌>>=◌, ◌>>◌, lift, call, request_go2rtc,
}
use go2rtc_manager.Record.Jobs.{RecordJob}
use go2rtc_manager.Record.Bucket.{normalize_bucket_name}
use go2rtc_manager.Record.ObjectKey.{build_record_object_key}

pub record BodycamInfo : Type 0 where
  pub process : Text
  pub site : Text
  pub group : Text

-- What the clients of MongoDB and MinIO answer.
pub record Store : Type 0 where
  -- `FindOne(…).Decode(&info)` of a MAC address: `none` is `mongo.ErrNoDocuments`
  pub find_one : Text → Result (Option BodycamInfo)
  pub bucket_exists : Text → Result Bool
  pub make_bucket : Text → Result (Unit {0})
  -- a bucket, a key, the body as it is read, a size and a content type
  pub put_object : Text → Text → Result Text → ℤ → Text → Result (Unit {0})

-- `LookupBodycamInfo`, from what the collection answers.
unfoldable pub lookup_bodycam_info : Result (Option BodycamInfo) → Result BodycamInfo
lookup_bodycam_info (err e) = err (codes "find bodycam info: " ++ e)
lookup_bodycam_info (ok none) = err (codes "mongo bodycam info not found")
lookup_bodycam_info (ok (some info)) =
    if is_empty info.process || is_empty info.site || is_empty info.group
    then err (codes "mongo bodycam info missing process, site, or group")
    else ok info

abbrev second : ℕ
second = 1000000000

-- `fmt.Sprintf("%d", int(math.Ceil(duration.Seconds())))`. The float64 seconds are exact enough for
-- every duration below 97 days.
unfoldable pub print_seconds : Duration → Text
print_seconds (pos n) = print_nat ((n + (second - 1)) / second)
print_seconds (negsuc n) =
    if ltb (suc n) second then codes "0" else codes "-" ++ print_nat (suc n / second)

-- What `fetchRecordStream` makes of an answer: an error unless the status is 2xx.
unfoldable pub check_record_answer : Response → Result Response
check_record_answer response =
    if ltb response.status_code 200 || leb 300 response.status_code
    then elim response.body [
      | err e ↦ err (codes "read record error response: " ++ e)
      | ok body ↦ err (
          codes "unexpected go2rtc record status "
          ++ (print_nat response.status_code ++ (codes ": " ++ trim_space body)))
    ]
    else ok response

unfoldable pub fetch_record_stream : Api → Config → Text → Duration → Text → Io Response
unfolding request_go2rtc print_seconds check_record_answer
fetch_record_stream api cfg cam_id duration filename = do
  response ←
      request_go2rtc api cfg.go2rtc get (codes "/api/stream.mp4")
        ((codes "src", cam_id)
          ∷ (codes "duration", print_seconds duration)
          ∷ (codes "filename", filename)
          ∷ [])
        (codes "build record request: ") (codes "call go2rtc record api: ")
  lift (check_record_answer response)

unfoldable pub ensure_bucket : Store → Text → Io (Unit {0})
ensure_bucket store bucket = elim (store.bucket_exists bucket) [
  | err e ↦ lift (err (codes "check minio bucket: " ++ e))
  | ok true ↦ lift (ok tt)
  | ok false ↦
      call (makes_bucket bucket) (wrap (codes "create minio bucket: ") (store.make_bucket bucket))
]

unfoldable pub put_object : Store → Text → Text → Result Text → ℤ → Text → Io (Unit {0})
put_object store bucket key body size content_type =
    call (puts_object bucket key size content_type)
      (wrap (codes "put minio object: ") (store.put_object bucket key body size content_type))

abbrev pub record_content_type : Text
record_content_type = codes "video/mp4"

-- `if size < 0 { size = -1 }`
abbrev pub object_size : ℤ → ℤ
object_size size = if ltb_ℤ size (pos 0) then negsuc 0 else size

-- What a finished upload leaves in the job.
pub record Upload : Type 0 where
  pub bucket : Text
  pub object_key : Text

-- `executeRecord` between its first and its last message.
unfoldable pub upload : Api → Store → CaseTable → Config → Time → RecordJob → Io Upload
unfolding lookup_bodycam_info normalize_bucket_name build_record_object_key fetch_record_stream
    ensure_bucket put_object
upload api store table cfg started_at job = do
  info ← lift (lookup_bodycam_info (store.find_one job.mac))
  bucket ← lift (normalize_bucket_name table info.process)
  (object_key, filename) ←
      lift (build_record_object_key info.site info.group job.cam_id job.type started_at)
  response ← fetch_record_stream api cfg job.cam_id job.duration filename
  ensure_bucket store bucket
  put_object store bucket object_key response.body (object_size response.content_length)
      record_content_type
  lift (ok (record { bucket = bucket; object_key = object_key }))

-- The last message of a job.
unfoldable pub verdict : Text → Time → Result Upload → Message
verdict job_id completed_at (err e) =
    record_job_failed (record { job_id = job_id; error = e; completed_at = completed_at })
verdict job_id completed_at (ok u) = record_job_completed (record {
  job_id = job_id;
  bucket = u.bucket;
  object_key = u.object_key;
  content_type = record_content_type;
  completed_at = completed_at;
})

-- `executeRecord`: the calls that it makes, and the messages that it sends to its actor in turn.
unfoldable pub execute_record :
    Api → Store → CaseTable → Config → Time → Time → RecordJob → List Call × List Message
unfolding upload verdict
execute_record api store table cfg started_at completed_at job =
    let (calls, result) = upload api store table cfg started_at job in
    (
      calls,
      record_job_running (record { job_id = job.job_id; started_at = started_at })
          ∷ verdict job.job_id completed_at result
          ∷ [],
    )
