-- ===== src/Go2Rtc/Actor.antt =====
-- actor/Go2RTCActor.go: `Receive` and the methods that it calls.
pub mod Answers
pub mod Replies
pub mod Backup
use go2rtc_manager.Prelude.{
  ℕ, Bool, true, false, not, ◌||◌, List, [], ◌∷◌, ◌++◌, Option, none, some, ltb, leb, ◌==◌,
  if◌then◌else◌,
}
use go2rtc_manager.Prelude.Results.{Result, ok, err, wrap}
use go2rtc_manager.Prelude.Text.{Text, codes, trim_space}
use go2rtc_manager.Prelude.Decimal.{print_nat}
use go2rtc_manager.Time.{Time}
use go2rtc_manager.Config.{Config}
use go2rtc_manager.Message.{
  FetchStreamList, StreamListFetched, CheckStreamHealth, StreamHealthChecked, RemoveStream, Message,
  fetch_stream_list, stream_list_fetched, check_stream_health, stream_health_checked, remove_stream,
  stream_removed, stream_removal_completed,
}
use go2rtc_manager.Effect.{Effect, send, Context}
use go2rtc_manager.Go2Rtc.Yaml.{Node, Nodes, nil, content, find_streams_node, keys}
use go2rtc_manager.Go2Rtc.Payload.{Json, lookup_stream_payload, payload_has_producer}
use go2rtc_manager.Go2Rtc.Calls.{
  Method, get, delete, Response, Call, reads_file, writes_file, Api, Io, after, ◌>>=◌, ◌>>◌, lift,
  call, request_go2rtc,
}

pub record Go2RtcActor : Type 0 where
  pub config : Config

-- `statusCode < 200 || statusCode >= 300`
abbrev pub is_failure : ℕ → Bool
is_failure status = ltb status 200 || leb 300 status

-- `fmt.Errorf("unexpected status %d: %s", statusCode, strings.TrimSpace(string(body)))`
unfoldable pub unexpected_status : ℕ → Text → Text
unexpected_status status body =
    codes "unexpected status " ++ (print_nat status ++ (codes ": " ++ trim_space body))

-- The body and the status of the answer. The source returns the status beside a read error too,
-- and no caller looks at it then.
unfoldable pub do_streams_api_request : Api → Go2RtcActor → Method → Text → Io (Text × ℕ)
unfolding request_go2rtc
do_streams_api_request api a method stream_name = do
  response ←
      request_go2rtc api a.config.go2rtc method (codes "/api/streams")
        ((codes "src", stream_name) ∷ []) (codes "build request: ") (codes "call go2rtc api: ")
  body ← lift (wrap (codes "read response: ") response.body)
  lift (ok (body, response.status_code))

-- The end of `hasProducer`: the stream's own part of the answer, if there is one.
unfoldable pub producer_in : Json → Text → Bool
unfolding lookup_stream_payload payload_has_producer
producer_in payload stream_name = elim (lookup_stream_payload payload stream_name) [
  | some stream_payload ↦ payload_has_producer stream_payload
  | none ↦ payload_has_producer payload
]

-- What `hasProducer` makes of an answer.
unfoldable pub read_health : Api → Text → Text × ℕ → Result Bool
unfolding unexpected_status producer_in
read_health api stream_name (body, status) =
    if status == 404
    then ok false
    else if is_failure status
    then err (unexpected_status status body)
    else elim (api.parse_json body) [
      | ok payload ↦ ok (producer_in payload stream_name)
      | err e ↦ err (codes "decode response: " ++ e)
    ]

unfoldable pub has_producer : Api → Go2RtcActor → Text → Io Bool
unfolding do_streams_api_request read_health
has_producer api a stream_name = do
  answer ← do_streams_api_request api a get stream_name
  lift (read_health api stream_name answer)

-- `createBackup`, at the time `now`.
unfoldable pub create_backup : Api → Time → Go2RtcActor → Io (Unit {0})
create_backup api now a = do
  let path = a.config.go2rtc.config_path
  raw ← call (reads_file path) (wrap (codes "read config for backup: ") (api.read_file path))
  let backup_path = path ++ (codes "." ++ (api.local_stamp now ++ codes ".bak"))
  call (writes_file backup_path raw)
      (wrap (codes "write backup file: ") (api.write_file backup_path raw))

-- What `removeStream` makes of an answer.
unfoldable pub read_removal : Text × ℕ → Result Bool
unfolding unexpected_status
read_removal (body, status) =
    if status == 404
    then ok false
    else if is_failure status
    then err (unexpected_status status body)
    else ok true

unfoldable pub backup_if_asked : Api → Time → Go2RtcActor → Io (Unit {0})
unfolding create_backup
backup_if_asked api now a =
    if a.config.go2rtc.backup_before_change then create_backup api now a else lift (ok tt)

unfoldable pub remove_stream_call : Api → Time → Go2RtcActor → Text → Io Bool
unfolding backup_if_asked do_streams_api_request read_removal
remove_stream_call api now a stream_name = do
  backup_if_asked api now a
  answer ← do_streams_api_request api a delete stream_name
  lift (read_removal answer)

-- `len(root.Content) == 0`
abbrev pub is_nil : Nodes → Bool
is_nil nil = true
is_nil _ = false

unfoldable pub load_config_document : Api → Go2RtcActor → Io Node
load_config_document api a = do
  let path = a.config.go2rtc.config_path
  raw ← call (reads_file path) (wrap (codes "read go2rtc config: ") (api.read_file path))
  root ← lift (wrap (codes "parse go2rtc config yaml: ") (api.parse_yaml raw))
  lift (if is_nil (content root) then err (codes "go2rtc config is empty") else ok root)

-- The names in the `streams` section; `none` if the search for it panics.
unfoldable pub names_in : Result Node → Option (Result (List Text))
unfolding find_streams_node keys
names_in (err e) = some (err e)
names_in (ok root) = elim (find_streams_node root) [
  | none ↦ none
  | some (err e) ↦ some (err e)
  | some (ok streams) ↦ some (ok (keys (content streams)))
]

unfoldable pub list_stream_names : Api → Go2RtcActor → List Call × Option (Result (List Text))
unfolding load_config_document names_in
list_stream_names api a = let (calls, root) = load_config_document api a in (calls, names_in root)

-- The case `FetchStreamList` of `Receive`. A panic ends it before it sends anything.
unfoldable pub answer_list : Context → FetchStreamList → Option (Result (List Text)) → List Effect
answer_list ctx msg none = []
answer_list ctx msg (some (err e)) =
    send ctx.parent (
      stream_list_fetched (record {
        triggered_at = msg.triggered_at;
        streams = [];
        requested_by = msg.requested_by;
        error = e;
      }))
    ∷ []
answer_list ctx msg (some (ok streams)) =
    send ctx.parent (
      stream_list_fetched (record {
        triggered_at = msg.triggered_at;
        streams = streams;
        requested_by = msg.requested_by;
        error = [];
      }))
    ∷ []

-- The answer to `CheckStreamHealth` in both of its branches.
unfoldable pub health_checked : Context → CheckStreamHealth → Bool → Text → StreamHealthChecked
health_checked ctx msg found e = record {
  stream_name = msg.stream_name;
  triggered_at = msg.triggered_at;
  attempt = msg.attempt;
  has_producer = found;
  checked_at = ctx.now;
  requested_by = msg.requested_by;
  confirm_after = msg.confirm_after;
  error = e;
}

-- The case `CheckStreamHealth` of `Receive`.
unfoldable pub answer_health : Context → CheckStreamHealth → Result Bool → List Effect
unfolding health_checked
answer_health ctx msg (err e) =
    send ctx.parent (stream_health_checked (health_checked ctx msg false e)) ∷ []
answer_health ctx msg (ok found) =
    send ctx.parent (stream_health_checked (health_checked ctx msg found [])) ∷ []

-- The case `RemoveStream` of `Receive`.
unfoldable pub answer_removal : Context → RemoveStream → Result Bool → List Effect
answer_removal ctx msg (err e) =
    send ctx.parent (
      stream_removal_completed (record {
        stream_name = msg.stream_name;
        triggered_at = msg.triggered_at;
        removed = false;
        removed_at = 0;
        error = e;
      }))
    ∷ []
answer_removal ctx msg (ok false) =
    send ctx.parent (
      stream_removal_completed (record {
        stream_name = msg.stream_name;
        triggered_at = msg.triggered_at;
        removed = false;
        removed_at = 0;
        error = [];
      }))
    ∷ []
answer_removal ctx msg (ok true) =
    send ctx.parent
      (stream_removed (record { stream_name = msg.stream_name; removed_at = ctx.now }))
    ∷ send ctx.parent (
        stream_removal_completed (record {
          stream_name = msg.stream_name;
          triggered_at = msg.triggered_at;
          removed = true;
          removed_at = ctx.now;
          error = [];
        }))
    ∷ []

unfoldable pub receive : Api → Context → Message → Go2RtcActor → List Call × List Effect
unfolding list_stream_names answer_list has_producer answer_health remove_stream_call answer_removal
receive api ctx (fetch_stream_list msg) a =
    let (calls, streams) = list_stream_names api a in (calls, answer_list ctx msg streams)
receive api ctx (check_stream_health msg) a =
    let (calls, found) = has_producer api a msg.stream_name in (calls, answer_health ctx msg found)
receive api ctx (remove_stream msg) a =
    let (calls, removed) = remove_stream_call api ctx.now a msg.stream_name in
    (calls, answer_removal ctx msg removed)
receive api ctx _ a = ([], [])
