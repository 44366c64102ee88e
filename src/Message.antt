-- ===== src/Message.antt =====
-- common/message.go: the messages that the actors exchange, and protoactor's own `Started` and
-- `Stopping`. A record for each struct, and one type with a constructor for each message.
-- `RequestedBy` holds `PID.String()`; a process is known here by its number `Pid`.
use go2rtc_manager.Prelude.{ℕ, Bool, List}
use go2rtc_manager.Prelude.Text.{Text}
use go2rtc_manager.Time.{Time, Duration}

abbrev pub Pid : Type 0
Pid = ℕ

pub record TriggerCleanup : Type 0 where
  pub reason : Text

pub record CleanupCycleStarted : Type 0 where
  pub triggered_at : Time
  pub reason : Text

pub record CountAliveStreamsStarted : Type 0 where
  pub triggered_at : Time
  pub reason : Text

pub record FetchStreamList : Type 0 where
  pub triggered_at : Time
  pub requested_by : Pid

pub record StreamListFetched : Type 0 where
  pub triggered_at : Time
  pub streams : List Text
  pub requested_by : Pid
  pub error : Text

pub record CheckStreamHealth : Type 0 where
  pub stream_name : Text
  pub triggered_at : Time
  pub attempt : ℕ
  pub requested_by : Pid
  pub confirm_after : Duration

pub record StreamHealthChecked : Type 0 where
  pub stream_name : Text
  pub triggered_at : Time
  pub attempt : ℕ
  pub has_producer : Bool
  pub checked_at : Time
  pub requested_by : Pid
  pub confirm_after : Duration
  pub error : Text

pub record RemoveStream : Type 0 where
  pub stream_name : Text
  pub triggered_at : Time

pub record StreamRemoved : Type 0 where
  pub stream_name : Text
  pub removed_at : Time

pub record StreamRemovalCompleted : Type 0 where
  pub stream_name : Text
  pub triggered_at : Time
  pub removed : Bool
  pub removed_at : Time
  pub error : Text

pub record ExecuteAction : Type 0 where
  pub stream_name : Text
  pub action : Text

pub record CleanupCycleFinished : Type 0 where
  pub triggered_at : Time
  pub reason : Text
  pub alive_streams : ℕ
  pub removed_streams : ℕ

pub record AliveStreamCountCalculated : Type 0 where
  pub triggered_at : Time
  pub reason : Text
  pub alive_streams : ℕ
  pub error : Text

pub record UpdateStreamCount : Type 0 where
  pub triggered_at : Time
  pub reason : Text
  pub alive_streams : ℕ

pub record CaptureSnapshotRequest : Type 0 where
  pub cam_id : Text
  pub requested_at : Time

pub record CaptureSnapshotResult : Type 0 where
  pub cam_id : Text
  pub requested_at : Time
  pub saved_path : Text
  pub status_code : ℕ
  pub error : Text

-- The four constants `recordStatus…` of actor/RecordActor.go; `unset` is the empty string.
pub data RecordStatus : Type 0 where
  unset accepted running completed failed : RecordStatus

pub record StartRecordRequest : Type 0 where
  pub type : Text
  pub mac : Text
  pub cam_id : Text
  pub duration : Duration
  pub requested_at : Time

pub record StartRecordResult : Type 0 where
  pub job_id : Text
  pub status : RecordStatus
  pub type : Text
  pub mac : Text
  pub cam_id : Text
  pub duration : Duration
  pub status_code : ℕ
  pub error : Text

pub record GetRecordJobRequest : Type 0 where
  pub job_id : Text

pub record RecordJobStatusResult : Type 0 where
  pub job_id : Text
  pub status : RecordStatus
  pub type : Text
  pub mac : Text
  pub cam_id : Text
  pub duration : Duration
  pub bucket : Text
  pub object_key : Text
  pub content_type : Text
  pub started_at : Time
  pub completed_at : Time
  pub error : Text
  pub status_code : ℕ

-- The three messages that a record job sends to its own actor (actor/RecordActor.go).
pub record RecordJobRunning : Type 0 where
  pub job_id : Text
  pub started_at : Time

pub record RecordJobCompleted : Type 0 where
  pub job_id : Text
  pub bucket : Text
  pub object_key : Text
  pub content_type : Text
  pub completed_at : Time

pub record RecordJobFailed : Type 0 where
  pub job_id : Text
  pub error : Text
  pub completed_at : Time

pub data Message : Type 0 where
  actor_started : Message
  actor_stopping : Message
  trigger_cleanup : TriggerCleanup → Message
  cleanup_cycle_started : CleanupCycleStarted → Message
  count_alive_streams_started : CountAliveStreamsStarted → Message
  fetch_stream_list : FetchStreamList → Message
  stream_list_fetched : StreamListFetched → Message
  check_stream_health : CheckStreamHealth → Message
  stream_health_checked : StreamHealthChecked → Message
  remove_stream : RemoveStream → Message
  stream_removed : StreamRemoved → Message
  stream_removal_completed : StreamRemovalCompleted → Message
  execute_action : ExecuteAction → Message
  cleanup_cycle_finished : CleanupCycleFinished → Message
  alive_stream_count_calculated : AliveStreamCountCalculated → Message
  update_stream_count : UpdateStreamCount → Message
  capture_snapshot_request : CaptureSnapshotRequest → Message
  capture_snapshot_result : CaptureSnapshotResult → Message
  start_record_request : StartRecordRequest → Message
  start_record_result : StartRecordResult → Message
  get_record_job_request : GetRecordJobRequest → Message
  record_job_status_result : RecordJobStatusResult → Message
  record_job_running : RecordJobRunning → Message
  record_job_completed : RecordJobCompleted → Message
  record_job_failed : RecordJobFailed → Message
