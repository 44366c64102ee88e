-- ===== src/HttpServer/Durations.antt =====
-- httpserver/server.go: the duration in a response, and `time.ParseDuration` in `handleStartRecord`.
use go2rtc_manager.Prelude.{
  ℕ, ◌*◌, ◌<◌, ◌≡◌, refl, sym, ap, ◌∙◌, Bool-cases, true, inl, inr, [], arith, if◌then◌else◌,
}
use go2rtc_manager.Prelude.Int.{pos, ltb_ℤ}
use go2rtc_manager.Prelude.Results.{ok}
use go2rtc_manager.Prelude.Text.{Text, is_empty}
use go2rtc_manager.Time.Print.{print_duration}
use go2rtc_manager.Time.Parse.{bound, read_duration, result_of}
use go2rtc_manager.Time.Parse.Printed.{parse_duration-print_duration}
use go2rtc_manager.Message.{
  StartRecordResult, RecordJobStatusResult, Message, start_record_result, record_job_status_result,
}
use go2rtc_manager.HttpServer.Types.{answered}
use go2rtc_manager.HttpServer.Replies.{start_reply, job_reply, record_status_http_response}

module _ (scale_fraction : ℕ → ℕ → ℕ → ℕ) (s : ℕ) (some_second : 0 < s)
    (small : s * 1000000000 < bound) where
  printed_back :
      read_duration scale_fraction (print_duration (pos (s * 1000000000)))
      ≡ ok (pos (s * 1000000000))
  printed_back =
      ap (result_of scale_fraction)
        (parse_duration-print_duration scale_fraction s some_second small)

  start_duration :
      (asked : Message) (mac cam_id : Text) (r : StartRecordResult)
      → (start_reply asked mac cam_id (answered (start_record_result r))).response.duration
        ≡ print_duration r.duration
  unfolding start_reply
  start_duration asked mac cam_id r = elim (Bool-cases (is_empty r.error)) [
    | inl e ↦ rw (e, start_reply) refl
    | inr e ↦ rw (e, start_reply) refl
  ]

  job_duration :
      (asked : Message) (job_id : Text) (r : RecordJobStatusResult)
      → r.duration ≡ pos (s * 1000000000)
      → (job_reply asked job_id (answered (record_job_status_result r))).response.duration
        ≡ print_duration (pos (s * 1000000000))
  unfolding job_reply record_status_http_response
  job_duration asked job_id r e =
      let long : ltb_ℤ (pos 0) (pos (s * 1000000000)) ≡ true = ground arith in
      ap (λ d. if ltb_ℤ (pos 0) d then print_duration d else []) e ∙ rw long refl

  -- A duration that the server prints can be sent back to it: if a job's duration is a whole number of
  -- seconds, at least one and below 2^63 nanoseconds, then `time.ParseDuration`, with which
  -- `POST /record` reads its duration, reads the text in the response to a POST, accepted or refused
  -- by the record actor, and the text in the response to a GET, as that duration.
  pub read_duration-response :
      (asked : Message) (mac cam_id job_id : Text) (r : StartRecordResult)
      (j : RecordJobStatusResult)
      → r.duration ≡ pos (s * 1000000000)
      → j.duration ≡ pos (s * 1000000000)
      → (read_duration scale_fraction
            (start_reply asked mac cam_id (answered (start_record_result r))).response.duration
          ≡ ok r.duration)
        × (read_duration scale_fraction
              (job_reply asked job_id (answered (record_job_status_result j))).response.duration
            ≡ ok j.duration)
  read_duration-response asked mac cam_id job_id r j er ej = (
    ap (read_duration scale_fraction) (start_duration asked mac cam_id r ∙ ap print_duration er)
        ∙ printed_back
        ∙ ap ok (sym er),
    ap (read_duration scale_fraction) (job_duration asked job_id j ej)
        ∙ printed_back
        ∙ ap ok (sym ej),
  )
