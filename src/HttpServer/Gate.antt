-- ===== src/HttpServer/Gate.antt =====
-- httpserver/server.go: what a request must be before it reaches an actor.
use go2rtc_manager.Prelude.{ap, ◌∙◌, ◌≡◌, ◌⊎◌, inl, inr, true, none, some}
use go2rtc_manager.Prelude.Results.{Result}
use go2rtc_manager.Prelude.Text.{Text, CaseTable}
use go2rtc_manager.Time.{Time, Duration}
use go2rtc_manager.Config.{Config}
use go2rtc_manager.Message.{StartRecordRequest, Message, start_record_request}
use go2rtc_manager.HttpServer.Access.{allowed_of, record_access_allowed}
use go2rtc_manager.HttpServer.Types.{http_post, HttpRequest, StartRecordPayload, Future}
use go2rtc_manager.HttpServer.Handlers.{handle_start_record}
use go2rtc_manager.HttpServer.Referral.{IsSound, start_reply-asked, handle_start_record-refers}

module _ (cfg : Config) (table : CaseTable) (parse_duration : Text → Result Duration)
    (ask : Message → Future) (now : Time) where
  -- `POST /record` asks the actors for a recording only for a POST from an allowed address, with
  -- the type UI or BODYCAM, a MAC address and a camera, and a duration that is positive and at most
  -- `record.max_duration`. Every other request is answered with no message to an actor.
  pub handle_start_record-IsSound :
      (r : HttpRequest StartRecordPayload)
      → let served = handle_start_record cfg table parse_duration ask now r in
        (served.asked ≡ none)
        ⊎ ((r.method ≡ http_post)
            × (record_access_allowed (allowed_of cfg.recording.allowed_ips) r.remote_addr ≡ true)
            × ((m : StartRecordRequest) × (served.asked ≡ some (start_record_request m))
                × IsSound cfg m))
  handle_start_record-IsSound r =
      elim (handle_start_record-refers cfg table parse_duration ask now r) [
        | inl nothing ↦ inl nothing.0
        | inr (post, let_in, (m, same, sound)) ↦ inr (
          post,
          let_in,
          (
            m,
            ap (λ s. s.asked) same
                ∙ start_reply-asked (start_record_request m) m.mac m.cam_id
                    (ask (start_record_request m)),
            sound,
          ),
        )
      ]
