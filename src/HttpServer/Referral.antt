-- ===== src/HttpServer/Referral.antt =====
-- httpserver/server.go: what `handleStartRecord` refuses by itself, and what it passes on.
use go2rtc_manager.Prelude.{
  ◌≡◌, ◌≢◌, refl, ◌⊎◌, inl, inr, Bool, Bool-cases, true, false, Option-cases, none, some, arith,
}
use go2rtc_manager.Prelude.Int.{pos, ◌≤ℤ◌, ◌<ℤ◌}
use go2rtc_manager.Prelude.Results.{Result, Result-cases}
use go2rtc_manager.Prelude.Text.{
  Text, CaseTable, codes, text_eq_iff, is_empty, trim_space, to_upper,
}
use go2rtc_manager.Time.{Time, Duration}
use go2rtc_manager.Config.{Config}
use go2rtc_manager.Message.{StartRecordRequest, Message, start_record_request, start_record_result}
use go2rtc_manager.HttpServer.Access.{allowed_of, record_access_allowed}
use go2rtc_manager.HttpServer.Types.{
  post_of_is_post, is_post, http_post, HttpRequest, StartRecordPayload, Served, RecordResponse,
  Future, answered, failed_with,
}
use go2rtc_manager.HttpServer.Replies.{start_reply}
use go2rtc_manager.HttpServer.Handlers.{
  payload_fault, duration_fault, ask_record, check_record, handle_start_record,
}

-- What the actor may rely on in a request to record.
pub record IsSound (cfg : Config) (m : StartRecordRequest) : Type 0 where
  pub type_known : (m.type ≡ codes "UI") ⊎ (m.type ≡ codes "BODYCAM")
  pub mac_given : is_empty m.mac ≡ false
  pub cam_given : is_empty m.cam_id ≡ false
  pub duration_positive : pos 0 <ℤ m.duration
  pub duration_bounded : m.duration ≤ℤ cfg.recording.max_duration

payload_fault-none :
    (record_type mac cam_id duration_text : Text)
    → payload_fault record_type mac cam_id duration_text ≡ none
    → ((record_type ≡ codes "UI") ⊎ (record_type ≡ codes "BODYCAM"))
      × (is_empty mac ≡ false)
      × (is_empty cam_id ≡ false)
unfolding payload_fault
payload_fault-none t m c d h =
    ground (arith, text_eq_iff t (codes "UI"), text_eq_iff t (codes "BODYCAM"))

duration_fault-none : (max d : Duration) → duration_fault max d ≡ none → (pos 0 <ℤ d) × (d ≤ℤ max)
unfolding duration_fault
duration_fault-none max d h = ground arith

pub start_reply-asked :
    (asked : Message) (mac cam : Text) (f : Future)
    → (start_reply asked mac cam f).asked ≡ some asked
unfolding start_reply
start_reply-asked asked mac cam (failed_with e) = refl
start_reply-asked asked mac cam (answered (start_record_result r)) = ground arith
start_reply-asked asked mac cam (answered _) = refl

module _ (cfg : Config) (table : CaseTable) (parse_duration : Text → Result Duration)
    (ask : Message → Future) (now : Time) where
  -- A handler refused a request by itself, or asked for a sound one and passed the answer on.
  abbrev Refers : Served RecordResponse → Type 0
  Refers served =
      ((served.asked ≡ none) × (served.status_code ≢ 202))
      ⊎ ((m : StartRecordRequest) × (served
            ≡ start_reply (start_record_request m) m.mac m.cam_id (ask (start_record_request m)))
          × IsSound cfg m)

  ask_record-Refers :
      (t mac cam : Text) (d : Duration)
      → (t ≡ codes "UI") ⊎ (t ≡ codes "BODYCAM")
      → is_empty mac ≡ false
      → is_empty cam ≡ false
      → Refers (ask_record cfg table parse_duration ask now t mac cam d)
  unfolding ask_record
  ask_record-Refers t mac cam d ht hm hc =
      elim (Option-cases (duration_fault cfg.recording.max_duration d)) [
        | inr (e, fault) ↦ rw (fault, ask_record) (inl (refl, ground arith))
        | inl fine ↦
            rw (fine, ask_record)
              (inr (
                record { type = t; mac = mac; cam_id = cam; duration = d; requested_at = now },
                refl,
                record {
                  type_known = ht;
                  mac_given = hm;
                  cam_given = hc;
                  duration_positive = (duration_fault-none cfg.recording.max_duration d fine).0;
                  duration_bounded = (duration_fault-none cfg.recording.max_duration d fine).1;
                },
              ))
      ]

  check_record-Refers :
      (p : StartRecordPayload) → Refers (check_record cfg table parse_duration ask now p)
  unfolding check_record
  check_record-Refers p =
      let t = to_upper table (trim_space p.type) in
      let mac = trim_space p.mac in
      let cam = trim_space p.cam_id in
      let text = trim_space p.duration in
      elim (Option-cases (payload_fault t mac cam text)) [
        | inr (e, fault) ↦ rw (fault, check_record) (inl (refl, ground arith))
        | inl fine ↦
            let (ht, hm, hc) = payload_fault-none t mac cam text fine in
            rw (fine, check_record)
              (elim (Result-cases (parse_duration text)) [
                | inr (e, bad) ↦ rw (bad, check_record) (inl (refl, ground arith))
                | inl (d, good) ↦ rw (good, check_record) (ask_record-Refers t mac cam d ht hm hc)
              ])
      ]

  -- What `POST /record` answers by itself is not 202; else the request was an allowed POST, and the
  -- answer is what `start_reply` makes of the actors' answer to one sound request.
  pub handle_start_record-refers :
      (r : HttpRequest StartRecordPayload)
      → let served = handle_start_record cfg table parse_duration ask now r in
        ((served.asked ≡ none) × (served.status_code ≢ 202))
        ⊎ ((r.method ≡ http_post)
            × (record_access_allowed (allowed_of cfg.recording.allowed_ips) r.remote_addr ≡ true)
            × ((m : StartRecordRequest) × (served
                  ≡ start_reply
                      (start_record_request m)
                      m.mac
                      m.cam_id
                      (ask (start_record_request m)))
                × IsSound cfg m))
  unfolding handle_start_record
  handle_start_record-refers r = elim (Bool-cases (is_post r.method)) [
    | inr other ↦ rw (other, handle_start_record) (inl (refl, ground arith))
    | inl post ↦
        rw (post, handle_start_record)
          (elim (Bool-cases allowed) [
            | inr refused ↦ rw refused (inl (refl, ground arith))
            | inl let_in ↦ rw let_in (elim (Result-cases r.body) [
              | inr (e, bad) ↦ rw (bad, handle_start_record) (inl (refl, ground arith))
              | inl (p, good) ↦
                  rw (good, handle_start_record)
                    (from (check_record cfg table parse_duration ask now p)
                      (post_of_is_post r.method post) (check_record-Refers p))
            ])
          ])
  ]
    where
      allowed : Bool
      allowed = record_access_allowed (allowed_of cfg.recording.allowed_ips) r.remote_addr

      from :
          (served : Served RecordResponse)
          → r.method ≡ http_post
          → Refers served
          → ((served.asked ≡ none) × (served.status_code ≢ 202))
            ⊎ ((r.method ≡ http_post)
                × (true ≡ true)
                × ((m : StartRecordRequest) × (served
                      ≡ start_reply
                          (start_record_request m)
                          m.mac
                          m.cam_id
                          (ask (start_record_request m)))
                    × IsSound cfg m))
      from served post (inl nothing) = inl nothing
      from served post (inr sound) = inr (post, refl, sound)
