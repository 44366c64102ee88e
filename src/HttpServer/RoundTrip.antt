-- ===== src/HttpServer/RoundTrip.antt =====
-- httpserver/server.go, actor/MasterActor.go and actor/RecordActor.go: `POST /record`, and then
-- `GET /record/{job_id}` for the job that it answered with.
use go2rtc_manager.Prelude.{
  ℕ, ◌≡◌, refl, sym, ap, subst, ◌∙◌, ◌⊎◌, inl, inr, true, List, [], ◌∷◌, ◌++◌, Option, none, some,
}
use go2rtc_manager.Prelude.Int.{pos, ◌<ℤ◌}
use go2rtc_manager.Prelude.Results.{Result}
use go2rtc_manager.Prelude.Text.{Text, CaseTable}
use go2rtc_manager.Time.{Duration}
use go2rtc_manager.Config.{Config}
use go2rtc_manager.Message.{
  StartRecordRequest, GetRecordJobRequest, Message, start_record_request, start_record_result,
  get_record_job_request, record_job_status_result,
}
use go2rtc_manager.Effect.{Effect, respond, Context}
use go2rtc_manager.Master.{MasterActor}
use go2rtc_manager.Record.{
  RecordActor, Outcome, acceptance, new_job, quiet, record_job_to_status_result,
}
use go2rtc_manager.Record.Lifecycle.{answer_to_get}
use go2rtc_manager.Record.Submission.{Accepted}
use go2rtc_manager.HttpServer.Access.{allowed_of, record_access_allowed}
use go2rtc_manager.HttpServer.Types.{
  http_get, HttpRequest, StartRecordPayload, RecordResponse, Future, answered, Served,
}
use go2rtc_manager.HttpServer.Replies.{start_reply, job_reply}
use go2rtc_manager.HttpServer.Handlers.{record_prefix, handle_start_record, handle_get_record_job}
use go2rtc_manager.HttpServer.Referral.{handle_start_record-refers}
use go2rtc_manager.Record
use go2rtc_manager.HttpServer.Exchange.{
  through_master, Ends, through_master-start, through_master-get, only_answer, reply-Accepted,
  same_response, named_again,
}

-- The reply to a request for a job that is found: a timeout, or the job.
found_or_504 :
    (q : StartRecordRequest) (id : Text) (asked : Message) (f : Future) (es : List Effect)
    → pos 0 <ℤ q.duration
    → Ends f es
    → es ≡ respond (record_job_status_result (record_job_to_status_result (new_job q id))) ∷ []
    → ((job_reply asked id f).status_code ≡ 504)
      ⊎ (((job_reply asked id f).status_code ≡ 200)
          × ((job_reply asked id f).response
              ≡ (start_reply
                  (start_record_request q)
                  q.mac
                  q.cam_id
                  (answered (start_record_result (acceptance (new_job q id))))).response))
unfolding job_reply
found_or_504 q id asked f es positive ends found = elim (only_answer f es _ ends found) [
  | inl (e, failure) ↦ inl (ap (λ f. (job_reply asked id f).status_code) failure)
  | inr same ↦ inr (
    ap (λ f. (job_reply asked id f).status_code) same ∙ unfold record_job_to_status_result in refl,
    ap (λ f. (job_reply asked id f).response) same ∙ same_response q id positive,
  )
]

-- The record actor after the message that a handler asked the master, if it asked any.
abbrev pub after :
    Context → Result (List ℕ) → MasterActor → RecordActor → Option Message → RecordActor
after ctx random m a none = a
after ctx random m a (some msg) = (through_master ctx random m a msg).actor

module _ (cfg : Config) (table : CaseTable) (parse_duration : Text → Result Duration)
    (ctx later : Context) (random random_later : Result (List ℕ)) (m : MasterActor)
    (a : RecordActor) (again : Message → Future) (g : HttpRequest (Unit {0})) where
  abbrev got : Served RecordResponse
  got = handle_get_record_job cfg table parse_duration again later.now g

  -- What the second request finds, if the first was served like this.
  abbrev Finds : Served RecordResponse → Type 0
  Finds served =
      ((q : GetRecordJobRequest)
        → Ends (again (get_record_job_request q))
            (through_master later random_later m (after ctx random m a served.asked)
              (get_record_job_request q)).effects)
      → served.status_code ≡ 202
      → g.path ≡ record_prefix ++ served.response.job_id
      → (got.status_code ≡ 504) ⊎ ((got.status_code ≡ 200) × (got.response ≡ served.response))

  Accepted-Finds :
      (q : StartRecordRequest) (id : Text)
      → pos 0 <ℤ q.duration
      → Accepted q
          (Record.receive ctx random (start_record_request q) a)
          (acceptance (new_job q id))
      → g.method ≡ http_get
      → record_access_allowed (allowed_of cfg.recording.allowed_ips) g.remote_addr ≡ true
      → Finds (
          start_reply
            (start_record_request q)
            q.mac
            q.cam_id
            (answered (start_record_result (acceptance (new_job q id)))))
  unfolding acceptance new_job start_reply
  Accepted-Finds q id positive taken get let_in ends is_202 path =
      subst
        (λ (s : Served RecordResponse).
          (s.status_code ≡ 504)
          ⊎ ((s.status_code ≡ 200)
              × (s.response
                  ≡ (start_reply (start_record_request q) q.mac q.cam_id
                      (answered (start_record_result (acceptance (new_job q id))))).response)))
        (sym
          (named_again cfg table parse_duration again later.now g id taken.named get let_in path))
        (found_or_504 q id (get_record_job_request (record { job_id = id })) _ _ positive
          (ends (record { job_id = id }))
          (through_master-get later random_later m
              (through_master ctx random m a (start_record_request q)).actor id
            ∙ ap (λ (o : Outcome). answer_to_get later random_later id o.actor)
                (through_master-start ctx random m a q)
            ∙ taken.found later random_later))

  reply-Finds :
      (q : StartRecordRequest) (f : Future)
      → pos 0 <ℤ q.duration
      → Ends f (Record.receive ctx random (start_record_request q) a).effects
      → g.method ≡ http_get
      → record_access_allowed (allowed_of cfg.recording.allowed_ips) g.remote_addr ≡ true
      → Finds (start_reply (start_record_request q) q.mac q.cam_id f)
  reply-Finds q f positive ended get let_in ends is_202 path =
      let (r, same, taken) = reply-Accepted ctx random a q f ended is_202 in
      let whole = same ∙ ap (λ r. answered (start_record_result r)) taken.job in
      subst (λ f. Finds (start_reply (start_record_request q) q.mac q.cam_id f)) (sym whole)
        (Accepted-Finds q r.job_id positive
          (subst (Accepted q (Record.receive ctx random (start_record_request q) a)) taken.job
            taken)
          get let_in)
        ends is_202 path

-- A recording that was accepted can be asked for. Let `POST /record` answer 202, and let the next
-- request be `GET /record/{job_id}` for the identifier in that answer, at any later time and from
-- an address that is allowed. If the futures of the two end with an error or with the record
-- actor's answer to what the master forwards to it, the GET answers 504, or 200 with the very response of the
-- POST: the same identifier, status, type, MAC address, camera and duration.
pub handle_start_record-get_record_job :
    (cfg : Config) (table : CaseTable) (parse_duration : Text → Result Duration)
    (ctx later : Context) (random random_later : Result (List ℕ)) (m : MasterActor)
    (a : RecordActor) (ask again : Message → Future) (r : HttpRequest StartRecordPayload)
    (g : HttpRequest (Unit {0}))
    → let served = handle_start_record cfg table parse_duration ask ctx.now r in
      let got = handle_get_record_job cfg table parse_duration again later.now g in
      ((q : StartRecordRequest)
        → Ends
            (ask (start_record_request q))
            (through_master ctx random m a (start_record_request q)).effects)
      → ((q : GetRecordJobRequest)
          → Ends
              (again (get_record_job_request q))
              (through_master later random_later m
                (after ctx random m a served.asked)
                (get_record_job_request q)).effects)
      → served.status_code ≡ 202
      → g.method ≡ http_get
      → record_access_allowed (allowed_of cfg.recording.allowed_ips) g.remote_addr ≡ true
      → g.path ≡ record_prefix ++ served.response.job_id
      → (got.status_code ≡ 504) ⊎ ((got.status_code ≡ 200) × (got.response ≡ served.response))
handle_start_record-get_record_job cfg table parse_duration ctx later random random_later m a ask
      again r g ends ends_again is_202 get let_in path =
    elim (handle_start_record-refers cfg table parse_duration ask ctx.now r) [
      | inl (nothing, other) ↦ absurd (other is_202)
      | inr (post, allowed, (q, same, sound)) ↦
          subst (Finds cfg table parse_duration ctx later random random_later m a again g)
            (sym same)
            (reply-Finds cfg table parse_duration ctx later random random_later m a again g q
              (ask (start_record_request q)) sound.duration_positive
              (subst (λ (o : Outcome). Ends (ask (start_record_request q)) o.effects)
                (through_master-start ctx random m a q) (ends q))
              get let_in)
            ends_again is_202 path
    ]
