-- ===== src/HttpServer/Exchange.antt =====
-- httpserver/server.go, actor/MasterActor.go and actor/RecordActor.go: a request of the HTTP server to
-- the master, which forwards it to the record actor, and the replies made of the answer.
use go2rtc_manager.Prelude.{
  ℕ, ◌≡◌, ◌≢◌, refl, sym, ap, ◌∙◌, ◌⊎◌, inl, inr, true, false, List, [], ◌∷◌, ◌++◌, ◌==◌, arith,
  if◌then◌else◌,
}
use go2rtc_manager.Prelude.Int.{pos, ltb_ℤ, ◌<ℤ◌}
use go2rtc_manager.Prelude.Results.{Result}
use go2rtc_manager.Prelude.Text.{Text, CaseTable, codes, is_empty, contains, has_prefix}
use go2rtc_manager.Prelude.Paths.Words.{HasNoSlash}
use go2rtc_manager.Time.{Time, Duration}
use go2rtc_manager.Config.{Config}
use go2rtc_manager.Message.{
  StartRecordRequest, StartRecordResult, Message, start_record_request, start_record_result,
  get_record_job_request,
}
use go2rtc_manager.Effect.{Effect, respond, forward, Context}
use go2rtc_manager.Master.{MasterActor}
use go2rtc_manager.Record.{
  RecordActor, Outcome, acceptance, new_job, quiet, record_job_to_status_result,
}
use go2rtc_manager.Record.JobId.{IsJobId}
use go2rtc_manager.Record.Lifecycle.{answer_to_get}
use go2rtc_manager.Record.Submission.{Accepted, receive-answers_start}
use go2rtc_manager.HttpServer.Access.{allowed_of, record_access_allowed}
use go2rtc_manager.HttpServer.Types.{http_get, HttpRequest, Future, answered, failed_with}
use go2rtc_manager.HttpServer.Replies.{start_reply, job_reply, record_status_http_response}
use go2rtc_manager.HttpServer.Handlers.{record_prefix, trim_prefix, handle_get_record_job}
use go2rtc_manager.Master
use go2rtc_manager.Record

-- What the record actor does with what the master forwards to it.
abbrev taken_up : Context → Result (List ℕ) → MasterActor → RecordActor → List Effect → Outcome
taken_up ctx random m a (forward pid msg ∷ es) =
    if pid == m.record_pid then Record.receive ctx random msg a else quiet a
taken_up ctx random m a _ = quiet a

-- A message for the master, and what the record actor does with it.
unfoldable pub through_master :
    Context → Result (List ℕ) → MasterActor → RecordActor → Message → Outcome
unfolding Master.receive Record.receive
through_master ctx random m a msg = taken_up ctx random m a (Master.receive ctx msg m)

-- How the future of a request ends: with an error, such as a timeout, or with the one answer.
abbrev pub Ends : Future → List Effect → Type 0
Ends f effects =
    ((e : Text) × (f ≡ failed_with e))
    ⊎ ((msg : Message) × (effects ≡ respond msg ∷ []) × (f ≡ answered msg))

pub through_master-start :
    (ctx : Context) (random : Result (List ℕ)) (m : MasterActor) (a : RecordActor)
    (q : StartRecordRequest)
    → through_master ctx random m a (start_record_request q)
      ≡ Record.receive ctx random (start_record_request q) a
unfolding through_master
through_master-start ctx random m a q =
    let same : (m.record_pid == m.record_pid) ≡ true = ground arith in rw same refl

pub through_master-get :
    (ctx : Context) (random : Result (List ℕ)) (m : MasterActor) (a : RecordActor) (id : Text)
    → (through_master ctx random m a (get_record_job_request (record { job_id = id }))).effects
      ≡ answer_to_get ctx random id a
unfolding through_master
through_master-get ctx random m a id =
    let same : (m.record_pid == m.record_pid) ≡ true = ground arith in rw same refl

trim_prefix-record_prefix : (id : Text) → trim_prefix (record_prefix ++ id) record_prefix ≡ id
unfolding trim_prefix has_prefix
trim_prefix-record_prefix id = refl

contains-slash : (s : Text) → HasNoSlash s → contains s (codes "/") ≡ false
unfolding contains
contains-slash [] h = refl
contains-slash (c ∷ s) h = rw (h.0, contains-slash s h.1) refl

-- The answer to the one message that the actor answered with.
pub only_answer :
    (f : Future) (es : List Effect) (msg : Message)
    → Ends f es
    → es ≡ respond msg ∷ []
    → ((e : Text) × (f ≡ failed_with e)) ⊎ (f ≡ answered msg)
only_answer f es msg (inl failure) h = inl failure
only_answer f es msg (inr (m, told, h0)) h = inr (h0 ∙ ap answered (inner (sym told ∙ h)))
  where
    inner : {x y : Message} → (respond x ∷ []) ≡ respond y ∷ [] → x ≡ y
    inner e = cc

refused-not_202 :
    (asked : Message) (mac cam : Text) (r : StartRecordResult)
    → r.status_code ≢ 202
    → is_empty r.error ≡ false
    → (start_reply asked mac cam (answered (start_record_result r))).status_code ≢ 202
unfolding start_reply
refused-not_202 asked mac cam r other told = rw (told, start_reply) (ground arith)

-- A reply with status 202 tells of a job that the actor took up.
pub reply-Accepted :
    (ctx : Context) (random : Result (List ℕ)) (a : RecordActor) (q : StartRecordRequest)
    (f : Future)
    → Ends f (Record.receive ctx random (start_record_request q) a).effects
    → (start_reply (start_record_request q) q.mac q.cam_id f).status_code ≡ 202
    → (r : StartRecordResult) × (f ≡ answered (start_record_result r))
      × Accepted q (Record.receive ctx random (start_record_request q) a) r
unfolding start_reply
reply-Accepted ctx random a q f ends is_202 =
    let (r, told, answer) = receive-answers_start ctx random q a in
    elim (only_answer f _ _ ends told) [
      | inl (e, failure) ↦ absurd (
          other (
            ap (λ f. (start_reply (start_record_request q) q.mac q.cam_id f).status_code)
              (sym failure)
            ∙ is_202))
      | inr same ↦ elim answer [
        | inl refused ↦ absurd (
            refused-not_202 (start_record_request q) q.mac q.cam_id r refused.status refused.told (
              ap (λ f. (start_reply (start_record_request q) q.mac q.cam_id f).status_code)
                (sym same)
              ∙ is_202))
        | inr accepted ↦ (r, same, accepted)
      ]
    ]
  where
    other : ◌≢◌ {A = ℕ} 504 202
    other = ground arith

-- The two replies for a job that was just accepted say the same.
pub same_response :
    (q : StartRecordRequest) (id : Text)
    → pos 0 <ℤ q.duration
    → record_status_http_response (record_job_to_status_result (new_job q id))
      ≡ (start_reply
          (start_record_request q)
          q.mac
          q.cam_id
          (answered (start_record_result (acceptance (new_job q id))))).response
unfolding record_status_http_response record_job_to_status_result new_job acceptance start_reply
same_response q id positive =
    let long : ltb_ℤ (pos 0) q.duration ≡ true = ground arith in rw long refl

pub named_again :
    (cfg : Config) (table : CaseTable) (parse_duration : Text → Result Duration)
    (again : Message → Future) (now : Time) (g : HttpRequest (Unit {0})) (id : Text)
    → IsJobId id
    → g.method ≡ http_get
    → record_access_allowed (allowed_of cfg.recording.allowed_ips) g.remote_addr ≡ true
    → g.path ≡ record_prefix ++ id
    → handle_get_record_job cfg table parse_duration again now g ≡ (
        let asked = get_record_job_request (record { job_id = id }) in
        job_reply asked id (again asked))
unfolding handle_get_record_job
named_again cfg table parse_duration again now g id h get let_in path =
    let tail : trim_prefix g.path record_prefix ≡ id =
      ap (λ p. trim_prefix p record_prefix) path ∙ trim_prefix-record_prefix id in
    rw (get, let_in, tail, h.given, contains-slash id h.one, handle_get_record_job) refl
