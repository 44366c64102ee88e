-- ===== src/Record/Clients.antt =====
-- actor/RecordActor.go: the clients of MongoDB and MinIO. What their libraries answer to the attempt
-- to make one is a parameter, and so is how closing one ends.
use go2rtc_manager.Prelude.{ℕ, ◌≡◌, refl, ap, subst, ◌∙◌, ◌⊎◌, inl, inr, false, List, [], ◌∷◌, ◌++◌}
use go2rtc_manager.Prelude.Results.{Result, ok, err, wrap}
use go2rtc_manager.Prelude.Text.{Text, codes, is_empty}
use go2rtc_manager.Config.{Config}
use go2rtc_manager.Message.{
  StartRecordRequest, Message, start_record_request, get_record_job_request, record_job_running,
  record_job_completed, record_job_failed, start_record_result,
}
use go2rtc_manager.Effect.{respond, Context}
use go2rtc_manager.Record.{
  RecordActor, Outcome, new_record_actor, refusal, accept, handle_start_record, prune_expired_jobs,
  receive,
}
use go2rtc_manager.Record.Lifecycle.{handle_start_record-Exits}
use go2rtc_manager.Record.Concurrency.{
  Recording, resume, Step, requests, asks, reports, Reach, here, next,
}
use go2rtc_manager.Record.Concurrency.Steps.{initial}

-- `newMongoBodycamLookup`, from what `mongo.Connect` gives.
unfoldable pub new_mongo_bodycam_lookup : Result (Unit {0}) → Result (Unit {0})
new_mongo_bodycam_lookup connected = wrap (codes "connect mongodb: ") connected

-- `newMinIOObjectStore`, from what `minio.New` gives.
unfoldable pub new_minio_object_store : Result (Unit {0}) → Result (Unit {0})
new_minio_object_store made = wrap (codes "create minio client: ") made

-- The case `Stopping`: how many clients of MongoDB are closed.
unfoldable pub closed_on_stopping : Result (Unit {0}) → ℕ
unfolding new_mongo_bodycam_lookup
closed_on_stopping connected = elim (new_mongo_bodycam_lookup connected) [ ok _ ↦ 1 | err e ↦ 0 ]

-- A message changes neither the configuration nor the error of the start.
receive-init_error :
    (ctx : Context) (random : Result (List ℕ)) (msg : Message) (a : RecordActor)
    → (receive ctx random msg a).actor.init_error ≡ a.init_error
unfolding receive accept prune_expired_jobs
receive-init_error ctx random (start_record_request msg) a =
    elim (handle_start_record-Exits ctx random msg (prune_expired_jobs ctx.now a)) [
      | inl (code, e, other, h) ↦ ap (λ (o : Outcome). o.actor.init_error) h
      | inr (id, h, good) ↦ ap (λ (o : Outcome). o.actor.init_error) h
    ]
receive-init_error ctx random (get_record_job_request msg) a = refl
receive-init_error ctx random (record_job_running msg) a = refl
receive-init_error ctx random (record_job_completed msg) a = refl
receive-init_error ctx random (record_job_failed msg) a = refl
receive-init_error ctx random _ a = refl

Step-init_error : {s t : Recording} → Step s t → t.actor.init_error ≡ s.actor.init_error
unfolding resume
Step-init_error {s} (requests w ctx random msg fresh) =
    receive-init_error ctx random (start_record_request msg) s.actor
Step-init_error {s} (asks w ctx random msg) =
    receive-init_error ctx random (get_record_job_request msg) s.actor
Step-init_error {s} (reports w ctx random before id msg rest later e) =
    receive-init_error ctx random msg s.actor

pub Reach-init_error : {s t : Recording} → Reach s t → t.actor.init_error ≡ s.actor.init_error
Reach-init_error here = refl
Reach-init_error (next r st) = Step-init_error st ∙ Reach-init_error r

-- The client that could not be made first, and the error that tells it.
abbrev pub FirstError : Result (Unit {0}) → Result (Unit {0}) → Text → Type 0
FirstError connected made told =
    ((e : Text) × (connected ≡ err e) × (told ≡ codes "connect mongodb: " ++ e))
    ⊎ ((connected ≡ ok tt)
        × ((e : Text) × (made ≡ err e) × (told ≡ codes "create minio client: " ++ e)))

initial_told :
    (cfg : Config) (connected made : Result (Unit {0})) (told : Text)
    → FirstError connected made told
    → ((initial cfg
          (new_mongo_bodycam_lookup connected)
          (new_minio_object_store made)).actor.init_error
        ≡ told)
      × (is_empty told ≡ false)
unfolding new_record_actor new_mongo_bodycam_lookup new_minio_object_store
initial_told cfg connected made told (inl (e, failed, same)) =
    (rw (failed, same) refl, rw same refl)
initial_told cfg connected made told (inr (up, (e, failed, same))) =
    (rw (up, failed, same) refl, rw same refl)

refuses_of :
    (ctx : Context) (random : Result (List ℕ)) (msg : StartRecordRequest) (a : RecordActor)
    (told : Text)
    → a.init_error ≡ told
    → is_empty told ≡ false
    → let o = receive ctx random (start_record_request msg) a in
      (o.effects ≡ respond (start_record_result (refusal msg 500 told)) ∷ []) × (o.started ≡ [])
unfolding receive handle_start_record prune_expired_jobs
refuses_of ctx random msg a told same given =
    let guard : is_empty a.init_error ≡ false = ap is_empty same ∙ given in
    subst
      (λ t.
        let o = receive ctx random (start_record_request msg) a in
        (o.effects ≡ respond (start_record_result (refusal msg 500 t)) ∷ []) × (o.started ≡ []))
      same (rw (guard, handle_start_record) (refl, refl))

-- If a client could not be made at the start, then in every state that requests and goroutines
-- reach, if each new job's identifier is one that no goroutine has, a request to record is refused with status 500 and the error of that client, the one of
-- MongoDB first, and no goroutine starts.
pub FirstError-refuses :
    (cfg : Config) (connected made : Result (Unit {0})) (told : Text)
    → FirstError connected made told
    → {s : Recording}
    → Reach (initial cfg (new_mongo_bodycam_lookup connected) (new_minio_object_store made)) s
    → (ctx : Context) (random : Result (List ℕ)) (msg : StartRecordRequest)
    → let o = receive ctx random (start_record_request msg) s.actor in
      (o.effects ≡ respond (start_record_result (refusal msg 500 told)) ∷ []) × (o.started ≡ [])
FirstError-refuses cfg connected made told failed {s} r ctx random msg =
    let (same, given) = initial_told cfg connected made told failed in
    refuses_of ctx random msg s.actor told (Reach-init_error r ∙ same) given
