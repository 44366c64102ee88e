-- ===== src/Go2Rtc/Actor/Answers.antt =====
-- actor/Go2RTCActor.go: what a removal calls, and what every answer carries.
use go2rtc_manager.Prelude.{ℕ, ◌≡◌, refl, inl, inr, Bool-cases, false, List, [], ◌∷◌, ◌==◌}
use go2rtc_manager.Prelude.Results.{Result, ok, err, Result-cases, wrap}
use go2rtc_manager.Prelude.Text.{Text, codes, is_empty}
use go2rtc_manager.Time.{Time}
use go2rtc_manager.Config.{Go2RtcConfig}
use go2rtc_manager.Go2Rtc.Calls.{Method, get, delete, Call, Api, Io, after, request_go2rtc}
use go2rtc_manager.Go2Rtc.Actor.{
  Go2RtcActor, is_failure, unexpected_status, do_streams_api_request, read_health, has_producer,
  create_backup, read_removal, backup_if_asked, remove_stream_call,
}
use go2rtc_manager.Go2Rtc.Actor.Backup.{backup_path}

-- An error, if there is one, has a text.
abbrev pub IsTold {ℓ} : {A : Type ℓ} → Result A → Type 0
IsTold (ok a) = Unit {0}
IsTold (err e) = is_empty e ≡ false

wrap-IsTold {ℓ} :
    {A : Type ℓ} (prefix : Text) → is_empty prefix ≡ false → (r : Result A) → IsTold (wrap prefix r)
wrap-IsTold (c ∷ prefix) h (ok a) = tt
wrap-IsTold (c ∷ prefix) h (err e) = refl
wrap-IsTold [] h (ok a) = tt
wrap-IsTold [] h (err e) = cc

after-IsTold {ℓ κ} :
    {A : Type ℓ} {B : Type κ} (calls : List Call) (r : Result A) (f : A → Io B)
    → IsTold r
    → ((a : A) → IsTold (f a).1)
    → IsTold (after calls r f).1
after-IsTold calls (ok a) f h k = k a
after-IsTold calls (err e) f h k = h

request_go2rtc-IsTold :
    (api : Api) (cfg : Go2RtcConfig) (method : Method) (path : Text) (pairs : List (Text × Text))
    (build_error call_error : Text)
    → is_empty build_error ≡ false
    → is_empty call_error ≡ false
    → IsTold (request_go2rtc api cfg method path pairs build_error call_error).1
unfolding request_go2rtc
request_go2rtc-IsTold api cfg method path pairs build_error call_error hb hc =
    after-IsTold [] _ _ (wrap-IsTold (codes "parse base url: ") refl (api.parse_url _)) λ base.
      after-IsTold [] _ _ (wrap-IsTold build_error hb (api.check_request _))
        λ _. wrap-IsTold call_error hc (api.exchange _)

do_streams_api_request-IsTold :
    (api : Api) (a : Go2RtcActor) (method : Method) (stream_name : Text)
    → IsTold (do_streams_api_request api a method stream_name).1
unfolding do_streams_api_request
do_streams_api_request-IsTold api a method stream_name =
    after-IsTold {B = Text × ℕ} _ _
      (λ response.
        after [] (wrap (codes "read response: ") response.body)
          λ body. ([], ok (body, response.status_code)))
      (request_go2rtc-IsTold api a.config.go2rtc method (codes "/api/streams")
        ((codes "src", stream_name) ∷ []) (codes "build request: ") (codes "call go2rtc api: ") refl
        refl)
      λ response.
        after-IsTold {B = Text × ℕ} [] _ (λ body. ([], ok (body, response.status_code)))
          (wrap-IsTold (codes "read response: ") refl response.body) λ body. tt

read_health-IsTold :
    (api : Api) (stream_name : Text) (answer : Text × ℕ)
    → IsTold (read_health api stream_name answer)
unfolding read_health unexpected_status
read_health-IsTold api stream_name (body, status) = elim (Bool-cases (status == 404)) [
  | inl e ↦ rw e tt
  | inr e ↦ elim (Bool-cases (is_failure status)) [
    | inl f ↦ rw (e, f) refl
    | inr f ↦ elim (Result-cases (api.parse_json body)) [
      | inl (payload, g) ↦ rw (e, f, g) tt
      | inr (x, g) ↦ rw (e, f, g) refl
    ]
  ]
]

read_removal-IsTold : (answer : Text × ℕ) → IsTold (read_removal answer)
unfolding read_removal unexpected_status
read_removal-IsTold (body, status) = elim (Bool-cases (status == 404)) [
  | inl e ↦ rw e tt
  | inr e ↦ elim (Bool-cases (is_failure status)) [ inl f ↦ rw (e, f) refl | inr f ↦ rw (e, f) tt ]
]

pub has_producer-IsTold :
    (api : Api) (a : Go2RtcActor) (stream_name : Text) → IsTold (has_producer api a stream_name).1
unfolding has_producer
has_producer-IsTold api a stream_name =
    after-IsTold _ _ _ (do_streams_api_request-IsTold api a get stream_name)
      (read_health-IsTold api stream_name)

create_backup-IsTold :
    (api : Api) (now : Time) (a : Go2RtcActor) → IsTold (create_backup api now a).1
unfolding create_backup
create_backup-IsTold api now a = elim (Result-cases (api.read_file a.config.go2rtc.config_path)) [
  | inr (e, f) ↦ rw f refl
  | inl (raw, f) ↦
      rw f (
        wrap-IsTold (codes "write backup file: ") refl (api.write_file (backup_path api now a) raw))
]

backup_if_asked-IsTold :
    (api : Api) (now : Time) (a : Go2RtcActor) → IsTold (backup_if_asked api now a).1
unfolding backup_if_asked
backup_if_asked-IsTold api now a = elim (Bool-cases a.config.go2rtc.backup_before_change) [
  | inl e ↦ rw e (create_backup-IsTold api now a)
  | inr e ↦ rw e tt
]

pub remove_stream_call-IsTold :
    (api : Api) (now : Time) (a : Go2RtcActor) (stream_name : Text)
    → IsTold (remove_stream_call api now a stream_name).1
unfolding remove_stream_call
remove_stream_call-IsTold api now a stream_name =
    after-IsTold _ _ _ (backup_if_asked-IsTold api now a) λ _.
      after-IsTold _ _ _ (do_streams_api_request-IsTold api a delete stream_name)
        read_removal-IsTold
