-- ===== src/Snapshot/Frames.antt =====
-- actor/SnapshotActor.go: the exchange with go2rtc behind a frame that `fetchSnapshot` returns.
use go2rtc_manager.Prelude.{
  ℕ, ◌≤◌, ◌<◌, ◌≡◌, ◌⊎◌, refl, ◌∙◌, ap, inl, inr, true, Bool-cases, some, List, [], ◌∷◌, ◌++◌,
  arith,
}
use go2rtc_manager.Prelude.Results.{Result, ok, err, wrap, Result-cases}
use go2rtc_manager.Prelude.Text.{Text, codes, is_empty, has_prefix, text_eq_iff}
use go2rtc_manager.Prelude.Maps.{Map, lookup, insert, lookup-insert}
use go2rtc_manager.Prelude.Paths.{path_join}
use go2rtc_manager.Config.{Go2RtcConfig}
use go2rtc_manager.Go2Rtc.Calls.{
  get, Url, Request, Response, Call, exchanges, Api, Io, after, trim_right_slashes, set_all,
  basic_auth_of, request_go2rtc,
}
use go2rtc_manager.Snapshot.{SnapshotActor, read_frame, frame_of, fetch_snapshot}

-- A frame comes from an answer with a 2xx status, and with the type of an image or with none.
pub record IsFrame (response : Response) (body : Text) : Type 0 where
  pub success : (200 ≤ response.status_code) × (response.status_code < 300)
  pub image :
      (response.content_type ≡ []) ⊎ (has_prefix response.content_type (codes "image/") ≡ true)
  pub read : response.body ≡ ok body

empty-or : (s : Text) → (is_empty s ≡ true) → s ≡ []
empty-or [] e = refl
empty-or (c ∷ s) e = cc

read_frame-IsFrame :
    (cam_id : Text) (response : Response) (body : Text)
    → read_frame cam_id response ≡ ok body
    → IsFrame response body
unfolding read_frame
read_frame-IsFrame cam_id response body h = elim (Result-cases response.body) [
  | inr (e, f) ↦ absurd (no_value (rw (f, read_frame) at h))
  | inl (b, f) ↦ record {
    success = ground arith;
    image = elim (Bool-cases (is_empty response.content_type)) [
      | inl none_given ↦ inl (empty-or response.content_type none_given)
      | inr given ↦ inr (ground arith)
    ];
    read = f ∙ ground arith;
  }
]
  where
    no_value : {e : Text} → err e ≡ ok body → ⊥
    no_value k = cc

-- The exchange behind a value of `request_go2rtc`.
pub record Exchanged (api : Api) (cfg : Go2RtcConfig) (api_path : Text) (k v : Text)
    (run : Io Response) (response : Response) : Type 0 where
  pub base : Url
  pub request : Request
  pub parsed : api.parse_url (trim_right_slashes cfg.base_url) ≡ ok base
  pub gets : request.method ≡ get
  pub from : request.url.path ≡ path_join (base.path ∷ api_path ∷ [])
  pub asks : lookup k request.url.query ≡ some v
  pub answered : api.exchange request ≡ ok response
  pub calls : run.0 ≡ exchanges request ∷ []

wrap-eq-ok {ℓ} :
    {A : Type ℓ} (prefix : Text) (r : Result A) (a : A) → wrap prefix r ≡ ok a → r ≡ ok a
wrap-eq-ok prefix (ok b) a h = h
wrap-eq-ok prefix (err e) a h = cc

-- A step that ended with a value: the call before it did, and its calls come behind.
after-eq-ok {ℓ κ} :
    {A : Type ℓ} {B : Type κ} (calls : List Call) (r : Result A) (f : A → Io B) (b : B)
    → (after calls r f).1 ≡ ok b
    → (a : A) × (r ≡ ok a) × ((f a).1 ≡ ok b) × ((after calls r f).0 ≡ calls ++ (f a).0)
after-eq-ok calls (ok a) f b h = (a, refl, h, refl)
after-eq-ok calls (err e) f b h = cc

lookup-insert_same : (k v : Text) (m : Map Text) → lookup k (insert k v m) ≡ some v
lookup-insert_same k v m = rw (lookup-insert k k v m, (text_eq_iff k k).1 refl) refl

pub request_go2rtc-Exchanged :
    (api : Api) (cfg : Go2RtcConfig) (path k v build_error call_error : Text) (response : Response)
    → (request_go2rtc api cfg get path ((k, v) ∷ []) build_error call_error).1 ≡ ok response
    → Exchanged api cfg path k v
        (request_go2rtc api cfg get path ((k, v) ∷ []) build_error call_error)
        response
unfolding request_go2rtc set_all
request_go2rtc-Exchanged api cfg path k v build_error call_error response h =
    let (base, parsed, h1, calls1) = after-eq-ok [] _ _ response h in
    let (checked, passed, h2, calls2) =
      after-eq-ok {A = Unit {0}} [] (wrap build_error (api.check_request (request_to base)))
        (λ u. (exchanges (request_to base) ∷ [], wrap call_error (api.exchange (request_to base))))
        response h1 in
    record {
      base = base;
      request = request_to base;
      parsed = wrap-eq-ok (codes "parse base url: ") _ base parsed;
      gets = refl;
      from = refl;
      asks = lookup-insert_same k v base.query;
      answered = wrap-eq-ok call_error _ response h2;
      calls = calls1 ∙ calls2;
    }
  where
    request_to : Url → Request
    request_to base = record {
      method = get;
      url = record base { path = path_join (base.path ∷ path ∷ []); query = insert k v base.query };
      basic_auth = basic_auth_of cfg;
    }

-- What a frame that `fetchSnapshot` returns comes from.
pub record Fetched (api : Api) (a : SnapshotActor) (cam_id : Text) (status : ℕ) (body : Text)
    (calls : List Call) : Type 0 where
  pub response : Response
  pub exchanged :
      Exchanged api a.config.go2rtc
        (codes "/api/frame.jpeg")
        (codes "src")
        cam_id
        (calls, ok response)
        response
  pub code : response.status_code ≡ status
  pub frame : IsFrame response body

fetch_from :
    (api : Api) (a : SnapshotActor) (cam_id : Text) (run : Io Response) (status : ℕ) (body : Text)
    → ((response : Response)
        → run.1 ≡ ok response
        → Exchanged api a.config.go2rtc (codes "/api/frame.jpeg") (codes "src") cam_id run response)
    → frame_of cam_id run.1 ≡ (status, ok body)
    → Fetched api a cam_id status body run.0
unfolding frame_of
fetch_from api a cam_id (calls, err e) status body given h = cc
fetch_from api a cam_id (calls, ok response) status body given h = record {
  response = response;
  exchanged = given response refl;
  code = ap (λ p. p.0) h;
  frame = read_frame-IsFrame cam_id response body (ap (λ p. p.1) h);
}

pub fetch_snapshot-Fetched :
    (api : Api) (a : SnapshotActor) (cam_id : Text) (status : ℕ) (body : Text)
    → (fetch_snapshot api a cam_id).1 ≡ (status, ok body)
    → Fetched api a cam_id status body (fetch_snapshot api a cam_id).0
unfolding fetch_snapshot
fetch_snapshot-Fetched api a cam_id status body h =
    fetch_from api a cam_id
      (request_go2rtc api a.config.go2rtc get (codes "/api/frame.jpeg") ((codes "src", cam_id) ∷ [])
        (codes "build request: ") (codes "call go2rtc frame api: "))
      status body
      (request_go2rtc-Exchanged api a.config.go2rtc (codes "/api/frame.jpeg") (codes "src") cam_id
        (codes "build request: ") (codes "call go2rtc frame api: "))
      h
