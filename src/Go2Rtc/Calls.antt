-- ===== src/Go2Rtc/Calls.antt =====
-- The outside of the program as the actors that call go2rtc see it (actor/Go2RTCActor.go,
-- actor/SnapshotActor.go, actor/RecordActor.go): files, URLs, HTTP exchanges and the decoders. An `Api` gives the answers; a computation lists the calls that it makes, so that a
-- theorem can speak of their order.
use go2rtc_manager.Prelude.{ℕ, List, [], ◌∷◌, ◌++◌, Option, none, some, ◌==◌, if◌then◌else◌}
use go2rtc_manager.Prelude.Int.{ℤ}
use go2rtc_manager.Prelude.Results.{Result, ok, err, wrap}
use go2rtc_manager.Prelude.Text.{Text, codes, is_empty}
use go2rtc_manager.Prelude.Paths.{path_join, slash}
use go2rtc_manager.Prelude.Maps.{Map, insert}
use go2rtc_manager.Time.{Time}
use go2rtc_manager.Config.{Go2RtcConfig}
use go2rtc_manager.Go2Rtc.Yaml.{Node}
use go2rtc_manager.Go2Rtc.Payload.{Json}

pub data Method : Type 0 where
  get delete : Method

-- A `url.URL`: its path, its query as `Query()` reads it, and all else.
pub record Url : Type 0 where
  pub origin : Text
  pub path : Text
  pub query : Map Text

pub record Request : Type 0 where
  pub method : Method
  pub url : Url
  pub basic_auth : Option (Text × Text)

-- `body` is what `io.ReadAll(resp.Body)` returns.
pub record Response : Type 0 where
  pub status_code : ℕ
  pub content_type : Text
  pub content_length : ℤ
  pub body : Result Text

pub data Call : Type 0 where
  reads_file : Text → Call
  writes_file : Text → Text → Call
  makes_dir : Text → Call
  exchanges : Request → Call
  makes_bucket : Text → Call
  -- a bucket, an object key, a size and a content type
  puts_object : Text → Text → ℤ → Text → Call

pub record Api : Type 0 where
  pub read_file : Text → Result Text
  pub write_file : Text → Text → Result (Unit {0})
  pub make_dir : Text → Result (Unit {0})
  pub parse_url : Text → Result Url
  -- `http.NewRequestWithContext`
  pub check_request : Request → Result (Unit {0})
  -- `httpClient.Do`
  pub exchange : Request → Result Response
  pub parse_yaml : Text → Result Node
  pub parse_json : Text → Result Json
  -- `time.Now().Format("20060102-150405")` in the local time zone
  pub local_stamp : Time → Text

-- The calls made, in order, and the result.
abbrev pub Io {ℓ} : Type ℓ → Type ℓ
Io A = List Call × Result A

abbrev pub after {ℓ κ} : {A : Type ℓ} {B : Type κ} → List Call → Result A → (A → Io B) → Io B
after calls (ok a) f = let (more, r) = f a in (calls ++ more, r)
after calls (err e) f = (calls, err e)

infixl 5 ◌>>=◌ ◌>>◌
abbrev pub ◌>>=◌ {ℓ κ} : {A : Type ℓ} {B : Type κ} → Io A → (A → Io B) → Io B
(calls, r) >>= f = after calls r f

abbrev pub ◌>>◌ {ℓ κ} : {A : Type ℓ} {B : Type κ} → Io A → Io B → Io B
m >> k = m >>= λ _. k

-- A result that takes no call, and a call with its answer.
abbrev pub lift {ℓ} : {A : Type ℓ} → Result A → Io A
lift r = ([], r)

abbrev pub call {ℓ} : {A : Type ℓ} → Call → Result A → Io A
call c r = (c ∷ [], r)

-- `strings.TrimRight(s, "/")`
unfoldable pub trim_right_slashes : Text → Text
trim_right_slashes [] = []
trim_right_slashes (c ∷ s) =
    let rest = trim_right_slashes s in
    if c == slash then (if is_empty rest then [] else c ∷ rest) else c ∷ rest

-- `query.Set` of each pair in turn.
unfoldable pub set_all : List (Text × Text) → Map Text → Map Text
set_all [] query = query
set_all ((k, v) ∷ more) query = set_all more (insert k v query)

abbrev pub basic_auth_of : Go2RtcConfig → Option (Text × Text)
basic_auth_of cfg = if is_empty cfg.username then none else some (cfg.username, cfg.password)

-- The request that the three callers of go2rtc build, and the exchange: an API path, a query, and
-- the texts before the errors of the last two steps.
unfoldable pub request_go2rtc :
    Api → Go2RtcConfig → Method → Text → List (Text × Text) → Text → Text → Io Response
unfolding trim_right_slashes set_all
request_go2rtc api cfg method api_path pairs build_error call_error = do
  base ← lift (wrap (codes "parse base url: ") (api.parse_url (trim_right_slashes cfg.base_url)))
  let request : Request = record {
    method = method;
    url = record base {
      path = path_join (base.path ∷ api_path ∷ []);
      query = set_all pairs base.query;
    };
    basic_auth = basic_auth_of cfg;
  }
  lift (wrap build_error (api.check_request request))
  call (exchanges request) (wrap call_error (api.exchange request))
