-- ===== src/System/Tokens.antt =====
-- Which messages under way belong to the cleaner's cycle.
use go2rtc_manager.Prelude.{
  ℕ, ◌+◌, ◌≡◌, refl, Bool, true, false, ◌&&◌, ◌||◌, List, [], ◌∷◌, ◌++◌, arith, ◌==◌, if◌then◌else◌,
}
use go2rtc_manager.Time.{Time}
use go2rtc_manager.Message.{
  Pid, Message, fetch_stream_list, stream_list_fetched, check_stream_health, stream_health_checked,
  remove_stream, stream_removal_completed,
}
use go2rtc_manager.System.{master_pid, go2rtc_pid, cleaner_pid, Envelope}

-- A message carries the fetch of the stream list, or the work on one stream, of the cycle that was
-- triggered at a time; or it has no part in a cycle of the cleaner.
pub data Token : Type 0 where
  none_of_it : Token
  fetches works : Time → Token

abbrev when : Bool → Token → Token
when true k = k
when false k = none_of_it

abbrev is_relay : Pid → Bool
is_relay pid = (pid == master_pid) || (pid == cleaner_pid)

unfoldable pub token : Pid → Message → Token
token pid (fetch_stream_list m) =
    when ((pid == go2rtc_pid) && (m.requested_by == cleaner_pid)) (fetches m.triggered_at)
token pid (check_stream_health m) =
    when ((pid == go2rtc_pid) && (m.requested_by == cleaner_pid)) (works m.triggered_at)
token pid (remove_stream m) = when (pid == go2rtc_pid) (works m.triggered_at)
token pid (stream_list_fetched m) =
    when (is_relay pid && (m.requested_by == cleaner_pid)) (fetches m.triggered_at)
token pid (stream_health_checked m) =
    when (is_relay pid && (m.requested_by == cleaner_pid)) (works m.triggered_at)
token pid (stream_removal_completed m) = when (is_relay pid) (works m.triggered_at)
token pid _ = none_of_it

-- The counts of tokens: fetches on time, work on time, and tokens of another time.
abbrev pub fetching : Time → Token → ℕ
fetching t none_of_it = 0
fetching t (fetches u) = if t == u then 1 else 0
fetching t (works u) = 0

abbrev pub working : Time → Token → ℕ
working t none_of_it = 0
working t (fetches u) = 0
working t (works u) = if t == u then 1 else 0

abbrev pub straying : Time → Token → ℕ
straying t none_of_it = 0
straying t (fetches u) = if t == u then 0 else 1
straying t (works u) = if t == u then 0 else 1

-- The sum of a weight of tokens over the messages under way.
unfoldable pub weigh : (Token → ℕ) → List Envelope → ℕ
weigh f [] = 0
weigh f ((pid, msg) ∷ es) = f (token pid msg) + weigh f es

pub weigh-append :
    (f : Token → ℕ) (xs ys : List Envelope) → weigh f (xs ++ ys) ≡ weigh f xs + weigh f ys
unfolding weigh
weigh-append f [] ys = omega arith
weigh-append f (x ∷ xs) ys = omega (arith, weigh-append f xs ys)

pub weigh-middle :
    (f : Token → ℕ) (xs ys : List Envelope) (pid : Pid) (msg : Message)
    → weigh f (xs ++ (pid, msg) ∷ ys) ≡ f (token pid msg) + weigh f (xs ++ ys)
unfolding weigh
weigh-middle f [] ys pid msg = refl
weigh-middle f (x ∷ xs) ys pid msg = omega (arith, weigh-middle f xs ys pid msg)

tokens_at_all :
    (t u : Time) (k : Token)
    → fetching t k + working t k + straying t k ≡ fetching u k + working u k + straying u k
tokens_at_all t u k = ground arith

-- How many tokens there are does not depend on the time by which they are sorted.
pub weigh-retime :
    (t u : Time) (es : List Envelope)
    → weigh (fetching t) es + weigh (working t) es + weigh (straying t) es
      ≡ weigh (fetching u) es + weigh (working u) es + weigh (straying u) es
unfolding weigh
weigh-retime t u [] = refl
weigh-retime t u ((pid, msg) ∷ es) =
    omega (arith, weigh-retime t u es, tokens_at_all t u (token pid msg))
