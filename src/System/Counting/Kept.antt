-- ===== src/System/Counting/Kept.antt =====
-- The counter of streams and the messages that it waits for, through each message that it handles.
use go2rtc_manager.Prelude.{
  ℕ, ◌+◌, ◌*◌, ◌<◌, ◌≤◌, ◌≡◌, ◌⊎◌, true, List, [], ◌∷◌, ◌++◌, length, total-append, arith, subst,
  sym, append-nil,
}
use go2rtc_manager.Prelude.Text.{Text}
use go2rtc_manager.Time.{Time}
use go2rtc_manager.Message.{
  CountAliveStreamsStarted, StreamListFetched, StreamHealthChecked, count_alive_streams_started,
  stream_list_fetched, stream_health_checked,
}
use go2rtc_manager.Effect.{Effect}
use go2rtc_manager.StreamCount.{StreamCountActor}
use go2rtc_manager.StreamCount
use go2rtc_manager.System.{go2rtc_pid, count_pid, Envelope, mailed, context}
use go2rtc_manager.System.Tokens.{Token, none_of_it, works, fetching, working}
use go2rtc_manager.System.Counting.{part, tally}

-- What the counter's fields say of the `f` fetches and the `w` checks of its time under way. A check
-- of an earlier count that broke off may still be among them, if that count had the same time.
pub record Awaits (a : StreamCountActor) (f w : ℕ) : Type 0 where
  pub target : a.go2rtc_pid ≡ go2rtc_pid
  pub busy :
      a.running ≡ true
      → ((0 < f) × (a.outstanding ≡ 0)) ⊎ ((0 < a.outstanding) × (a.outstanding ≤ w))

abbrev pub Awaited : StreamCountActor → List Envelope → Type 0
Awaited a mail =
    Awaits a (tally (fetching a.triggered_at) mail) (tally (working a.triggered_at) mail)

first_checks-tally :
    (f : Token → ℕ) (now : Time) (msg : StreamListFetched) (a : StreamCountActor)
    (names : List Text)
    → a.go2rtc_pid ≡ go2rtc_pid
    → tally f (mailed (StreamCount.first_checks (context count_pid now) msg a names))
      ≡ length names * f (works msg.triggered_at)
unfolding StreamCount.first_checks mailed part
first_checks-tally f now msg a [] h = omega arith
first_checks-tally f now msg a (name ∷ names) h =
    ground (arith, first_checks-tally f now msg a names h)

-- A handled token `k` leaves the mail, and the messages `es` enter it.
abbrev Handles : StreamCountActor → Token → ℕ → ℕ → StreamCountActor × List Effect → Type 0
Handles a k f w (b, es) =
    Awaits a (fetching a.triggered_at k + f) (working a.triggered_at k + w)
    → (b.triggered_at ≡ a.triggered_at)
      × Awaits b (f + tally (fetching a.triggered_at) (mailed es))
          (w + tally (working a.triggered_at) (mailed es))

module _ (now : Time) (a : StreamCountActor) (f w : ℕ) where
  pub stream_list_fetched-Handles :
      (m : StreamListFetched)
      → Handles a
          (part (count_pid, stream_list_fetched m))
          f
          w
          (StreamCount.receive (context count_pid now) (stream_list_fetched m) a)
  unfolding StreamCount.receive mailed part
  stream_list_fetched-Handles m h = ground (
    arith,
    first_checks-tally (fetching a.triggered_at) now m a m.streams,
    first_checks-tally (working a.triggered_at) now m a m.streams,
  )

  pub stream_health_checked-Handles :
      (m : StreamHealthChecked)
      → Handles a
          (part (count_pid, stream_health_checked m))
          f
          w
          (StreamCount.receive (context count_pid now) (stream_health_checked m) a)
  unfolding StreamCount.receive mailed part
  stream_health_checked-Handles m h = ground arith

-- `Awaited` with a message taken out of the mail.
abbrev pub Pending : StreamCountActor → Token → List Envelope → Type 0
Pending a k rest =
    Awaits a (fetching a.triggered_at k + tally (fetching a.triggered_at) rest)
      (working a.triggered_at k + tally (working a.triggered_at) rest)

pub Handles-Awaited :
    (a : StreamCountActor) (k : Token) (rest : List Envelope) (out : StreamCountActor × List Effect)
    → Handles a k (tally (fetching a.triggered_at) rest) (tally (working a.triggered_at) rest) out
    → Pending a k rest
    → Awaited out.0 (rest ++ mailed out.1)
Handles-Awaited a k rest (b, es) keeps h =
    let (same, v) = keeps h in
    subst
      (λ t.
        Awaits b (tally (fetching t) (rest ++ mailed es)) (tally (working t) (rest ++ mailed es)))
      (sym same)
      (rw
        (
          total-append (λ e. fetching a.triggered_at (part e)) rest (mailed es),
          total-append (λ e. working a.triggered_at (part e)) rest (mailed es),
        )
        v)

pub ignored-Awaited :
    (a : StreamCountActor) (rest : List Envelope)
    → Pending a none_of_it rest
    → Awaited a (rest ++ [])
ignored-Awaited a rest h = rw (append-nil rest) (ground (arith, h))

pub count_started-Awaited :
    (now : Time) (a : StreamCountActor) (m : CountAliveStreamsStarted) (rest : List Envelope)
    → Pending a none_of_it rest
    → let (b, es) = StreamCount.receive (context count_pid now) (count_alive_streams_started m) a in
      Awaited b (rest ++ mailed es)
unfolding StreamCount.receive mailed part
count_started-Awaited now a m rest h = ground (
  arith,
  append-nil rest,
  total-append (λ e. fetching m.triggered_at (part e)) rest
      (mailed (StreamCount.receive (context count_pid now) (count_alive_streams_started m) a).1),
)
