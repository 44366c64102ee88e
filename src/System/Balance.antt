-- ===== src/System/Balance.antt =====
-- What the cleaner still waits for, and what is under way, in the states that the system can reach.
use go2rtc_manager.Prelude.{
  ℕ, ◌+◌, ◌*◌, ◌<◌, ◌≡◌, refl, ◌⊎◌, true, false, List, [], ◌∷◌, length, arith,
}
use go2rtc_manager.Prelude.Text.{Text}
use go2rtc_manager.Time.{Time}
use go2rtc_manager.Message.{
  StreamListFetched, StreamHealthChecked, StreamRemovalCompleted, stream_list_fetched,
  stream_health_checked, stream_removal_completed,
}
use go2rtc_manager.Effect.{Effect}
use go2rtc_manager.StreamCleaner.{StreamCleanerActor}
use go2rtc_manager.StreamCleaner
use go2rtc_manager.System.{cleaner_pid, go2rtc_pid, mailed, context}
use go2rtc_manager.System.Tokens.{
  Token, none_of_it, works, token, fetching, working, straying, weigh,
}

-- What the cleaner's fields say of the tokens under way: `f` fetches and `w` works of its cycle,
-- and `x` of other cycles.
pub record Balance (a : StreamCleanerActor) (f w x : ℕ) : Type 0 where
  pub target : a.go2rtc_pid ≡ go2rtc_pid
  pub no_strays : x ≡ 0
  pub idle : a.running ≡ false → (f ≡ 0) × (w ≡ 0)
  pub busy :
      a.running ≡ true
      → ((f ≡ 1) × (w ≡ 0) × (a.outstanding ≡ 0))
        ⊎ ((f ≡ 0) × (w ≡ a.outstanding) × (0 < a.outstanding))

first_checks-weigh :
    (f : Token → ℕ) (now : Time) (msg : StreamListFetched) (a : StreamCleanerActor)
    (names : List Text)
    → f none_of_it ≡ 0
    → a.go2rtc_pid ≡ go2rtc_pid
    → weigh f (mailed (StreamCleaner.first_checks (context cleaner_pid now) msg a names))
      ≡ length names * f (works msg.triggered_at)
unfolding StreamCleaner.first_checks mailed weigh token
first_checks-weigh f now msg a [] z h = omega arith
first_checks-weigh f now msg a (name ∷ names) z h =
    ground (arith, first_checks-weigh f now msg a names z h)

-- A handled token `k` leaves the balance, and the messages `es` enter it.
abbrev pub Settles :
    StreamCleanerActor → Token → ℕ → ℕ → ℕ → StreamCleanerActor × List Effect → Type 0
Settles a k f w x (b, es) =
    Balance a (fetching a.triggered_at k + f) (working a.triggered_at k + w)
      (straying a.triggered_at k + x)
    → (b.triggered_at ≡ a.triggered_at)
      × Balance b (f + weigh (fetching a.triggered_at) (mailed es))
          (w + weigh (working a.triggered_at) (mailed es))
          (x + weigh (straying a.triggered_at) (mailed es))

module _ (now : Time) (a : StreamCleanerActor) (f w x : ℕ) where
  pub stream_list_fetched-Settles :
      (m : StreamListFetched)
      → Settles a
          (token cleaner_pid (stream_list_fetched m))
          f
          w
          x
          (StreamCleaner.receive (context cleaner_pid now) (stream_list_fetched m) a)
  unfolding StreamCleaner.receive mailed weigh token
  stream_list_fetched-Settles m h = ground (
    arith,
    first_checks-weigh (fetching a.triggered_at) now m a m.streams refl,
    first_checks-weigh (working a.triggered_at) now m a m.streams refl,
    first_checks-weigh (straying a.triggered_at) now m a m.streams refl,
  )

  pub stream_health_checked-Settles :
      (m : StreamHealthChecked)
      → Settles a
          (token cleaner_pid (stream_health_checked m))
          f
          w
          x
          (StreamCleaner.receive (context cleaner_pid now) (stream_health_checked m) a)
  unfolding StreamCleaner.receive mailed weigh token
  stream_health_checked-Settles m h = ground arith

  pub stream_removal_completed-Settles :
      (m : StreamRemovalCompleted)
      → Settles a
          (token cleaner_pid (stream_removal_completed m))
          f
          w
          x
          (StreamCleaner.receive (context cleaner_pid now) (stream_removal_completed m) a)
  unfolding StreamCleaner.receive mailed weigh token
  stream_removal_completed-Settles m h = ground arith
