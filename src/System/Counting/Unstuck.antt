-- ===== src/System/Counting/Unstuck.antt =====
-- A running stream count and the messages under way, whatever the order of deliveries.
use go2rtc_manager.Prelude.{
  ℕ, ◌+◌, ◌<◌, ◌≤◌, ◌≡◌, refl, inl, inr, Bool-cases, true, false, List, [], ◌∷◌, ◌++◌, total-append,
  total-middle, arith, ◌==◌, ==_iff, subst, sym, ◌∙◌,
}
use go2rtc_manager.Time.{Time}
use go2rtc_manager.Config.{Config}
use go2rtc_manager.Message.{
  Pid, Message, trigger_cleanup, count_alive_streams_started, stream_list_fetched,
  stream_health_checked, fetch_stream_list,
}
use go2rtc_manager.Effect.{Effect}
use go2rtc_manager.Master
use go2rtc_manager.Master.{spawn_children}
use go2rtc_manager.StreamCleaner
use go2rtc_manager.StreamCount.{StreamCountActor}
use go2rtc_manager.StreamCount
use go2rtc_manager.Go2Rtc.Actor
use go2rtc_manager.Go2Rtc.Calls.{Api}
use go2rtc_manager.System.{
  System, master_pid, cleaner_pid, go2rtc_pid, count_pid, Envelope, mailed, context, deliver, start,
  IsYaml, Step, delivers, cron_fires, ticker_fires, Reach, here, next,
}
use go2rtc_manager.System.Tokens.{Token, none_of_it, fetching, working}
use go2rtc_manager.System.Counting.{part, tally, Master-passes, StreamCleaner-passes, Go2Rtc-passes}
use go2rtc_manager.System.Counting.Kept.{
  Awaited, Pending, Handles-Awaited, ignored-Awaited, count_started-Awaited,
  stream_list_fetched-Handles, stream_health_checked-Handles,
}

counter-Awaited :
    (now : Time) (a : StreamCountActor) (msg : Message) (rest : List Envelope)
    → Pending a (part (count_pid, msg)) rest
    → let (b, es) = StreamCount.receive (context count_pid now) msg a in
      Awaited b (rest ++ mailed es)
counter-Awaited now a (count_alive_streams_started m) rest h =
    count_started-Awaited now a m rest (unfold part in h)
counter-Awaited now a (stream_list_fetched m) rest h =
    Handles-Awaited a _ rest _ (stream_list_fetched-Handles now a _ _ m) h
counter-Awaited now a (stream_health_checked m) rest h =
    Handles-Awaited a _ rest _ (stream_health_checked-Handles now a _ _ m) h
counter-Awaited now a _ rest h = unfold part StreamCount.receive mailed in ignored-Awaited a rest h

-- `Awaited` depends on the mail by its tallies only.
retally :
    (a : StreamCountActor) (mail mail' : List Envelope)
    → ((f : Token → ℕ) → f none_of_it ≡ 0 → tally f mail' ≡ tally f mail)
    → Awaited a mail
    → Awaited a mail'
retally a mail mail' same h =
    rw (same (fetching a.triggered_at) refl, same (working a.triggered_at) refl) h

-- A process that passes its message's tokens on.
passed-Awaited :
    (a : StreamCountActor) (pid : Pid) (msg : Message) (es : List Effect) (xs ys : List Envelope)
    → ((f : Token → ℕ) → f none_of_it ≡ 0 → tally f (mailed es) ≡ f (part (pid, msg)))
    → Awaited a (xs ++ (pid, msg) ∷ ys)
    → Awaited a ((xs ++ ys) ++ mailed es)
passed-Awaited a pid msg es xs ys passes = retally a _ _ λ f z. omega (
  arith,
  total-append (λ e. f (part e)) (xs ++ ys) (mailed es),
  total-middle (λ e. f (part e)) xs (pid, msg) ys,
  passes f z,
)

taken-Pending :
    (a : StreamCountActor) (pid : Pid) (msg : Message) (xs ys : List Envelope)
    → Awaited a (xs ++ (pid, msg) ∷ ys)
    → Pending a (part (pid, msg)) (xs ++ ys)
taken-Pending a pid msg xs ys h =
    rw
      (
        ← total-middle (λ e. fetching a.triggered_at (part e)) xs (pid, msg) ys,
        ← total-middle (λ e. working a.triggered_at (part e)) xs (pid, msg) ys,
      )
      h

-- The processes that take no token of the count: the cleaner and the other children.
abbrev IsOther : Pid → Type 0
IsOther pid =
    ((pid == master_pid) ≡ false) × ((pid == count_pid) ≡ false) × ((pid == go2rtc_pid) ≡ false)

no_part :
    (f : Token → ℕ)
    → f none_of_it ≡ 0
    → (pid : Pid) (msg : Message) → IsOther pid
    → f (part (pid, msg)) ≡ 0
unfolding part
no_part f z pid (fetch_stream_list m) h = ground arith
no_part f z pid _ h = ground arith

-- Any delivery to any process keeps the account.
deliver-Awaited :
    (api : Api) (now : Time) (pid : Pid) (msg : Message) (s : System) (xs ys : List Envelope)
    → IsYaml api
    → Awaited s.count (xs ++ (pid, msg) ∷ ys)
    → let t = deliver api now pid msg (record s { mail = xs ++ ys }) in Awaited t.count t.mail
unfolding deliver
deliver-Awaited api now pid msg s xs ys yaml h = elim (Bool-cases (pid == master_pid)) [
  | inl e ↦ rw e (
      passed-Awaited s.count pid msg
        (Master.receive (context master_pid now) msg (spawn_children s.config 1)) xs ys
        (λ f z. rw ((==_iff pid master_pid).0 e) (Master-passes f z now msg s.config)) h)
  | inr m ↦ rw m (elim (Bool-cases (pid == cleaner_pid)) [
    | inl e ↦ rw e (
        passed-Awaited s.count pid msg
          (StreamCleaner.receive (context cleaner_pid now) msg s.cleaner).1 xs ys
          (λ f z. rw ((==_iff pid cleaner_pid).0 e) (
            StreamCleaner-passes f z now msg s.cleaner
            ∙ sym (no_part f z cleaner_pid msg (ground arith))))
          h)
    | inr c ↦ rw c (elim (Bool-cases (pid == count_pid)) [
      | inl e ↦ rw e (
          counter-Awaited now s.count msg (xs ++ ys)
            (rw ((==_iff pid count_pid).0 e) at (taken-Pending s.count pid msg xs ys h)))
      | inr n ↦ rw n (elim (Bool-cases (pid == go2rtc_pid)) [
        | inl e ↦ rw e (
            passed-Awaited s.count pid msg
              (Actor.receive api (context go2rtc_pid now) msg (record { config = s.config })).1 xs
              ys
              (λ f z.
                rw ((==_iff pid go2rtc_pid).0 e)
                  (Go2Rtc-passes f z api now msg (record { config = s.config }) yaml))
              h)
        | inr g ↦ rw g (
            retally s.count _ _
              (λ f z. omega (
                arith,
                total-middle (λ e. f (part e)) xs (pid, msg) ys,
                no_part f z pid msg (m, n, g),
              ))
              h)
      ])
    ])
  ])
]

start-Awaited : (cfg : Config) → Awaited (start cfg).count (start cfg).mail
unfolding start
start-Awaited cfg = ground arith

Step-Awaited : {s t : System} → Step s t → Awaited s.count s.mail → Awaited t.count t.mail
unfolding part
Step-Awaited {s} (delivers before pid msg later e api now yaml) h =
    deliver-Awaited api now pid msg s before later yaml (subst (Awaited s.count) e h)
Step-Awaited {s} (cron_fires msg) h =
    retally s.count _ _
      (λ f z.
        omega
          (arith, total-append (λ e. f (part e)) s.mail ((master_pid, trigger_cleanup msg) ∷ [])))
      h
Step-Awaited {s} (ticker_fires msg) h =
    retally s.count _ _
      (λ f z. omega (
        arith,
        total-append (λ e. f (part e)) s.mail ((master_pid, count_alive_streams_started msg) ∷ []),
      ))
      h

pub Reach-Awaited : (cfg : Config) {s : System} → Reach (start cfg) s → Awaited s.count s.mail
Reach-Awaited cfg here = start-Awaited cfg
Reach-Awaited cfg (next r st) = Step-Awaited st (Reach-Awaited cfg r)

-- The messages under way that belong to the count of the counter's time.
abbrev pub parts_of : StreamCountActor → List Envelope → ℕ
parts_of a mail = tally (fetching a.triggered_at) mail + tally (working a.triggered_at) mail

-- In every state that the system can reach, by any deliveries in any order: while the counter runs,
-- a message that belongs to its count is under way, and it waits for no more checks than are under
-- way.
pub counter_never_stuck :
    (cfg : Config) {s : System}
    → Reach (start cfg) s
    → s.count.running ≡ true
    → (0 < parts_of s.count s.mail)
      × (s.count.outstanding ≤ tally (working s.count.triggered_at) s.mail)
counter_never_stuck cfg r on = ground (arith, Reach-Awaited cfg r)
