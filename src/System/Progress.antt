-- ===== src/System/Progress.antt =====
-- The deliveries that a cycle takes, and its streams.
use go2rtc_manager.Prelude.{
  ℕ, ◌+◌, ◌*◌, ◌≤◌, ◌<◌, ◌≡◌, inl, inr, Bool-cases, List, [], ◌∷◌, ◌++◌, arith, ltb, ◌==◌, ==_iff,
  if◌then◌else◌, ap,
}
use go2rtc_manager.Time.{Time}
use go2rtc_manager.Config.{Config}
use go2rtc_manager.Message.{Pid, Message, trigger_cleanup, count_alive_streams_started}
use go2rtc_manager.Effect.{Effect}
use go2rtc_manager.Master.{spawn_children}
use go2rtc_manager.Master
use go2rtc_manager.StreamCleaner
use go2rtc_manager.StreamCount
use go2rtc_manager.Go2Rtc.Calls.{Api}
use go2rtc_manager.Go2Rtc.Actor
use go2rtc_manager.System.{
  System, master_pid, go2rtc_pid, cleaner_pid, count_pid, Envelope, mailed, context, deliver, start,
  delivers, cron_fires, ticker_fires, Reach, here, next,
}
use go2rtc_manager.System.Effort.{
  effort, effort_left, effort_left-append, effort_left-middle, brings, Spends, Master-Spends,
  StreamCleaner-Spends, StreamCount-Spends, Go2Rtc-Spends,
}
use go2rtc_manager.System.Cycle.{Reach-Balanced}

-- What a delivery does to the effort that is left.
abbrev Falls : Pid → Message → List Envelope → List Envelope → Type 0
Falls pid msg mail mail' =
    (0 < effort pid msg → effort_left mail' < effort_left mail)
    × (effort pid msg ≡ 0 → effort_left mail' ≤ effort_left mail + 9 * brings pid msg)

Spends-Falls :
    (pid : Pid) (msg : Message) (es : List Effect) (xs ys : List Envelope)
    → Spends pid msg es
    → Falls pid msg (xs ++ (pid, msg) ∷ ys) ((xs ++ ys) ++ mailed es)
Spends-Falls pid msg es xs ys h =
    ground (arith, effort_left-append (xs ++ ys) (mailed es), effort_left-middle xs ys pid msg)

unspent-Falls :
    (pid : Pid) (msg : Message) (xs ys : List Envelope)
    → Falls pid msg (xs ++ (pid, msg) ∷ ys) (xs ++ ys)
unspent-Falls pid msg xs ys = ground (arith, effort_left-middle xs ys pid msg)

-- A delivery of a message with effort lowers the effort that is left; any other raises it by nine
-- for each stream that it brings to the cleaner, at most.
deliver-Falls :
    (api : Api) (now : Time) (pid : Pid) (msg : Message) (s : System) (xs ys : List Envelope)
    → s.cleaner.go2rtc_pid ≡ go2rtc_pid
    → Falls pid msg
        (xs ++ (pid, msg) ∷ ys)
        (deliver api now pid msg (record s { mail = xs ++ ys })).mail
unfolding deliver
deliver-Falls api now pid msg s xs ys target = elim (Bool-cases (pid == master_pid)) [
  | inl e ↦ rw e (
      Spends-Falls pid msg (Master.receive (context master_pid now) msg (spawn_children s.config 1))
        xs ys (rw ((==_iff pid master_pid).0 e) (Master-Spends now msg s.config)))
  | inr m ↦ rw m (elim (Bool-cases (pid == cleaner_pid)) [
    | inl e ↦ rw e (
        Spends-Falls pid msg (StreamCleaner.receive (context cleaner_pid now) msg s.cleaner).1 xs ys
          (rw ((==_iff pid cleaner_pid).0 e) (StreamCleaner-Spends now msg s.cleaner target)))
    | inr c ↦ rw c (elim (Bool-cases (pid == count_pid)) [
      | inl e ↦ rw e (
          Spends-Falls pid msg (StreamCount.receive (context count_pid now) msg s.count).1 xs ys
            (rw ((==_iff pid count_pid).0 e) (StreamCount-Spends now msg s.count)))
      | inr n ↦ rw n (elim (Bool-cases (pid == go2rtc_pid)) [
        | inl e ↦ rw e (
            Spends-Falls pid msg
              (Actor.receive api (context go2rtc_pid now) msg (record { config = s.config })).1 xs
              ys
              (rw ((==_iff pid go2rtc_pid).0 e)
                (Go2Rtc-Spends api now msg (record { config = s.config }))))
        | inr g ↦ rw g (unspent-Falls pid msg xs ys)
      ])
    ])
  ])
]

-- Of a history: how many deliveries carried a stream's check or removal on, and how many streams
-- the lists that came to the cleaner held.
pub worked : {s t : System} → Reach s t → ℕ
worked here = 0
worked (next r (delivers before pid msg later e api now yaml)) =
    worked r + (if ltb 0 (effort pid msg) then 1 else 0)
worked (next r (cron_fires msg)) = worked r
worked (next r (ticker_fires msg)) = worked r

pub brought : {s t : System} → Reach s t → ℕ
brought here = 0
brought (next r (delivers before pid msg later e api now yaml)) = brought r + brings pid msg
brought (next r (cron_fires msg)) = brought r
brought (next r (ticker_fires msg)) = brought r

-- Over any history from the start: the deliveries that carried streams on, and the effort that is
-- left under way, are at most nine for each stream that was listed.
pub worked-le-brought :
    (cfg : Config) {s : System} (r : Reach (start cfg) s)
    → worked r + effort_left s.mail ≤ 9 * brought r
unfolding worked brought effort effort_left start
worked-le-brought cfg here = omega arith
worked-le-brought cfg (next {t} r (delivers before pid msg later e api now yaml)) = ground (
  arith,
  worked-le-brought cfg r,
  ap effort_left e,
  deliver-Falls api now pid msg t before later (Reach-Balanced cfg r).target,
)
worked-le-brought cfg (next {t} r (cron_fires msg)) = omega (
  arith,
  worked-le-brought cfg r,
  effort_left-append t.mail ((master_pid, trigger_cleanup msg) ∷ []),
)
worked-le-brought cfg (next {t} r (ticker_fires msg)) = omega (
  arith,
  worked-le-brought cfg r,
  effort_left-append t.mail ((master_pid, count_alive_streams_started msg) ∷ []),
)
