-- ===== src/System/Invariant.antt =====
-- The balance of the cleaner's tokens in every state that the system can reach.
use go2rtc_manager.Prelude.{
  ℕ, ◌+◌, ◌≡◌, refl, inl, inr, Bool-cases, false, List, [], ◌∷◌, ◌++◌, arith, ◌==◌, ==_iff, subst,
  sym, ◌∙◌, append-nil,
}
use go2rtc_manager.Time.{Time}
use go2rtc_manager.Message.{
  Pid, CleanupCycleStarted, Message, cleanup_cycle_started, stream_list_fetched,
  stream_health_checked, stream_removal_completed, fetch_stream_list,
}
use go2rtc_manager.Effect.{Effect}
use go2rtc_manager.StreamCleaner.{StreamCleanerActor}
use go2rtc_manager.StreamCleaner
use go2rtc_manager.StreamCount
use go2rtc_manager.Master
use go2rtc_manager.Master.{spawn_children}
use go2rtc_manager.Go2Rtc.Actor
use go2rtc_manager.Go2Rtc.Calls.{Api}
use go2rtc_manager.System.{
  System, master_pid, cleaner_pid, go2rtc_pid, count_pid, Envelope, mailed, context, deliver,
  IsYaml,
}
use go2rtc_manager.System.Tokens.{
  Token, none_of_it, token, fetching, working, straying, weigh, weigh-append, weigh-middle,
  weigh-retime,
}
use go2rtc_manager.System.Relays.{Master-relays, StreamCount-relays, Go2Rtc-relays}
use go2rtc_manager.System.Balance.{
  Balance, Settles, stream_list_fetched-Settles, stream_health_checked-Settles,
  stream_removal_completed-Settles,
}

abbrev BalancedAt : Time → StreamCleanerActor → List Envelope → Type 0
BalancedAt t a mail =
    Balance a (weigh (fetching t) mail) (weigh (working t) mail) (weigh (straying t) mail)

abbrev pub Balanced : StreamCleanerActor → List Envelope → Type 0
Balanced a = BalancedAt a.triggered_at a

-- `Balanced` with a message taken out of the mail.
abbrev Holds : StreamCleanerActor → Token → List Envelope → Type 0
Holds a k rest =
    Balance a (fetching a.triggered_at k + weigh (fetching a.triggered_at) rest)
      (working a.triggered_at k + weigh (working a.triggered_at) rest)
      (straying a.triggered_at k + weigh (straying a.triggered_at) rest)

settle :
    (a : StreamCleanerActor) (k : Token) (rest : List Envelope)
    (out : StreamCleanerActor × List Effect)
    → Settles a k
        (weigh (fetching a.triggered_at) rest)
        (weigh (working a.triggered_at) rest)
        (weigh (straying a.triggered_at) rest)
        out
    → Holds a k rest
    → Balanced out.0 (rest ++ mailed out.1)
settle a k rest (b, es) keeps h =
    let (same, v) = keeps h in
    subst (λ t. BalancedAt t b (rest ++ mailed es)) (sym same)
      (rw
        (
          weigh-append (fetching a.triggered_at) rest (mailed es),
          weigh-append (working a.triggered_at) rest (mailed es),
          weigh-append (straying a.triggered_at) rest (mailed es),
        )
        v)

-- The balance depends on the mail by its weights only.
pub reweigh :
    (a : StreamCleanerActor) (mail mail' : List Envelope)
    → ((f : Token → ℕ) → f none_of_it ≡ 0 → weigh f mail' ≡ weigh f mail)
    → Balanced a mail
    → Balanced a mail'
reweigh a mail mail' same h =
    rw
      (
        same (fetching a.triggered_at) refl,
        same (working a.triggered_at) refl,
        same (straying a.triggered_at) refl,
      )
      h

Holds-nothing :
    (a : StreamCleanerActor) (rest : List Envelope) → Holds a none_of_it rest → Balanced a rest
Holds-nothing a rest h = ground arith

ignored-Balanced :
    (a : StreamCleanerActor) (rest : List Envelope)
    → Holds a none_of_it rest
    → Balanced a (rest ++ [])
ignored-Balanced a rest h = rw (append-nil rest) (Holds-nothing a rest h)

-- A cycle starts only when no token is under way, so none is of another time.
cleanup_cycle_started-Balanced :
    (now : Time) (a : StreamCleanerActor) (m : CleanupCycleStarted) (rest : List Envelope)
    → Balanced a rest
    → let (b, es) = StreamCleaner.receive (context cleaner_pid now) (cleanup_cycle_started m) a in
      Balanced b (rest ++ mailed es)
unfolding StreamCleaner.receive mailed weigh token
cleanup_cycle_started-Balanced now a m rest h = ground (
  arith,
  append-nil rest,
  weigh-retime a.triggered_at m.triggered_at rest,
  weigh-append (fetching m.triggered_at) rest
      (mailed (StreamCleaner.receive (context cleaner_pid now) (cleanup_cycle_started m) a).1),
  weigh-append (working m.triggered_at) rest
      (mailed (StreamCleaner.receive (context cleaner_pid now) (cleanup_cycle_started m) a).1),
  weigh-append (straying m.triggered_at) rest
      (mailed (StreamCleaner.receive (context cleaner_pid now) (cleanup_cycle_started m) a).1),
)

cleaner-Balanced :
    (now : Time) (a : StreamCleanerActor) (msg : Message) (rest : List Envelope)
    → Holds a (token cleaner_pid msg) rest
    → let (b, es) = StreamCleaner.receive (context cleaner_pid now) msg a in
      Balanced b (rest ++ mailed es)
cleaner-Balanced now a (cleanup_cycle_started m) rest h =
    cleanup_cycle_started-Balanced now a m rest (Holds-nothing a rest (unfold token in h))
cleaner-Balanced now a (stream_list_fetched m) rest h =
    settle a _ rest _ (stream_list_fetched-Settles now a _ _ _ m) h
cleaner-Balanced now a (stream_health_checked m) rest h =
    settle a _ rest _ (stream_health_checked-Settles now a _ _ _ m) h
cleaner-Balanced now a (stream_removal_completed m) rest h =
    settle a _ rest _ (stream_removal_completed-Settles now a _ _ _ m) h
cleaner-Balanced now a _ rest h =
    unfold token StreamCleaner.receive mailed in ignored-Balanced a rest h

-- A process that passes its message's tokens on keeps the balance.
relay-Balanced :
    (a : StreamCleanerActor) (pid : Pid) (msg : Message) (es : List Effect) (xs ys : List Envelope)
    → ((f : Token → ℕ) → f none_of_it ≡ 0 → weigh f (mailed es) ≡ f (token pid msg))
    → Balanced a (xs ++ (pid, msg) ∷ ys)
    → Balanced a ((xs ++ ys) ++ mailed es)
relay-Balanced a pid msg es xs ys relays = reweigh a _ _ λ f z.
    omega (arith, weigh-append f (xs ++ ys) (mailed es), weigh-middle f xs ys pid msg, relays f z)

taken-Holds :
    (a : StreamCleanerActor) (pid : Pid) (msg : Message) (xs ys : List Envelope)
    → Balanced a (xs ++ (pid, msg) ∷ ys)
    → Holds a (token pid msg) (xs ++ ys)
taken-Holds a pid msg xs ys h =
    rw
      (
        ← weigh-middle (fetching a.triggered_at) xs ys pid msg,
        ← weigh-middle (working a.triggered_at) xs ys pid msg,
        ← weigh-middle (straying a.triggered_at) xs ys pid msg,
      )
      h

-- The processes that take no token: the count actor and the other children.
abbrev IsOther : Pid → Type 0
IsOther pid =
    ((pid == master_pid) ≡ false) × ((pid == cleaner_pid) ≡ false) × ((pid == go2rtc_pid) ≡ false)

no_token :
    (f : Token → ℕ)
    → f none_of_it ≡ 0
    → (pid : Pid) (msg : Message) → IsOther pid
    → f (token pid msg) ≡ 0
unfolding token
no_token f z pid (fetch_stream_list m) h = ground arith
no_token f z pid _ h = ground arith

module _ (now : Time) (pid : Pid) (msg : Message) (s : System) (xs ys : List Envelope)
    (h : Balanced s.cleaner (xs ++ (pid, msg) ∷ ys)) where
  to_master :
      pid ≡ master_pid
      → Balanced s.cleaner (
          (xs ++ ys)
          ++ mailed (Master.receive (context master_pid now) msg (spawn_children s.config 1)))
  to_master e =
      relay-Balanced s.cleaner pid msg
        (Master.receive (context master_pid now) msg (spawn_children s.config 1)) xs ys
        (λ f z. rw e (Master-relays f z now msg s.config)) h

  to_cleaner :
      pid ≡ cleaner_pid
      → let (b, es) = StreamCleaner.receive (context cleaner_pid now) msg s.cleaner in
        Balanced b ((xs ++ ys) ++ mailed es)
  to_cleaner e =
      cleaner-Balanced now s.cleaner msg (xs ++ ys)
        (rw e at (taken-Holds s.cleaner pid msg xs ys h))

  to_count :
      pid ≡ count_pid
      → Balanced s.cleaner
          ((xs ++ ys) ++ mailed (StreamCount.receive (context count_pid now) msg s.count).1)
  to_count e =
      relay-Balanced s.cleaner pid msg (StreamCount.receive (context count_pid now) msg s.count).1
        xs ys
        (λ f z. rw e (
          StreamCount-relays f z now msg s.count ∙ sym (no_token f z count_pid msg (ground arith))))
        h

  to_go2rtc :
      (api : Api)
      → IsYaml api
      → pid ≡ go2rtc_pid
      → Balanced s.cleaner (
          (xs ++ ys)
          ++ mailed
              (Actor.receive api (context go2rtc_pid now) msg (record { config = s.config })).1)
  to_go2rtc api yaml e =
      relay-Balanced s.cleaner pid msg
        (Actor.receive api (context go2rtc_pid now) msg (record { config = s.config })).1 xs ys
        (λ f z. rw e (Go2Rtc-relays f z api now msg (record { config = s.config }) yaml)) h

  to_others : IsOther pid → Balanced s.cleaner (xs ++ ys)
  to_others other =
      reweigh s.cleaner _ _
        (λ f z. omega (arith, weigh-middle f xs ys pid msg, no_token f z pid msg other)) h

-- Any delivery to any process keeps the balance.
pub deliver-Balanced :
    (api : Api) (now : Time) (pid : Pid) (msg : Message) (s : System) (xs ys : List Envelope)
    → IsYaml api
    → Balanced s.cleaner (xs ++ (pid, msg) ∷ ys)
    → let t = deliver api now pid msg (record s { mail = xs ++ ys }) in Balanced t.cleaner t.mail
unfolding deliver
deliver-Balanced api now pid msg s xs ys yaml h = elim (Bool-cases (pid == master_pid)) [
  | inl e ↦ rw e (to_master now pid msg s xs ys h ((==_iff pid master_pid).0 e))
  | inr m ↦ rw m (elim (Bool-cases (pid == cleaner_pid)) [
    | inl e ↦ rw e (to_cleaner now pid msg s xs ys h ((==_iff pid cleaner_pid).0 e))
    | inr c ↦ rw c (elim (Bool-cases (pid == count_pid)) [
      | inl e ↦ rw e (to_count now pid msg s xs ys h ((==_iff pid count_pid).0 e))
      | inr n ↦ rw n (elim (Bool-cases (pid == go2rtc_pid)) [
        | inl e ↦ rw e (to_go2rtc now pid msg s xs ys h api yaml ((==_iff pid go2rtc_pid).0 e))
        | inr g ↦ rw g (to_others now pid msg s xs ys h (m, c, g))
      ])
    ])
  ])
]
