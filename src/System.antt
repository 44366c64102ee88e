-- ===== src/System.antt =====
-- The actors of a cleanup cycle and of a stream count together (actor/MasterActor.go,
-- actor/StreamCleanerActor.go, actor/StreamCountActor.go, actor/Go2RTCActor.go): each with its
-- `Receive`, and the messages that are under way between them.
--
-- protoactor delivers the messages of one sender in order. Here any message under way may be
-- delivered next, which allows every order that protoactor allows, and the delays of the goroutines
-- that sleep before they send. The cron jobs and the ticker of the master, which send to it at times
-- of their own, are the steps `cron_fires` and `ticker_fires`.
pub mod Tokens
pub mod Relays
pub mod Balance
pub mod Invariant
pub mod Cycle
pub mod Counting
pub mod Effort
pub mod Progress
pub mod Weights
use go2rtc_manager.Prelude.{
  ℕ, ◌+◌, ◌≡◌, Bool, true, false, List, [], ◌∷◌, ◌++◌, ◌==◌, if◌then◌else◌,
}
use go2rtc_manager.Prelude.Results.{ok}
use go2rtc_manager.Prelude.Text.{Text}
use go2rtc_manager.Time.{Time}
use go2rtc_manager.Config.{Config}
use go2rtc_manager.Message.{
  Pid, TriggerCleanup, CountAliveStreamsStarted, Message, trigger_cleanup,
  count_alive_streams_started,
}
use go2rtc_manager.Effect.{Effect, send, send_after, respond, forward, Context}
use go2rtc_manager.Master.{MasterActor, spawn_children}
use go2rtc_manager.Master
use go2rtc_manager.StreamCleaner.{StreamCleanerActor, new_stream_cleaner_actor}
use go2rtc_manager.StreamCleaner
use go2rtc_manager.StreamCount.{StreamCountActor, new_stream_count_actor}
use go2rtc_manager.StreamCount
use go2rtc_manager.Go2Rtc.Yaml.{Node, IsPaired}
use go2rtc_manager.Go2Rtc.Calls.{Api}
use go2rtc_manager.Go2Rtc.Actor

-- The processes, in the order in which `main` and `spawnChildren` spawn them.
abbrev pub master_pid : Pid
master_pid = 0

abbrev pub go2rtc_pid : Pid
go2rtc_pid = 1

abbrev pub cleaner_pid : Pid
cleaner_pid = 6

abbrev pub count_pid : Pid
count_pid = 7

abbrev pub Envelope : Type 0
Envelope = Pid × Message

-- The master and the go2rtc actor have no state that changes.
pub record System : Type 0 where
  pub config : Config
  pub cleaner : StreamCleanerActor
  pub count : StreamCountActor
  pub mail : List Envelope

-- The messages that a handler's effects put under way. An answer to a request goes outside.
unfoldable pub mailed : List Effect → List Envelope
mailed [] = []
mailed (send pid msg ∷ es) = (pid, msg) ∷ mailed es
mailed (send_after d pid msg ∷ es) = (pid, msg) ∷ mailed es
mailed (forward pid msg ∷ es) = (pid, msg) ∷ mailed es
mailed (respond msg ∷ es) = mailed es

unfoldable pub post : List Effect → System → System
unfolding mailed
post es s = record s { mail = s.mail ++ mailed es }

abbrev pub context : Pid → Time → Context
context self now = record { self = self; parent = master_pid; now = now }

-- One delivery: the receiver's `Receive`. The other children send nothing to these four.
unfoldable pub deliver : Api → Time → Pid → Message → System → System
unfolding post
deliver api now pid msg s =
    if pid == master_pid
    then post (Master.receive (context master_pid now) msg (spawn_children s.config 1)) s
    else if pid == cleaner_pid
    then (let (cleaner, es) = StreamCleaner.receive (context cleaner_pid now) msg s.cleaner in
        post es (record s { cleaner = cleaner }))
    else if pid == count_pid
    then (let (count, es) = StreamCount.receive (context count_pid now) msg s.count in
        post es (record s { count = count }))
    else if pid == go2rtc_pid
    then post (Actor.receive api (context go2rtc_pid now) msg (record { config = s.config })).1 s
    else s

-- gopkg.in/yaml.v3 gives the content of a mapping as alternating keys and values.
abbrev pub IsYaml : Api → Type 0
IsYaml api = (raw : Text) (root : Node) → api.parse_yaml raw ≡ ok root → IsPaired root

unfoldable pub start : Config → System
unfolding new_stream_cleaner_actor new_stream_count_actor
start cfg = record {
  config = cfg;
  cleaner = new_stream_cleaner_actor cfg go2rtc_pid master_pid;
  count = new_stream_count_actor cfg go2rtc_pid;
  mail = [];
}

pub data Step (s : System) : System → Type 0 where
  delivers :
      (before : List Envelope) (pid : Pid) (msg : Message) (later : List Envelope)
      → s.mail ≡ before ++ (pid, msg) ∷ later
      → (api : Api) (now : Time) → IsYaml api
      → Step s (deliver api now pid msg (record s { mail = before ++ later }))
  cron_fires :
      (msg : TriggerCleanup)
      → Step s (record s { mail = s.mail ++ (master_pid, trigger_cleanup msg) ∷ [] })
  ticker_fires :
      (msg : CountAliveStreamsStarted)
      → Step s (record s { mail = s.mail ++ (master_pid, count_alive_streams_started msg) ∷ [] })

pub data Reach (s : System) : System → Type 0 where
  here : Reach s s
  next : {t u : System} → Reach s t → Step t u → Reach s u
