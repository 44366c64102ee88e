-- ===== src/Lib.antt =====
-- go2rtc-manager: the program and what is proved of it.
--
-- The program looks after a go2rtc server. A cleanup cycle lists the streams of go2rtc's
-- configuration, checks each for a producer, checks those without one a second time after a delay,
-- and removes those that still have none. A count publishes the number of alive streams to Redis.
-- An HTTP server takes snapshots of cameras and records them to MinIO. The parts are actors of
-- protoactor: each handles one message at a time, and sends others.
--
-- The parts, their files in the repository and their modules here:
--
-- main.go is Main: the calls of `main` in their order. logging/logger.go is Logging.
--
-- common/message.go is Message: a record for each struct, and one type of all messages. An actor's
-- handler returns its new state and a list of effects (Effect): what it sends, answers and
-- forwards.
--
-- config/config.go is Config: Config.Defaults is `setDefaults` and the keys that the fields read,
-- Config.Load is `Load`, where `validate` is what stands behind `v.Unmarshal`. Config.Load.Passes
-- has the checks one by one, Ready the rules of a configuration, Settled puts one that passed
-- through them again.
--
-- actor/MasterActor.go is Master: `receive` routes the messages, `spawn_children` numbers the
-- processes; Master.Schedule is the start and the stop with the two schedulers.
-- actor/ActionActor.go is Action. actor/StreamCleanerActor.go is StreamCleaner and
-- actor/StreamCountActor.go is StreamCount: `receive` and one function for each method.
-- actor/Go2RTCActor.go is Go2Rtc: Yaml is `findStreamsNode`, Payload is `lookupStreamPayload` and
-- `payloadHasProducer`, Actor is the rest. System puts the master, the cleaner, the counter and the
-- go2rtc actor together, with the messages under way between them; a step delivers any one of them,
-- or is the cron job or the ticker. Its children follow the messages of a cleanup (Tokens to
-- Progress), those of a count (Counting), and all of them until none is left (Weights).
--
-- actor/RecordActor.go is Record: Jobs is the map of jobs, Execute the goroutine of a job, Bucket
-- and ObjectKey the names in MinIO (Names and Spellings compare a bucket's name with its rules),
-- JobId the identifiers, Clients the clients of MongoDB and MinIO, Room the requests that find
-- room, Visibility what a caller sees of a job. Record.Concurrency puts the actor and its
-- goroutines together: Limit, Reports and Steps are about the limit on jobs, Busy and Drain about
-- what is still to be sent, and Life and Refines compare the actor with a board that knows the
-- status of each job only. actor/SnapshotActor.go is Snapshot, actor/RedisActor.go is Redis.
--
-- httpserver/server.go is HttpServer: Routes is `New` with the patterns of its handlers, Access the
-- check of the remote address, Admission which addresses it lets in, Types the requests and
-- responses, Handlers the three handlers, Replies what they answer at the end. Referral, Gate and
-- Questions have what they let through. Exchange and RoundTrip put the server, the master and the
-- record actor together. Durations compares the durations in the responses with Time.Parse. Net
-- holds the address functions of Go's package net that they call, Time the times, their printing
-- and their reading, Prelude the texts, maps, results and paths.
--
-- The outside is a parameter. `Go2Rtc.Calls.Api` holds what files, URLs, HTTP exchanges and
-- decoders answer; a computation lists the calls that it makes beside its result, so that a
-- statement can speak of their order. `Record.Execute.Store` answers for MongoDB and MinIO,
-- `Redis.Server` for Redis, `Config.Defaults.Settings` for viper. The cron parser, the levels of
-- zap, the case mapping of letters past ASCII and the one product of floating-point numbers in
-- `time.ParseDuration` are arguments; the handlers take any reader of durations, of which
-- Time.Parse has that of Go. Each statement holds for every such answer, unless it names a
-- hypothesis. The cleanup system asks that a YAML mapping has a value for each key, which is how
-- gopkg.in/yaml.v3 builds its nodes. The limit on jobs asks that a new job's identifier, of a
-- second and four random bytes, is not one that is in use. The exchange of the HTTP server asks
-- that a future ends with an error or with the answer of the actor to which the master forwards.
-- The statement on the system at rest asks for a bound on the streams that go2rtc lists. The one on
-- the defaults asks that viper reads a key that nobody set at its default.
--
-- Texts are lists of code points. Times are nanoseconds since Go's zero time, durations are
-- integers of nanoseconds, and `sub` stops at the bounds of int64 as Go's does. Counters are
-- natural numbers: they count streams and jobs, and the code guards each decrement. The loops are
-- over lists and trees. Two functions are on fuel: the one that prints the digits of a number,
-- whose fuel is above the number itself, and the one that delivers what is under way, whose fuel is
-- above the weight of it. The end of a cycle is stated over the deliveries of a history. A Go map
-- is an association list; IsMap says that a key has one entry.
--
-- Not modelled: deadlines of contexts, other than as errors that the outside answers; the moments
-- at which cron, the ticker and the signals come; the encoding of JSON; the lines of the log, other
-- than those of the action actor; the matching of paths with patterns, and the redirects, of
-- net/http; and the lookup of viper in file, environment and defaults.
pub mod Prelude
pub mod Time
pub mod Net
pub mod Config
pub mod Message
pub mod Effect
pub mod StreamCleaner
pub mod StreamCount
pub mod Master
pub mod Go2Rtc
pub mod Record
pub mod Snapshot
pub mod Redis
pub mod HttpServer
pub mod System
pub mod Tests
pub mod Logging
pub mod Main
pub mod Action
