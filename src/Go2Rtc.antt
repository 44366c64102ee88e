-- ===== src/Go2Rtc.antt =====
-- actor/Go2RTCActor.go. The file system, the YAML and JSON decoders and the HTTP exchange are what
-- an `Api` answers; the search for the `streams` section is `Go2Rtc/Yaml.antt`, the reading of an
-- API answer `Go2Rtc/Payload.antt`, and `Receive` with its helpers `Go2Rtc/Actor.antt`.
pub mod Yaml
pub mod Payload
pub mod Calls
pub mod Actor
pub mod Listing
