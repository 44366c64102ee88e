-- ===== src/Tests.antt =====
-- The properties at concrete inputs: a sample configuration, and outside answers written out.
mod Sample
mod Cleanup
mod Recordings
mod Requests
mod Services
mod RoundTrips
mod Settings
mod Counting
mod Program
