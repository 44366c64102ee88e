-- ===== src/HttpServer.antt =====
-- httpserver/server.go. `HttpServer/Access.antt` decides who may use the record API,
-- `HttpServer/Handlers.antt` has the
-- three handlers, and `HttpServer/Replies.antt` what they answer.
pub mod Access
pub mod Admission
pub mod Types
pub mod Replies
pub mod Durations
pub mod Handlers
pub mod Referral
pub mod Gate
pub mod Questions
pub mod Exchange
pub mod RoundTrip
pub mod Routes
