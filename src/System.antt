-- ===== src/System.antt =====
-- The engine and its workers together: what internal/frontend/grpc/handler.go hands out, what
-- sdk/worker.go makes of it, and what comes back.
pub mod Polls
pub mod Recorded
pub mod Round
pub mod Reaches
pub mod Workers
pub mod Input
pub mod Ready
