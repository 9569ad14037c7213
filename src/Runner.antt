-- ===== src/Runner.antt =====
-- internal/engine/persona_runner.go: how an event becomes a dispatch of a handler.
pub mod Seen
pub mod Queue
pub mod Pauses
pub mod Admission
pub mod Advisory
pub mod Results
pub mod Retry
