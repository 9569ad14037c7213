-- ===== src/Event.antt =====
-- internal/event: payloads, event types and envelopes.
pub mod Payload
pub mod Envelope
pub mod Types
