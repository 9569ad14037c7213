-- ===== src/Projection.antt =====
-- internal/projection: the read models that are folded from the events of all workflows.
pub mod Status
pub mod Tokens
