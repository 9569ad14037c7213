-- ===== src/Aggregate.antt =====
-- internal/engine/aggregate.go: the workflow aggregate, its fold over events and its decisions.
pub mod Runtime
pub mod State
pub mod Apply
pub mod Failure
pub mod Fingerprint
pub mod Sorting
pub mod Float
pub mod Emit
pub mod Decide
pub mod Program
pub mod Bounds
pub mod Completion
pub mod Terminal
pub mod Rounds
pub mod Resumption
pub mod ResetHint
pub mod PartialReview
