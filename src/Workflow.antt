-- ===== src/Workflow.antt =====
-- internal/engine/workflow_def.go: workflow definitions and their dependency graphs.
pub mod Def
pub mod Downstream
pub mod Edit
pub mod Builtin
