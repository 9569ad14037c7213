-- ===== src/Aggregate/Decide/Resume.antt =====
-- internal/engine/aggregate.go: decideWorkflowResumed.
use rick_driven_development.Prelude.{
  ℕ, ◌+◌, String, Bool, false, not, ◌&&◌, List, [], ◌∷◌, Option, none, some, ◌==◌, ltb, leb,
  if◌then◌else◌,
}
use rick_driven_development.Prelude.Dict.{get_or}
use rick_driven_development.Event.Payload.{text, WorkflowRetriedPayload}
use rick_driven_development.Event.Envelope.{Envelope, Stamp, workflow_retried, feedback_generated}
use rick_driven_development.Workflow.Def.{WorkflowDef}
use rick_driven_development.Workflow.Downstream.{personas_to_invalidate_for}
use rick_driven_development.Aggregate.Runtime.{Runtime}
use rick_driven_development.Aggregate.State.{WorkflowAggregate, zero_cached, is_required_persona}
use rick_driven_development.Aggregate.Emit.{emit}
use rick_driven_development.Aggregate.Decide.Failures.{in_graph}

-- The aggregate after a decision, and the events that it emits.
pub record Decided : Type 0 where
  pub state : WorkflowAggregate
  pub events : List Envelope

-- persona := w.PendingResumeRetryFromPhase; …
abbrev pub retries_on_resume : WorkflowAggregate → Option WorkflowDef → Bool
retries_on_resume w none = false
retries_on_resume w (some d) =
    not (w.pending_resume_retry_from_phase == "") && in_graph d w.pending_resume_retry_from_phase

abbrev pub invalidated_on_resume : WorkflowAggregate → Option WorkflowDef → List String
invalidated_on_resume w none = []
invalidated_on_resume w (some d) = personas_to_invalidate_for d w.pending_resume_retry_from_phase

abbrev pub resume_retry_payload : WorkflowAggregate → WorkflowRetriedPayload
resume_retry_payload w = record {
  from_phase = w.pending_resume_retry_from_phase;
  invalidated_personas = invalidated_on_resume w w.workflow_def;
  reason = text "engine: resume after rate_limited pause";
  automatic = false;
}

unfoldable pub resume_retry : Stamp → WorkflowAggregate → Envelope → Envelope
resume_retry s w env =
    emit s w env "engine:aggregate" (workflow_retried (some (resume_retry_payload w)))

unfoldable pub resume_feedback :
    Stamp → WorkflowAggregate → Envelope → String → String → ℕ → String → Envelope
resume_feedback s w env persona source iteration raw_diagnostics = emit s w env "engine:aggregate" (
    feedback_generated (
      some (record {
        target_persona = persona;
        source_persona = source;
        iteration = iteration;
        issues = [];
        summary = "re-triggered after operator guidance";
        raw_diagnostics = raw_diagnostics;
      })))

unfoldable pub resume_retarget : Stamp → WorkflowAggregate → Envelope → Decided
resume_retarget s w env =
    let persona = w.pending_resume_retarget in
    let cached = get_or zero_cached persona w.last_failing_verdict in
    let iteration = get_or 0 persona w.feedback_count + 1 in
    let source =
      if w.pending_resume_retarget_source == ""
      then cached.source_persona
      else w.pending_resume_retarget_source in
    record {
      state = record w {
        max_iterations = if ltb w.max_iterations iteration then iteration else w.max_iterations;
      };
      events = resume_feedback s w env persona source iteration cached.raw_diagnostics ∷ [];
    }

-- The loop over FeedbackCount, in the order in which the runtime visits it.
unfoldable pub resume_scan : Stamp → WorkflowAggregate → Envelope → List (String × ℕ) → Decided
resume_scan s w env [] = record { state = w; events = [] }
resume_scan s w env ((persona, count) ∷ counts) =
    let rest = resume_scan s w env counts in
    let cached = get_or zero_cached persona w.last_failing_verdict in
    if leb w.max_iterations count
    then record {
      state = record w { max_iterations = count + 1 };
      events =
          resume_feedback s w env persona cached.source_persona (count + 1) cached.raw_diagnostics
          ∷ [];
    }
    else rest

-- persona := w.PendingResumeRetarget; …
abbrev pub retargets_on_resume : WorkflowAggregate → Bool
retargets_on_resume w =
    not (w.pending_resume_retarget == "") && is_required_persona w w.pending_resume_retarget

unfoldable pub decide_workflow_resumed : Runtime → Stamp → WorkflowAggregate → Envelope → Decided
decide_workflow_resumed rt s w env =
    if retries_on_resume w w.workflow_def
    then record { state = w; events = resume_retry s w env ∷ [] }
    else if retargets_on_resume w
    then resume_retarget s w env
    else resume_scan s w env (rt.range_order w.feedback_count)
