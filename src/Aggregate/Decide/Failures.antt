-- ===== src/Aggregate/Decide/Failures.antt =====
-- internal/engine/aggregate.go: decidePersonaFailed, maybeAutoRetry and maybeRateLimitPause.
use rick_driven_development.Prelude.{
  ◌+◌, String, Bool, false, true, not, ◌&&◌, List, [], ◌∷◌, Option, none, some, ◌==◌, leb,
  if◌then◌else◌,
}
use rick_driven_development.Prelude.Dict.{lookup, get_or}
use rick_driven_development.Event.Payload.{
  Bytes, Reason, PersonaFailedPayload, WorkflowRetriedPayload, WorkflowPausedPayload, zero_failed,
}
use rick_driven_development.Event.Envelope.{
  Envelope, Json, Stamp, unmarshal, workflow_failed, workflow_paused, workflow_retried,
}
use rick_driven_development.Workflow.Def.{WorkflowDef}
use rick_driven_development.Workflow.Downstream.{personas_to_invalidate_for}
use rick_driven_development.Aggregate.Runtime.{Runtime, Outcome, done, panic}
use rick_driven_development.Aggregate.Failure.{
  failure_kind_is_auto_retryable, is_rate_limited, extract_rate_limit_reset_hint,
}
use rick_driven_development.Aggregate.State.{
  WorkflowAggregate, is_running, is_required_persona, is_category_reviewer,
  max_auto_retries_per_persona,
}
use rick_driven_development.Aggregate.Emit.{emit, maybe_emit_workflow_completed}

-- _, inGraph := d.Graph[persona]
abbrev pub in_graph : WorkflowDef → String → Bool
in_graph d persona = elim (lookup persona d.graph) [ none ↦ false | some _ ↦ true ]

abbrev pub auto_retry_payload :
    WorkflowAggregate → WorkflowDef → PersonaFailedPayload → WorkflowRetriedPayload
auto_retry_payload w d p = record {
  from_phase = p.persona;
  invalidated_personas = personas_to_invalidate_for d p.persona;
  reason =
      Reason.auto_retry p.failure_kind (get_or 0 p.persona w.auto_retries + 1)
        max_auto_retries_per_persona;
  automatic = true;
}

unfoldable pub maybe_auto_retry :
    Stamp → WorkflowAggregate → WorkflowDef → Envelope → PersonaFailedPayload → Option Envelope
maybe_auto_retry s w d env p =
    if not (failure_kind_is_auto_retryable p)
    then none
    else if leb max_auto_retries_per_persona (get_or 0 p.persona w.auto_retries)
    then none
    else if not (in_graph d p.persona)
    then none
    else some (emit s w env "engine:aggregate" (workflow_retried (some (auto_retry_payload w d p))))

abbrev pub rate_limit_payload : PersonaFailedPayload → Bytes → WorkflowPausedPayload
rate_limit_payload p reset_hint = record {
  reason = Reason.rate_limited p.persona p.backend reset_hint;
  source = "auto:rate_limited";
  retarget_persona = "";
  retarget_source = "";
  retry_from_phase = p.persona;
  rate_limit_reset_hint = reset_hint;
  rate_limit_backend = p.backend;
}

unfoldable pub rate_limit_pause :
    Stamp
    → WorkflowAggregate
    → Envelope
    → PersonaFailedPayload
    → Outcome Bytes
    → Outcome (Option Envelope)
rate_limit_pause s w env p panic = panic
rate_limit_pause s w env p (done reset_hint) = done (
    some
      (emit s w env "engine:aggregate" (workflow_paused (some (rate_limit_payload p reset_hint)))))

unfoldable pub maybe_rate_limit_pause :
    Runtime
    → Stamp
    → WorkflowAggregate
    → WorkflowDef
    → Envelope
    → PersonaFailedPayload
    → Outcome (Option Envelope)
maybe_rate_limit_pause rt s w d env p =
    if not (is_rate_limited p.failure_kind)
    then done none
    else if rt.rate_limit_autopause == "0"
    then done none
    else if not (in_graph d p.persona)
    then done none
    else rate_limit_pause s w env p (extract_rate_limit_reset_hint rt.to_lower p.stderr)

-- What is left when neither a retry nor a pause applies.
unfoldable pub skip_or_fail :
    Stamp → WorkflowAggregate → WorkflowDef → Envelope → PersonaFailedPayload → List Envelope
skip_or_fail s w d env p =
    if d.partial_review_on_failure && is_category_reviewer p.persona
    then maybe_emit_workflow_completed s w env
    else emit s w env "engine:aggregate" (
        workflow_failed (
          some (record {
            reason = Reason.persona_failed p.persona p.error;
            persona = p.persona;
            failure_kind = p.failure_kind;
            backend = p.backend;
            stderr = p.stderr;
          })))
      ∷ []

abbrev pub pause_or : List Envelope → Outcome (Option Envelope) → Outcome (List Envelope)
pause_or rest panic = panic
pause_or rest (done none) = done rest
pause_or rest (done (some paused)) = done (paused ∷ [])

unfoldable pub fail_required :
    Runtime
    → Stamp
    → WorkflowAggregate
    → WorkflowDef
    → Envelope
    → PersonaFailedPayload
    → Outcome (List Envelope)
fail_required rt s w d env p = elim (maybe_auto_retry s w d env p) [
  | some retry ↦ done (retry ∷ [])
  | none ↦ pause_or (skip_or_fail s w d env p) (maybe_rate_limit_pause rt s w d env p)
]

unfoldable pub decide_persona_failed :
    Runtime
    → Stamp
    → WorkflowAggregate
    → Envelope
    → Json PersonaFailedPayload
    → Outcome (List Envelope)
decide_persona_failed rt s w env j = elim w.workflow_def [
  | none ↦ done []
  | some d ↦
      let p = unmarshal zero_failed j in
      if not (is_running w.status)
      then done []
      else if not (is_required_persona w p.persona)
      then done []
      else fail_required rt s w d env p
]
