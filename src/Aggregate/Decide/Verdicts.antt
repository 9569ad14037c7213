-- ===== src/Aggregate/Decide/Verdicts.antt =====
-- internal/engine/aggregate.go: decideVerdictRendered and escalateVerdict.
use rick_driven_development.Prelude.{
  ◌+◌, String, Bool, false, not, ◌&&◌, List, [], ◌∷◌, Option, none, some, ◌==◌, ltb, leb,
  if◌then◌else◌,
}
use rick_driven_development.Prelude.Dict.{get_or}
use rick_driven_development.Event.Payload.{Reason, VerdictPayload, zero_verdict}
use rick_driven_development.Event.Envelope.{
  Envelope, Json, Stamp, unmarshal, workflow_paused, feedback_generated,
}
use rick_driven_development.Workflow.Def.{WorkflowDef, is_consolidated_reviewer}
use rick_driven_development.Aggregate.Runtime.{Runtime}
use rick_driven_development.Aggregate.Fingerprint.{verdict_fingerprint}
use rick_driven_development.Aggregate.State.{WorkflowAggregate, is_running, is_required_persona}
use rick_driven_development.Aggregate.Apply.{is_fail, fingerprint_key}
use rick_driven_development.Aggregate.Emit.{emit, failure}

unfoldable pub escalate_verdict :
    Stamp → WorkflowAggregate → Envelope → Reason → String → String → List Envelope
escalate_verdict s w env reason retarget_persona retarget_source =
    emit s w env "engine:aggregate" (
      workflow_paused (
        some (record {
          reason = reason;
          source = "engine:auto-escalation";
          retarget_persona = retarget_persona;
          retarget_source = retarget_source;
          retry_from_phase = "";
          rate_limit_reset_hint = [];
          rate_limit_backend = "";
        })))
    ∷ []

-- The verdict repeats the last failing one of its source on its target.
unfoldable pub is_repeated_failure : Runtime → WorkflowAggregate → VerdictPayload → Bool
is_repeated_failure rt w v =
    let last = get_or "" (fingerprint_key v.source_persona v.persona) w.last_verdict_fingerprint in
    leb 1 (get_or 0 v.persona w.feedback_count)
    && (not (last == "") && last == verdict_fingerprint rt.sha256_hex v)

abbrev pub escalates_on_max_iter : Option WorkflowDef → Bool
escalates_on_max_iter none = false
escalates_on_max_iter (some d) = d.escalate_on_max_iter

abbrev pub consolidates : Option WorkflowDef → String → Bool
consolidates none source = false
consolidates (some d) source = is_consolidated_reviewer d source

unfoldable pub max_iterations_reached :
    Stamp → WorkflowAggregate → Envelope → VerdictPayload → List Envelope
max_iterations_reached s w env v =
    if escalates_on_max_iter w.workflow_def
    then escalate_verdict s w env (Reason.max_iterations_escalated w.max_iterations v.persona)
        v.persona v.source_persona
    else emit s w env "engine:aggregate"
        (failure (Reason.max_iterations_reached w.max_iterations v.persona) v.persona)
      ∷ []

unfoldable pub feedback : Stamp → WorkflowAggregate → Envelope → VerdictPayload → List Envelope
feedback s w env v =
    emit s w env "engine:aggregate" (
      feedback_generated (
        some (record {
          target_persona = v.persona;
          source_persona = v.source_persona;
          iteration = get_or 0 v.persona w.feedback_count + 1;
          issues = v.issues;
          summary = v.summary;
          raw_diagnostics = v.raw_diagnostics;
        })))
    ∷ []

unfoldable pub decide_failing_verdict :
    Runtime → Stamp → WorkflowAggregate → Envelope → VerdictPayload → List Envelope
decide_failing_verdict rt s w env v =
    if v.advisory
    then escalate_verdict s w env (Reason.advisory_failure v.source_persona v.summary v.persona) ""
        ""
    else if is_repeated_failure rt w v
    then escalate_verdict s w env (Reason.identical_verdict v.source_persona v.summary) v.persona
        v.source_persona
    else if ltb w.max_iterations (get_or 0 v.persona w.feedback_count + 1)
    then max_iterations_reached s w env v
    else if consolidates w.workflow_def v.source_persona
    then []
    else feedback s w env v

unfoldable pub decide_verdict_rendered :
    Runtime → Stamp → WorkflowAggregate → Envelope → Json VerdictPayload → List Envelope
decide_verdict_rendered rt s w env j =
    let v = unmarshal zero_verdict j in
    if not (is_running w.status)
    then []
    else if not (is_fail v.outcome)
    then []
    else if not (is_required_persona w v.persona)
    then []
    else decide_failing_verdict rt s w env v
