-- ===== src/Aggregate/Emit.antt =====
-- internal/engine/aggregate.go: the envelopes that decisions emit, and the completion check.
use rick_driven_development.Prelude.{
  ◌+◌, String, List, [], ◌∷◌, none, some, ltb, length, if◌then◌else◌,
}
use rick_driven_development.Event.Payload.{unspecified, Reason, text, skipped_personas}
use rick_driven_development.Event.Envelope.{
  Envelope, Body, Stamp, new, with_aggregate, with_causation, with_correlation, with_source,
  workflow_completed, workflow_failed,
}
use rick_driven_development.Aggregate.State.{WorkflowAggregate, is_running, all_completed}

-- event.New(…).WithAggregate(w.ID, w.Version+1).WithCausation(env.ID)….WithSource(source)
unfoldable pub emit : Stamp → WorkflowAggregate → Envelope → String → Body → Envelope
emit s w env source body = with_source source (
    with_correlation env.correlation_id
      (with_causation env.id (with_aggregate w.id (w.version + 1) (new s body 1))))

abbrev pub failure : Reason → String → Body
failure reason persona = workflow_failed (
    some (record {
      reason = reason;
      persona = persona;
      failure_kind = unspecified;
      backend = "";
      stderr = [];
    }))

abbrev pub completion_result : WorkflowAggregate → Reason
completion_result w =
    if ltb 0 (length w.skipped_personas)
    then skipped_personas (length w.skipped_personas)
    else text "all required personas completed"

unfoldable pub maybe_emit_workflow_completed : Stamp → WorkflowAggregate → Envelope → List Envelope
maybe_emit_workflow_completed s w env = elim w.workflow_def [
  | none ↦ []
  | some d ↦
      if is_running w.status
      then (if all_completed w d.required
          then emit s w env "engine:aggregate"
              (workflow_completed (some (record { result = completion_result w })))
            ∷ []
          else [])
      else []
]
