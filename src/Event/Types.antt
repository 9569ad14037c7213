-- ===== src/Event/Types.antt =====
-- internal/event/envelope.go: the names of the event types.
use Prim.Native.String.{◌++◌ as join}
use rick_driven_development.Prelude.{String, none, some}
use rick_driven_development.Event.Envelope.{
  Body, workflow_started, workflow_requested, workflow_completed, workflow_failed,
  workflow_cancelled, workflow_paused, workflow_resumed, workflow_retried, persona_completed,
  persona_tracked, persona_failed, persona_failed_tracked, verdict_rendered, verdict_tracked,
  feedback_generated, ai_response_received, token_budget_exceeded, hint_emitted, hint_approved,
  hint_rejected,
}

unfoldable pub event_type : Body → String
event_type (workflow_started none j) = "workflow.started"
event_type (workflow_started (some id) j) = join "workflow.started." id
event_type (workflow_requested j) = "workflow.requested"
event_type (workflow_completed j) = "workflow.completed"
event_type (workflow_failed j) = "workflow.failed"
event_type (workflow_cancelled j) = "workflow.cancelled"
event_type (workflow_paused j) = "workflow.paused"
event_type (workflow_resumed j) = "workflow.resumed"
event_type (workflow_retried j) = "workflow.retried"
event_type (persona_completed j) = "persona.completed"
event_type (persona_tracked j) = "persona.tracked"
event_type (persona_failed j) = "persona.failed"
event_type (persona_failed_tracked j) = "persona.failed.tracked"
event_type (verdict_rendered j) = "verdict.rendered"
event_type (verdict_tracked j) = "verdict.tracked"
event_type (feedback_generated j) = "feedback.generated"
event_type (ai_response_received j) = "ai.response.received"
event_type (token_budget_exceeded j) = "token.budget.exceeded"
event_type (hint_emitted j) = "hint.emitted"
event_type (hint_approved j) = "hint.approved"
event_type (hint_rejected j) = "hint.rejected"
event_type (Body.other t) = t
