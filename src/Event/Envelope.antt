-- ===== src/Event/Envelope.antt =====
-- internal/event/envelope.go. The type of an event and its payload are one `Body`: each event type
-- carries one payload type. `none` is a payload that is no valid JSON, at which `json.Unmarshal`
-- fails before it writes, so that the zero value is left. Valid JSON of another shape, of which Unmarshal
-- keeps the fields it has read before it fails, is not modelled.
use rick_driven_development.Prelude.{ℕ, String, Bool, false, true, Option, none, some}
use rick_driven_development.Event.Payload.{
  WorkflowRequestedPayload, WorkflowStartedPayload, WorkflowCompletedPayload, WorkflowFailedPayload,
  WorkflowCancelledPayload, WorkflowPausedPayload, WorkflowResumedPayload, WorkflowRetriedPayload,
  VerdictPayload, FeedbackGeneratedPayload, AiResponsePayload, TokenBudgetExceededPayload,
  PersonaCompletedPayload, PersonaFailedPayload, HintEmittedPayload, HintApprovedPayload,
  HintRejectedPayload,
}

-- A `json.RawMessage` that holds a value of the type, or does not parse as one.
abbrev pub Json : Type 0 → Type 0
Json A = Option A

-- `var p T; _ = json.Unmarshal(raw, &p)`, with the zero value of `T` first
abbrev pub unmarshal : {A : Type 0} → A → Json A → A
unmarshal z none = z
unmarshal z (some p) = p

-- `workflow_started none` is the generic type, `workflow_started (some id)` is the type
-- `WorkflowStartedFor(id)`; `other` is every type whose payload the modelled code does not read.
pub data Body : Type 0 where
  workflow_requested : Json WorkflowRequestedPayload → Body
  workflow_started : Option String → Json WorkflowStartedPayload → Body
  workflow_completed : Json WorkflowCompletedPayload → Body
  workflow_failed : Json WorkflowFailedPayload → Body
  workflow_cancelled : Json WorkflowCancelledPayload → Body
  workflow_paused : Json WorkflowPausedPayload → Body
  workflow_resumed : Json WorkflowResumedPayload → Body
  workflow_retried : Json WorkflowRetriedPayload → Body
  persona_completed : Json PersonaCompletedPayload → Body
  persona_tracked : Json PersonaCompletedPayload → Body
  persona_failed : Json PersonaFailedPayload → Body
  persona_failed_tracked : Json PersonaFailedPayload → Body
  verdict_rendered : Json VerdictPayload → Body
  verdict_tracked : Json VerdictPayload → Body
  feedback_generated : Json FeedbackGeneratedPayload → Body
  ai_response_received : Json AiResponsePayload → Body
  token_budget_exceeded : Json TokenBudgetExceededPayload → Body
  hint_emitted : Json HintEmittedPayload → Body
  hint_approved : Json HintApprovedPayload → Body
  hint_rejected : Json HintRejectedPayload → Body
  other : String → Body

pub record Envelope : Type 0 where
  pub id : String
  pub body : Body
  pub aggregate_id : String
  pub version : ℕ
  pub schema_version : ℕ
  pub timestamp : ℕ
  pub causation_id : String
  pub correlation_id : String
  pub source : String

-- `uuid.New()` and `time.Now()` of one call.
pub record Stamp : Type 0 where
  pub id : String
  pub now : ℕ

abbrev pub new : Stamp → Body → ℕ → Envelope
new s body schema_version = record {
  id = s.id;
  body = body;
  aggregate_id = "";
  version = 0;
  schema_version = schema_version;
  timestamp = s.now;
  causation_id = "";
  correlation_id = "";
  source = "";
}

abbrev pub with_aggregate : String → ℕ → Envelope → Envelope
with_aggregate aggregate_id version e = record e { aggregate_id = aggregate_id; version = version }

abbrev pub with_causation : String → Envelope → Envelope
with_causation causation_id e = record e { causation_id = causation_id }

abbrev pub with_correlation : String → Envelope → Envelope
with_correlation correlation_id e = record e { correlation_id = correlation_id }

abbrev pub with_source : String → Envelope → Envelope
with_source source e = record e { source = source }

abbrev pub is_workflow_started : Body → Bool
is_workflow_started (workflow_started _ _) = true
is_workflow_started _ = false
