-- ===== src/Event/Payload.antt =====
-- internal/event/payload.go: the payloads that the modelled code writes or reads. A Go string type
-- with named constants is a data type with a constructor for any other text. A reason that
-- `fmt.Sprintf` makes is kept as its format, one constructor each, with the arguments.
use rick_driven_development.Prelude.{ℕ, String, Bool, false, List, [], ◌==◌, if◌then◌else◌}

-- Captured output of a subprocess, as bytes.
abbrev pub Bytes : Type 0
Bytes = List ℕ

pub data FailureKind : Type 0 where
  unspecified idle_timeout progress_timeout wall_timeout cancelled backend_error : FailureKind
  handler_error output_truncated stalled rate_limited : FailureKind
  other : String → FailureKind

pub data VerdictOutcome : Type 0 where
  pass fail unknown : VerdictOutcome
  other : String → VerdictOutcome

-- A float64 as its 64 bits.
abbrev pub Float64 : Type 0
Float64 = ℕ

pub data Reason : Type 0 where
  text : String → Reason
  unknown_workflow_id : String → Reason
  persona_failed : String → String → Reason
  auto_retry : FailureKind → ℕ → ℕ → Reason
  rate_limited : String → String → Bytes → Reason
  advisory_failure : String → String → String → Reason
  identical_verdict : String → String → Reason
  max_iterations_reached : ℕ → String → Reason
  max_iterations_escalated : ℕ → String → Reason
  hint_review : String → Float64 → List String → Reason
  hint_rejected : String → String → Reason
  skipped_personas : ℕ → Reason
  watchdog : ℕ → Reason

pub record WorkflowRequestedPayload : Type 0 where
  pub prompt : String
  pub workflow_id : String
  pub source : String
  pub repo : String
  pub ticket : String
  pub repo_branch : String
  pub base_branch : String
  pub isolate : Bool

pub record WorkflowStartedPayload : Type 0 where
  pub workflow_id : String
  pub phases : List String
  pub source : String
  pub ticket : String
  pub prompt : String

pub record WorkflowCompletedPayload : Type 0 where
  pub result : Reason

pub record WorkflowFailedPayload : Type 0 where
  pub reason : Reason
  pub persona : String
  pub failure_kind : FailureKind
  pub backend : String
  pub stderr : Bytes

pub record WorkflowCancelledPayload : Type 0 where
  pub reason : String
  pub source : String

pub record WorkflowPausedPayload : Type 0 where
  pub reason : Reason
  pub source : String
  pub retarget_persona : String
  pub retarget_source : String
  pub retry_from_phase : String
  pub rate_limit_reset_hint : Bytes
  pub rate_limit_backend : String

pub record WorkflowResumedPayload : Type 0 where
  pub reason : String

pub record WorkflowRetriedPayload : Type 0 where
  pub from_phase : String
  pub invalidated_personas : List String
  pub reason : Reason
  pub automatic : Bool

pub record Issue : Type 0 where
  pub severity : String
  pub category : String
  pub description : String
  pub file : String
  pub line : ℕ

-- `verdict_source` is carried and never read by the modelled code.
pub record VerdictPayload : Type 0 where
  pub persona : String
  pub source_persona : String
  pub outcome : VerdictOutcome
  pub issues : List Issue
  pub summary : String
  pub advisory : Bool
  pub verdict_source : String
  pub raw_diagnostics : String
  pub dev_trigger_id : String

pub record FeedbackGeneratedPayload : Type 0 where
  pub target_persona : String
  pub source_persona : String
  pub iteration : ℕ
  pub issues : List Issue
  pub summary : String
  pub raw_diagnostics : String

-- Of `AIResponsePayload` only the fields that the aggregate and the projections read.
pub record AiResponsePayload : Type 0 where
  pub persona : String
  pub backend : String
  pub tokens_used : ℕ

pub record TokenBudgetExceededPayload : Type 0 where
  pub total_used : ℕ
  pub budget : ℕ
  pub persona : String

pub record PersonaCompletedPayload : Type 0 where
  pub persona : String
  pub trigger_event : String
  pub trigger_id : String
  pub reactive : Bool
  pub output_ref : String
  pub duration_ms : ℕ
  pub chain_depth : ℕ

pub record PersonaFailedPayload : Type 0 where
  pub persona : String
  pub trigger_event : String
  pub trigger_id : String
  pub reactive : Bool
  pub error : String
  pub failure_kind : FailureKind
  pub backend : String
  pub stderr : Bytes
  pub duration_ms : ℕ
  pub chain_depth : ℕ
  pub handler_version : String

pub record HintEmittedPayload : Type 0 where
  pub persona : String
  pub trigger_event : String
  pub trigger_id : String
  pub confidence : Float64
  pub plan : String
  pub blockers : List String
  pub token_estimate : ℕ

pub record HintApprovedPayload : Type 0 where
  pub persona : String
  pub trigger_id : String
  pub guidance : String

pub record HintRejectedPayload : Type 0 where
  pub persona : String
  pub reason : String
  pub action : String

-- The zero values that a failed `json.Unmarshal` leaves behind.
abbrev pub zero_requested : WorkflowRequestedPayload
zero_requested = record {
  prompt = "";
  workflow_id = "";
  source = "";
  repo = "";
  ticket = "";
  repo_branch = "";
  base_branch = "";
  isolate = false;
}

abbrev pub zero_paused : WorkflowPausedPayload
zero_paused = record {
  reason = text "";
  source = "";
  retarget_persona = "";
  retarget_source = "";
  retry_from_phase = "";
  rate_limit_reset_hint = [];
  rate_limit_backend = "";
}

abbrev pub zero_retried : WorkflowRetriedPayload
zero_retried = record {
  from_phase = "";
  invalidated_personas = [];
  reason = text "";
  automatic = false;
}

abbrev pub zero_verdict : VerdictPayload
zero_verdict = record {
  persona = "";
  source_persona = "";
  outcome = VerdictOutcome.other "";
  issues = [];
  summary = "";
  advisory = false;
  verdict_source = "";
  raw_diagnostics = "";
  dev_trigger_id = "";
}

abbrev pub zero_feedback : FeedbackGeneratedPayload
zero_feedback = record {
  target_persona = "";
  source_persona = "";
  iteration = 0;
  issues = [];
  summary = "";
  raw_diagnostics = "";
}

abbrev pub zero_ai_response : AiResponsePayload
zero_ai_response = record { persona = ""; backend = ""; tokens_used = 0 }

abbrev pub zero_completed : PersonaCompletedPayload
zero_completed = record {
  persona = "";
  trigger_event = "";
  trigger_id = "";
  reactive = false;
  output_ref = "";
  duration_ms = 0;
  chain_depth = 0;
}

abbrev pub zero_failed : PersonaFailedPayload
zero_failed = record {
  persona = "";
  trigger_event = "";
  trigger_id = "";
  reactive = false;
  error = "";
  failure_kind = FailureKind.unspecified;
  backend = "";
  stderr = [];
  duration_ms = 0;
  chain_depth = 0;
  handler_version = "";
}

abbrev pub zero_hint_emitted : HintEmittedPayload
zero_hint_emitted = record {
  persona = "";
  trigger_event = "";
  trigger_id = "";
  confidence = 0;
  plan = "";
  blockers = [];
  token_estimate = 0;
}

abbrev pub zero_hint_rejected : HintRejectedPayload
zero_hint_rejected = record { persona = ""; reason = ""; action = "" }

-- A phase name of the old wire format, as the persona that it named.
unfoldable pub legacy_persona_from_phase : String → String
legacy_persona_from_phase phase =
    if phase == "develop"
    then "developer"
    else if phase == "research"
    then "researcher"
    else if phase == "commit"
    then "committer"
    else if phase == "review"
    then "reviewer"
    else if phase == "feedback-analyze"
    then "feedback-analyzer"
    else if phase == "pr-reply"
    then "pr-replier"
    else if phase == "qa-analyze"
    then "qa-analyzer"
    else phase

unfoldable pub pick_persona : String → String → String
pick_persona persona legacy_phase =
    if persona == "" then legacy_persona_from_phase legacy_phase else persona
