-- ===== src/Runner/Results.antt =====
-- internal/engine/persona_runner.go (executeDispatch), internal/engine/failure_classify.go
-- (classifyDispatchFailure) and internal/engine/output_guard.go: the events that a dispatch leaves behind.
pub mod Depth
use Prim.Native.String.{◌++◌ as join}
use rick_driven_development.Prelude.{
  ℕ, String, Bool, true, false, not, ◌&&◌, ◌||◌, List, [], ◌∷◌, ◌++◌, Option, none, some, ◌==◌, ltb,
  map, if◌then◌else◌,
}
use rick_driven_development.Prelude.Dict.{or_zero}
use rick_driven_development.Event.Payload.{Bytes, FailureKind}
use rick_driven_development.Event.Envelope.{
  Envelope, Body, Stamp, new, with_causation, with_correlation, with_source, persona_completed,
  persona_failed, ai_response_received,
}
use rick_driven_development.Event.Types.{event_type}
use rick_driven_development.Aggregate.Failure.{looks_like_rate_limit}
use rick_driven_development.Resolver.{Handler}

pub record BackendError : Type 0 where
  pub stderr : Bytes
  pub backend : String

-- What errors.Is and errors.As find in the error of a dispatch.
pub record DispatchError : Type 0 where
  pub message : String
  pub is_incomplete : Bool
  pub is_progress_timeout : Bool
  pub is_idle_timeout : Bool
  pub is_deadline_exceeded : Bool
  pub is_canceled : Bool
  pub backend_error : Option BackendError

-- ctx.Err() of a context that is done.
pub data ContextError : Type 0 where
  deadline_exceeded canceled : ContextError

abbrev pub kind_of_context : Option ContextError → FailureKind
kind_of_context none = FailureKind.handler_error
kind_of_context (some deadline_exceeded) = FailureKind.wall_timeout
kind_of_context (some canceled) = FailureKind.cancelled

abbrev pub kind_of_backend :
    (Bytes → Bytes) → Option ContextError → Option BackendError → FailureKind
kind_of_backend to_lower ctx none = kind_of_context ctx
kind_of_backend to_lower ctx (some e) =
    if looks_like_rate_limit to_lower e.stderr
    then FailureKind.rate_limited
    else FailureKind.backend_error

unfoldable pub classify_dispatch_failure :
    (Bytes → Bytes) → Option ContextError → DispatchError → FailureKind
classify_dispatch_failure to_lower ctx err =
    if err.is_progress_timeout
    then FailureKind.progress_timeout
    else if err.is_idle_timeout
    then FailureKind.idle_timeout
    else if err.is_deadline_exceeded
    then FailureKind.wall_timeout
    else if err.is_canceled
    then FailureKind.cancelled
    else kind_of_backend to_lower ctx err.backend_error

abbrev pub stderr_of : Option BackendError → Bytes
stderr_of none = []
stderr_of (some e) = e.stderr

abbrev pub backend_of : Option BackendError → String
backend_of none = ""
backend_of (some e) = e.backend

-- What a dispatch takes from its surroundings: strings.ToLower, the build's version, the text that fmt.Sprintf makes for the guard, the length of a response's text, and
-- whether the workspace of the correlation has uncommitted changes.
pub record Surroundings : Type 0 where
  pub to_lower : Bytes → Bytes
  pub version : String
  pub guard_text : ℕ → String
  pub text_len : Envelope → Option ℕ
  pub is_dirty : String → Bool

-- What the dispatcher returned, with the error of the context, and the time that it took.
pub record Dispatch : Type 0 where
  pub result : Option (List Envelope)
  pub error : Option DispatchError
  pub context_error : Option ContextError
  pub duration_ms : ℕ

abbrev pub is_response : Body → Bool
is_response (ai_response_received j) = true
is_response _ = false

-- The last response of the handler, if there is one.
unfoldable pub last_response : List Envelope → Option Envelope → Option Envelope
last_response [] best = best
last_response (e ∷ es) best = last_response es (if is_response e.body then some e else best)

abbrev pub output_ref : Option Envelope → String
output_ref none = ""
output_ref (some e) = e.id

-- The text of a developer's response is shorter than 64 bytes.
abbrev pub is_short : Option ℕ → Bool
is_short none = false
is_short (some n) = ltb n 64

unfoldable pub output_guard_trips : Surroundings → Handler → String → Option ℕ → Bool
output_guard_trips s h correlation_id len =
    h.name == "developer" && (is_short len && s.is_dirty correlation_id)

abbrev pub length_of_response : Surroundings → Option Envelope → Option ℕ
length_of_response s none = none
length_of_response s (some e) = s.text_len e

unfoldable pub failed_body : Surroundings → Handler → Envelope → ℕ → Dispatch → DispatchError → Body
failed_body s h env chain_depth d err = persona_failed (
    some (record {
      persona = h.name;
      trigger_event = event_type env.body;
      trigger_id = env.id;
      reactive = true;
      error = err.message;
      failure_kind = classify_dispatch_failure s.to_lower d.context_error err;
      backend = backend_of err.backend_error;
      stderr = stderr_of err.backend_error;
      duration_ms = d.duration_ms;
      chain_depth = chain_depth;
      handler_version = s.version;
    }))

unfoldable pub truncated_body : Surroundings → Handler → Envelope → ℕ → Dispatch → ℕ → Body
truncated_body s h env chain_depth d len = persona_failed (
    some (record {
      persona = h.name;
      trigger_event = event_type env.body;
      trigger_id = env.id;
      reactive = true;
      error = s.guard_text len;
      failure_kind = FailureKind.output_truncated;
      backend = "";
      stderr = [];
      duration_ms = d.duration_ms;
      chain_depth = chain_depth;
      handler_version = s.version;
    }))

unfoldable pub completed_body :
    Surroundings → Handler → Envelope → ℕ → Dispatch → Option Envelope → Body
completed_body s h env chain_depth d response = persona_completed (
    some (record {
      persona = h.name;
      trigger_event = event_type env.body;
      trigger_id = env.id;
      reactive = true;
      output_ref = output_ref response;
      duration_ms = d.duration_ms;
      chain_depth = chain_depth;
    }))

abbrev pub events_of_result : Option (List Envelope) → List Envelope
events_of_result none = []
events_of_result (some es) = es

unfoldable pub terminal_body : Surroundings → Handler → Envelope → ℕ → Dispatch → Body
terminal_body s h env chain_depth d = elim d.error [
  | some err ↦ failed_body s h env chain_depth d err
  | none ↦
      let response = last_response (events_of_result d.result) none in
      let len = length_of_response s response in
      if output_guard_trips s h env.correlation_id len
      then truncated_body s h env chain_depth d (or_zero 0 len)
      else completed_body s h env chain_depth d response
]

-- re.WithCorrelation(env.CorrelationID).WithCausation(env.ID)
abbrev pub stamped : Envelope → Envelope → Envelope
stamped env re = with_causation env.id (with_correlation env.correlation_id re)

unfoldable pub terminal_event : Surroundings → Stamp → Handler → Envelope → ℕ → Dispatch → Envelope
terminal_event s at h env chain_depth d = with_source (join "persona-runner:" h.name) (
    with_correlation env.correlation_id
      (with_causation env.id (new at (terminal_body s h env chain_depth d) 1)))

abbrev pub is_incomplete_error : Option DispatchError → Bool
is_incomplete_error none = false
is_incomplete_error (some err) = err.is_incomplete

abbrev pub is_done : Option ContextError → Bool
is_done none = false
is_done (some e) = true

-- The events that are persisted and published, none for a workflow that was cancelled meanwhile.
unfoldable pub events_of_dispatch :
    Surroundings → Stamp → Bool → Handler → Envelope → ℕ → Dispatch → List Envelope
events_of_dispatch s at paused h env chain_depth d =
    if is_done d.context_error && paused
    then []
    else if is_incomplete_error d.error
    then map (stamped env) (events_of_result d.result)
    else map (stamped env) (events_of_result d.result)
      ++ terminal_event s at h env chain_depth d ∷ []
