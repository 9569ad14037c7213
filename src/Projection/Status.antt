-- ===== src/Projection/Status.antt =====
-- internal/projection/workflow.go: WorkflowStatusProjection. A set of personas is a list without
-- repetitions. `false` beside a state is the error of a payload that does not parse.
pub mod Agreement
pub mod Shown
use rick_driven_development.Prelude.{
  ℕ, String, Bool, true, false, List, [], ◌∷◌, ◌++◌, Option, none, some, ◌==◌, contains, remove,
  length, if◌then◌else◌,
}
use rick_driven_development.Prelude.Dict.{Dict, lookup, set, get_or}
use rick_driven_development.Event.Payload.{
  Bytes, FailureKind, Reason, WorkflowRequestedPayload, WorkflowStartedPayload,
  WorkflowFailedPayload,
}
use rick_driven_development.Event.Envelope.{
  Envelope, workflow_requested, workflow_started, workflow_completed, workflow_failed,
  workflow_cancelled, workflow_paused, workflow_resumed, hint_emitted, hint_approved, hint_rejected,
}

pub record WorkflowStatus : Type 0 where
  pub aggregate_id : String
  pub workflow_id : String
  pub status : String
  pub prompt : String
  pub source : String
  pub ticket : String
  pub phases : List String
  pub started_at : ℕ
  pub completed_at : ℕ
  pub fail_reason : Reason
  pub failure_kind : FailureKind
  pub fail_backend : String
  pub fail_stderr : Bytes
  pub fail_persona : String
  pub pending_hints_count : ℕ

pub record WorkflowStatusProjection : Type 0 where
  pub workflows : Dict WorkflowStatus
  pub hint_personas : Dict (List String)

abbrev pub new_workflow_status_projection : WorkflowStatusProjection
new_workflow_status_projection = record { workflows = []; hint_personas = [] }

unfoldable pub blank_status : String → WorkflowStatus
blank_status aggregate_id = record {
  aggregate_id = aggregate_id;
  workflow_id = "";
  status = "";
  prompt = "";
  source = "";
  ticket = "";
  phases = [];
  started_at = 0;
  completed_at = 0;
  fail_reason = Reason.text "";
  failure_kind = FailureKind.unspecified;
  fail_backend = "";
  fail_stderr = [];
  fail_persona = "";
  pending_hints_count = 0;
}

-- p.getOrCreate(aggregateID), by its value
unfoldable pub status_entry : String → WorkflowStatusProjection → WorkflowStatus
status_entry aggregate_id p = elim (lookup aggregate_id p.workflows) [
  | none ↦ blank_status aggregate_id
  | some ws ↦ ws
]

-- The pointer that getOrCreate returns, written through.
unfoldable pub put_status :
    String → WorkflowStatus → WorkflowStatusProjection → WorkflowStatusProjection
put_status aggregate_id ws p = record p { workflows = set aggregate_id ws p.workflows }

unfoldable pub sync_hint_count : String → WorkflowStatusProjection → WorkflowStatusProjection
sync_hint_count workflow_id p =
    put_status workflow_id
      (record (status_entry workflow_id p) {
        pending_hints_count = length (get_or [] workflow_id p.hint_personas);
      })
      p

unfoldable pub add_hint_persona :
    String → String → WorkflowStatusProjection → WorkflowStatusProjection
add_hint_persona workflow_id persona p =
    let personas = get_or [] workflow_id p.hint_personas in
    record p {
      hint_personas =
          set workflow_id (if contains personas persona then personas else personas ++ persona ∷ [])
            p.hint_personas;
    }

unfoldable pub handle_hint_emitted :
    Envelope → String → WorkflowStatusProjection → WorkflowStatusProjection
handle_hint_emitted env persona p =
    if env.correlation_id == ""
    then p
    else sync_hint_count env.correlation_id (add_hint_persona env.correlation_id persona p)

abbrev pub without_persona :
    String → Option (List String) → String → Dict (List String) → Dict (List String)
without_persona persona none workflow_id hints = hints
without_persona persona (some personas) workflow_id hints =
    set workflow_id (remove persona personas) hints

unfoldable pub remove_hint_persona :
    Envelope → String → WorkflowStatusProjection → WorkflowStatusProjection
remove_hint_persona env persona p =
    let workflow_id = if env.correlation_id == "" then env.aggregate_id else env.correlation_id in
    sync_hint_count workflow_id (record p {
      hint_personas =
          without_persona persona (lookup workflow_id p.hint_personas) workflow_id p.hint_personas;
    })

unfoldable pub status_requested : WorkflowRequestedPayload → WorkflowStatus → WorkflowStatus
status_requested payload ws = record ws {
  status = "requested";
  workflow_id = payload.workflow_id;
  prompt = payload.prompt;
  source = payload.source;
  ticket = payload.ticket;
}

unfoldable pub status_started : ℕ → WorkflowStartedPayload → WorkflowStatus → WorkflowStatus
status_started now payload ws = record ws {
  status = "running";
  phases = payload.phases;
  started_at = now;
}

unfoldable pub status_failed : ℕ → WorkflowFailedPayload → WorkflowStatus → WorkflowStatus
status_failed now payload ws = record ws {
  status = "failed";
  completed_at = now;
  fail_reason = payload.reason;
  fail_persona = payload.persona;
  failure_kind = payload.failure_kind;
  fail_backend = payload.backend;
  fail_stderr = payload.stderr;
}

-- What an event makes of the entry of its aggregate: nothing where it is no event of the lifecycle,
-- and the entry as it is, with the error, where the payload does not parse.
unfoldable pub lifecycle : Envelope → WorkflowStatus → Option (WorkflowStatus × Bool)
lifecycle env ws = elim env.body [
  | workflow_requested none ↦ some (ws, false)
  | workflow_requested (some payload) ↦ some (status_requested payload ws, true)
  | workflow_started id none ↦ some (ws, false)
  | workflow_started id (some payload) ↦ some (status_started env.timestamp payload ws, true)
  | workflow_completed j ↦
      some (record ws { status = "completed"; completed_at = env.timestamp }, true)
  | workflow_failed none ↦ some (ws, false)
  | workflow_failed (some payload) ↦ some (status_failed env.timestamp payload ws, true)
  | workflow_cancelled j ↦
      some (record ws { status = "cancelled"; completed_at = env.timestamp }, true)
  | workflow_paused j ↦ some (record ws { status = "paused" }, true)
  | workflow_resumed j ↦ some (record ws { status = "running" }, true)
  | _ ↦ none
]

unfoldable pub handle_lifecycle :
    Envelope → WorkflowStatusProjection → WorkflowStatusProjection × Bool
handle_lifecycle env p = elim (lifecycle env (status_entry env.aggregate_id p)) [
  | none ↦ (p, true)
  | some (ws, parsed) ↦ (put_status env.aggregate_id ws p, parsed)
]

unfoldable pub handle : Envelope → WorkflowStatusProjection → WorkflowStatusProjection × Bool
handle env p = elim env.body [
  | hint_emitted none ↦ (p, false)
  | hint_emitted (some h) ↦ (handle_hint_emitted env h.persona p, true)
  | hint_approved none ↦ (p, false)
  | hint_approved (some h) ↦ (remove_hint_persona env h.persona p, true)
  | hint_rejected none ↦ (p, false)
  | hint_rejected (some h) ↦ (remove_hint_persona env h.persona p, true)
  | _ ↦ handle_lifecycle env p
]

unfoldable pub get : String → WorkflowStatusProjection → Option WorkflowStatus
get aggregate_id p = lookup aggregate_id p.workflows

-- The events in their order; the runner logs an error and goes on.
unfoldable pub handle_all : List Envelope → WorkflowStatusProjection → WorkflowStatusProjection
handle_all [] p = p
handle_all (env ∷ envs) p = handle_all envs (handle env p).0
