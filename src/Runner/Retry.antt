-- ===== src/Runner/Retry.antt =====
-- internal/engine/persona_runner.go: the subscription to WorkflowRetried. `events` is what the store loads of
-- the correlation, `none` where loading fails.
pub mod Trigger
use rick_driven_development.Prelude.{
  String, Bool, true, false, not, ◌&&◌, List, [], ◌∷◌, Option, none, some, ◌==◌, contains,
  if◌then◌else◌,
}
use rick_driven_development.Prelude.Dict.{get_or}
use rick_driven_development.Event.Payload.{WorkflowRetriedPayload}
use rick_driven_development.Event.Envelope.{
  Envelope, Body, workflow_requested, workflow_retried, persona_completed, is_workflow_started,
}
use rick_driven_development.Workflow.Def.{WorkflowDef}
use rick_driven_development.Resolver.{resolve_workflow_id, cache_workflow_id, get_workflow_def}
use rick_driven_development.Runner.Pauses.{resume}
use rick_driven_development.Runner.Admission.{PersonaRunner, recover_dispatch}

-- Why no dispatch follows, as the synthetic PersonaFailed tells it.
pub data Wedge : Type 0 where
  workflow_id_unresolvable trigger_not_found dispatch_failed : Wedge
  def_not_registered : String → Wedge

-- `wedged` publishes a PersonaFailed of the phase; `skipped` does nothing.
pub data RetryOutcome : Type 0 where
  skipped dispatched : RetryOutcome
  wedged : Wedge → RetryOutcome

unfoldable pub find_workflow_id_from_events : List Envelope → String
find_workflow_id_from_events [] = ""
find_workflow_id_from_events (e ∷ es) =
    let rest = find_workflow_id_from_events es in
    elim e.body [
      | workflow_requested (some p) ↦ if p.workflow_id == "" then rest else p.workflow_id
      | _ ↦ rest
    ]

unfoldable pub first_started : List Envelope → Option Envelope
first_started [] = none
first_started (e ∷ es) =
    let rest = first_started es in if is_workflow_started e.body then some e else rest

unfoldable pub completes_one_of : List String → Envelope → Bool
completes_one_of predecessors e = elim e.body [
  | persona_completed (some pc) ↦ contains predecessors pc.persona
  | _ ↦ false
]

-- `best` is overwritten by each completion of a predecessor.
unfoldable pub last_completed : List String → List Envelope → Option Envelope → Option Envelope
last_completed predecessors [] best = best
last_completed predecessors (e ∷ es) best =
    last_completed predecessors es (if completes_one_of predecessors e then some e else best)

unfoldable pub find_retry_trigger : List Envelope → WorkflowDef → String → Option Envelope
find_retry_trigger events def from_phase = elim (get_or [] from_phase def.graph) [
  | [] ↦ first_started events
  | p ∷ ps ↦ last_completed (p ∷ ps) events none
]

-- The cached workflow of the correlation, or that of its request.
unfoldable pub known_workflow_id : String → List Envelope → PersonaRunner → String
known_workflow_id correlation_id events r = elim (resolve_workflow_id correlation_id r.resolver) [
  | none ↦ find_workflow_id_from_events events
  | some workflow_id ↦ workflow_id
]

unfoldable pub is_cached : String → PersonaRunner → Bool
is_cached correlation_id r = elim (resolve_workflow_id correlation_id r.resolver) [
  | none ↦ false
  | some workflow_id ↦ true
]

abbrev pub outcome_of : PersonaRunner × Bool → PersonaRunner × RetryOutcome
outcome_of (r, true) = (r, dispatched)
outcome_of (r, false) = (r, wedged dispatch_failed)

-- The retry un-pauses the workflow, without replaying what the pause has blocked.
unfoldable pub dispatch_trigger :
    String → String → List Envelope → Envelope → PersonaRunner → PersonaRunner × RetryOutcome
dispatch_trigger correlation_id from_phase events trigger r = outcome_of (
    recover_dispatch (some events) from_phase trigger
      (record r { pauser = (resume correlation_id r.pauser).0 }))

unfoldable pub retry_in :
    String
    → String
    → List Envelope
    → Option WorkflowDef
    → String
    → PersonaRunner
    → PersonaRunner × RetryOutcome
retry_in correlation_id from_phase events none workflow_id r =
    (r, wedged (def_not_registered workflow_id))
retry_in correlation_id from_phase events (some def) workflow_id r =
    elim (find_retry_trigger events def from_phase) [
      | none ↦ (r, wedged trigger_not_found)
      | some trigger ↦ dispatch_trigger correlation_id from_phase events trigger r
    ]

unfoldable pub retry_phase :
    String → String → List Envelope → PersonaRunner → PersonaRunner × RetryOutcome
retry_phase correlation_id from_phase events r =
    let workflow_id = known_workflow_id correlation_id events r in
    if is_cached correlation_id r
    then retry_in correlation_id from_phase events (get_workflow_def workflow_id r.resolver)
        workflow_id r
    else if workflow_id == ""
    then (r, wedged workflow_id_unresolvable)
    else retry_in correlation_id from_phase events (get_workflow_def workflow_id r.resolver)
        workflow_id
        (record r { resolver = cache_workflow_id correlation_id workflow_id r.resolver })

unfoldable pub correlation_of : Envelope → String
correlation_of env = if env.correlation_id == "" then env.aggregate_id else env.correlation_id

unfoldable pub handle_workflow_retried :
    Option (List Envelope) → Envelope → PersonaRunner → PersonaRunner × RetryOutcome
handle_workflow_retried none env r = (r, skipped)
handle_workflow_retried (some events) env r = elim env.body [
  | workflow_retried (some p) ↦
      if p.from_phase == ""
      then (r, skipped)
      else retry_phase (correlation_of env) p.from_phase events r
  | _ ↦ (r, skipped)
]
