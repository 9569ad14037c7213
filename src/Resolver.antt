-- ===== src/Resolver.antt =====
-- internal/engine/workflow_resolver.go: which handlers a completion concerns, and when all that a
-- handler waits for has come. Registered workflows and the cache of correlations are two maps; a
-- handler is what its methods return. Event types are written by their names.
pub mod Join
pub mod Relevance
use Prim.Native.String.{◌++◌ as join}
use rick_driven_development.Prelude.{
  String, Bool, true, false, not, ◌&&◌, ◌||◌, List, [], ◌∷◌, ◌++◌, Option, none, some, ◌==◌,
  contains, if◌then◌else◌,
}
use rick_driven_development.Prelude.Dict.{Dict, lookup, set, erase, get_or, is_present}
use rick_driven_development.Workflow.Def.{WorkflowDef}
use rick_driven_development.Hooks.{HookRegistry, hooks_for, has_hooks}

pub record Trigger : Type 0 where
  pub events : List String
  pub after_personas : List String

-- `trigger` is there where the handler is a TriggeredHandler.
pub record Handler : Type 0 where
  pub name : String
  pub subscribes : List String
  pub trigger : Option Trigger

pub record WorkflowResolver : Type 0 where
  pub workflows : Dict WorkflowDef
  pub corr_map : Dict String

abbrev pub handler_declared_events : Handler → List String
handler_declared_events h = elim h.trigger [ some t ↦ t.events | none ↦ h.subscribes ]

abbrev pub new_workflow_resolver : WorkflowResolver
new_workflow_resolver = record { workflows = []; corr_map = [] }

unfoldable pub register_workflow : WorkflowDef → WorkflowResolver → WorkflowResolver
register_workflow def w = record w { workflows = set def.id def w.workflows }

unfoldable pub get_workflow_def : String → WorkflowResolver → Option WorkflowDef
get_workflow_def workflow_id w = lookup workflow_id w.workflows

unfoldable pub resolve_workflow_id : String → WorkflowResolver → Option String
resolve_workflow_id correlation_id w = lookup correlation_id w.corr_map

unfoldable pub cache_workflow_id : String → String → WorkflowResolver → WorkflowResolver
cache_workflow_id correlation_id workflow_id w = record w {
  corr_map = set correlation_id workflow_id w.corr_map;
}

unfoldable pub evict_correlation : String → WorkflowResolver → WorkflowResolver
evict_correlation correlation_id w = record w { corr_map = erase correlation_id w.corr_map }

-- The definition of the correlation's workflow, if the cache and the registry have it.
unfoldable pub def_of : String → WorkflowResolver → Option WorkflowDef
def_of correlation_id w = elim (resolve_workflow_id correlation_id w) [
  | none ↦ none
  | some workflow_id ↦ get_workflow_def workflow_id w
]

unfoldable pub in_any_graph : String → Dict WorkflowDef → Bool
in_any_graph name [] = false
in_any_graph name ((id, def) ∷ defs) = is_present (lookup name def.graph) || in_any_graph name defs

unfoldable pub handler_in_any_graph : String → WorkflowResolver → Bool
handler_in_any_graph name w = in_any_graph name w.workflows

abbrev pub is_non_root : Option (List String) → Bool
is_non_root none = false
is_non_root (some []) = false
is_non_root (some (d ∷ ds)) = true

unfoldable pub non_root_in_any : String → Dict WorkflowDef → Bool
non_root_in_any name [] = false
non_root_in_any name ((id, def) ∷ defs) =
    is_non_root (lookup name def.graph) || non_root_in_any name defs

unfoldable pub handler_in_any_graph_as_non_root : String → WorkflowResolver → Bool
handler_in_any_graph_as_non_root name w = non_root_in_any name w.workflows

-- if !slices.Contains(events, et) { events = append(events, et) }
unfoldable pub add_event : String → List String → List String
add_event et events = if contains events et then events else events ++ et ∷ []

unfoldable pub add_events : List String → List String → List String
add_events [] events = events
add_events (et ∷ ets) events = add_events ets (add_event et events)

abbrev pub start_event : String → String
start_event workflow_id = join "workflow.started." workflow_id

-- The event type of a completion, and that of a feedback.
abbrev pub persona_completed_type : String
persona_completed_type = "persona.completed"

abbrev pub feedback_generated_type : String
feedback_generated_type = "feedback.generated"

unfoldable pub events_of_graph : String → WorkflowDef → List String → List String → List String
events_of_graph name def [] events =
    add_events (get_or [] name def.retriggered_by) (add_event (start_event def.id) events)
events_of_graph name def (d ∷ ds) events =
    add_events (get_or [] name def.retriggered_by) (add_event persona_completed_type events)

-- for _, def := range w.workflows { … }
unfoldable pub events_of_graphs : String → Dict WorkflowDef → List String → List String
events_of_graphs name [] events = events
events_of_graphs name ((id, def) ∷ defs) events = elim (lookup name def.graph) [
  | none ↦ events_of_graphs name defs events
  | some deps ↦ events_of_graphs name defs (events_of_graph name def deps events)
]

unfoldable pub resolve_events_from_dag : Handler → HookRegistry → WorkflowResolver → List String
resolve_events_from_dag h hooks w =
    let events =
      if handler_in_any_graph h.name w
      then events_of_graphs h.name w.workflows []
      else handler_declared_events h in
    if has_hooks (hooks_for h.name hooks) then add_event persona_completed_type events else events

abbrev pub trigger_after_personas : Handler → List String
trigger_after_personas h = elim h.trigger [ some t ↦ t.after_personas | none ↦ [] ]

unfoldable pub legacy_after_personas : Handler → HookRegistry → List String
legacy_after_personas h hooks = trigger_after_personas h ++ hooks_for h.name hooks

unfoldable pub is_trigger_relevant : Handler → String → HookRegistry → Bool
is_trigger_relevant h completed_persona hooks =
    let after_personas = legacy_after_personas h hooks in
    if has_hooks after_personas then contains after_personas completed_persona else true

abbrev pub predecessors_of : Handler → Option WorkflowDef → Option (List String)
predecessors_of h none = none
predecessors_of h (some def) = lookup h.name def.graph

unfoldable pub is_dag_relevant : Handler → String → String → HookRegistry → WorkflowResolver → Bool
is_dag_relevant h completed_persona correlation_id hooks w =
    elim (predecessors_of h (def_of correlation_id w)) [
      | none ↦
          if handler_in_any_graph h.name w
          then false
          else is_trigger_relevant h completed_persona hooks
      | some deps ↦
          contains deps completed_persona || contains (hooks_for h.name hooks) completed_persona
    ]

unfoldable pub is_retriggerable :
    String → String → (String → Option Handler) → WorkflowResolver → Bool
is_retriggerable handler_name correlation_id handler_lookup w =
    elim (resolve_workflow_id correlation_id w) [
      | none ↦ elim (handler_lookup handler_name) [
        | none ↦ false
        | some h ↦ contains (handler_declared_events h) feedback_generated_type
      ]
      | some workflow_id ↦ elim (get_workflow_def workflow_id w) [
        | none ↦ false
        | some def ↦ contains (get_or [] handler_name def.retriggered_by) feedback_generated_type
      ]
    ]

-- A `nil` list of predecessors is the empty one: `base` stays nil where no workflow is known.
unfoldable pub base_after_personas : Handler → String → WorkflowResolver → List String
base_after_personas h correlation_id w = elim (resolve_workflow_id correlation_id w) [
  | none ↦ trigger_after_personas h
  | some workflow_id ↦ elim (predecessors_of h (get_workflow_def workflow_id w)) [
    | none ↦ []
    | some deps ↦ deps
  ]
]

unfoldable pub effective_after_personas :
    Handler → String → HookRegistry → WorkflowResolver → List String
effective_after_personas h correlation_id hooks w =
    base_after_personas h correlation_id w ++ hooks_for h.name hooks
