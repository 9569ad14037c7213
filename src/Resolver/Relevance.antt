-- ===== src/Resolver/Relevance.antt =====
-- internal/engine/workflow_resolver.go: isDAGRelevant and effectiveAfterPersonas.
use rick_driven_development.Prelude.{
  ◌≡◌, refl, String, true, false, List, [], ◌∷◌, Option, none, some, ◌==◌, eq_refl, arith, contains,
  contains-append, Bool-cases, Option-cases, inl, inr, if◌then◌else◌, ap, ◌∙◌,
}
use rick_driven_development.Prelude.Dict.{Dict, lookup}
use rick_driven_development.Workflow.Def.{WorkflowDef}
use rick_driven_development.Hooks.{HookRegistry, hooks_for, has_hooks}
use rick_driven_development.Resolver.{
  Handler, WorkflowResolver, def_of, resolve_workflow_id, get_workflow_def, is_dag_relevant,
  base_after_personas, effective_after_personas, add_event, add_events, events_of_graph,
  events_of_graphs, in_any_graph, handler_in_any_graph, resolve_events_from_dag,
  persona_completed_type,
}

add_event-contains : (et : String) (events : List String) → contains (add_event et events) et ≡ true
unfolding add_event contains
add_event-contains et events = ground (arith, contains-append events (et ∷ []) et, eq_refl et)

add_event-keeps :
    (x et : String) (events : List String)
    → contains events x ≡ true
    → contains (add_event et events) x ≡ true
unfolding add_event
add_event-keeps x et events h = ground (arith, h, contains-append events (et ∷ []) x)

add_events-keeps :
    (x : String) (ets events : List String)
    → contains events x ≡ true
    → contains (add_events ets events) x ≡ true
unfolding add_events
add_events-keeps x [] events h = h
add_events-keeps x (et ∷ ets) events h =
    add_events-keeps x ets (add_event et events) (add_event-keeps x et events h)

events_of_graph-keeps :
    (x name : String) (def : WorkflowDef) (deps events : List String)
    → contains events x ≡ true
    → contains (events_of_graph name def deps events) x ≡ true
unfolding events_of_graph
events_of_graph-keeps x name def [] events h = add_events-keeps x _ _ (add_event-keeps x _ events h)
events_of_graph-keeps x name def (d ∷ ds) events h =
    add_events-keeps x _ _ (add_event-keeps x _ events h)

events_of_graphs-keeps :
    (x name : String) (defs : Dict WorkflowDef) (events : List String)
    → contains events x ≡ true
    → contains (events_of_graphs name defs events) x ≡ true
unfolding events_of_graphs
events_of_graphs-keeps x name [] events h = h
events_of_graphs-keeps x name ((id, def) ∷ defs) events h =
    elim (Option-cases (lookup name def.graph)) [
      | inl outside ↦ rw (outside, events_of_graphs) (events_of_graphs-keeps x name defs events h)
      | inr (deps, found) ↦
          rw (found, events_of_graphs)
            (events_of_graphs-keeps x name defs (events_of_graph name def deps events)
              (events_of_graph-keeps x name def deps events h))
    ]

events_of_graph-completed :
    (name d : String) (def : WorkflowDef) (ds events : List String)
    → contains (events_of_graph name def (d ∷ ds) events) persona_completed_type ≡ true
unfolding events_of_graph
events_of_graph-completed name d def ds events =
    add_events-keeps persona_completed_type _ _ (add_event-contains persona_completed_type events)

abbrev graph_deps : String → Option WorkflowDef → Option (List String)
graph_deps name none = none
graph_deps name (some def) = lookup name def.graph

-- A registered workflow in which the handler is no root subscribes it to completions.
events_of_graphs-completed :
    (name workflow_id d : String) (ds : List String) (def : WorkflowDef) (defs : Dict WorkflowDef)
    (events : List String)
    → lookup workflow_id defs ≡ some def
    → lookup name def.graph ≡ some (d ∷ ds)
    → contains (events_of_graphs name defs events) persona_completed_type ≡ true
unfolding lookup events_of_graphs
events_of_graphs-completed name workflow_id d ds def [] events known found = ground (arith, known)
events_of_graphs-completed name workflow_id d ds def ((id, def') ∷ defs) events known found =
    elim (Bool-cases (id == workflow_id)) [
      | inl hit ↦
          let same : lookup name def'.graph ≡ some (d ∷ ds) =
            ap (λ o. graph_deps name o) (first_entry hit) ∙ found in
          rw (same, events_of_graphs)
            (events_of_graphs-keeps persona_completed_type name defs _
              (events_of_graph-completed name d def' ds events))
      | inr miss ↦ elim (Option-cases (lookup name def'.graph)) [
        | inl outside ↦
            rw (outside, events_of_graphs)
              (events_of_graphs-completed name workflow_id d ds def defs events (rest miss) found)
        | inr (deps, inside) ↦
            rw (inside, events_of_graphs)
              (events_of_graphs-completed name workflow_id d ds def defs _ (rest miss) found)
      ]
    ]
  where
    first_entry : id == workflow_id ≡ true → some def' ≡ some def
    first_entry hit = ground (arith, hit, known)

    rest : id == workflow_id ≡ false → lookup workflow_id defs ≡ some def
    rest miss = ground (arith, miss, known)

in_any_graph-known :
    (name workflow_id : String) (deps : List String) (def : WorkflowDef) (defs : Dict WorkflowDef)
    → lookup workflow_id defs ≡ some def
    → lookup name def.graph ≡ some deps
    → in_any_graph name defs ≡ true
unfolding in_any_graph lookup
in_any_graph-known name workflow_id deps def [] known found = ground (arith, known)
in_any_graph-known name workflow_id deps def ((id, def') ∷ defs) known found =
    elim (Bool-cases (id == workflow_id)) [
      | inl hit ↦ ground (arith, ap (λ o. graph_deps name o) (first_entry hit) ∙ found)
      | inr miss ↦
          ground (arith, in_any_graph-known name workflow_id deps def defs (rest miss) found)
    ]
  where
    first_entry : id == workflow_id ≡ true → some def' ≡ some def
    first_entry hit = ground (arith, hit, known)

    rest : id == workflow_id ≡ false → lookup workflow_id defs ≡ some def
    rest miss = ground (arith, miss, known)

hooked-has_hooks : (hs : List String) (x : String) → contains hs x ≡ true → has_hooks hs ≡ true
unfolding contains
hooked-has_hooks [] x h = h
hooked-has_hooks (y ∷ hs) x h = refl

module _ (h : Handler) (completed_persona correlation_id workflow_id : String)
    (hooks : HookRegistry) (w : WorkflowResolver) (def : WorkflowDef) (deps : List String)
    (cached : resolve_workflow_id correlation_id w ≡ some workflow_id)
    (registered : get_workflow_def workflow_id w ≡ some def)
    (inside : lookup h.name def.graph ≡ some deps) where
  -- A completion concerns a handler of the correlation's workflow exactly when the handler's join waits
  -- for the persona that has completed.
  pub is_dag_relevant-effective_after_personas :
      is_dag_relevant h completed_persona correlation_id hooks w
      ≡ contains (effective_after_personas h correlation_id hooks w) completed_persona
  unfolding is_dag_relevant effective_after_personas base_after_personas def_of
  is_dag_relevant-effective_after_personas = ground (
    arith,
    cached,
    registered,
    inside,
    contains-append deps (hooks_for h.name hooks) completed_persona,
  )

  -- A handler of the correlation's workflow is subscribed to completions if some completion concerns it.
  pub relevant-IsSubscribed :
      is_dag_relevant h completed_persona correlation_id hooks w ≡ true
      → contains (resolve_events_from_dag h hooks w) persona_completed_type ≡ true
  unfolding resolve_events_from_dag handler_in_any_graph get_workflow_def is_dag_relevant def_of
      contains
  relevant-IsSubscribed relevant =
      rw (in_any_graph-known h.name workflow_id deps def w.workflows registered inside)
        (by_deps deps refl)
    where
      from_graphs : List String
      from_graphs = events_of_graphs h.name w.workflows []

      by_deps :
          (ds : List String)
          → deps ≡ ds
          → contains
              (if has_hooks (hooks_for h.name hooks)
                then add_event persona_completed_type from_graphs
                else from_graphs)
              persona_completed_type
            ≡ true
      by_deps [] e = ground (
        arith,
        hooked-has_hooks (hooks_for h.name hooks) completed_persona,
        add_event-contains persona_completed_type from_graphs,
        e,
        cached,
        registered,
        inside,
        relevant,
      )
      by_deps (d ∷ ds) e = ground (
        arith,
        add_event-contains persona_completed_type from_graphs,
        events_of_graphs-completed h.name workflow_id d ds def w.workflows [] registered
            (inside ∙ ap some e),
      )
